-- ===== src/Scaler/Policy/Modes.antt =====
-- pkg/scaler/policies.go: what a mode means, and the presets.
use vpsie_k8s_autoscaler.Prelude.{
  ℕ, ◌*◌, ◌≡◌, refl, Bool, true, false, List, [], ◌∷◌, ◌++◌, All, arith,
}
use vpsie_k8s_autoscaler.Prelude.Floats.{Floats}
use vpsie_k8s_autoscaler.Scaler.Policy.{
  PolicyMode, aggressive, balanced, conservative, disabled, TimeWindow, Clock, PolicyEngine,
  new_policy_engine, mode_in, get_current_mode,
}

unfoldable pub set_default_mode : PolicyMode → PolicyEngine → PolicyEngine
set_default_mode mode p = record p { default_mode = mode }

unfoldable pub add_time_window : TimeWindow → PolicyEngine → PolicyEngine
add_time_window w p = record p { time_windows = p.time_windows ++ w ∷ [] }

abbrev pub business_hours_window : TimeWindow
business_hours_window = record {
  start_hour = 9;
  end_hour = 17;
  days = 1 ∷ 2 ∷ 3 ∷ 4 ∷ 5 ∷ [];
  mode = conservative;
}

abbrev pub off_hours_window : TimeWindow
off_hours_window = record {
  start_hour = 18;
  end_hour = 8;
  days = 1 ∷ 2 ∷ 3 ∷ 4 ∷ 5 ∷ 6 ∷ 0 ∷ [];
  mode = aggressive;
}

abbrev pub weekend_window : TimeWindow
weekend_window = record { start_hour = 0; end_hour = 24; days = 6 ∷ 0 ∷ []; mode = aggressive }

pub data PolicyPreset : Type 0 where
  production development cost_saving other_preset : PolicyPreset

unfoldable pub apply_preset : PolicyPreset → PolicyEngine → PolicyEngine
unfolding set_default_mode add_time_window
apply_preset production p = add_time_window business_hours_window (set_default_mode conservative p)
apply_preset development p = set_default_mode balanced p
apply_preset cost_saving p =
    add_time_window weekend_window
      (add_time_window off_hours_window (set_default_mode aggressive p))
apply_preset other_preset p = p

-- `ShouldDelayScaleDown`.
unfoldable pub should_delay_scale_down : PolicyEngine → Clock → Bool
should_delay_scale_down p now = elim (get_current_mode p now) [
  | aggressive ↦ false
  | balanced ↦ false
  | conservative ↦ true
  | disabled ↦ false
]

module _ (F : Floats) where
  open F use {Float, literal}

  pub record ScaleDownConfig : Type 0 where
    pub cpu_threshold : Float
    pub memory_threshold : Float
    pub observation_window : ℕ
    pub cooldown_period : ℕ
    pub max_nodes_per_scale_down : ℕ

  unfoldable pub get_thresholds : ScaleDownConfig → PolicyEngine → Clock → Float × Float × ℕ
  get_thresholds c p now = elim (get_current_mode p now) [
    | aggressive ↦ (literal 60 1, literal 60 1, 300000000000)
    | balanced ↦ (c.cpu_threshold, c.memory_threshold, c.observation_window)
    | conservative ↦ (literal 40 1, literal 40 1, 1200000000000)
    | disabled ↦ (literal 100 1, literal 100 1, 86400000000000)
  ]

  unfoldable pub get_max_concurrent_scale_downs : ScaleDownConfig → PolicyEngine → Clock → ℕ
  get_max_concurrent_scale_downs c p now = elim (get_current_mode p now) [
    | aggressive ↦ c.max_nodes_per_scale_down * 2
    | balanced ↦ c.max_nodes_per_scale_down
    | conservative ↦ 1
    | disabled ↦ c.max_nodes_per_scale_down
  ]

abbrev pub preset_mode : PolicyPreset → PolicyMode
preset_mode production = conservative
preset_mode development = balanced
preset_mode cost_saving = aggressive
preset_mode other_preset = balanced

mode_in-same :
    (ws : List TimeWindow) (mode : PolicyMode) (now : Clock)
    → All (λ w. w.mode ≡ mode) ws
    → mode_in ws mode now ≡ mode
unfolding mode_in
mode_in-same [] mode now h = refl
mode_in-same (w ∷ ws) mode now h = ground (arith, mode_in-same ws mode now h.1)

-- The windows of a preset are idle: a new engine with one preset applied is in the preset's default
-- mode at every hour of every day.
pub apply_preset-mode :
    (preset : PolicyPreset) (now : Clock)
    → get_current_mode (apply_preset preset new_policy_engine) now ≡ preset_mode preset
unfolding get_current_mode apply_preset new_policy_engine
apply_preset-mode production now =
    mode_in-same (business_hours_window ∷ []) conservative now (refl, tt)
apply_preset-mode development now = mode_in-same [] balanced now tt
apply_preset-mode cost_saving now =
    mode_in-same (off_hours_window ∷ weekend_window ∷ []) aggressive now (refl, (refl, tt))
apply_preset-mode other_preset now = mode_in-same [] balanced now tt
