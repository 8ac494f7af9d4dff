-- ===== src/Scaler/Policy.antt =====
-- pkg/scaler/policies.go: the modes, the time windows and the node annotations of the policy engine.
pub mod Modes
pub mod Windows
pub mod Hours
use vpsie_k8s_autoscaler.Prelude.{
  ℕ, zero, suc, ◌+◌, ◌-◌, ◌*◌, ◌≡◌, String, ◌=ₛ◌, codes, Bool, true, false, not, ◌&&◌, ◌||◌, Option,
  none, some, List, [], ◌∷◌, ◌++◌, any, leb, ltb, ◌==◌, if◌then◌else◌,
}
use vpsie_k8s_autoscaler.Cluster.{StringMap, get, Node}

pub data PolicyMode : Type 0 where
  aggressive balanced conservative disabled : PolicyMode

-- A day is its number in `time.Weekday`, Sunday 0.
pub record TimeWindow : Type 0 where
  pub start_hour : ℕ
  pub end_hour : ℕ
  pub days : List ℕ
  pub mode : PolicyMode

-- What `time.Now()` is asked.
pub record Clock : Type 0 where
  pub hour : ℕ
  pub minute : ℕ
  pub weekday : ℕ

pub record PolicyEngine : Type 0 where
  pub time_windows : List TimeWindow
  pub default_mode : PolicyMode

unfoldable pub new_policy_engine : PolicyEngine
new_policy_engine = record { time_windows = []; default_mode = balanced }

unfoldable pub is_hour_in_window : ℕ → ℕ → ℕ → Bool
is_hour_in_window hour start end =
    if leb start end then leb start hour && ltb hour end else leb start hour || ltb hour end

unfoldable pub mode_in : List TimeWindow → PolicyMode → Clock → PolicyMode
mode_in [] otherwise now = otherwise
mode_in (w ∷ ws) otherwise now =
    if any (λ day. day == now.weekday) w.days && is_hour_in_window now.hour w.start_hour w.end_hour
    then w.mode
    else mode_in ws otherwise now

unfoldable pub get_current_mode : PolicyEngine → Clock → PolicyMode
unfolding mode_in
get_current_mode p now = mode_in p.time_windows p.default_mode now

abbrev pub is_disabled : PolicyMode → Bool
is_disabled disabled = true
is_disabled _ = false

unfoldable pub is_within_allowed_time : PolicyEngine → Clock → Bool
is_within_allowed_time p now = not (is_disabled (get_current_mode p now))

-- `strings.Split(s, sep)` for a separator of one byte: at least one part.
unfoldable pub split : ℕ → List ℕ → List ℕ × List (List ℕ)
split sep [] = ([], [])
split sep (c ∷ s) =
    let (first, others) = split sep s in
    if c == sep then ([], first ∷ others) else (c ∷ first, others)

-- The two parts, if there are two.
unfoldable pub cut : ℕ → List ℕ → Option (List ℕ × List ℕ)
unfolding split
cut sep s =
    let (first, others) = split sep s in
    elim others [
      | [] ↦ none
      | second ∷ more ↦ elim more [ [] ↦ some (first, second) | _ ∷ _ ↦ none ]
    ]

-- White space of ASCII.
abbrev pub is_space : ℕ → Bool
is_space c = c == 32 || (leb 9 c && leb c 13)

trim_left : List ℕ → List ℕ
trim_left [] = []
trim_left (c ∷ s) = let rest = trim_left s in if is_space c then rest else c ∷ s

trim_right : List ℕ → List ℕ
trim_right [] = []
trim_right (c ∷ s) =
    let rest = trim_right s in
    elim rest [ [] ↦ if is_space c then [] else c ∷ [] | d ∷ ds ↦ c ∷ d ∷ ds ]

-- `strings.TrimSpace` on ASCII.
unfoldable pub trim_space : List ℕ → List ℕ
unfolding trim_left trim_right
trim_space s = trim_left (trim_right s)

abbrev pub is_digit : ℕ → Bool
is_digit c = leb 48 c && leb c 57

-- The value of digits after those read into `n`.
unfoldable pub digits_from : ℕ → List ℕ → Option ℕ
digits_from n [] = some n
digits_from n (c ∷ s) =
    let rest = digits_from (n * 10 + (c - 48)) s in if is_digit c then rest else none

-- `strconv.Atoi`, whose negative and overlong numbers the caller refuses as it refuses an error.
-- "-0" cannot occur, as the text was split at its dashes.
unfoldable pub atoi : List ℕ → Option ℕ
unfolding digits_from
atoi [] = none
atoi (c ∷ s) =
    if c == 43
    then elim s [ [] ↦ none | d ∷ ds ↦ digits_from 0 (d ∷ ds) ]
    else digits_from 0 (c ∷ s)

-- Hours and minutes of "HH:MM", in minutes since midnight, if they are in range.
unfoldable pub parse_time : List ℕ → Option ℕ
unfolding cut trim_space atoi
parse_time s = elim (cut 58 (trim_space s)) [
  | none ↦ none
  | some parts ↦ elim (atoi (parts.0)) [
    | none ↦ none
    | some h ↦ elim (atoi (parts.1)) [
      | none ↦ none
      | some m ↦ if leb h 23 && leb m 59 then some (h * 60 + m) else none
    ]
  ]
]

-- Both ends of "HH:MM-HH:MM"; `none` is every form that the code warns about.
unfoldable pub parse_hours : List ℕ → Option (ℕ × ℕ)
unfolding cut
parse_hours s = elim (cut 45 s) [
  | none ↦ none
  | some parts ↦ elim (parse_time (parts.0)) [
    | none ↦ none
    | some start ↦ elim (parse_time (parts.1)) [ none ↦ none | some end ↦ some (start, end) ]
  ]
]

unfoldable pub is_minute_in_window : ℕ → ℕ → ℕ → Bool
is_minute_in_window current start end =
    if ltb end start
    then leb start current || ltb current end
    else leb start current && ltb current end

unfoldable pub is_within_annotated_hours : Clock → List ℕ → Bool
is_within_annotated_hours now s = elim (parse_hours s) [
  | none ↦ true
  | some hours ↦ is_minute_in_window (now.hour * 60 + now.minute) (hours.0) (hours.1)
]

unfoldable pub is_node_allowed_for_scale_down : Clock → Node → Bool
is_node_allowed_for_scale_down now n = elim (get "autoscaler.vpsie.com/scale-down" n.annotations) [
  | none ↦ elim (get "autoscaler.vpsie.com/scale-down-allowed-hours" n.annotations) [
    | none ↦ true
    | some hours ↦ is_within_annotated_hours now (codes hours)
  ]
  | some v ↦
      if v =ₛ "disabled"
      then false
      else elim (get "autoscaler.vpsie.com/scale-down-allowed-hours" n.annotations) [
        | none ↦ true
        | some hours ↦ is_within_annotated_hours now (codes hours)
      ]
]

-- `enabled` is the node group's own switch.
unfoldable pub allow_scale_down : PolicyEngine → Clock → Bool → Node → Bool
unfolding is_within_allowed_time
allow_scale_down p now enabled n =
    if is_disabled (get_current_mode p now)
    then false
    else if not enabled
    then false
    else if not (is_within_allowed_time p now)
    then false
    else is_node_allowed_for_scale_down now n
