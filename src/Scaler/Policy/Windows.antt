-- ===== src/Scaler/Policy/Windows.antt =====
-- pkg/scaler/policies.go: windows of hours and of minutes, those over midnight included.
use vpsie_k8s_autoscaler.Prelude.{ℕ, ◌+◌, ◌-◌, ◌%◌, ◌<◌, ◌≡◌, ◌↔◌, true, arith}
use vpsie_k8s_autoscaler.Scaler.Policy.{is_hour_in_window}

-- Around the clock of `day` units, how far a time lies after the start of a window.
abbrev pub since : ℕ → ℕ → ℕ → ℕ
since day start time = (time + day - start) % day

-- An hour is in a window exactly if it comes sooner after the window's start, going around the clock,
-- than the window's end does; so a window with equal ends has no hour.
pub is_hour_in_window_iff :
    (hour start end : ℕ)
    → hour < 24
    → start < 24
    → end < 24
    → (is_hour_in_window hour start end ≡ true) ↔ (since 24 start hour < since 24 start end)
unfolding is_hour_in_window
is_hour_in_window_iff hour start end h s e = ground arith
