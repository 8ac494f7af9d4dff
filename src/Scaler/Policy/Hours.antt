-- ===== src/Scaler/Policy/Hours.antt =====
-- pkg/scaler/policies.go: the annotation "HH:MM-HH:MM" printed and read back.
use vpsie_k8s_autoscaler.Prelude.{ℕ, ◌+◌, ◌/◌, ◌%◌, List, [], ◌∷◌, ◌++◌}

-- Two digits, and a time of day.
unfoldable pub show_two : ℕ → List ℕ
show_two n = (48 + n / 10) ∷ (48 + n % 10) ∷ []

unfoldable pub show_time : ℕ → List ℕ
unfolding show_two
show_time t = show_two (t / 60) ++ b':' ∷ show_two (t % 60)

unfoldable pub show_hours : ℕ → ℕ → List ℕ
unfolding show_time
show_hours start end = show_time start ++ b'-' ∷ show_time end
