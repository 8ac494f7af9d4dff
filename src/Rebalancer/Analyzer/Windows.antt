-- ===== src/Rebalancer/Analyzer/Windows.antt =====
-- Maintenance windows whose days are written the way the type documents them.
use vpsie_k8s_autoscaler.Prelude.{
  ◌≡◌, inl, inr, refl, String, ◌=ₛ◌, Bool, true, false, not, List, [], ◌∷◌, ◌++◌, All, Some, any,
  all, if◌then◌else◌, arith,
}
use vpsie_k8s_autoscaler.Prelude.Floats.{Floats}
use vpsie_k8s_autoscaler.Rebalancer.Analyzer.Capacity.{CheckStatus, failed_check}
use vpsie_k8s_autoscaler.Rebalancer.Analyzer.{
  MaintenanceWindow, AnalyzerConfig, GroupState, OfferedNode, is_in_maintenance_window,
  check_timing, reject, identify_candidates, check_pod_disruption_budgets, Opportunity, Situation,
  perform_safety_checks, analyze_nodes,
}
use vpsie_k8s_autoscaler.Rebalancer.Analyzer.Decisions.{determine_recommended_action_iff}

-- The days of the comment on `MaintenanceWindow`, and those that it leaves to "etc.".
abbrev pub documented_days : List String
documented_days =
    "monday" ∷ "tuesday" ∷ "wednesday" ∷ "thursday" ∷ "friday" ∷ "saturday" ∷ "sunday" ∷ []

-- What `time.Weekday` prints.
abbrev pub printed_days : List String
printed_days =
    "Monday" ∷ "Tuesday" ∷ "Wednesday" ∷ "Thursday" ∷ "Friday" ∷ "Saturday" ∷ "Sunday" ∷ []

abbrev pub IsDocumented : MaintenanceWindow → Type 0
IsDocumented w = All (λ day. Some (λ d. day ≡ d) documented_days) w.days

all-Some :
    (f : String → Bool) (s : String) (ss : List String)
    → all f ss ≡ true
    → Some (λ t. s ≡ t) ss
    → f s ≡ true
all-Some f s [] h member = absurd member
all-Some f s (t ∷ ts) h (inl e) = rw e (ground arith)
all-Some f s (t ∷ ts) h (inr later) = all-Some f s ts (ground arith) later

documented_day_differs :
    (day weekday : String)
    → Some (λ d. day ≡ d) documented_days
    → Some (λ d. weekday ≡ d) printed_days
    → (day =ₛ weekday) ≡ false
documented_day_differs day weekday documented printed =
    let row : all (λ w. not (day =ₛ w)) printed_days ≡ true =
      all-Some (λ d. all (λ w. not (d =ₛ w)) printed_days) day documented_days refl documented in
    let differs = all-Some (λ w. not (day =ₛ w)) weekday printed_days row printed in ground arith

no_documented_day :
    (days : List String) (weekday : String)
    → All (λ day. Some (λ d. day ≡ d) documented_days) days
    → Some (λ d. weekday ≡ d) printed_days
    → any (λ day. day =ₛ weekday) days ≡ false
no_documented_day [] weekday documented printed = refl
no_documented_day (day ∷ days) weekday documented printed =
    rw (documented_day_differs day weekday documented.0 printed)
      (no_documented_day days weekday documented.1 printed)

no_window_open :
    (ws : List MaintenanceWindow) (weekday : String)
    → All IsDocumented ws
    → Some (λ d. weekday ≡ d) printed_days
    → any (is_in_maintenance_window weekday) ws ≡ false
unfolding is_in_maintenance_window
no_window_open [] weekday documented printed = refl
no_window_open (w ∷ ws) weekday documented printed =
    rw (no_documented_day w.days weekday documented.0 printed)
      (no_window_open ws weekday documented.1 printed)

Some-append_right :
    (P : CheckStatus → Type 0) (xs ys : List CheckStatus) → Some P ys → Some P (xs ++ ys)
Some-append_right P [] ys h = h
Some-append_right P (x ∷ xs) ys h = inr (Some-append_right P xs ys h)

check_timing_fails :
    (c : AnalyzerConfig) (weekday : String) (w : MaintenanceWindow) (ws : List MaintenanceWindow)
    → c.maintenance_windows ≡ w ∷ ws
    → All IsDocumented (w ∷ ws)
    → Some (λ d. weekday ≡ d) printed_days
    → check_timing c weekday ≡ failed_check
unfolding check_timing
check_timing_fails c weekday w ws e documented printed =
    rw (e, no_window_open (w ∷ ws) weekday documented printed) refl

-- With maintenance windows whose days are all written in lower case, as the type documents them, every
-- analysis of a group for an opportunity is rejected, on each of the seven days.
pub documented_windows_reject :
    (F : Floats) (c : AnalyzerConfig) (s : Situation F) (g : GroupState) (o : Opportunity F)
    (ns : List OfferedNode) (w : MaintenanceWindow) (ws : List MaintenanceWindow)
    → c.maintenance_windows ≡ w ∷ ws
    → All IsDocumented (w ∷ ws)
    → Some (λ d. s.weekday ≡ d) printed_days
    → (analyze_nodes F c s g o ns).recommended_action ≡ reject
unfolding analyze_nodes perform_safety_checks
documented_windows_reject F c s g o ns w ws e documented printed =
    let candidates = identify_candidates c o.current_offering o.recommended_offering ns in
    let pdbs = if c.respect_pdbs then check_pod_disruption_budgets s.pdbs candidates ∷ [] else [] in
    let timing = check_timing_fails c s.weekday w ws e documented printed in
    (determine_recommended_action_iff (perform_safety_checks F c s g candidates) o.high_risk).1.1
      (inr (inr (Some-append_right _ pdbs _ (inr (inl timing)))))
