-- ===== src/Rebalancer/Planner/Validity.antt =====
-- The plan that is created, against the checks of a plan and of the order of its batches.
use mathlib.Core.Option
use vpsie_k8s_autoscaler.Prelude.Floats.{Floats}
