-- ===== src/Prelude/Floats.antt =====
-- What the program uses of `float64`, as an interface: Go's arithmetic is a parameter of the model.
use Prim.Native.Nat.{ℕ, ◌+◌, ◌*◌, ◌/◌}
use mathlib.Core.Bool.{Bool}
use vpsie_k8s_autoscaler.Prelude.Tests.{ltb, leb}
use vpsie_k8s_autoscaler.Prelude.Int.{ℤ, pos, pos_part}

pub record Floats : Type 1 where
  pub Float : Type 0
  -- `float64(n)`, the constant n / d, and `int64(x)`.
  pub of_int : ℤ → Float
  pub literal : ℕ → ℕ → Float
  pub to_int : Float → ℤ
  pub add : Float → Float → Float
  pub mul : Float → Float → Float
  pub div : Float → Float → Float
  pub lt : Float → Float → Bool
  pub le : Float → Float → Bool

-- Fractions of natural numbers, to run the model at concrete inputs.
pub record Ratio : Type 0 where
  pub num : ℕ
  pub den : ℕ

abbrev pub ratios : Floats
ratios = record {
  Float = Ratio;
  of_int = λ n. record { num = pos_part n; den = 1 };
  literal = λ n d. record { num = n; den = d };
  to_int = λ r. pos (r.num / r.den);
  add = λ r s. record { num = r.num * s.den + s.num * r.den; den = r.den * s.den };
  mul = λ r s. record { num = r.num * s.num; den = r.den * s.den };
  div = λ r s. record { num = r.num * s.den; den = r.den * s.num };
  lt = λ r s. ltb (r.num * s.den) (s.num * r.den);
  le = λ r s. leb (r.num * s.den) (s.num * r.den);
}
