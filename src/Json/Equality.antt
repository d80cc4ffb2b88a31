-- ===== src/Json/Equality.antt =====
-- Equality of documents is decidable.
use mathlib.Core.Logic.{inl, inr}
use native.Mathlib.Decide.{ℕ_discrete}
use liminal_osai.Prelude.{ℤ, String, ◌==◌, eq_iff, Bool-cases, arith}
use liminal_osai.Json.{Value}

pub String-discrete : Discrete String
String-discrete s t = elim (Bool-cases (s == t)) [
  | inl same ↦ yes ((eq_iff s t).0 same)
  | inr other ↦ no (λ e. ground (arith, eq_iff s t))
]

pub ℤ-discrete : Discrete ℤ
ℤ-discrete = hlevel ℕ_discrete

pub Value-discrete : Discrete Value
Value-discrete = hlevel (String-discrete, ℤ-discrete)
