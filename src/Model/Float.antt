-- ===== src/Model/Float.antt =====
-- What the gateway does with float64: the numbers and their operations are not modelled, and come
-- as a value of this record.
use pangreksa_aigateway.Prelude.{ℕ, Bool, Option}
use pangreksa_aigateway.Prelude.Texts.{Text}
use pangreksa_aigateway.Prelude.Int.{ℤ}

pub record Float64 : Type 1 where
  pub F : Type 0
  pub zero_f : F
  pub add : F → F → F
  pub mul : F → F → F
  pub div : F → F → F
  pub gt : F → F → Bool
  pub le : F → F → Bool
  pub of_int : ℤ → F
  pub decimal : ℕ → ℕ → F  -- the literal n / 10^k of the source
  pub parse_float : Text → Option F  -- strconv.ParseFloat(s, 64)
  pub show : F → Text  -- %.4f
