-- ===== src/Model/Format.antt =====
-- The verbs of package fmt that put a caller's value into an error message.
use pangreksa_aigateway.Prelude.Texts.{Text}
use pangreksa_aigateway.Prelude.Int.{ℤ}

pub record Format : Type 0 where
  pub quote : Text → Text  -- %q
  pub show_int : ℤ → Text  -- %d
