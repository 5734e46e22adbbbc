-- ===== src/Policy/Guardrail/Blocking.antt =====
-- guardrail.go: which rule blocks.
use pangreksa_aigateway.Prelude.{
  ◌≡◌, refl, Bool, true, false, ◌&&◌, ◌||◌, List, [], ◌∷◌, if◌then◌else◌, Option, none, some,
  Result, ok, err, ◌>>=◌, arith, ap, ◌∙◌,
}
use pangreksa_aigateway.Prelude.Texts.{Text, codes, text_eq, text_eq_sound}
use pangreksa_aigateway.Model.Format.{Format}
use pangreksa_aigateway.Model.Policy.{GuardrailConfig}
use pangreksa_aigateway.Model.Inquiry.{InquiryRequest}
use pangreksa_aigateway.Policy.Guardrail.{
  Engine, Checker, stub_check, blocked, enforce, run_rules, run_hook, check_input, check_output,
}

abbrev is_triggered : Option Bool → Bool
is_triggered (some true) = true
is_triggered _ = false

-- A rule of this hook that triggers, is enforced or degraded, and is in block mode.
abbrev pub blocks : Checker → Text → Text → GuardrailConfig → Bool
blocks checker hook content rule =
    text_eq rule.hook hook
    && is_triggered (checker rule content)
    && (text_eq rule.enforcement (codes "enforce") || text_eq rule.enforcement (codes "degrade"))
    && text_eq rule.mode (codes "block")

unfoldable pub find_first : (GuardrailConfig → Bool) → List GuardrailConfig → Option GuardrailConfig
find_first test [] = none
find_first test (rule ∷ rules) =
    let rest = find_first test rules in if test rule then some rule else rest

abbrev pub block_result : Format → Text → Option GuardrailConfig → Result (Unit {0})
block_result fmt hook none = ok tt
block_result fmt hook (some rule) = err (blocked fmt rule hook)

-- The words of the `switch` exclude one another.
audit_apart :
    (enforcement : Text)
    → text_eq enforcement (codes "audit") ≡ true
    → (text_eq enforcement (codes "enforce") ≡ false)
      × (text_eq enforcement (codes "degrade") ≡ false)
unfolding text_eq
audit_apart enforcement h = rw (text_eq_sound enforcement (codes "audit") h) (refl, refl)

run_rules-block_result :
    (fmt : Format) (checker : Checker) (hook content : Text) (rules : List GuardrailConfig)
    → run_rules fmt checker hook content rules
      ≡ block_result fmt hook (find_first (blocks checker hook content) rules)
unfolding run_rules find_first enforce
run_rules-block_result fmt checker hook content [] = refl
run_rules-block_result fmt checker hook content (rule ∷ rules) =
    ground
      (arith, run_rules-block_result fmt checker hook content rules, audit_apart rule.enforcement)

-- For any checker and a live context, a hook fails exactly if some rule of the hook triggers
-- without an error of its checker, with enforcement enforce or degrade and mode block; and its
-- error names the first such rule. Rules of other hooks, audited ones and failing checkers let the
-- content pass.
pub run_hook-block_result :
    (fmt : Format) (checker : Checker) (e : Engine) (hook content : Text)
    → run_hook fmt checker none e hook content
      ≡ block_result fmt hook (find_first (blocks checker hook content) e.rules)
unfolding run_hook
run_hook-block_result fmt checker e hook content =
    run_rules-block_result fmt checker hook content e.rules

find_first-stub :
    (hook content : Text) (rules : List GuardrailConfig)
    → find_first (blocks stub_check hook content) rules ≡ none
unfolding find_first stub_check
find_first-stub hook content [] = refl
find_first-stub hook content (rule ∷ rules) = ground (arith, find_first-stub hook content rules)

-- With the stub checker, the only one there is, no configuration of rules blocks an input or an
-- output while the context is live.
pub stub_passes :
    {F : Type 0} (fmt : Format) (e : Engine) (req : InquiryRequest F) (content : Text)
    → (check_input fmt none e req ≡ ok tt) × (check_output fmt none e content ≡ ok content)
unfolding check_input check_output
stub_passes fmt e req content = (
  run_hook-block_result fmt stub_check e _ _
      ∙ ap (block_result fmt _) (find_first-stub _ _ e.rules),
  ap (λ r. r >>= λ _. ok content)
      (run_hook-block_result fmt stub_check e _ _
        ∙ ap (block_result fmt _) (find_first-stub _ _ e.rules)),
)
