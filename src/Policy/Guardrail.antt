-- ===== src/Policy/Guardrail.antt =====
-- internal/policy/guardrail/guardrail.go. A checker returns whether it triggered, or `none` for
-- its error; the code's only checker is the stub. A context is the message of its `Err()`, if it is
-- done.
pub mod Blocking
use pangreksa_aigateway.Prelude.{
  ℕ, Bool, true, false, not, ◌||◌, List, [], ◌∷◌, ◌++◌, if◌then◌else◌, Option, none, some, Result,
  ok, err, ◌>>=◌,
}
use pangreksa_aigateway.Prelude.Texts.{Text, codes, text_eq}
use pangreksa_aigateway.Model.Format.{Format}
use pangreksa_aigateway.Model.Policy.{GuardrailConfig}
use pangreksa_aigateway.Model.Inquiry.{Message, InquiryRequest}

pub record Engine : Type 0 where
  pub rules : List GuardrailConfig

abbrev pub new_engine : Engine
new_engine = record { rules = [] }

unfoldable pub update : Engine → List GuardrailConfig → Engine
update e rules = record { rules = rules }

abbrev pub Checker : Type 0
Checker = GuardrailConfig → Text → Option Bool

unfoldable pub stub_check : Checker
stub_check _ _ = some false

-- `fmt.Errorf("%w: rule_id=%q hook=%q", ErrBlocked, rule.ID, hookName)`
unfoldable pub blocked : Format → GuardrailConfig → Text → Text
blocked fmt rule hook =
    codes "request blocked by guardrail"
    ++ (codes ": rule_id=" ++ (fmt.quote rule.id ++ (codes " hook=" ++ fmt.quote hook)))

-- The `switch` on the enforcement of a triggered rule; `next` is what the loop does after it.
unfoldable pub enforce : Format → GuardrailConfig → Text → Result (Unit {0}) → Result (Unit {0})
enforce fmt rule hook next =
    if text_eq rule.enforcement (codes "audit")
    then next
    else if text_eq rule.enforcement (codes "degrade") || text_eq rule.enforcement (codes "enforce")
    then (if text_eq rule.mode (codes "block") then err (blocked fmt rule hook) else next)
    else next

-- The loop of `runHook`.
unfoldable pub run_rules : Format → Checker → Text → Text → List GuardrailConfig → Result (Unit {0})
run_rules fmt checker hook content [] = ok tt
run_rules fmt checker hook content (rule ∷ rules) =
    let next = run_rules fmt checker hook content rules in
    if not (text_eq rule.hook hook) then next else elim (checker rule content) [
      | none ↦ next
      | some triggered ↦ if not triggered then next else enforce fmt rule hook next
    ]

unfoldable pub run_hook : Format → Checker → Option Text → Engine → Text → Text → Result (Unit {0})
run_hook fmt checker (some done) e hook content = err (codes "guardrail.runHook: " ++ done)
run_hook fmt checker none e hook content = run_rules fmt checker hook content e.rules

unfoldable pub content_from_messages : List Message → Text
content_from_messages [] = []
content_from_messages (m ∷ ms) = m.content ++ (b'\n' ∷ content_from_messages ms)

unfoldable pub check_input :
    {F : Type 0} → Format → Option Text → Engine → InquiryRequest F → Result (Unit {0})
check_input fmt ctx e req =
    run_hook fmt stub_check ctx e (codes "llm_input") (content_from_messages req.messages)

unfoldable pub check_output : Format → Option Text → Engine → Text → Result Text
check_output fmt ctx e content =
    run_hook fmt stub_check ctx e (codes "llm_output") content >>= λ _. ok content

unfoldable pub check_mcp_pre : Format → Option Text → Engine → Text → Text → Result (Unit {0})
check_mcp_pre fmt ctx e tool args =
    run_hook fmt stub_check ctx e (codes "mcp_pre")
      (codes "tool=" ++ (tool ++ (codes " args=" ++ args)))

unfoldable pub check_mcp_post : Format → Option Text → Engine → Text → Result Text
check_mcp_post fmt ctx e result =
    run_hook fmt stub_check ctx e (codes "mcp_post") result >>= λ _. ok result
