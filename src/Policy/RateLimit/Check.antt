-- ===== src/Policy/RateLimit/Check.antt =====
-- ratelimit.go: `Check`, over the script and over what can happen to a call of Redis.
use native.Mathlib.Nat.{add-zero, add-suc, suc-add, zero-add}
use mathlib.Core.List.{append-nil}
use pangreksa_aigateway.Prelude.{
  ℕ, suc, ◌≡◌, refl, Bool, true, List, [], ◌∷◌, ◌++◌, if◌then◌else◌, ◌==◌, length, ◌+◌, ◌≢◌, ◌∙◌,
  sym, ap, Option, none, some, Result, ok, err,
}
use pangreksa_aigateway.Prelude.Texts.{Text, codes, text_eq}
use pangreksa_aigateway.Model.Format.{Format}
use pangreksa_aigateway.Model.Inquiry.{InquiryRequest}
use pangreksa_aigateway.Model.Entitlement.{UserEntitlement}
use pangreksa_aigateway.Policy.RateLimit.Counters.{Counters}
use pangreksa_aigateway.Policy.RateLimit.Script.{sliding_window}
use pangreksa_aigateway.Policy.RateLimit.Rules.{ParsedRule, Engine}

-- What becomes of one call of Redis: the script does not run, or it runs and its reply is lost.
pub data Delivery : Type 0 where
  answered never_ran reply_lost : Delivery

unfoldable pub rule_matches :
    {F : Type 0} → ParsedRule → InquiryRequest F → UserEntitlement F → Bool
rule_matches _ _ _ = true

unfoldable pub rate_limit_key_prefix :
    {F : Type 0} → ParsedRule → InquiryRequest F → UserEntitlement F → Text
rate_limit_key_prefix rule req ent =
    let entity = if text_eq rule.entity_type (codes "org") then req.org_id else ent.user_id in
    codes "ratelimit:" ++ (rule.raw.id ++ (codes ":" ++ entity))

-- `fmt.Errorf("%w: rule_id=%q limit_rpm=%d", ErrRateLimitExceeded, ...)`
unfoldable pub exceeded : Format → ParsedRule → Text
exceeded fmt rule =
    codes "rate limit exceeded"
    ++ (codes ": rule_id="
        ++ (fmt.quote rule.raw.id ++ (codes " limit_rpm=" ++ fmt.show_int rule.limit_rpm)))

-- The rules from the i-th on whose scripts all fail.
abbrev pub AllFail : (ℕ → Delivery) → ℕ → List ParsedRule → Type 0
AllFail deliver i [] = Unit {0}
AllFail deliver i (rule ∷ rules) = (deliver i ≢ answered) × AllFail deliver (suc i) rules

module _ {F : Type 0} (r : Counters) where
  open r use {Store}

  -- `RunScript` for one rule: its reply, unless there is an error, and the store.
  unfoldable pub run_script :
      ℕ → Delivery → ParsedRule → InquiryRequest F → UserEntitlement F → Store → Option ℕ × Store
  run_script now answered rule req ent s =
      let (reply, s') =
        sliding_window r now (rate_limit_key_prefix rule req ent) rule.limit_rpm s in
      (some reply, s')
  run_script now never_ran rule req ent s = (none, s)
  run_script now reply_lost rule req ent s =
      (none, (sliding_window r now (rate_limit_key_prefix rule req ent) rule.limit_rpm s).1)

  -- The store that failing calls for these rules leave.
  unfoldable pub after_failures :
      ℕ
      → (ℕ → Delivery)
      → ℕ
      → List ParsedRule
      → InquiryRequest F
      → UserEntitlement F
      → Store
      → Store
  after_failures now deliver i [] req ent s = s
  after_failures now deliver i (rule ∷ rules) req ent s =
      after_failures now deliver (suc i) rules req ent (run_script now (deliver i) rule req ent s).1

  run_script_failed :
      (now : ℕ) (d : Delivery) (rule : ParsedRule) (req : InquiryRequest F)
      (ent : UserEntitlement F) (s : Store)
      → d ≢ answered
      → (run_script now d rule req ent s).0 ≡ none
  unfolding run_script
  run_script_failed now answered rule req ent s h = absurd (h refl)
  run_script_failed now never_ran rule req ent s h = refl
  run_script_failed now reply_lost rule req ent s h = refl

  run_script_answered :
      (now : ℕ) (d : Delivery) (rule : ParsedRule) (req : InquiryRequest F)
      (ent : UserEntitlement F) (s : Store)
      → d ≡ answered
      → run_script now d rule req ent s ≡ (
          let (reply, s') =
            sliding_window r now (rate_limit_key_prefix rule req ent) rule.limit_rpm s in
          (some reply, s'))
  unfolding run_script
  run_script_answered now answered rule req ent s h = refl
  run_script_answered now never_ran rule req ent s h = cc
  run_script_answered now reply_lost rule req ent s h = cc

module _ {F : Type 0} (r : Counters) (fmt : Format) where
  open r use {Store}

  -- The loop of `Check`, the i-th rule first; `deliver i` is what becomes of its script.
  unfoldable pub check_rules :
      ℕ
      → (ℕ → Delivery)
      → ℕ
      → List ParsedRule
      → InquiryRequest F
      → UserEntitlement F
      → Store
      → Result (Unit {0}) × Store
  check_rules now deliver i [] req ent s = (ok tt, s)
  check_rules now deliver i (rule ∷ rules) req ent s =
      let skipped = check_rules now deliver (suc i) rules req ent s in
      let (reply, s') = run_script r now (deliver i) rule req ent s in
      let failed = check_rules now deliver (suc i) rules req ent s' in
      if rule_matches rule req ent
      then elim reply [
        | none ↦ failed
        | some allowed ↦ (if allowed == 0 then err (exceeded fmt rule) else ok tt, s')
      ]
      else skipped

  unfoldable pub check :
      ℕ
      → (ℕ → Delivery)
      → Engine
      → InquiryRequest F
      → UserEntitlement F
      → Store
      → Result (Unit {0}) × Store
  check now deliver e req ent s = check_rules now deliver 0 e.rules req ent s

  check_rules_failed :
      (now : ℕ) (deliver : ℕ → Delivery) (i : ℕ) (before after : List ParsedRule)
      (req : InquiryRequest F) (ent : UserEntitlement F) (s : Store)
      → AllFail deliver i before
      → check_rules now deliver i (before ++ after) req ent s
        ≡ check_rules now deliver
            (i + length before)
            after
            req
            ent
            (after_failures r now deliver i before req ent s)
  unfolding check_rules after_failures rule_matches
  check_rules_failed now deliver i [] after req ent s h = rw add-zero
  check_rules_failed now deliver i (rule ∷ before) after req ent s h =
      rw (run_script_failed r now (deliver i) rule req ent s h.0, add-suc, ← suc-add)
        (check_rules_failed now deliver (suc i) before after req ent _ h.1)

  check_rules_answered :
      (now : ℕ) (deliver : ℕ → Delivery) (i : ℕ) (rule : ParsedRule) (after : List ParsedRule)
      (req : InquiryRequest F) (ent : UserEntitlement F) (s : Store)
      → deliver i ≡ answered
      → check_rules now deliver i (rule ∷ after) req ent s ≡ (
          let (reply, s') =
            sliding_window r now (rate_limit_key_prefix rule req ent) rule.limit_rpm s in
          (if reply == 0 then err (exceeded fmt rule) else ok tt, s'))
  unfolding check_rules rule_matches
  check_rules_answered now deliver i rule after req ent s answer =
      let ran = run_script_answered r now (deliver i) rule req ent s answer in rw (ran, ran)

  -- The first rule whose script Redis answers decides the check: its error if the reply is 0, and
  -- no error else, on the store that this one script leaves. Rules before it, whose calls fail, do
  -- not refuse the request, and rules after it are neither asked nor counted.
  pub check_controls :
      (now : ℕ) (deliver : ℕ → Delivery) (e : Engine) (before after : List ParsedRule)
      (rule : ParsedRule) (req : InquiryRequest F) (ent : UserEntitlement F) (s : Store)
      → e.rules ≡ before ++ (rule ∷ after)
      → AllFail deliver 0 before
      → deliver (length before) ≡ answered
      → check now deliver e req ent s ≡ (
          let (reply, s') =
            sliding_window r now
              (rate_limit_key_prefix rule req ent)
              rule.limit_rpm
              (after_failures r now deliver 0 before req ent s) in
          (if reply == 0 then err (exceeded fmt rule) else ok tt, s'))
  unfolding check
  check_controls now deliver e before after rule req ent s split failed answer = rw split (
      check_rules_failed now deliver 0 before (rule ∷ after) req ent s failed
      ∙ check_rules_answered now deliver (0 + length before) rule after req ent _
          (rw zero-add answer))

  -- If Redis answers no rule's script, no request is refused.
  pub check_fails_open :
      (now : ℕ) (deliver : ℕ → Delivery) (e : Engine) (req : InquiryRequest F)
      (ent : UserEntitlement F) (s : Store)
      → AllFail deliver 0 e.rules
      → check now deliver e req ent s ≡ (ok tt, after_failures r now deliver 0 e.rules req ent s)
  unfolding check check_rules
  check_fails_open now deliver e req ent s failed =
      ap (λ rules. check_rules now deliver 0 rules req ent s) (sym (append-nil e.rules))
      ∙ check_rules_failed now deliver 0 e.rules [] req ent s failed
