-- ===== src/Policy/Budget/Check.antt =====
-- budget.go: `Check` and `Record`.
use pangreksa_aigateway.Prelude.{
  ℕ, suc, ◌*◌, ◌≡◌, refl, Bool, true, false, ◌&&◌, List, [], ◌∷◌, ◌++◌, if◌then◌else◌, Option, none,
  some, inl, inr, Option-cases, Bool-cases, Result, ok, err,
}
use pangreksa_aigateway.Prelude.Texts.{Text, codes, text_eq}
use pangreksa_aigateway.Model.Float.{Float64}
use pangreksa_aigateway.Model.Format.{Format}
use pangreksa_aigateway.Model.Inquiry.{InquiryRequest}
use pangreksa_aigateway.Model.Entitlement.{UserEntitlement}
use pangreksa_aigateway.Policy.Budget.Counters.{FloatCounters, Delivery, incr_by_float}
use pangreksa_aigateway.Policy.Budget.Rules.{ParsedRule, Engine}

-- `time.Now().UTC().Format(...)`: the texts of a moment's day and month.
pub record Calendar : Type 0 where
  pub day_text : ℕ → Text
  pub month_text : ℕ → Text

unfoldable pub current_period : Calendar → ℕ → Text → Text
current_period cal now period =
    if text_eq period (codes "monthly") then cal.month_text now else cal.day_text now

abbrev hour : ℕ
hour = 3_600_000_000_000

unfoldable pub period_ttl : Text → ℕ
period_ttl period = if text_eq period (codes "monthly") then 32 * 24 * hour else 25 * hour

module _ {fl : Float64} where
  unfoldable pub rule_matches : ParsedRule fl → InquiryRequest fl.F → UserEntitlement fl.F → Bool
  rule_matches _ _ _ = true

  -- The request is an argument of the code's function, and is not read.
  unfoldable pub budget_key : Calendar → ℕ → ParsedRule fl → UserEntitlement fl.F → Text
  budget_key cal now rule ent =
      let entity = if text_eq rule.entity_type (codes "org") then ent.org_id else ent.user_id in
      codes "budget:"
      ++ (rule.raw.id
          ++ (codes ":" ++ (entity ++ (codes ":" ++ current_period cal now rule.period))))

  -- `fmt.Errorf("%w: rule_id=%q current=%.4f limit=%.4f", ErrBudgetExceeded, ...)`
  unfoldable pub exceeded : Format → ParsedRule fl → fl.F → Text
  exceeded fmt rule current =
      codes "budget limit exceeded"
      ++ (codes ": rule_id="
          ++ (fmt.quote rule.raw.id
              ++ (codes " current="
                  ++ (fl.show current ++ (codes " limit=" ++ fl.show rule.limit_usd)))))

  -- What the reply for the first rule says: it refuses if Redis answers with a value that is over
  -- the limit together with the estimate.
  abbrev pub first_verdict : Format → ParsedRule fl → fl.F → Option fl.F → Result (Unit {0})
  first_verdict fmt rule cost none = ok tt
  first_verdict fmt rule cost (some current) =
      if fl.gt (fl.add current cost) rule.limit_usd then err (exceeded fmt rule current) else ok tt

module _ {fl : Float64} (c : FloatCounters fl) (cal : Calendar) where
  open c use {Store, read}

  -- The IncrByFloat call for one rule at `now`.
  unfoldable pub touch :
      ℕ → Delivery → ParsedRule fl → UserEntitlement fl.F → fl.F → Store → Option fl.F × Store
  touch now d rule ent amount s =
      incr_by_float c now d (budget_key cal now rule ent) amount (period_ttl rule.period) s

  -- The loop of `Check`, the i-th rule first, with its `firstMatch`.
  unfoldable pub check_rules :
      Format
      → ℕ
      → (ℕ → Delivery)
      → ℕ
      → Bool
      → List (ParsedRule fl)
      → InquiryRequest fl.F
      → UserEntitlement fl.F
      → fl.F
      → Store
      → Result (Unit {0}) × Store
  check_rules fmt now deliver i first [] req ent cost s = (ok tt, s)
  check_rules fmt now deliver i first (rule ∷ rules) req ent cost s =
      let skipped = check_rules fmt now deliver (suc i) first rules req ent cost s in
      let (reply, s') = touch now (deliver i) rule ent fl.zero_f s in
      let rest = check_rules fmt now deliver (suc i) false rules req ent cost s' in
      if rule_matches rule req ent
      then elim reply [
        | none ↦ rest
        | some current ↦
            if first && fl.gt (fl.add current cost) rule.limit_usd
            then (err (exceeded fmt rule current), s')
            else rest
      ]
      else skipped

  unfoldable pub check :
      Format
      → ℕ
      → (ℕ → Delivery)
      → Engine fl
      → InquiryRequest fl.F
      → UserEntitlement fl.F
      → fl.F
      → Store
      → Result (Unit {0}) × Store
  check fmt now deliver e req ent cost s = check_rules fmt now deliver 0 true e.rules req ent cost s

  -- The loop of `Record`, whose errors only go to the log.
  unfoldable pub record_rules :
      ℕ
      → (ℕ → Delivery)
      → ℕ
      → List (ParsedRule fl)
      → InquiryRequest fl.F
      → UserEntitlement fl.F
      → fl.F
      → Store
      → Store
  record_rules now deliver i [] req ent cost s = s
  record_rules now deliver i (rule ∷ rules) req ent cost s =
      let s' = if rule_matches rule req ent then (touch now (deliver i) rule ent cost s).1 else s in
      record_rules now deliver (suc i) rules req ent cost s'

  unfoldable pub record_cost :
      ℕ
      → (ℕ → Delivery)
      → Engine fl
      → InquiryRequest fl.F
      → UserEntitlement fl.F
      → fl.F
      → Store
      → Store
  record_cost now deliver e req ent cost s = record_rules now deliver 0 e.rules req ent cost s

  -- Once a rule was seen, the others do not refuse.
  check_rules_seen :
      (fmt : Format) (now : ℕ) (deliver : ℕ → Delivery) (i : ℕ) (rules : List (ParsedRule fl))
      (req : InquiryRequest fl.F) (ent : UserEntitlement fl.F) (cost : fl.F) (s : Store)
      → (check_rules fmt now deliver i false rules req ent cost s).0 ≡ ok tt
  unfolding check_rules rule_matches
  check_rules_seen fmt now deliver i [] req ent cost s = refl
  check_rules_seen fmt now deliver i (rule ∷ rules) req ent cost s =
      let (reply, s') = touch now (deliver i) rule ent fl.zero_f s in
      elim (Option-cases reply) [
        | inl e ↦ rw e (check_rules_seen fmt now deliver (suc i) rules req ent cost s')
        | inr (v, e) ↦ rw e (check_rules_seen fmt now deliver (suc i) rules req ent cost s')
      ]

  -- `Check` answers by the first rule alone, whatever the counters of the others hold: it refuses
  -- exactly when Redis answers for this rule and the value with the estimate is above the limit. If
  -- the call for the first rule fails, no rule refuses.
  pub check_first :
      (fmt : Format) (now : ℕ) (deliver : ℕ → Delivery) (e : Engine fl) (rule : ParsedRule fl)
      (rules : List (ParsedRule fl)) (req : InquiryRequest fl.F) (ent : UserEntitlement fl.F)
      (cost : fl.F) (s : Store)
      → e.rules ≡ rule ∷ rules
      → (check fmt now deliver e req ent cost s).0
        ≡ first_verdict fmt rule cost (touch now (deliver 0) rule ent fl.zero_f s).0
  unfolding check check_rules rule_matches
  check_first fmt now deliver e rule rules req ent cost s h =
      let (reply, s') = touch now (deliver 0) rule ent fl.zero_f s in
      let seen = check_rules_seen fmt now deliver 1 rules req ent cost s' in
      rw h (elim (Option-cases reply) [
        | inl e ↦ rw e seen
        | inr (v, e) ↦ elim (Bool-cases (fl.gt (fl.add v cost) rule.limit_usd)) [
          | inl over ↦ rw (e, over)
          | inr under ↦ rw (e, under) seen
        ]
      ])
