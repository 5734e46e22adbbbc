-- ===== src/Policy/Budget/Charges.antt =====
-- budget.go: what `Check` and `Record` do to the counters.
use pangreksa_aigateway.Prelude.{
  ℕ, suc, ◌<◌, ◌≡◌, refl, ap, ◌∙◌, Bool, true, false, ◌&&◌, List, [], ◌∷◌, arith, if◌then◌else◌,
  inl, inr, Option-cases, Bool-cases,
}
use pangreksa_aigateway.Prelude.Texts.{Text, text_eq, text_eq_sound, text_eq_refl}
use pangreksa_aigateway.Model.Float.{Float64}
use pangreksa_aigateway.Model.Format.{Format}
use pangreksa_aigateway.Model.Inquiry.{InquiryRequest}
use pangreksa_aigateway.Model.Entitlement.{UserEntitlement}
use pangreksa_aigateway.Policy.Budget.Counters.{
  FloatCounters, Delivery, replied, never_ran, reply_lost, incr_by_float,
}
use pangreksa_aigateway.Policy.Budget.Rules.{ParsedRule, Engine}
use pangreksa_aigateway.Policy.Budget.Check.{
  Calendar, period_ttl, rule_matches, budget_key, touch, check_rules, check, record_rules,
  record_cost,
}

-- The increment reaches the counter, whether or not its reply comes back.
abbrev pub arrives : Delivery → Bool
arrives (replied _) = true
arrives never_ran = false
arrives reply_lost = true

ttl_pos : (period : Text) → 0 < period_ttl period
unfolding period_ttl
ttl_pos period = ground arith

module _ {fl : Float64} (c : FloatCounters fl) (cal : Calendar) where
  open c use {Store, read, incr_by, expire, read-incr_by_self, read-incr_by_ne, read-expire}

  read-incr_by :
      (now : ℕ) (k j : Text) (a : fl.F) (s : Store)
      → read now j (incr_by now k a s)
        ≡ (if text_eq k j then fl.add (read now j s) a else read now j s)
  read-incr_by now k j a s = elim (Bool-cases (text_eq k j)) [
    | inl e ↦ rw (e, text_eq_sound k j e) (read-incr_by_self now j a s)
    | inr e ↦ rw e (
        read-incr_by_ne now k j a s
          (λ same. ground (arith, ap (λ x. text_eq x j) same, text_eq_refl j)))
  ]

  read-touch :
      (now : ℕ) (d : Delivery) (rule : ParsedRule fl) (ent : UserEntitlement fl.F) (a : fl.F)
      (j : Text) (s : Store)
      → read now j (touch c cal now d rule ent a s).1 ≡ (
          if arrives d && text_eq (budget_key cal now rule ent) j
          then fl.add (read now j s) a
          else read now j s)
  unfolding touch incr_by_float
  read-touch now (replied true) rule ent a j s =
      read-expire now (budget_key cal now rule ent) j (period_ttl rule.period) _
        (ttl_pos rule.period)
      ∙ read-incr_by now (budget_key cal now rule ent) j a s
  read-touch now (replied false) rule ent a j s =
      read-incr_by now (budget_key cal now rule ent) j a s
  read-touch now never_ran rule ent a j s = refl
  read-touch now reply_lost rule ent a j s = read-incr_by now (budget_key cal now rule ent) j a s

  -- A counter's value after the cost is added once for each rule of this key whose call arrives.
  unfoldable pub charged :
      ℕ
      → (ℕ → Delivery)
      → ℕ
      → List (ParsedRule fl)
      → UserEntitlement fl.F
      → fl.F
      → Text
      → fl.F
      → fl.F
  charged now deliver i [] ent cost j x = x
  charged now deliver i (rule ∷ rules) ent cost j x =
      let x' =
        if arrives (deliver i) && text_eq (budget_key cal now rule ent) j
        then fl.add x cost
        else x in
      charged now deliver (suc i) rules ent cost j x'

  read-record_rules :
      (now : ℕ) (deliver : ℕ → Delivery) (i : ℕ) (rules : List (ParsedRule fl))
      (req : InquiryRequest fl.F) (ent : UserEntitlement fl.F) (cost : fl.F) (j : Text) (s : Store)
      → read now j (record_rules c cal now deliver i rules req ent cost s)
        ≡ charged now deliver i rules ent cost j (read now j s)
  unfolding record_rules charged rule_matches
  read-record_rules now deliver i [] req ent cost j s = refl
  read-record_rules now deliver i (rule ∷ rules) req ent cost j s =
      read-record_rules now deliver (suc i) rules req ent cost j _
      ∙ ap (charged now deliver (suc i) rules ent cost j)
          (read-touch now (deliver i) rule ent cost j s)

  -- `Record` adds the actual cost to the counter of every rule, for the rule's own entity and the
  -- current period, once for each rule whose call reaches Redis; every other counter, and that of
  -- a rule whose call does not arrive, keeps its value.
  pub read-record_cost :
      (now : ℕ) (deliver : ℕ → Delivery) (e : Engine fl) (req : InquiryRequest fl.F)
      (ent : UserEntitlement fl.F) (cost : fl.F) (j : Text) (s : Store)
      → read now j (record_cost c cal now deliver e req ent cost s)
        ≡ charged now deliver 0 e.rules ent cost j (read now j s)
  unfolding record_cost
  read-record_cost now deliver e req ent cost j s =
      read-record_rules now deliver 0 e.rules req ent cost j s

  module _ (add_zero : (x : fl.F) → fl.add x fl.zero_f ≡ x) where
    if_same : (b : Bool) (x : fl.F) → (if b then fl.add x fl.zero_f else x) ≡ x
    if_same true x = add_zero x
    if_same false x = refl

    read-check_rules :
        (fmt : Format) (now : ℕ) (deliver : ℕ → Delivery) (i : ℕ) (first : Bool)
        (rules : List (ParsedRule fl)) (req : InquiryRequest fl.F) (ent : UserEntitlement fl.F)
        (cost : fl.F) (j : Text) (s : Store)
        → read now j (check_rules c cal fmt now deliver i first rules req ent cost s).1
          ≡ read now j s
    unfolding check_rules rule_matches
    read-check_rules fmt now deliver i first [] req ent cost j s = refl
    read-check_rules fmt now deliver i first (rule ∷ rules) req ent cost j s =
        let (reply, s') = touch c cal now (deliver i) rule ent fl.zero_f s in
        let same : read now j s' ≡ read now j s =
          read-touch now (deliver i) rule ent fl.zero_f j s ∙ if_same _ (read now j s) in
        let rest = read-check_rules fmt now deliver (suc i) false rules req ent cost j s' ∙ same in
        elim (Option-cases reply) [
          | inl e ↦ rw e rest
          | inr (v, e) ↦ elim (Bool-cases (first && fl.gt (fl.add v cost) rule.limit_usd)) [
            | inl over ↦ rw (e, over) same
            | inr under ↦ rw (e, under) rest
          ]
        ]

    -- `Check` leaves every counter at its value, on every path, provided that adding 0 does.
    pub read-check :
        (fmt : Format) (now : ℕ) (deliver : ℕ → Delivery) (e : Engine fl)
        (req : InquiryRequest fl.F) (ent : UserEntitlement fl.F) (cost : fl.F) (j : Text)
        (s : Store)
        → read now j (check c cal fmt now deliver e req ent cost s).1 ≡ read now j s
    unfolding check
    read-check fmt now deliver e req ent cost j s =
        read-check_rules fmt now deliver 0 true e.rules req ent cost j s
