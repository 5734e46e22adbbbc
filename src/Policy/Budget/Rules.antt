-- ===== src/Policy/Budget/Rules.antt =====
-- budget.go: parsing the rules and the hot reload of the engine. The messages of parse errors
-- only go to the log, so a rule that does not parse is `none`.
use pangreksa_aigateway.Prelude.{
  ◌≡◌, false, List, [], ◌∷◌, Option, none, some, arith, if◌then◌else◌, inl, inr, Option-cases, All,
}
use mathlib.Core.List.{Perm}
use pangreksa_aigateway.Prelude.Texts.{Text, codes, text_eq, split, cut, trim_space}
use pangreksa_aigateway.Prelude.Int.{ℤ}
use pangreksa_aigateway.Prelude.Sort.{
  sort_by, IsSorted, with_key, sort_by-IsSorted, sort_by-perm, with_key-sort_by, All-sort_by,
}
use pangreksa_aigateway.Model.Policy.{BudgetRule}
use pangreksa_aigateway.Model.Float.{Float64}

module _ (fl : Float64) where
  pub record ParsedRule : Type 0 where
    pub raw : BudgetRule
    pub limit_usd : fl.F
    pub period : Text
    pub entity_type : Text

  pub record Engine : Type 0 where
    pub rules : List ParsedRule

module _ {fl : Float64} where
  -- The `switch` on the key of a line.
  unfoldable pub apply_setting : ParsedRule fl → Text → Text → Option (ParsedRule fl)
  apply_setting pr key val =
      if text_eq key (codes "limit_usd")
      then elim (fl.parse_float val) [ none ↦ none | some v ↦ some (record pr { limit_usd = v }) ]
      else if text_eq key (codes "period")
      then some (record pr { period = val })
      else if text_eq key (codes "entity")
      then some (record pr { entity_type = val })
      else some pr

  unfoldable pub apply_line : ParsedRule fl → Text → Option (ParsedRule fl)
  unfolding apply_setting
  apply_line pr line = elim (cut b':' (trim_space line)) [
    | none ↦ some pr
    | some (key, val) ↦ apply_setting pr (trim_space key) (trim_space val)
  ]

  -- The loop over the lines.
  unfoldable pub apply_lines : ParsedRule fl → List Text → Option (ParsedRule fl)
  apply_lines pr [] = some pr
  apply_lines pr (line ∷ lines) = elim (apply_line pr line) [
    | none ↦ none
    | some pr' ↦ apply_lines pr' lines
  ]

  abbrev require_positive : Option (ParsedRule fl) → Option (ParsedRule fl)
  require_positive none = none
  require_positive (some pr) = if fl.le pr.limit_usd fl.zero_f then none else some pr

  -- `parsedRule{raw: r, period: "daily", entityType: "user"}`
  abbrev defaults : BudgetRule → ParsedRule fl
  defaults r = record {
    raw = r;
    limit_usd = fl.zero_f;
    period = codes "daily";
    entity_type = codes "user";
  }

  unfoldable pub parse_rule : BudgetRule → Option (ParsedRule fl)
  unfolding apply_lines apply_line
  parse_rule r = require_positive (apply_lines (defaults r) (split b'\n' r.rule_yaml))

  -- The loop of `Update`: a rule that does not parse is skipped.
  unfoldable pub parse_all : List BudgetRule → List (ParsedRule fl)
  parse_all [] = []
  parse_all (r ∷ rs) =
      let rest = parse_all rs in elim (parse_rule r) [ none ↦ rest | some pr ↦ pr ∷ rest ]

  abbrev pub priority_of : ParsedRule fl → ℤ
  priority_of pr = pr.raw.priority

  unfoldable pub update : Engine fl → List BudgetRule → Engine fl
  update e rules = record { rules = sort_by priority_of (parse_all rules) }

  raw-apply_setting :
      (pr : ParsedRule fl) (key val : Text) {pr' : ParsedRule fl}
      → apply_setting pr key val ≡ some pr'
      → pr'.raw ≡ pr.raw
  unfolding apply_setting
  raw-apply_setting pr key val h = ground arith

  raw-apply_line :
      (pr : ParsedRule fl) (line : Text) {pr' : ParsedRule fl}
      → apply_line pr line ≡ some pr'
      → pr'.raw ≡ pr.raw
  unfolding apply_line
  raw-apply_line pr line h = ground arith

  raw-apply_lines :
      (pr : ParsedRule fl) (lines : List Text) {pr' : ParsedRule fl}
      → apply_lines pr lines ≡ some pr'
      → pr'.raw ≡ pr.raw
  unfolding apply_lines
  raw-apply_lines pr [] h = ground arith
  raw-apply_lines pr (line ∷ lines) {pr'} h = elim (Option-cases (apply_line pr line)) [
    | inl e ↦ ground (arith, e)
    | inr (next, e) ↦
        ground (arith, e, raw-apply_line pr line e, raw-apply_lines next lines {pr' = pr'})
  ]

  require_positive-some :
      (o : Option (ParsedRule fl)) {pr : ParsedRule fl}
      → require_positive o ≡ some pr
      → (o ≡ some pr) × (fl.le pr.limit_usd fl.zero_f ≡ false)
  require_positive-some none h = cc
  require_positive-some (some x) h = ground arith

  -- A rule that parses keeps its source, and its limit is not below or equal to 0.
  pub parse_rule_lem :
      (r : BudgetRule) {pr : ParsedRule fl}
      → parse_rule r ≡ some pr
      → (pr.raw ≡ r) × (fl.le pr.limit_usd fl.zero_f ≡ false)
  unfolding parse_rule
  parse_rule_lem r h =
      let (lines, positive) = require_positive-some _ h in
      (raw-apply_lines (defaults r) (split b'\n' r.rule_yaml) lines, positive)

module _ (fl : Float64) where
  positive-parse_all :
      (rs : List BudgetRule)
      → All (λ pr. fl.le pr.limit_usd fl.zero_f ≡ false) (parse_all {fl = fl} rs)
  unfolding parse_all
  positive-parse_all [] = tt
  positive-parse_all (r ∷ rs) = elim (Option-cases (parse_rule {fl = fl} r)) [
    | inl e ↦ rw (e, All) (positive-parse_all rs)
    | inr (pr, e) ↦ rw (e, All) ((parse_rule_lem r e).1, positive-parse_all rs)
  ]

  -- After `Update` the engine's rules ascend by priority; those of any one priority are the parsed rules
  -- of that priority in the order in which the configuration lists them, so that no parsed rule is
  -- lost, added or overtaken; and no limit is below or equal to 0. What the engine held before is gone.
  pub update_orders_budgets :
      (e : Engine fl) (rs : List BudgetRule) (k : ℤ)
      → IsSorted priority_of (update e rs).rules
        × (with_key priority_of k (update e rs).rules ≡ with_key priority_of k (parse_all rs))
        × Perm (update e rs).rules (parse_all rs)
        × All (λ pr. fl.le pr.limit_usd fl.zero_f ≡ false) (update e rs).rules
  unfolding update
  update_orders_budgets e rs k = (
    sort_by-IsSorted priority_of (parse_all rs),
    with_key-sort_by priority_of k (parse_all rs),
    sort_by-perm priority_of (parse_all rs),
    All-sort_by priority_of (λ pr. fl.le pr.limit_usd fl.zero_f ≡ false) (parse_all rs)
        (positive-parse_all rs),
  )
