-- ===== src/Registry/Skill/Disclosure.antt =====
-- skill.go: the two steps of progressive disclosure agree.
use mathlib.Core.Path.{subst}
use pangreksa_aigateway.Prelude.{
  ◌≡◌, refl, sym, true, List, [], ◌∷◌, none, some, ok, arith, All, ◌⊎◌, inl, inr, Bool-cases,
  Option-cases,
}
use pangreksa_aigateway.Prelude.Texts.{Text, text_eq, text_eq_sound}
use pangreksa_aigateway.Prelude.Dict.{Dict, lookup, insert}
use pangreksa_aigateway.Model.Format.{Format}
use pangreksa_aigateway.Model.Config.{SkillConfig, GatewayConfig}
use pangreksa_aigateway.Registry.Patterns.{pattern_matches, Covers, pattern_matches_iff}
use pangreksa_aigateway.Registry.Skill.{
  SkillSummary, Registry, index_skills, update, is_allowed, summaries_of, content,
}

-- Each entry of the index stands under its own name.
abbrev IsNamed : Dict SkillConfig → Type 0
IsNamed [] = Unit {0}
IsNamed ((k, s) ∷ m) = (k ≡ s.name) × IsNamed m

insert-IsNamed : (s : SkillConfig) (m : Dict SkillConfig) → IsNamed m → IsNamed (insert s.name s m)
unfolding insert
insert-IsNamed s [] n = (refl, tt)
insert-IsNamed s ((k, t) ∷ m) n = elim (Bool-cases (text_eq k s.name)) [
  | inl e ↦ rw (e, IsNamed) (refl, n.1)
  | inr e ↦ rw (e, IsNamed) (n.0, insert-IsNamed s m n.1)
]

index_skills-IsNamed :
    (m : Dict SkillConfig) (ss : List SkillConfig) → IsNamed m → IsNamed (index_skills m ss)
unfolding index_skills
index_skills-IsNamed m [] n = n
index_skills-IsNamed m (s ∷ ss) n =
    index_skills-IsNamed (insert s.name s m) ss (insert-IsNamed s m n)

name_of_lookup :
    (k : Text) (m : Dict SkillConfig) {s : SkillConfig}
    → IsNamed m
    → lookup k m ≡ some s
    → s.name ≡ k
unfolding lookup
name_of_lookup k [] n h = cc
name_of_lookup k ((j, t) ∷ m) {s} n h = elim (Bool-cases (text_eq j k)) [
  | inl e ↦ ground (arith, e, text_eq_sound j k e, n.0)
  | inr e ↦ name_of_lookup k m {s = s} n.1 (ground (arith, e))
]

-- Each pair of a range over the map is an entry of it.
abbrev pub IsRange : List (Text × SkillConfig) → Dict SkillConfig → Type 0
IsRange order m = All (λ e. lookup e.0 m ≡ some e.1) order

-- The skill behind a line of the summary.
abbrev Source : Dict SkillConfig → List Text → SkillSummary → Type 0
Source m patterns x =
    (s : SkillConfig) × (lookup x.name m ≡ some s)
    × (is_allowed x.name patterns ≡ true)
    × (x.description ≡ s.description)

summaries_of-Source :
    (m : Dict SkillConfig) (order : List (Text × SkillConfig)) (patterns : List Text)
    → IsNamed m
    → IsRange order m
    → All (Source m patterns) (summaries_of order patterns)
unfolding summaries_of
summaries_of-Source m [] patterns n r = tt
summaries_of-Source m ((name, s) ∷ order) patterns n r =
    let rest = summaries_of-Source m order patterns n r.1 in
    elim (Bool-cases (is_allowed name patterns)) [
      | inr e ↦ rw (e, All) rest
      | inl e ↦
          let same : s.name ≡ name = name_of_lookup name m n r.0 in
          rw (e, All)
            (
              (
                s,
                subst (λ k. lookup k m ≡ some s) (sym same) r.0,
                subst (λ k. is_allowed k patterns ≡ true) (sym same) e,
                refl,
              ),
              rest,
            )
    ]

-- What step 2 hands over for a line of step 1.
abbrev pub Discloses : Format → Registry → List Text → SkillSummary → Type 0
Discloses fmt r patterns x =
    (s : SkillConfig) × (lookup x.name r.skills ≡ some s)
    × (x.description ≡ s.description)
    × (content fmt none r x.name patterns ≡ ok s.content)

Discloses-of_Source :
    (fmt : Format) (r : Registry) (patterns : List Text) (xs : List SkillSummary)
    → All (Source r.skills patterns) xs
    → All (Discloses fmt r patterns) xs
unfolding content
Discloses-of_Source fmt r patterns [] h = tt
Discloses-of_Source fmt r patterns (x ∷ xs) h =
    ((h.0.0, h.0.1, h.0.3, rw (h.0.2, h.0.1)), Discloses-of_Source fmt r patterns xs h.1)

-- Every skill that the summaries list, under any order of the range over the updated registry, is
-- one whose description is the one shown, and whose full content the second step returns for the
-- name shown and the same patterns.
pub summaries-Discloses :
    (fmt : Format) (r : Registry) (cfg : GatewayConfig) (order : List (Text × SkillConfig))
    (patterns : List Text)
    → IsRange order (update r cfg).skills
    → All (Discloses fmt (update r cfg) patterns) (summaries_of order patterns)
unfolding update
summaries-Discloses fmt r cfg order patterns range =
    Discloses-of_Source fmt (record { skills = index_skills [] cfg.registry.skills }) patterns _
      (summaries_of-Source _ order patterns (index_skills-IsNamed [] cfg.registry.skills tt) range)

-- A pattern of the list covers the name.
abbrev pub Listed : Text → List Text → Type 0
Listed name [] = ⊥
Listed name (p ∷ ps) = Covers p name ⊎ Listed name ps

is_allowed-Listed : (name : Text) (ps : List Text) → is_allowed name ps ≡ true → Listed name ps
unfolding is_allowed
is_allowed-Listed name [] h = cc
is_allowed-Listed name (p ∷ ps) h = elim (Bool-cases (pattern_matches p name)) [
  | inl e ↦ inl ((pattern_matches_iff p name).0 e)
  | inr e ↦ inr (is_allowed-Listed name ps (ground (arith, e)))
]

-- A skill's content is returned only to a user with a pattern that covers its name, and then is
-- that of the entry of this name.
pub content-Listed :
    (fmt : Format) (r : Registry) (name : Text) (patterns : List Text) (text : Text)
    → content fmt none r name patterns ≡ ok text
    → Listed name patterns
      × ((s : SkillConfig) × (lookup name r.skills ≡ some s) × (s.content ≡ text))
unfolding content
content-Listed fmt r name patterns text h = elim (Bool-cases (is_allowed name patterns)) [
  | inr e ↦ ground (arith, e)
  | inl e ↦ elim (Option-cases (lookup name r.skills)) [
    | inl missing ↦ ground (arith, e, missing)
    | inr (s, found) ↦ (is_allowed-Listed name patterns e, (s, found, ground (arith, e, found)))
  ]
]
