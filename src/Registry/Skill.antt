-- ===== src/Registry/Skill.antt =====
-- internal/registry/skill/skill.go. `order` lists the map of skills in the order in which the code
-- ranges over it, which Go leaves open.
pub mod Disclosure
use pangreksa_aigateway.Prelude.{
  Bool, true, false, not, ◌&&◌, List, [], ◌∷◌, ◌++◌, if◌then◌else◌, Option, none, some, Result, ok,
  err, any,
}
use pangreksa_aigateway.Prelude.Texts.{Text, codes}
use pangreksa_aigateway.Prelude.Dict.{Dict, lookup, insert}
use pangreksa_aigateway.Model.Format.{Format}
use pangreksa_aigateway.Model.Config.{SkillConfig, GatewayConfig}
use pangreksa_aigateway.Registry.Patterns.{pattern_matches}

pub record SkillSummary : Type 0 where
  pub name : Text
  pub description : Text

pub record Registry : Type 0 where
  pub skills : Dict SkillConfig

abbrev pub new_registry : Registry
new_registry = record { skills = [] }

-- The loop of `Update`.
unfoldable pub index_skills : Dict SkillConfig → List SkillConfig → Dict SkillConfig
index_skills index [] = index
index_skills index (s ∷ ss) = index_skills (insert s.name s index) ss

unfoldable pub update : Registry → GatewayConfig → Registry
update r cfg = record { skills = index_skills [] cfg.registry.skills }

unfoldable pub is_allowed : Text → List Text → Bool
is_allowed name [] = false
is_allowed name (p ∷ ps) =
    let rest = is_allowed name ps in if pattern_matches p name then true else rest

-- The loop of `Summaries`.
unfoldable pub summaries_of : List (Text × SkillConfig) → List Text → List SkillSummary
summaries_of [] patterns = []
summaries_of ((name, s) ∷ order) patterns =
    let rest = summaries_of order patterns in
    if is_allowed name patterns
    then record { name = s.name; description = s.description } ∷ rest
    else rest

unfoldable pub summaries :
    Option Text → List (Text × SkillConfig) → List Text → Result (List SkillSummary)
summaries (some done) order patterns = err (codes "skill.Summaries: " ++ done)
summaries none order patterns = ok (summaries_of order patterns)

unfoldable pub content : Format → Option Text → Registry → Text → List Text → Result Text
content fmt (some done) r name patterns = err (codes "skill.Content: " ++ done)
content fmt none r name patterns =
    if not (is_allowed name patterns)
    then err (codes "skill.Content: access denied for skill " ++ fmt.quote name)
    else elim (lookup name r.skills) [
      | none ↦ err (codes "skill.Content: skill not found: " ++ fmt.quote name)
      | some s ↦ ok s.content
    ]

-- The loop of `PreloadedContent`.
unfoldable pub preloaded_of : List (Text × SkillConfig) → List Text → List SkillConfig
preloaded_of [] patterns = []
preloaded_of ((name, s) ∷ order) patterns =
    let rest = preloaded_of order patterns in
    if s.preload && is_allowed name patterns then s ∷ rest else rest

unfoldable pub preloaded_content :
    Option Text → List (Text × SkillConfig) → List Text → Result (List SkillConfig)
preloaded_content (some done) order patterns = err (codes "skill.PreloadedContent: " ++ done)
preloaded_content none order patterns = ok (preloaded_of order patterns)
