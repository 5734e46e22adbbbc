-- ===== src/Server/Entitlements/Rows.antt =====
-- internal/server/repository/entitlement.go. The values of a change are of any type `V`; how JSON
-- columns and UUIDs are read, how a value is marshalled and how PostgreSQL assigns columns is a `Columns`.
use pangreksa_aigateway.Prelude.{
  ℕ, suc, Bool, not, ◌||◌, List, [], ◌∷◌, ◌++◌, ◌==◌, if◌then◌else◌, Option, Result, ok, err,
  map_err, ◌>>=◌, length,
}
use pangreksa_aigateway.Prelude.Texts.{Text, codes, text_eq}
use pangreksa_aigateway.Prelude.Int.{ℤ}
use pangreksa_aigateway.Server.Http.{Lookup, found, not_found, broken}
use pangreksa_aigateway.Server.Repository.{Exec, executed, failed}
use pangreksa_aigateway.Server.Auth.Sessions.{find_by_uuid}

-- A row of user_entitlements, with its four JSONB columns as texts.
pub record EntitlementRow (F : Type 0) : Type 0 where
  pub id : Text
  pub user_id : Text
  pub org_id : Text
  pub raw_prompts : Text
  pub raw_skills : Text
  pub raw_mcps : Text
  pub raw_perms : Text
  pub budget_limit_usd : F
  pub rate_limit_rpm : ℤ
  pub rate_limit_tpm : ℤ
  pub data_scope : Text
  pub updated_at : ℕ

-- The `Entitlement` of the repository.
pub record Entitlement (F : Type 0) : Type 0 where
  pub row : EntitlementRow F
  pub allowed_prompts : List Text
  pub allowed_skills : List Text
  pub allowed_mcps : List Text
  pub permissions : List Text

-- An argument of the UPDATE: a marshalled value, or the value itself.
pub data Setting (V : Type 0) : Type 0 where
  marshalled : Text → Setting V
  bare : V → Setting V

pub record Columns (V F : Type 0) : Type 0 where
  pub uuid : Text → Result Text  -- the UUID of a text, as PostgreSQL spells it
  pub unmarshal : Text → Result (List Text)
  pub marshal : V → Result Text
  pub assign : ℕ → List (Text × Setting V) → EntitlementRow F → Result (EntitlementRow F)

unfoldable pub is_json : Text → Bool
is_json col =
    text_eq col (codes "allowed_prompts")
    || text_eq col (codes "allowed_skills")
    || text_eq col (codes "allowed_mcps")

unfoldable pub is_updatable : Text → Bool
is_updatable col =
    is_json col
    || text_eq col (codes "budget_limit_usd")
    || text_eq col (codes "rate_limit_rpm")
    || text_eq col (codes "rate_limit_tpm")
    || text_eq col (codes "data_scope")

module _ {V F : Type 0} (columns : Columns V F) where
  unfoldable pub unmarshal_string_slice : Text → Result (List Text)
  unmarshal_string_slice raw = if length raw == 0 then ok [] else columns.unmarshal raw

  abbrev pub column : Text → Text → Result (List Text)
  column name raw =
      map_err
        (λ e. codes "EntitlementRepository.FindByUserID: unmarshal " ++ (name ++ (codes ": " ++ e)))
        (unmarshal_string_slice raw)

  unfoldable pub entitlement_of : EntitlementRow F → Result (Entitlement F)
  entitlement_of row = column (codes "allowed_prompts") row.raw_prompts >>= λ prompts.
      column (codes "allowed_skills") row.raw_skills >>= λ skills.
      column (codes "allowed_mcps") row.raw_mcps >>= λ mcps.
      column (codes "permissions") row.raw_perms >>= λ perms. ok (record {
        row = row;
        allowed_prompts = prompts;
        allowed_skills = skills;
        allowed_mcps = mcps;
        permissions = perms;
      })

  abbrev pub broken_unless : {A : Type 0} → Result A → Lookup A
  broken_unless (ok a) = found a
  broken_unless (err e) = broken e

  abbrev pub read_row : Lookup (EntitlementRow F) → Lookup (Entitlement F)
  read_row (found row) = broken_unless (entitlement_of row)
  read_row (not_found e) = not_found e
  read_row (broken e) = broken e

  -- `FindByUserID`
  unfoldable pub find_by_user_id :
      Option Text → Text → List (EntitlementRow F) → Lookup (Entitlement F)
  unfolding find_by_uuid
  find_by_user_id fault user_id rows = read_row (
      find_by_uuid columns.uuid (codes "EntitlementRepository.FindByUserID") (λ row. row.user_id)
        fault user_id rows)

  -- The loop over the changes.
  unfoldable pub settings : List (Text × V) → Result (List (Text × Setting V))
  settings [] = ok []
  settings ((col, val) ∷ changes) =
      let rest = settings changes in
      if not (is_updatable col)
      then rest
      else if is_json col
      then elim (columns.marshal val) [
        | err e ↦ err (codes "EntitlementRepository.Update: marshal " ++ (col ++ (codes ": " ++ e)))
        | ok b ↦ rest >>= λ more. ok ((col, marshalled b) ∷ more)
      ]
      else rest >>= λ more. ok ((col, bare val) ∷ more)

  -- The rows after the UPDATE, with the number of those that it changed.
  unfoldable pub assign_all :
      ℕ
      → List (Text × Setting V)
      → Text
      → List (EntitlementRow F)
      → Result (ℕ × List (EntitlementRow F))
  assign_all now sets user_id [] = ok (0, [])
  assign_all now sets user_id (row ∷ rows) = assign_all now sets user_id rows >>= λ r.
      if text_eq row.user_id user_id
      then columns.assign now sets row >>= (λ row'. ok (suc r.0, row' ∷ r.1))
      else ok (r.0, row ∷ r.1)

  abbrev pub affected :
      Exec
      → List (EntitlementRow F)
      → Result (ℕ × List (EntitlementRow F))
      → Lookup (Unit {0}) × List (EntitlementRow F)
  affected x rows (err e) = (broken (codes "EntitlementRepository.Update: exec: " ++ e), rows)
  affected (failed e arrived) rows (ok (n, rows')) =
      (broken (codes "EntitlementRepository.Update: exec: " ++ e), if arrived then rows' else rows)
  affected executed rows (ok (n, rows')) = (
    if n == 0 then not_found (codes "EntitlementRepository.Update: not found") else found tt,
    rows',
  )

  -- `EntitlementRepository.Update`
  unfoldable pub update_row :
      Exec
      → ℕ
      → Text
      → List (Text × V)
      → List (EntitlementRow F)
      → Lookup (Unit {0}) × List (EntitlementRow F)
  update_row x now user_id [] rows = (found tt, rows)
  update_row x now user_id (change ∷ changes) rows = elim (settings (change ∷ changes)) [
    | err e ↦ (broken e, rows)
    | ok [] ↦ (found tt, rows)
    | ok (s ∷ sets) ↦
        affected x rows (columns.uuid user_id >>= λ key. assign_all now (s ∷ sets) key rows)
  ]
