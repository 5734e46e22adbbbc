-- ===== src/Server/Entitlements.antt =====
-- internal/server/entitlement/service.go, and `InvalidateUser` of internal/server/publisher/pub.go. The
-- channel of Redis is the list of the messages published, the newest last.
pub mod Rows
pub mod Resolved
pub mod Propagation
use pangreksa_aigateway.Prelude.{
  ℕ, suc, ◌+◌, ◌*◌, Bool, true, false, not, ◌&&◌, ◌||◌, List, [], ◌∷◌, ◌++◌, ◌==◌, if◌then◌else◌,
  Option, none, some, Result, ok, err, map_err, ◌>>=◌, length,
}
use pangreksa_aigateway.Prelude.Texts.{Text, codes, text_eq}
use pangreksa_aigateway.Prelude.Int.{ℤ}
use pangreksa_aigateway.Model.Entitlement.{UserEntitlement}
use pangreksa_aigateway.Server.Http.{Lookup, found, not_found, broken, in_context}
use pangreksa_aigateway.Server.Repository.{Exec, is_executed, executed, failed}
use pangreksa_aigateway.Server.Auth.Sessions.{User, first_row, query_result, find_by_id}
use pangreksa_aigateway.Server.Entitlements.Rows.{
  EntitlementRow, Entitlement, Setting, Columns, is_json, is_updatable, unmarshal_string_slice,
  column, entitlement_of, broken_unless, read_row, find_by_user_id, settings, assign_all, affected,
  update_row,
}

abbrev pub entitlement_ttl : ℕ
entitlement_ttl = 300 * 1_000_000_000

-- `Publisher.InvalidateUser`
unfoldable pub invalidate_user : Exec → Text → List Text → Result (Unit {0}) × List Text
invalidate_user x user_id channel = (
  elim x [
    | executed ↦ ok tt
    | failed e arrived ↦ err (codes "Publisher.InvalidateUser: publish to user:invalidate: " ++ e)
  ],
  if is_executed x then channel ++ user_id ∷ [] else channel,
)

-- The publication after an update: none without a publisher, and a failure is only logged.
unfoldable pub publish_update : Option Exec → Text → List Text → List Text
publish_update none user_id channel = channel
publish_update (some x) user_id channel = (invalidate_user x user_id channel).1

module _ {V F : Type 0} (columns : Columns V F) where
  -- The result of `Resolve`, without the permissions.
  unfoldable pub user_entitlement : ℕ → Entitlement F → UserEntitlement F
  user_entitlement now ent = record {
    user_id = ent.row.user_id;
    org_id = ent.row.org_id;
    allowed_prompts = ent.allowed_prompts;
    allowed_skills = ent.allowed_skills;
    allowed_mcps = ent.allowed_mcps;
    permissions = [];
    budget_limit_usd = ent.row.budget_limit_usd;
    rate_limit_rpm = ent.row.rate_limit_rpm;
    rate_limit_tpm = ent.row.rate_limit_tpm;
    data_scope = ent.row.data_scope;
    expires_at = now + entitlement_ttl;
  }

  abbrev pub resolved : ℕ → Lookup (Entitlement F) → Lookup (UserEntitlement F)
  resolved now (found ent) = found (user_entitlement now ent)
  resolved now (not_found e) = not_found (codes "Service.Resolve: lookup entitlement: " ++ e)
  resolved now (broken e) = broken (codes "Service.Resolve: lookup entitlement: " ++ e)

  abbrev pub in_org : Text → User → Bool
  in_org org_id u = length org_id == 0 || text_eq u.org_id org_id

  unfoldable pub resolve_user :
      Option Text
      → ℕ
      → Text
      → Text
      → List (EntitlementRow F)
      → Lookup User
      → Lookup (UserEntitlement F)
  resolve_user fault now user_id org_id rows (not_found e) =
      not_found (codes "Service.Resolve: lookup user: " ++ e)
  resolve_user fault now user_id org_id rows (broken e) =
      broken (codes "Service.Resolve: lookup user: " ++ e)
  resolve_user fault now user_id org_id rows (found u) =
      if in_org org_id u
      then resolved now (find_by_user_id columns fault user_id rows)
      else not_found (codes "Service.Resolve: not found")

  -- `Service.Resolve`, with a fault of either query.
  unfoldable pub resolve :
      Option Text
      → Option Text
      → ℕ
      → Text
      → Text
      → List User
      → List (EntitlementRow F)
      → Lookup (UserEntitlement F)
  resolve user_fault fault now user_id org_id users rows =
      resolve_user fault now user_id org_id rows (find_by_id columns.uuid user_fault user_id users)

  abbrev pub updated :
      Option Exec
      → Text
      → List Text
      → Lookup (Unit {0}) × List (EntitlementRow F)
      → Lookup (Unit {0}) × List (EntitlementRow F) × List Text
  updated publisher user_id channel (found _, rows) =
      (found tt, rows, publish_update publisher user_id channel)
  updated publisher user_id channel (not_found e, rows) =
      (not_found (codes "Service.Update: db update: " ++ e), rows, channel)
  updated publisher user_id channel (broken e, rows) =
      (broken (codes "Service.Update: db update: " ++ e), rows, channel)

  -- `Service.Update`
  unfoldable pub update :
      Exec
      → ℕ
      → Option Exec
      → Text
      → List (Text × V)
      → List (EntitlementRow F)
      → List Text
      → Lookup (Unit {0}) × List (EntitlementRow F) × List Text
  update x now publisher user_id changes rows channel =
      updated publisher user_id channel (update_row columns x now user_id changes rows)
