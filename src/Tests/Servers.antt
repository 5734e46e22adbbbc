-- ===== src/Tests/Servers.antt =====
-- Runs of the server's endpoints and of its entitlement service.
use pangreksa_aigateway.Prelude.{
  ℕ, ◌+◌, leb, ◌&&◌, if◌then◌else◌, map, ◌≡◌, refl, err, List, ◌⊎◌, true, false, [], ◌∷◌, none,
  some, ok,
}
use pangreksa_aigateway.Prelude.Texts.{Text, codes, text_eq}
use pangreksa_aigateway.Prelude.Int.{pos}
use pangreksa_aigateway.Model.Entitlement.{UserEntitlement}
use pangreksa_aigateway.Server.Http.{Request, check_bearer}
use pangreksa_aigateway.Server.Repository.{executed}
use pangreksa_aigateway.Server.Auth.Sessions.{find_by_id, first_row}
use pangreksa_aigateway.Server.Entitlements
use pangreksa_aigateway.Server.Entitlements.{
  update, publish_update, invalidate_user, resolve_user, user_entitlement,
}
use pangreksa_aigateway.Server.Entitlements.Rows.{
  update_row, settings, is_updatable, is_json, assign_all, EntitlementRow, Columns, find_by_user_id,
  entitlement_of, unmarshal_string_slice,
}
use pangreksa_aigateway.Server.Entitlements.Resolved.{Belongs, resolve-Belongs}
use pangreksa_aigateway.Server.Entitlements.Propagation.{heard, answering, update_reaches_daemon}
use pangreksa_aigateway.Entitlement.{Surroundings, responded, resolve}
use pangreksa_aigateway.Cache.Invalidation.{run}
use pangreksa_aigateway.Tests.Instances.{plain, entitlements}
use pangreksa_aigateway.Server.Api
use pangreksa_aigateway.Server.Api.{Codecs, Handler, Server, Moment, unauthorized, route_key, serve}
use pangreksa_aigateway.Server.Api.Access.{serve-Guarded}
use pangreksa_aigateway.Tests.Consoles.{codec}
use pangreksa_aigateway.Tests.Sessions.{users}

-- A UUID in lower case.
abbrev lower_case : ℕ → ℕ
lower_case c = if leb 65 c && leb c 90 then c + 32 else c

-- A JSON column is the one pattern that it holds, and an assignment keeps the row.
abbrev columns : Columns ℕ ℕ
columns = record {
  uuid = λ t. ok (map lower_case t);
  unmarshal = λ raw. ok (raw ∷ []);
  marshal = λ v. ok (codes "[]");
  assign = λ now sets row. ok row;
}

abbrev row : EntitlementRow ℕ
row = record {
  id = codes "n1";
  user_id = codes "u1";
  org_id = codes "acme";
  raw_prompts = codes "*";
  raw_skills = [];
  raw_mcps = codes "files";
  raw_perms = codes "console.read";
  budget_limit_usd = 10;
  rate_limit_rpm = pos 60;
  rate_limit_tpm = pos 1000;
  data_scope = codes "own_data";
  updated_at = 0;
}

abbrev entitlement : UserEntitlement ℕ
entitlement = record {
  user_id = codes "u1";
  org_id = codes "acme";
  allowed_prompts = codes "*" ∷ [];
  allowed_skills = [];
  allowed_mcps = codes "files" ∷ [];
  permissions = [];
  budget_limit_usd = 10;
  rate_limit_rpm = pos 60;
  rate_limit_tpm = pos 1000;
  data_scope = codes "own_data";
  expires_at = 300_000_000_007;
}

resolve-Belongs_example : Belongs columns 7 (codes "U1") (codes "acme") users (row ∷ []) entitlement
unfolding Entitlements.resolve resolve_user find_by_id find_by_user_id first_row text_eq
    entitlement_of unmarshal_string_slice user_entitlement
resolve-Belongs_example =
    resolve-Belongs columns none none 7 (codes "U1") (codes "acme") users (row ∷ []) entitlement
      refl

abbrev codecs : Codecs ℕ ℕ
codecs = record {
  configs = codec;
  columns = columns;
  decode_entitlement = λ t. ok (record { user_id = t; org_id = [] });
  decode_admin = λ t. ok (record { user_id = t; changes = [] });
  decode_invalidate = λ t. ok t;
  encode_entitlement = λ ent. ent.user_id;
  encode_updated = codes "updated";
  encode_published = λ b. codes "published";
  encode_health = λ id now. id;
}

abbrev handler : Handler
handler = record {
  server_id = codes "s1";
  admin_api_key = codes "admin";
  daemon_api_key = codes "daemon";
  has_publisher = true;
}

abbrev moment : Moment
moment = record {
  query_fault = none;
  user_fault = none;
  exec = executed;
  publication = executed;
  now = 7;
}

abbrev server : Server ℕ
server = record { configs = []; users = users; entitlements = row ∷ []; channel = [] }

abbrev intruder : Request
intruder = record { authorization = codes "Bearer daemon"; body = some (codes "u1") }

serve-Guarded_example :
    ((key : Text)
      → route_key codecs handler Api.admin_invalidate ≡ some key
      → check_bearer intruder key ≡ false
      → serve codecs handler true Api.admin_invalidate moment intruder server
        ≡ (unauthorized codecs handler, server))
    × (((serve codecs handler true Api.admin_invalidate moment intruder server).1 ≡ server)
        ⊎ (route_key codecs handler Api.admin_invalidate ≡ some handler.admin_api_key)
          × (check_bearer intruder handler.admin_api_key ≡ true))
serve-Guarded_example =
    serve-Guarded codecs handler true Api.admin_invalidate moment intruder server

abbrev nothing_kept : entitlements.Store
nothing_kept k = none

abbrev surroundings : Surroundings ℕ
surroundings = record {
  get_fault = none;
  set_fault = none;
  set_arrived = true;
  server = λ user_id org_id. responded 500 (err (codes "down"));
}

-- The limit of the rate is set, to the value that the row has.
abbrev changes : List (Text × ℕ)
changes = (codes "rate_limit_rpm", 60) ∷ []

update_reaches_daemon_example :
    ((update columns executed 5 (some executed) (codes "u1") changes (row ∷ []) []).2
      ≡ codes "u1" ∷ [])
    × ((resolve plain entitlements 7
          (answering columns surroundings 7 users
            (update columns executed 5 (some executed) (codes "u1") changes (row ∷ []) []).1)
          (codes "u1")
          (codes "acme")
          (run entitlements (heard (codes "u1" ∷ [])) (record { m = [] }) nothing_kept).0
          (run entitlements (heard (codes "u1" ∷ [])) (record { m = [] }) nothing_kept).1).0
        ≡ ok entitlement)
unfolding update update_row settings is_updatable is_json assign_all publish_update invalidate_user
    Entitlements.resolve resolve_user find_by_id find_by_user_id first_row text_eq entitlement_of
    unmarshal_string_slice user_entitlement
update_reaches_daemon_example =
    update_reaches_daemon columns plain entitlements executed 5 7 (codes "u1") (codes "acme")
      changes surroundings users (row ∷ []) [] (record { m = [] }) nothing_kept entitlement refl
      refl
