-- ===== src/Tests/Entitlements.antt =====
-- Runs of the three tiers.
use pangreksa_aigateway.Prelude.{ℕ, ◌≡◌, refl, true, [], none, some, ok, err, map_err, arith, ◌++◌}
use pangreksa_aigateway.Prelude.Texts.{codes, text_eq}
use pangreksa_aigateway.Prelude.Dict.{lookup, insert}
use pangreksa_aigateway.Cache.Local.{LocalCache}
use pangreksa_aigateway.Cache.Local
use pangreksa_aigateway.Cache.Redis
use pangreksa_aigateway.Cache.Invalidation.{Invalidation, evict}
use pangreksa_aigateway.Entitlement.{
  responded, Surroundings, read_reply, fetch_from_server, resolve_remote, resolve,
}
use pangreksa_aigateway.Entitlement.Tiers.{evict-resolve, resolve_again}
use pangreksa_aigateway.Tests.Instances.{plain, entitlements, alice}

abbrev nothing_kept : entitlements.Store
nothing_kept k = none

abbrev empty : LocalCache ℕ
empty = record { m = [] }

abbrev serving : Surroundings ℕ
serving = record {
  get_fault = none;
  set_fault = none;
  set_arrived = true;
  server = λ user_id org_id. responded 200 (ok alice);
}

abbrev refusing : Surroundings ℕ
refusing = record {
  get_fault = some (codes "connection refused");
  set_fault = none;
  set_arrived = true;
  server = λ user_id org_id. responded 403 (err (codes "EOF"));
}

abbrev eviction : Invalidation
eviction = record { user_id = codes "alice"; fault = none; arrived = true }

abbrev warm : LocalCache ℕ
warm = Local.set empty alice

evict-resolve_example :
    (resolve plain entitlements 7 refusing
      (codes "alice")
      (codes "acme")
      (evict entitlements eviction warm nothing_kept).0
      (evict entitlements eviction warm nothing_kept).1).0
    ≡ map_err
        (λ e. codes "entitlement.Resolve: L3 fetch: " ++ e)
        (fetch_from_server plain refusing (codes "alice") (codes "acme"))
evict-resolve_example =
    evict-resolve plain entitlements 7 refusing eviction (codes "acme") warm nothing_kept refl

resolve_again_example :
    resolve plain entitlements 9 refusing
      (codes "alice")
      (codes "other")
      (resolve plain entitlements 7 serving (codes "alice") (codes "acme") empty nothing_kept).1
      (resolve plain entitlements 7 serving (codes "alice") (codes "acme") empty nothing_kept).2
    ≡ (
      ok alice,
      (resolve plain entitlements 7 serving (codes "alice") (codes "acme") empty nothing_kept).1,
      (resolve plain entitlements 7 serving (codes "alice") (codes "acme") empty nothing_kept).2,
    )
unfolding resolve resolve_remote fetch_from_server read_reply Local.get Local.set Redis.get
    Redis.set lookup insert text_eq
resolve_again_example =
    resolve_again plain entitlements 7 9 serving refusing (codes "alice") (codes "acme")
      (codes "other") empty nothing_kept alice refl refl (omega arith)
