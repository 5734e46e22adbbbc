-- ===== src/Cache/Local.antt =====
-- internal/cache/local/local.go. The map holds only `*entry` values, so the type assertion of
-- `Get` does not fail. Times are nanoseconds.
use pangreksa_aigateway.Prelude.{
  ℕ, ◌≤◌, ◌≡◌, if◌then◌else◌, ltb, false, Option, none, some, arith, inl, inr, Bool-cases,
  Option-cases, [],
}
use pangreksa_aigateway.Prelude.Texts.{Text, text_eq_refl}
use pangreksa_aigateway.Prelude.Dict.{
  Dict, lookup, insert, delete, lookup-insert_self, lookup-delete,
}
use pangreksa_aigateway.Model.Entitlement.{UserEntitlement}

pub record Entry (F : Type 0) : Type 0 where
  pub ent : UserEntitlement F

pub record LocalCache (F : Type 0) : Type 0 where
  pub m : Dict (Entry F)

module _ {F : Type 0} where
  abbrev pub new_cache : LocalCache F
  new_cache = record { m = [] }

  -- A miss is `none`; an entry that has expired is removed.
  unfoldable pub get : ℕ → LocalCache F → Text → Option (UserEntitlement F) × LocalCache F
  get now c user_id = elim (lookup user_id c.m) [
    | none ↦ (none, c)
    | some e ↦
        if ltb e.ent.expires_at now
        then (none, record { m = delete user_id c.m })
        else (some e.ent, c)
  ]

  unfoldable pub set : LocalCache F → UserEntitlement F → LocalCache F
  set c ent = record { m = insert ent.user_id (record { ent = ent }) c.m }

  unfoldable pub delete_user : LocalCache F → Text → LocalCache F
  delete_user c user_id = record { m = delete user_id c.m }

  -- What was set is read until it expires.
  pub get-set :
      (now : ℕ) (c : LocalCache F) (ent : UserEntitlement F)
      → now ≤ ent.expires_at
      → get now (set c ent) ent.user_id ≡ (some ent, set c ent)
  unfolding get set
  get-set now c ent h =
      let e = lookup-insert_self ent.user_id (record { ent = ent }) c.m in
      let live : ltb ent.expires_at now ≡ false = ground arith in rw (e, get, live)

  pub get-delete_user :
      (now : ℕ) (c : LocalCache F) (user_id : Text)
      → get now (delete_user c user_id) user_id ≡ (none, delete_user c user_id)
  unfolding get delete_user
  get-delete_user now c user_id =
      let gone : lookup user_id (delete user_id c.m) ≡ none =
        rw (lookup-delete user_id user_id c.m, text_eq_refl user_id) in
      rw (gone, get)

  -- A hit is repeated, on an unchanged cache, until it expires.
  pub get_again :
      (now later : ℕ) (c : LocalCache F) (user_id : Text) (ent : UserEntitlement F)
      → (get now c user_id).0 ≡ some ent
      → later ≤ ent.expires_at
      → get later (get now c user_id).1 user_id ≡ (some ent, (get now c user_id).1)
  unfolding get
  get_again now later c user_id ent h fresh = elim (Option-cases (lookup user_id c.m)) [
    | inl e ↦ ground (arith, e)
    | inr (x, e) ↦ elim (Bool-cases (ltb x.ent.expires_at now)) [
      | inl old ↦ ground (arith, e, old)
      | inr new ↦ ground (arith, e, new)
    ]
  ]
