-- ===== src/Server/Entitlements/Resolved.antt =====
-- service.go: what an entitlement that is resolved says.
use pangreksa_aigateway.Prelude.{
  ◌+◌, ℕ, ◌≡◌, refl, sym, ap, ◌∙◌, ◌⊎◌, Bool, true, List, [], ◌∷◌, ◌==◌, Option, none, some, Result,
  ok, err, length, arith, inl, inr, Bool-cases, Result-cases, ◌>>=◌,
}
use mathlib.Core.Path.{subst}
use pangreksa_aigateway.Prelude.Texts.{Text, codes, text_eq, text_eq_sound}
use pangreksa_aigateway.Prelude.Actions.{map_err-ok, ok_injective}
use pangreksa_aigateway.Model.Entitlement.{UserEntitlement}
use pangreksa_aigateway.Server.Http.{Lookup, found, not_found, broken}
use pangreksa_aigateway.Server.Auth.Sessions.{
  User, first_row, query_result, find_by_uuid, find_by_id,
}
use pangreksa_aigateway.Server.Entitlements.{
  entitlement_ttl, user_entitlement, resolved, in_org, resolve_user, resolve,
}
use pangreksa_aigateway.Server.Entitlements.Rows.{
  EntitlementRow, Entitlement, Columns, find_by_user_id, read_row, broken_unless, entitlement_of,
  column, unmarshal_string_slice,
}

-- A row that is found has the property.
pub first_row-holds :
    {A : Type 0} (test : A → Bool) (rows : List A) (a : A)
    → first_row test rows ≡ some a
    → test a ≡ true
unfolding first_row
first_row-holds test [] a h = cc
first_row-holds test (r ∷ rows) a h = elim (Bool-cases (test r)) [
  | inl e ↦ let same = some_injective r a (rw (e) at h) in subst (λ x. test x ≡ true) same e
  | inr e ↦ first_row-holds test rows a (rw e at h)
]
  where
    some_injective : {A : Type 0} (x y : A) → some x ≡ some y → x ≡ y
    some_injective x y p = cc p

module _ {V F : Type 0} (columns : Columns V F) where
  -- What an entitlement that `Resolve` returns says.
  pub record Belongs (now : ℕ) (user_id org_id : Text) (users : List User)
      (rows : List (EntitlementRow F)) (ent : UserEntitlement F) : Type 0 where
    pub user : User
    pub row : EntitlementRow F
    pub key : Text
    pub named : columns.uuid user_id ≡ ok key
    pub registered : first_row (λ u. text_eq u.id key) users ≡ some user
    pub member : (length org_id ≡ 0) ⊎ (user.org_id ≡ org_id)
    pub stored : first_row (λ r. text_eq r.user_id key) rows ≡ some row
    pub own : ent.user_id ≡ key
    pub prompts : unmarshal_string_slice columns row.raw_prompts ≡ ok ent.allowed_prompts
    pub skills : unmarshal_string_slice columns row.raw_skills ≡ ok ent.allowed_skills
    pub mcps : unmarshal_string_slice columns row.raw_mcps ≡ ok ent.allowed_mcps
    pub until : ent.expires_at ≡ now + entitlement_ttl

  query-found :
      {A : Type 0} (method : Text) (o : Option A) (a : A)
      → query_result method none o ≡ found a
      → o ≡ some a
  query-found method none a h = cc
  query-found method (some b) a h = cc

  -- A row that is found by a UUID.
  by_uuid-found :
      {A : Type 0} (uuid : Text → Result Text) (method : Text) (column : A → Text)
      (fault : Option Text) (id : Text) (rows : List A) (a : A)
      → find_by_uuid uuid method column fault id rows ≡ found a
      → (key : Text) × (uuid id ≡ ok key)
        × (first_row (λ row. text_eq (column row) key) rows ≡ some a)
  unfolding find_by_uuid
  by_uuid-found uuid method column (some e) id rows a h = cc
  by_uuid-found uuid method column none id rows a h = elim (Result-cases (uuid id)) [
    | inr (e, bad) ↦ absurd (cc (rw (bad, find_by_uuid) at h))
    | inl (key, named) ↦ (
      key,
      named,
      query-found method (first_row (λ row. text_eq (column row) key) rows) a
          (rw (named, find_by_uuid) at h),
    )
  ]

  broken_unless-found :
      {A : Type 0} (r : Result A) (a : A) → broken_unless columns r ≡ found a → r ≡ ok a
  broken_unless-found (ok b) a h = cc
  broken_unless-found (err e) a h = cc

  read_row-found :
      (l : Lookup (EntitlementRow F)) (ent : Entitlement F)
      → read_row columns l ≡ found ent
      → (row : EntitlementRow F) × (l ≡ found row) × (entitlement_of columns row ≡ ok ent)
  read_row-found (found row) ent h =
      (row, refl, broken_unless-found (entitlement_of columns row) ent h)
  read_row-found (not_found e) ent h = cc
  read_row-found (broken e) ent h = cc

  resolve_user-found :
      (fault : Option Text) (now : ℕ) (user_id org_id : Text) (rows : List (EntitlementRow F))
      (l : Lookup User) (ent : UserEntitlement F)
      → resolve_user columns fault now user_id org_id rows l ≡ found ent
      → (u : User) × (l ≡ found u)
        × (in_org columns org_id u ≡ true)
        × (resolved columns now (find_by_user_id columns fault user_id rows) ≡ found ent)
  unfolding resolve_user
  resolve_user-found fault now user_id org_id rows (not_found e) ent h = cc
  resolve_user-found fault now user_id org_id rows (broken e) ent h = cc
  resolve_user-found fault now user_id org_id rows (found u) ent h =
      elim (Bool-cases (in_org columns org_id u)) [
        | inl good ↦ (u, refl, good, rw good at h)
        | inr bad ↦ absurd (cc (rw bad at h))
      ]

  resolved-found :
      (now : ℕ) (l : Lookup (Entitlement F)) (ent : UserEntitlement F)
      → resolved columns now l ≡ found ent
      → (e : Entitlement F) × (l ≡ found e) × (user_entitlement columns now e ≡ ent)
  resolved-found now (found e) ent h = (e, refl, cc h)
  resolved-found now (not_found e) ent h = cc
  resolved-found now (broken e) ent h = cc

  chain-ok :
      {A B : Type 0} (m : Result A) (f : A → Result B) (b : B)
      → (m >>= f) ≡ ok b
      → (a : A) × (m ≡ ok a) × (f a ≡ ok b)
  chain-ok (ok a) f b h = (a, refl, h)
  chain-ok (err e) f b h = cc

  entitlement_of-ok :
      (row : EntitlementRow F) (ent : Entitlement F)
      → entitlement_of columns row ≡ ok ent
      → (ent.row ≡ row)
        × (unmarshal_string_slice columns row.raw_prompts ≡ ok ent.allowed_prompts)
        × (unmarshal_string_slice columns row.raw_skills ≡ ok ent.allowed_skills)
        × (unmarshal_string_slice columns row.raw_mcps ≡ ok ent.allowed_mcps)
  unfolding entitlement_of
  entitlement_of-ok row ent h =
      let (prompts, p, h₁) =
        chain-ok (column columns (codes "allowed_prompts") row.raw_prompts) _ ent h in
      let (skills, s, h₂) =
        chain-ok (column columns (codes "allowed_skills") row.raw_skills) _ ent h₁ in
      let (mcps, m, h₃) = chain-ok (column columns (codes "allowed_mcps") row.raw_mcps) _ ent h₂ in
      let (perms, _, h₄) = chain-ok (column columns (codes "permissions") row.raw_perms) _ ent h₃ in
      let same = ok_injective _ ent h₄ in
      (
        ap (λ (e : Entitlement F). e.row) (sym same),
        map_err-ok _ _ prompts p ∙ ap (λ (e : Entitlement F). ok e.allowed_prompts) same,
        map_err-ok _ _ skills s ∙ ap (λ (e : Entitlement F). ok e.allowed_skills) same,
        map_err-ok _ _ mcps m ∙ ap (λ (e : Entitlement F). ok e.allowed_mcps) same,
      )

  -- An entitlement that `Resolve` returns is that of a registered user, the one whose UUID the text asked
  -- for spells, in the organisation asked for if one is named. It is read from this user's row: it has
  -- the UUID in PostgreSQL's spelling and the row's allowed prompts, skills and MCP servers, and ends
  -- five minutes later.
  pub resolve-Belongs :
      (user_fault fault : Option Text) (now : ℕ) (user_id org_id : Text) (users : List User)
      (rows : List (EntitlementRow F)) (ent : UserEntitlement F)
      → resolve columns user_fault fault now user_id org_id users rows ≡ found ent
      → Belongs now user_id org_id users rows ent
  unfolding resolve find_by_user_id find_by_id user_entitlement
  resolve-Belongs user_fault fault now user_id org_id users rows ent h =
      let (u, looked, inside, rest) =
        resolve_user-found fault now user_id org_id rows
          (find_by_id columns.uuid user_fault user_id users) ent h in
      let (e, read, same) =
        resolved-found now (find_by_user_id columns fault user_id rows) ent rest in
      let (row, stored, decoded) =
        read_row-found
          (find_by_uuid columns.uuid (codes "EntitlementRepository.FindByUserID")
            (λ (r : EntitlementRow F). r.user_id) fault user_id rows)
          e read in
      let (same_row, prompts, skills, mcps) = entitlement_of-ok row e decoded in
      let (key, named, at_user) =
        by_uuid-found columns.uuid (codes "UserRepository.FindByID") (λ (v : User). v.id) user_fault
          user_id users u looked in
      let (other, again, at_row) =
        by_uuid-found columns.uuid (codes "EntitlementRepository.FindByUserID")
          (λ (r : EntitlementRow F). r.user_id) fault user_id rows row stored in
      let one : other ≡ key = ok_injective other key (sym again ∙ named) in
      record {
        user = u;
        row = row;
        key = key;
        named = named;
        registered = at_user;
        member = elim (Bool-cases (length org_id == 0)) [
          | inl none_named ↦ inl (ground (arith, none_named))
          | inr some_named ↦
              inr (text_eq_sound u.org_id org_id (ground (arith, some_named, inside)))
        ];
        stored = subst (λ k. first_row (λ r. text_eq r.user_id k) rows ≡ some row) one at_row;
        own =
            ap (λ (v : UserEntitlement F). v.user_id) (sym same)
            ∙ ap (λ (r : EntitlementRow F). r.user_id) same_row
            ∙ text_eq_sound row.user_id other
                (first_row-holds (λ r. text_eq r.user_id other) rows row at_row)
            ∙ one;
        prompts = prompts ∙ ap (λ (v : UserEntitlement F). ok v.allowed_prompts) same;
        skills = skills ∙ ap (λ (v : UserEntitlement F). ok v.allowed_skills) same;
        mcps = mcps ∙ ap (λ (v : UserEntitlement F). ok v.allowed_mcps) same;
        until = ap (λ (v : UserEntitlement F). v.expires_at) (sym same);
      }
