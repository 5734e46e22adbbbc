-- ===== src/Server/Repository/Keys.antt =====
-- request_log.go and cost_record.go: what an insert that does nothing on a conflict keeps.
use pangreksa_aigateway.Prelude.{
  ◌≡◌, refl, Bool, true, ◌||◌, List, [], ◌∷◌, ◌++◌, any, arith, inl, inr, Bool-cases,
}
use pangreksa_aigateway.Server.Repository.{insert_new}

module _ {R : Type 0} (same : R → R → Bool) where
  any-append :
      (p : R → Bool) (rows more : List R) → any p (rows ++ more) ≡ (any p rows || any p more)
  any-append p [] more = refl
  any-append p (row ∷ rows) more = ground (arith, any-append p rows more)

  -- After the insert a row with the key is there, and the rows of before still are.
  pub insert_new-any :
      (row : R) (rows : List R)
      → same row row ≡ true
      → any (same row) (insert_new same row rows) ≡ true
  unfolding insert_new
  insert_new-any row rows own = elim (Bool-cases (any (same row) rows)) [
    | inl old ↦ rw (old, old)
    | inr new ↦ rw new (ground (arith, any-append (same row) rows (row ∷ []), own))
  ]

  pub any-insert_new :
      (p : R → Bool) (row : R) (rows : List R)
      → any p rows ≡ true
      → any p (insert_new same row rows) ≡ true
  unfolding insert_new
  any-insert_new p row rows h = elim (Bool-cases (any (same row) rows)) [
    | inl old ↦ rw old h
    | inr new ↦ rw new (ground (arith, any-append p rows (row ∷ []), h))
  ]

  -- A second insert with this key does nothing.
  pub insert_new_again :
      (row : R) (rows : List R) → any (same row) rows ≡ true → insert_new same row rows ≡ rows
  unfolding insert_new
  insert_new_again row rows h = rw h
