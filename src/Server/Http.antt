-- ===== src/Server/Http.antt =====
-- internal/server/api/handler.go: requests, responses, and the helpers of the handlers. net/http and
-- encoding/json are read as follows: a request shows its Authorization header, with "" for none, and
-- its body, if it has one.
use pangreksa_aigateway.Prelude.{
  ℕ, Bool, ◌&&◌, [], ◌∷◌, ◌++◌, Option, none, some, Result, err, ◌⊎◌, inl, inr, ◌≡◌, refl,
}
use pangreksa_aigateway.Prelude.Texts.{Text, codes, text_eq, has_prefix}

pub record Request : Type 0 where
  pub authorization : Text
  pub body : Option Text

pub record Response : Type 0 where
  pub status : ℕ
  pub body : Text

abbrev pub bearer : Text
bearer = codes "Bearer "

-- The text behind a prefix of this text's length.
unfoldable pub behind : Text → Text → Text
behind [] s = s
behind (p ∷ ps) [] = []
behind (p ∷ ps) (c ∷ s) = behind ps s

-- `checkBearer`
unfoldable pub check_bearer : Request → Text → Bool
check_bearer r expected_key =
    has_prefix r.authorization bearer && text_eq (behind bearer r.authorization) expected_key

-- `decodeJSON`, by the decoder of the wanted type.
unfoldable pub decode_json : {A : Type 0} → (Text → Result A) → Request → Result A
decode_json decode r = elim r.body [
  | none ↦ err (codes "empty request body")
  | some text ↦ decode text
]

-- `writeJSON`: what the encoder gives for the value follows the status; it is "" if the encoder fails.
abbrev pub write_json : ℕ → Text → Response
write_json status text = record { status = status; body = text }

-- `writeError`, where `errors` encodes an `errorResponse`.
abbrev pub write_error : (Text → Text) → ℕ → Text → Response
write_error errors status message = write_json status (errors message)

-- What a look-up in the database ends with: `model.ErrNotFound` is told from other errors.
pub data Lookup (A : Type 0) : Type 0 where
  found : A → Lookup A
  not_found : Text → Lookup A
  broken : Text → Lookup A

pub Lookup-cases :
    {A : Type 0} (l : Lookup A)
    → ((a : A) × (l ≡ found a)) ⊎ ((e : Text) × (l ≡ not_found e)) ⊎ ((e : Text) × (l ≡ broken e))
Lookup-cases (found a) = inl (a, refl)
Lookup-cases (not_found e) = inr (inl (e, refl))
Lookup-cases (broken e) = inr (inr (e, refl))

-- `fmt.Errorf("...: %w", err)`
abbrev pub in_context : {A : Type 0} → Text → Lookup A → Lookup A
in_context prefix (found a) = found a
in_context prefix (not_found e) = not_found (prefix ++ e)
in_context prefix (broken e) = broken (prefix ++ e)

-- A handler's answer to a look-up: 404 with its own message, or 500.
abbrev pub answer_lookup :
    {A : Type 0} → (Text → Text) → Text → (A → Response) → Lookup A → Response
answer_lookup errors missing answer (found a) = answer a
answer_lookup errors missing answer (not_found e) = write_error errors 404 missing
answer_lookup errors missing answer (broken e) = write_error errors 500 (codes "internal error")
