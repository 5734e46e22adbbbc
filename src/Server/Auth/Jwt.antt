-- ===== src/Server/Auth/Jwt.antt =====
-- internal/server/auth/jwt.go. Bytes are texts. encoding/json, base64 and HMAC-SHA256 come as a
-- `Jose`; a time is in seconds since 1970, and `none` of a random source is an error.
pub mod Tokens
use pangreksa_aigateway.Prelude.{
  ℕ, ◌+◌, Bool, true, false, List, [], ◌∷◌, ◌++◌, ◌==◌, if◌then◌else◌, Option, none, some, Result,
  ok, err, length,
}
use pangreksa_aigateway.Prelude.Texts.{Text, codes, text_eq, split}
use pangreksa_aigateway.Prelude.Int.{ℤ, pos, negsuc, eqb_ℤ, ltb_ℤ}
use pangreksa_aigateway.Model.Format.{Format}

pub record Claims : Type 0 where
  pub user_id : Text
  pub org_id : Text
  pub email : Text
  pub perms : List Text
  pub exp : ℤ
  pub iat : ℤ

pub record Jose : Type 0 where
  pub marshal : Claims → Result Text
  pub unmarshal : Text → Result Claims
  pub encode : Text → Text  -- base64.RawURLEncoding
  pub decode : Text → Result Text
  pub hmac : Text → Text → Text  -- of the secret and the input
  pub hex : Text → Text

unfoldable pub generate_refresh_token : Jose → Result Text → Result Text
generate_refresh_token jose (err e) = err (codes "GenerateRefreshToken: read random bytes: " ++ e)
generate_refresh_token jose (ok buf) = ok (jose.hex buf)

-- The claims as `Sign` completes them.
unfoldable pub stamped : ℕ → Claims → Claims
stamped now c = record c {
  iat = if eqb_ℤ c.iat (pos 0) then pos now else c.iat;
  exp = if eqb_ℤ c.exp (pos 0) then pos (now + 900) else c.exp;
}

module _ (fmt : Format) (jose : Jose) where
  unfoldable pub jwt_header : Text
  jwt_header = jose.encode (codes "{\"alg\":\"HS256\",\"typ\":\"JWT\"}")

  -- The method `sign`; a hash takes every input.
  unfoldable pub sign_input : Text → Text → Text
  sign_input secret input = jose.encode (jose.hmac secret input)

  abbrev pub signing_input : Text → Text → Text
  signing_input header payload = header ++ (b'.' ∷ payload)

  -- The method `Sign`.
  unfoldable pub sign : Text → ℕ → Claims → Result Text
  sign secret now claims = elim (jose.marshal (stamped now claims)) [
    | err e ↦ err (codes "JWTService.Sign: marshal claims: " ++ e)
    | ok b ↦
        let input = signing_input jwt_header (jose.encode b) in
        ok (input ++ (b'.' ∷ sign_input secret input))
  ]

  unfoldable pub check_exp : ℕ → Claims → Result Claims
  check_exp now claims =
      if ltb_ℤ claims.exp (pos now)
      then err (codes "JWTService.Validate: token has expired")
      else ok claims

  unfoldable pub read_claims : ℕ → Text → Result Claims
  read_claims now b = elim (jose.unmarshal b) [
    | err e ↦ err (codes "JWTService.Validate: unmarshal claims: " ++ e)
    | ok claims ↦ check_exp now claims
  ]

  unfoldable pub read_payload : ℕ → Text → Result Claims
  read_payload now payload = elim (jose.decode payload) [
    | err e ↦ err (codes "JWTService.Validate: decode payload: " ++ e)
    | ok b ↦ read_claims now b
  ]

  unfoldable pub malformed : ℕ → Result Claims
  malformed n =
      err (
        codes "JWTService.Validate: malformed token: expected 3 parts, got "
        ++ fmt.show_int (pos n))

  unfoldable pub validate_parts : Text → ℕ → List Text → Result Claims
  validate_parts secret now (header ∷ payload ∷ signature ∷ []) =
      if text_eq signature (sign_input secret (signing_input header payload))
      then read_payload now payload
      else err (codes "JWTService.Validate: invalid signature")
  validate_parts secret now parts = malformed (length parts)

  -- The method `Validate`.
  unfoldable pub validate : Text → ℕ → Text → Result Claims
  validate secret now token = validate_parts secret now (split b'.' token)
