-- ===== src/Server/Auth/Jwt/Tokens.antt =====
-- jwt.go: which tokens are accepted.
use mathlib.Core.Path.{subst}
use pangreksa_aigateway.Prelude.{
  ℕ, ◌≡◌, sym, ap, ◌∙◌, false, List, [], ◌∷◌, ◌++◌, ok, arith, inl, inr, Bool-cases, Result-cases,
}
use mathlib.Core.List.{append_assoc}
use pangreksa_aigateway.Prelude.Texts.{Text, codes, text_eq, text_eq_refl, text_eq_sound, split}
use pangreksa_aigateway.Prelude.Int.{pos, ltb_ℤ, ◌≤ℤ◌}
use pangreksa_aigateway.Prelude.Splitting.{Lacks, join, split-free, split-append, join-split}
use pangreksa_aigateway.Prelude.Actions.{ok_injective}
use pangreksa_aigateway.Model.Format.{Format}
use pangreksa_aigateway.Server.Auth.Jwt.{
  Claims, Jose, stamped, jwt_header, sign_input, signing_input, sign, check_exp, read_claims,
  read_payload, malformed, validate_parts, validate,
}

module _ (fmt : Format) (jose : Jose) where
  -- What the code relies on in base64: decoding undoes encoding, and there is no dot in an encoding.
  pub record Laws : Type 0 where
    pub decode-encode : (b : Text) → jose.decode (jose.encode b) ≡ ok b
    pub encode-lacks : (b : Text) → Lacks b'.' (jose.encode b)

  split-token :
      Laws
      → (a b c : Text)
      → split b'.'
          (signing_input fmt jose (jose.encode a) (jose.encode b) ++ (b'.' ∷ jose.encode c))
        ≡ jose.encode a ∷ jose.encode b ∷ jose.encode c ∷ []
  split-token laws a b c =
      ap (split b'.') (append_assoc (jose.encode a) (b'.' ∷ jose.encode b) (b'.' ∷ jose.encode c))
      ∙ split-append b'.' (jose.encode a) (jose.encode b ++ (b'.' ∷ jose.encode c))
          (laws.encode-lacks a)
      ∙ ap (λ (l : List Text). jose.encode a ∷ l)
          (split-append b'.' (jose.encode b) (jose.encode c) (laws.encode-lacks b)
            ∙ ap (λ (l : List Text). jose.encode b ∷ l)
                (split-free b'.' (jose.encode c) (laws.encode-lacks c)))

  validate_parts-signed :
      (secret : Text) (now : ℕ) (header payload : Text)
      → validate_parts fmt jose secret now (
          header
          ∷ payload
          ∷ sign_input fmt jose secret (signing_input fmt jose header payload)
          ∷ [])
        ≡ read_payload fmt jose now payload
  unfolding validate_parts
  validate_parts-signed secret now header payload =
      rw (text_eq_refl (sign_input fmt jose secret (signing_input fmt jose header payload)))

  read_payload-live :
      (now : ℕ) (claims : Claims) (payload b : Text)
      → jose.decode payload ≡ ok b
      → jose.unmarshal b ≡ ok claims
      → pos now ≤ℤ claims.exp
      → read_payload fmt jose now payload ≡ ok claims
  unfolding read_payload read_claims check_exp
  read_payload-live now claims payload b plain decoded live =
      let live' : ltb_ℤ claims.exp (pos now) ≡ false = ground arith in
      rw (plain, read_payload) (rw (decoded, read_claims, live'))

  signed-token :
      (secret : Text) (now : ℕ) (claims : Claims) (b token : Text)
      → jose.marshal (stamped now claims) ≡ ok b
      → sign fmt jose secret now claims ≡ ok token
      → signing_input fmt jose (jwt_header fmt jose) (jose.encode b)
          ++ (b'.'
              ∷ sign_input fmt jose secret
                  (signing_input fmt jose (jwt_header fmt jose) (jose.encode b)))
        ≡ token
  unfolding sign
  signed-token secret now claims b token marshalled signed =
      ok_injective _ token (rw (marshalled, sign) at signed)

  -- A token that `Sign` gives is accepted by `Validate` with the same secret until it expires, and
  -- yields the claims as they were completed when it was signed, provided that their JSON decodes to
  -- them again.
  pub validate-sign :
      Laws
      → (secret : Text) (now later : ℕ) (claims : Claims) (b token : Text)
      → jose.marshal (stamped now claims) ≡ ok b
      → jose.unmarshal b ≡ ok (stamped now claims)
      → pos later ≤ℤ (stamped now claims).exp
      → sign fmt jose secret now claims ≡ ok token
      → validate fmt jose secret later token ≡ ok (stamped now claims)
  unfolding validate jwt_header sign_input
  validate-sign laws secret now later claims b token marshalled decoded live signed =
      let input = signing_input fmt jose (jwt_header fmt jose) (jose.encode b) in
      ap (λ (t : Text). validate_parts fmt jose secret later (split b'.' t))
        (sym (signed-token secret now claims b token marshalled signed))
      ∙ ap (validate_parts fmt jose secret later) (
          split-token laws (codes "{\"alg\":\"HS256\",\"typ\":\"JWT\"}") b (jose.hmac secret input))
      ∙ validate_parts-signed secret later (jwt_header fmt jose) (jose.encode b)
      ∙ read_payload-live later (stamped now claims) (jose.encode b) b (laws.decode-encode b)
          decoded live

  -- What an accepted token shows.
  pub record Accepted (secret : Text) (now : ℕ) (token : Text) (claims : Claims) : Type 0 where
    pub header : Text
    pub payload : Text
    pub json : Text
    pub parts :
        token
        ≡ signing_input fmt jose header payload
          ++ (b'.' ∷ sign_input fmt jose secret (signing_input fmt jose header payload))
    pub plain : jose.decode payload ≡ ok json
    pub decoded : jose.unmarshal json ≡ ok claims
    pub live : pos now ≤ℤ claims.exp

  read_payload-ok :
      (now : ℕ) (payload : Text) (claims : Claims)
      → read_payload fmt jose now payload ≡ ok claims
      → (json : Text) × (jose.decode payload ≡ ok json)
        × (jose.unmarshal json ≡ ok claims)
        × (pos now ≤ℤ claims.exp)
  unfolding read_payload read_claims check_exp
  read_payload-ok now payload claims h = elim (Result-cases (jose.decode payload)) [
    | inr (m, e) ↦ absurd (cc (h, e))
    | inl (json, e) ↦ elim (Result-cases (jose.unmarshal json)) [
      | inr (m, g) ↦ absurd (cc (h, e, g))
      | inl (c, g) ↦ elim (Bool-cases (ltb_ℤ c.exp (pos now))) [
        | inl late ↦ absurd (ground (arith, e, g, late))
        | inr live ↦
            let same : c ≡ claims = ground (arith, e, g, live) in
            (json, e, g ∙ ap ok same, subst (λ (k : Claims). pos now ≤ℤ k.exp) same (ground arith))
      ]
    ]
  ]

  validate_parts-Accepted :
      (secret : Text) (now : ℕ) (ps : List Text) (claims : Claims)
      → validate_parts fmt jose secret now ps ≡ ok claims
      → Accepted secret now (join b'.' ps) claims
  unfolding validate_parts malformed
  validate_parts-Accepted secret now [] claims h = cc
  validate_parts-Accepted secret now (a ∷ []) claims h = cc
  validate_parts-Accepted secret now (a ∷ b ∷ []) claims h = cc
  validate_parts-Accepted secret now (a ∷ b ∷ c ∷ d ∷ ps) claims h = cc
  validate_parts-Accepted secret now (a ∷ b ∷ c ∷ []) claims h =
      elim (Bool-cases (text_eq c (sign_input fmt jose secret (signing_input fmt jose a b)))) [
        | inr bad ↦ absurd (ground (arith, bad))
        | inl good ↦
            let (json, plain, decoded, live) = read_payload-ok now b claims (rw good at h) in
            record {
              header = a;
              payload = b;
              json = json;
              parts =
                  ap (λ (t : Text). a ++ (b'.' ∷ (b ++ (b'.' ∷ t))))
                    (text_eq_sound c (sign_input fmt jose secret (signing_input fmt jose a b)) good)
                  ∙ sym (append_assoc a (b'.' ∷ b) _);
              plain = plain;
              decoded = decoded;
              live = live;
            }
      ]

  -- `Validate` accepts a token only if it is a header, a payload and the signature of these two under
  -- the secret, with dots between; the payload then decodes to the claims returned, and these have
  -- not expired.
  pub validate-Accepted :
      (secret : Text) (now : ℕ) (token : Text) (claims : Claims)
      → validate fmt jose secret now token ≡ ok claims
      → Accepted secret now token claims
  unfolding validate
  validate-Accepted secret now token claims h =
      subst (λ (t : Text). Accepted secret now t claims) (join-split b'.' token)
        (validate_parts-Accepted secret now (split b'.' token) claims h)
