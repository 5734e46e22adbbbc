-- ===== src/Crypto.antt =====
-- pkg/crypto/crypto.go. AES-256-GCM of the Go library comes as a value of `Aead`; the random nonce,
-- or the failure to read it, is an argument.
pub mod RoundTrip
use pangreksa_aigateway.Prelude.{
  ℕ, zero, suc, ◌+◌, ◌≡◌, Bool, true, false, not, List, [], ◌∷◌, ◌++◌, ◌==◌, ltb, if◌then◌else◌,
  Result, ok, err, map_err, length, ◌>>=◌, ◌*◌,
}
use pangreksa_aigateway.Prelude.Texts.{Text, codes}
use pangreksa_aigateway.Prelude.Int.{pos}
use pangreksa_aigateway.Model.Format.{Format}

abbrev pub Bytes : Type 0
Bytes = List ℕ

abbrev pub key_len : ℕ
key_len = 32

abbrev pub nonce_len : ℕ
nonce_len = 12

-- `Seal` puts a tag of 16 bytes behind the ciphertext, which is as long as the plaintext, and
-- `Open` with the same key and nonce gives the plaintext back.
pub record Aead : Type 0 where
  pub seal : Bytes → Bytes → Bytes → Bytes
  pub open_sealed : Bytes → Bytes → Bytes → Result Bytes
  pub length-seal :
      (key nonce plaintext : Bytes) → length (seal key nonce plaintext) ≡ length plaintext + 16
  pub open_sealed-seal :
      (key nonce plaintext : Bytes)
      → length key ≡ key_len
      → length nonce ≡ nonce_len
      → open_sealed key nonce (seal key nonce plaintext) ≡ ok plaintext

-- `s[:n]` and `s[n:]`, where `n` is at most the length.
unfoldable pub take : ℕ → Bytes → Bytes
take zero s = []
take (suc n) [] = []
take (suc n) (b ∷ s) = b ∷ take n s

unfoldable pub drop : ℕ → Bytes → Bytes
drop zero s = s
drop (suc n) [] = []
drop (suc n) (b ∷ s) = drop n s

module _ (fmt : Format) where
  abbrev pub wrong_key : Text → Bytes → Text
  wrong_key operation key =
      operation
      ++ (codes ": key must be "
          ++ (fmt.show_int (pos key_len)
              ++ (codes " bytes, got " ++ fmt.show_int (pos (length key)))))

module _ (fmt : Format) (a : Aead) where
  unfoldable pub encrypt : Result Bytes → Bytes → Bytes → Result Bytes
  encrypt (err e) key plaintext =
      if not (length key == key_len)
      then err (wrong_key fmt (codes "crypto.Encrypt") key)
      else err (codes "crypto.Encrypt: generate nonce: " ++ e)
  encrypt (ok nonce) key plaintext =
      if not (length key == key_len)
      then err (wrong_key fmt (codes "crypto.Encrypt") key)
      else ok (nonce ++ a.seal key nonce plaintext)

  unfoldable pub decrypt : Bytes → Bytes → Result Bytes
  decrypt key ciphertext =
      if not (length key == key_len)
      then err (wrong_key fmt (codes "crypto.Decrypt") key)
      else if ltb (length ciphertext) (nonce_len + 16)
      then err (
          codes "crypto.Decrypt: ciphertext too short ("
          ++ (fmt.show_int (pos (length ciphertext)) ++ codes " bytes)"))
      else map_err (λ e. codes "crypto.Decrypt: authentication failed: " ++ e)
          (a.open_sealed key (take nonce_len ciphertext) (drop nonce_len ciphertext))

-- `hex_decode` is `hex.DecodeString`.
unfoldable pub key_from_hex : Format → (Text → Result Bytes) → Text → Result Bytes
key_from_hex fmt hex_decode hex_str =
    map_err (λ e. codes "crypto.KeyFromHex: decode hex: " ++ e) (hex_decode hex_str) >>= λ key.
    if not (length key == key_len)
    then err (
        codes "crypto.KeyFromHex: expected "
        ++ (fmt.show_int (pos key_len)
            ++ (codes " bytes, got "
                ++ (fmt.show_int (pos (length key))
                    ++ (codes " (hex string must be "
                        ++ (fmt.show_int (pos (key_len * 2)) ++ codes " chars)"))))))
    else ok key
