-- ===== src/Crypto/RoundTrip.antt =====
-- crypto.go: what `Encrypt` made, `Decrypt` reads.
use pangreksa_aigateway.Prelude.{
  ◌≡◌, refl, ap, [], ◌∷◌, ◌++◌, false, ltb, ◌+◌, ok, length, length-append, arith,
}
use pangreksa_aigateway.Model.Format.{Format}
use pangreksa_aigateway.Crypto.{Bytes, Aead, key_len, nonce_len, take, drop, encrypt, decrypt}

take-append : (s t : Bytes) → take (length s) (s ++ t) ≡ s
unfolding take
take-append [] t = refl
take-append (b ∷ s) t = ap (◌∷◌ b) (take-append s t)

drop-append : (s t : Bytes) → drop (length s) (s ++ t) ≡ t
unfolding drop
drop-append [] t = refl
drop-append (b ∷ s) t = drop-append s t

decrypt-framed :
    (fmt : Format) (a : Aead) (key nonce plaintext : Bytes)
    → length key ≡ key_len
    → length nonce ≡ nonce_len
    → decrypt fmt a key (nonce ++ a.seal key nonce plaintext) ≡ ok plaintext
unfolding decrypt
decrypt-framed fmt a key nonce plaintext k n =
    let sealed = a.seal key nonce plaintext in
    let long : ltb (length (nonce ++ sealed)) (nonce_len + 16) ≡ false =
      ground (arith, length-append nonce sealed, a.length-seal key nonce plaintext) in
    let front : take nonce_len (nonce ++ sealed) ≡ nonce = rw (← n) (take-append nonce sealed) in
    let back : drop nonce_len (nonce ++ sealed) ≡ sealed = rw (← n) (drop-append nonce sealed) in
    rw (k, long, front, back, a.open_sealed-seal key nonce plaintext k n)

-- With a key of 32 bytes and the nonce of 12 bytes that was read, `Encrypt` succeeds, and `Decrypt`
-- under the same key gives the plaintext back, the empty one included.
pub decrypt-encrypt :
    (fmt : Format) (a : Aead) (key nonce plaintext : Bytes)
    → length key ≡ key_len
    → length nonce ≡ nonce_len
    → (c : Bytes) × (encrypt fmt a (ok nonce) key plaintext ≡ ok c)
      × (decrypt fmt a key c ≡ ok plaintext)
unfolding encrypt
decrypt-encrypt fmt a key nonce plaintext k n =
    (nonce ++ a.seal key nonce plaintext, rw k, decrypt-framed fmt a key nonce plaintext k n)
