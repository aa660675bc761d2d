-- ===== src/PinProtocol/RoundTrip.antt =====
-- What the PIN protocols of src/crypto/mod.rs encrypt, they decrypt.
use authenticator_rs.Common.{
  ℕ, ◌%◌, ◌≤◌, ◌≡◌, refl, List, ◌++◌, Option, none, some, inl, inr, length, take, drop, length-take,
  length-drop, ◌==◌, length-append, take-append, drop-append, arith, ap, replicate, sym, ltb, true,
  false,
}
use authenticator_rs.ClientPin.{PinUvAuthProtocol, pin_uv_auth1, pin_uv_auth2}
use authenticator_rs.Dispatch.Handling.{sum-cases}
use authenticator_rs.PinProtocol.{Backend, encrypt, decrypt, kdf, hmac_key_info, aes_key_info}

abbrev pub IsVectorSize : Option (List ℕ) → Type 0
IsVectorSize none = Unit {0}
IsVectorSize (some iv) = length iv ≡ 16

-- What the wrappers of the cryptographic library keep to: the lengths of digests, codes and random
-- bytes, and that AES-256 in CBC mode takes whole blocks under a key of 32 bytes, up to some length,
-- and turns back what it made of them. nss.rs refuses a text whose length a C integer cannot hold.
pub record Laws (backend : Backend) : Type 0 where
  pub max_length : ℕ
  pub hmac_sha256_length :
      (key message hmac : List ℕ) → backend.hmac_sha256 key message ≡ inr hmac → length hmac ≡ 32
  pub sha256_length : (z digest : List ℕ) → backend.sha256 z ≡ inr digest → length digest ≡ 32
  pub random_bytes_length :
      (n : ℕ) (bytes : List ℕ) → backend.random_bytes n ≡ inr bytes → length bytes ≡ n
  pub aes :
      (key : List ℕ) (iv : Option (List ℕ)) (bytes : List ℕ)
      → length key ≡ 32
      → IsVectorSize iv
      → length bytes % 16 ≡ 0
      → length bytes ≤ max_length
      → (ct : List ℕ) × (backend.encrypt_aes_256_cbc_no_pad key iv bytes ≡ inr ct)
        × (backend.decrypt_aes_256_cbc_no_pad key iv ct ≡ inr bytes)

module _ (backend : Backend) (laws : Laws backend) where
  length-kdf : (z key : List ℕ) → kdf backend pin_uv_auth2 z ≡ inr key → length key ≡ 64
  unfolding kdf
  length-kdf z key = elim (sum-cases (backend.hmac_sha256 (replicate 32 0) z)) [
    | inl (e, p) ↦ rw (kdf, p) (λ h. ground arith)
    | inr (prk, p) ↦ elim (sum-cases (backend.hmac_sha256 prk hmac_key_info)) [
      | inl (e, q) ↦ rw (kdf, p, q) (λ h. ground arith)
      | inr (hmac_key, q) ↦ elim (sum-cases (backend.hmac_sha256 prk aes_key_info)) [
        | inl (e, r) ↦ rw (kdf, p, q, r) (λ h. ground arith)
        | inr (aes_key, r) ↦
            let m = laws.hmac_sha256_length prk hmac_key_info hmac_key q in
            let n = laws.hmac_sha256_length prk aes_key_info aes_key r in
            let l = length-append hmac_key aes_key in
            rw (kdf, p, q, r)
              (λ h.
                let e : hmac_key ++ aes_key ≡ key = cc in
                let k : length (hmac_key ++ aes_key) ≡ length key = ap length e in omega arith)
      ]
    ]
  ]

  -- A text of whole blocks that a PIN protocol encrypts is read back by the same protocol, under
  -- every key that its `kdf` has made: neither of the two fails, if 16 random bytes are there, the
  -- text is not longer than the wrappers of the cryptographic library take, and they keep to their
  -- laws of digests, random bytes and AES.
  pub decrypt-encrypt :
      (p : PinUvAuthProtocol) (z key plaintext iv : List ℕ)
      → kdf backend p z ≡ inr key
      → backend.random_bytes 16 ≡ inr iv
      → length plaintext % 16 ≡ 0
      → length plaintext ≤ laws.max_length
      → (ct : List ℕ) × (encrypt backend p key plaintext ≡ inr ct)
        × (decrypt backend p key ct ≡ inr plaintext)
  unfolding kdf encrypt decrypt
  decrypt-encrypt pin_uv_auth1 z key plaintext iv k r m short =
      laws.aes key none plaintext (laws.sha256_length z key k) tt m short
  decrypt-encrypt pin_uv_auth2 z key plaintext iv k r m short =
      let l = length-kdf z key k in
      let n = laws.random_bytes_length 16 iv r in
      let half : length (take 32 (drop 32 key)) ≡ 32 =
        omega (arith, length-take 32 (drop 32 key), length-drop 32 key) in
      let (ct, e, d) = laws.aes (take 32 (drop 32 key)) (some iv) plaintext half n m short in
      let long = length-append iv ct in
      let first : take 16 (iv ++ ct) ≡ iv = take-append 16 iv ct (sym n) in
      let last : drop 16 (iv ++ ct) ≡ ct = drop-append 16 iv ct (sym n) in
      let whole : (length key == 64) ≡ true = ground arith in
      let big : (ltb (length key) 64) ≡ false = ground arith in
      let enough : (ltb (length (iv ++ ct)) 16) ≡ false = ground arith in
      (iv ++ ct, rw (encrypt, whole, r, e) refl, rw (decrypt, big, enough, first, last) d)
