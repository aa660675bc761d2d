-- ===== src/PinProtocol.antt =====
-- src/crypto/mod.rs: the two PIN protocols and the shared secret. AES, HMAC, SHA-256 and the random
-- bytes are computed by a cryptographic library, which the repository's thin wrappers of these names
-- (src/crypto/nss.rs, openssl.rs and dummy.rs, one chosen by the build) call; the wrappers are an
-- argument.
mod Tests
pub mod RoundTrip
use authenticator_rs.Common.{
  ℕ, List, [], ◌∷◌, ◌++◌, Bool, Option, none, some, ◌⊎◌, inl, inr, ◌==◌, ltb, ◌||◌, not, length,
  take, drop, replicate, if◌then◌else◌,
}
use authenticator_rs.ClientPin.{PinUvAuthProtocol, pin_uv_auth1, pin_uv_auth2}
use authenticator_rs.Der.{CryptoError, library_failure}

-- The wrappers of the backend that the build has chosen; `random_bytes` is what one call of it gives.
pub record Backend : Type 0 where
  pub encrypt_aes_256_cbc_no_pad : List ℕ → Option (List ℕ) → List ℕ → CryptoError ⊎ List ℕ
  pub decrypt_aes_256_cbc_no_pad : List ℕ → Option (List ℕ) → List ℕ → CryptoError ⊎ List ℕ
  pub hmac_sha256 : List ℕ → List ℕ → CryptoError ⊎ List ℕ
  pub sha256 : List ℕ → CryptoError ⊎ List ℕ
  pub random_bytes : ℕ → CryptoError ⊎ List ℕ

-- `?`
infixl 5 ◌>>=◌
abbrev pub ◌>>=◌ : {A B : Type 0} → CryptoError ⊎ A → (A → CryptoError ⊎ B) → CryptoError ⊎ B
inr a >>= f = f a
inl e >>= f = inl e

-- "CTAP2 HMAC key\x01" and "CTAP2 AES key\x01"
abbrev pub hmac_key_info : List ℕ
hmac_key_info = 67 ∷ 84 ∷ 65 ∷ 80 ∷ 50 ∷ 32 ∷ 72 ∷ 77 ∷ 65 ∷ 67 ∷ 32 ∷ 107 ∷ 101 ∷ 121 ∷ 1 ∷ []

abbrev pub aes_key_info : List ℕ
aes_key_info = 67 ∷ 84 ∷ 65 ∷ 80 ∷ 50 ∷ 32 ∷ 65 ∷ 69 ∷ 83 ∷ 32 ∷ 107 ∷ 101 ∷ 121 ∷ 1 ∷ []

module _ (backend : Backend) where
  unfoldable pub encrypt : PinUvAuthProtocol → List ℕ → List ℕ → CryptoError ⊎ List ℕ
  encrypt pin_uv_auth1 key plaintext = backend.encrypt_aes_256_cbc_no_pad key none plaintext
  encrypt pin_uv_auth2 key plaintext = if not (length key == 64) then inl library_failure else do
    iv ← backend.random_bytes 16
    ct ← backend.encrypt_aes_256_cbc_no_pad (take 32 (drop 32 key)) (some iv) plaintext
    inr (iv ++ ct)

  unfoldable pub decrypt : PinUvAuthProtocol → List ℕ → List ℕ → CryptoError ⊎ List ℕ
  decrypt pin_uv_auth1 key ciphertext = backend.decrypt_aes_256_cbc_no_pad key none ciphertext
  decrypt pin_uv_auth2 key ciphertext =
      if ltb (length key) 64 || ltb (length ciphertext) 16
      then inl library_failure
      else backend.decrypt_aes_256_cbc_no_pad (take 32 (drop 32 key)) (some (take 16 ciphertext))
          (drop 16 ciphertext)

  unfoldable pub authenticate : PinUvAuthProtocol → List ℕ → List ℕ → CryptoError ⊎ List ℕ
  authenticate pin_uv_auth1 key message = do
    hmac ← backend.hmac_sha256 key message
    inr (take 16 hmac)
  authenticate pin_uv_auth2 key message =
      if ltb (length key) 32 then inl library_failure else backend.hmac_sha256 (take 32 key) message

  unfoldable pub kdf : PinUvAuthProtocol → List ℕ → CryptoError ⊎ List ℕ
  kdf pin_uv_auth1 z = backend.sha256 z
  kdf pin_uv_auth2 z = do
    prk ← backend.hmac_sha256 (replicate 32 0) z
    hmac_key ← backend.hmac_sha256 prk hmac_key_info
    aes_key ← backend.hmac_sha256 prk aes_key_info
    inr (hmac_key ++ aes_key)
