-- ===== src/PinProtocol/Tests.antt =====
-- The second PIN protocol with a cipher that is none.
use authenticator_rs.Common.{
  ℕ, ◌≡◌, refl, arith, sym, ◌∙◌, ap, ◌⊎◌, List, [], ◌∷◌, ◌++◌, inr, length, replicate,
  length-replicate,
}
use authenticator_rs.ClientPin.{pin_uv_auth2}
use authenticator_rs.Der.{CryptoError}
use authenticator_rs.PinProtocol.{Backend, encrypt, decrypt, kdf}
use authenticator_rs.PinProtocol.RoundTrip.{Laws, decrypt-encrypt}

-- A cipher without a secret, which puts a byte in front and takes it away.
abbrev backend : Backend
backend = record {
  encrypt_aes_256_cbc_no_pad = λ key iv bytes. inr (5 ∷ bytes);
  decrypt_aes_256_cbc_no_pad = λ key iv bytes. elim bytes [ [] ↦ inr [] | b ∷ rest ↦ inr rest ];
  hmac_sha256 = λ key message. inr (replicate 32 (length message));
  sha256 = λ z. inr (replicate 32 1);
  random_bytes = λ n. inr (replicate n 9);
}

digest_length :
    (n a : ℕ) (bytes : List ℕ)
    → ◌≡◌ {A = CryptoError ⊎ List ℕ} (inr (replicate n a)) (inr bytes)
    → length bytes ≡ n
digest_length n a bytes h =
    let e : replicate n a ≡ bytes = cc in sym (ap length e) ∙ length-replicate {A = ℕ} n a

backend-Laws : Laws backend
backend-Laws = record {
  max_length = 0x7fffffff;
  hmac_sha256_length = λ key message hmac h. digest_length 32 (length message) hmac h;
  sha256_length = λ z digest h. digest_length 32 1 digest h;
  random_bytes_length = λ n bytes h. digest_length n 9 bytes h;
  aes = λ key iv bytes k v m short. (5 ∷ bytes, refl, refl);
}

abbrev key : List ℕ
key = replicate 32 15 ++ replicate 32 14

abbrev text : List ℕ
text = replicate 64 7

decrypt-encrypt_example :
    (ct : List ℕ) × (encrypt backend pin_uv_auth2 key text ≡ inr ct)
    × (decrypt backend pin_uv_auth2 key ct ≡ inr text)
unfolding kdf backend-Laws
decrypt-encrypt_example =
    decrypt-encrypt backend backend-Laws pin_uv_auth2 (1 ∷ 2 ∷ []) key text (replicate 16 9) refl
      refl refl (omega arith)
