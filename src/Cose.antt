-- ===== src/Cose.antt =====
-- The COSE algorithms and their numbers (src/crypto/mod.rs). A number of 64 bits with a sign is an
-- integer.
use mathlib.Core.Path.{subst}
use authenticator_rs.Common.{
  ℕ, ◌≡◌, refl, ◌==◌, ==_iff, ◌↔◌, ap, ◌∙◌, if◌then◌else◌, arith, Bool, true, false, Option, none,
  some,
}

pub data ℤ : Type 0 where
  pos negsuc : ℕ → ℤ

-- `i == j` on integers.
abbrev pub equals : ℤ → ℤ → Bool
equals (pos m) (pos n) = m == n
equals (negsuc m) (negsuc n) = m == n
equals (pos m) (negsuc n) = false
equals (negsuc m) (pos n) = false

-- `COSEAlgorithm`
pub data CoseAlgorithm : Type 0 where
  insecure_rs1 rs512 rs384 rs256 es256k : CoseAlgorithm
  hss_lms shake256 sha512 sha384 rsaes_oaep_sha_512 : CoseAlgorithm
  rsaes_oaep_sha_256 rsaes_oaep_rfc_8017_default ps512 ps384 ps256 : CoseAlgorithm
  es512 es384 ecdh_ss_a256kw ecdh_ss_a192kw ecdh_ss_a128kw : CoseAlgorithm
  ecdh_es_a256kw ecdh_es_a192kw ecdh_es_a128kw ecdh_ss_hkdf512 ecdh_ss_hkdf256 : CoseAlgorithm
  ecdh_es_hkdf512 ecdh_es_hkdf256 shake128 sha512_256 sha256 : CoseAlgorithm
  sha256_64 sha1 direct_hkdf_aes256 direct_hkdf_aes128 direct_hkdf_sha512 : CoseAlgorithm
  direct_hkdf_sha256 eddsa es256 direct a256kw : CoseAlgorithm
  a192kw a128kw a128gcm a192gcm a256gcm : CoseAlgorithm
  hmac256_64 hmac256_256 hmac384_384 hmac512_512 aes_ccm_16_64_128 : CoseAlgorithm
  aes_ccm_16_64_256 aes_ccm_64_64_128 aes_ccm_64_64_256 aes_mac_128_64 aes_mac_256_64 :
      CoseAlgorithm
  chacha20_poly1305 aes_mac_128_128 aes_mac_256_128 aes_ccm_16_128_128 aes_ccm_16_128_256 :
      CoseAlgorithm
  aes_ccm_64_128_128 aes_ccm_64_128_256 iv_generation : CoseAlgorithm

-- `as i64`, the discriminants of the enum.
unfoldable pub to_number : CoseAlgorithm → ℤ
to_number insecure_rs1 = negsuc 65534
to_number rs512 = negsuc 258
to_number rs384 = negsuc 257
to_number rs256 = negsuc 256
to_number es256k = negsuc 46
to_number hss_lms = negsuc 45
to_number shake256 = negsuc 44
to_number sha512 = negsuc 43
to_number sha384 = negsuc 42
to_number rsaes_oaep_sha_512 = negsuc 41
to_number rsaes_oaep_sha_256 = negsuc 40
to_number rsaes_oaep_rfc_8017_default = negsuc 39
to_number ps512 = negsuc 38
to_number ps384 = negsuc 37
to_number ps256 = negsuc 36
to_number es512 = negsuc 35
to_number es384 = negsuc 34
to_number ecdh_ss_a256kw = negsuc 33
to_number ecdh_ss_a192kw = negsuc 32
to_number ecdh_ss_a128kw = negsuc 31
to_number ecdh_es_a256kw = negsuc 30
to_number ecdh_es_a192kw = negsuc 29
to_number ecdh_es_a128kw = negsuc 28
to_number ecdh_ss_hkdf512 = negsuc 27
to_number ecdh_ss_hkdf256 = negsuc 26
to_number ecdh_es_hkdf512 = negsuc 25
to_number ecdh_es_hkdf256 = negsuc 24
to_number shake128 = negsuc 17
to_number sha512_256 = negsuc 16
to_number sha256 = negsuc 15
to_number sha256_64 = negsuc 14
to_number sha1 = negsuc 13
to_number direct_hkdf_aes256 = negsuc 12
to_number direct_hkdf_aes128 = negsuc 11
to_number direct_hkdf_sha512 = negsuc 10
to_number direct_hkdf_sha256 = negsuc 9
to_number eddsa = negsuc 7
to_number es256 = negsuc 6
to_number direct = negsuc 5
to_number a256kw = negsuc 4
to_number a192kw = negsuc 3
to_number a128kw = negsuc 2
to_number a128gcm = pos 1
to_number a192gcm = pos 2
to_number a256gcm = pos 3
to_number hmac256_64 = pos 4
to_number hmac256_256 = pos 5
to_number hmac384_384 = pos 6
to_number hmac512_512 = pos 7
to_number aes_ccm_16_64_128 = pos 10
to_number aes_ccm_16_64_256 = pos 11
to_number aes_ccm_64_64_128 = pos 12
to_number aes_ccm_64_64_256 = pos 13
to_number aes_mac_128_64 = pos 14
to_number aes_mac_256_64 = pos 15
to_number chacha20_poly1305 = pos 24
to_number aes_mac_128_128 = pos 25
to_number aes_mac_256_128 = pos 26
to_number aes_ccm_16_128_128 = pos 30
to_number aes_ccm_16_128_256 = pos 31
to_number aes_ccm_64_128_128 = pos 32
to_number aes_ccm_64_128_256 = pos 33
to_number iv_generation = pos 34

-- `TryFrom<i64> for COSEAlgorithm`; `none` is the error for an unknown algorithm.
unfoldable pub try_from : ℤ → Option CoseAlgorithm
unfolding to_number
try_from i =
    if equals i (to_number rs512)
    then some rs512
    else if equals i (to_number rs384)
    then some rs384
    else if equals i (to_number rs256)
    then some rs256
    else if equals i (to_number es256k)
    then some es256k
    else if equals i (to_number hss_lms)
    then some hss_lms
    else if equals i (to_number shake256)
    then some shake256
    else if equals i (to_number sha512)
    then some sha512
    else if equals i (to_number sha384)
    then some sha384
    else if equals i (to_number rsaes_oaep_sha_512)
    then some rsaes_oaep_sha_512
    else if equals i (to_number rsaes_oaep_sha_256)
    then some rsaes_oaep_sha_256
    else if equals i (to_number rsaes_oaep_rfc_8017_default)
    then some rsaes_oaep_rfc_8017_default
    else if equals i (to_number ps512)
    then some ps512
    else if equals i (to_number ps384)
    then some ps384
    else if equals i (to_number ps256)
    then some ps256
    else if equals i (to_number es512)
    then some es512
    else if equals i (to_number es384)
    then some es384
    else if equals i (to_number ecdh_ss_a256kw)
    then some ecdh_ss_a256kw
    else if equals i (to_number ecdh_ss_a192kw)
    then some ecdh_ss_a192kw
    else if equals i (to_number ecdh_ss_a128kw)
    then some ecdh_ss_a128kw
    else if equals i (to_number ecdh_es_a256kw)
    then some ecdh_es_a256kw
    else if equals i (to_number ecdh_es_a192kw)
    then some ecdh_es_a192kw
    else if equals i (to_number ecdh_es_a128kw)
    then some ecdh_es_a128kw
    else if equals i (to_number ecdh_ss_hkdf512)
    then some ecdh_ss_hkdf512
    else if equals i (to_number ecdh_ss_hkdf256)
    then some ecdh_ss_hkdf256
    else if equals i (to_number ecdh_es_hkdf512)
    then some ecdh_es_hkdf512
    else if equals i (to_number ecdh_es_hkdf256)
    then some ecdh_es_hkdf256
    else if equals i (to_number shake128)
    then some shake128
    else if equals i (to_number sha512_256)
    then some sha512_256
    else if equals i (to_number sha256)
    then some sha256
    else if equals i (to_number sha256_64)
    then some sha256_64
    else if equals i (to_number sha1)
    then some sha1
    else if equals i (to_number direct_hkdf_aes256)
    then some direct_hkdf_aes256
    else if equals i (to_number direct_hkdf_aes128)
    then some direct_hkdf_aes128
    else if equals i (to_number direct_hkdf_sha512)
    then some direct_hkdf_sha512
    else if equals i (to_number direct_hkdf_sha256)
    then some direct_hkdf_sha256
    else if equals i (to_number eddsa)
    then some eddsa
    else if equals i (to_number es256)
    then some es256
    else if equals i (to_number direct)
    then some direct
    else if equals i (to_number a256kw)
    then some a256kw
    else if equals i (to_number a192kw)
    then some a192kw
    else if equals i (to_number a128kw)
    then some a128kw
    else if equals i (to_number a128gcm)
    then some a128gcm
    else if equals i (to_number a192gcm)
    then some a192gcm
    else if equals i (to_number a256gcm)
    then some a256gcm
    else if equals i (to_number hmac256_64)
    then some hmac256_64
    else if equals i (to_number hmac256_256)
    then some hmac256_256
    else if equals i (to_number hmac384_384)
    then some hmac384_384
    else if equals i (to_number hmac512_512)
    then some hmac512_512
    else if equals i (to_number aes_ccm_16_64_128)
    then some aes_ccm_16_64_128
    else if equals i (to_number aes_ccm_16_64_256)
    then some aes_ccm_16_64_256
    else if equals i (to_number aes_ccm_64_64_128)
    then some aes_ccm_64_64_128
    else if equals i (to_number aes_ccm_64_64_256)
    then some aes_ccm_64_64_256
    else if equals i (to_number aes_mac_128_64)
    then some aes_mac_128_64
    else if equals i (to_number aes_mac_256_64)
    then some aes_mac_256_64
    else if equals i (to_number chacha20_poly1305)
    then some chacha20_poly1305
    else if equals i (to_number aes_mac_128_128)
    then some aes_mac_128_128
    else if equals i (to_number aes_mac_256_128)
    then some aes_mac_256_128
    else if equals i (to_number aes_ccm_16_128_128)
    then some aes_ccm_16_128_128
    else if equals i (to_number aes_ccm_16_128_256)
    then some aes_ccm_16_128_256
    else if equals i (to_number aes_ccm_64_128_128)
    then some aes_ccm_64_128_128
    else if equals i (to_number aes_ccm_64_128_256)
    then some aes_ccm_64_128_256
    else if equals i (to_number iv_generation)
    then some iv_generation
    else if equals i (to_number insecure_rs1)
    then some insecure_rs1
    else none

equals-true : (i j : ℤ) → equals i j ≡ true → i ≡ j
equals-true (pos m) (pos n) e = ap pos ((==_iff m n).0 e)
equals-true (negsuc m) (negsuc n) e = ap negsuc ((==_iff m n).0 e)
equals-true (pos m) (negsuc n) e = absurd (cc e)
equals-true (negsuc m) (pos n) e = absurd (cc e)

-- What a number stands for has this number.
abbrev Denotes : ℤ → Option CoseAlgorithm → Type 0
Denotes i none = Unit {0}
Denotes i (some a) = i ≡ to_number a

try_from-Denotes : (i : ℤ) → Denotes i (try_from i)
unfolding try_from
try_from-Denotes i = ground (arith, equals-true i)

known : (a : CoseAlgorithm) → try_from (to_number a) ≡ some a
unfolding try_from to_number
known insecure_rs1 = refl
known rs512 = refl
known rs384 = refl
known rs256 = refl
known es256k = refl
known hss_lms = refl
known shake256 = refl
known sha512 = refl
known sha384 = refl
known rsaes_oaep_sha_512 = refl
known rsaes_oaep_sha_256 = refl
known rsaes_oaep_rfc_8017_default = refl
known ps512 = refl
known ps384 = refl
known ps256 = refl
known es512 = refl
known es384 = refl
known ecdh_ss_a256kw = refl
known ecdh_ss_a192kw = refl
known ecdh_ss_a128kw = refl
known ecdh_es_a256kw = refl
known ecdh_es_a192kw = refl
known ecdh_es_a128kw = refl
known ecdh_ss_hkdf512 = refl
known ecdh_ss_hkdf256 = refl
known ecdh_es_hkdf512 = refl
known ecdh_es_hkdf256 = refl
known shake128 = refl
known sha512_256 = refl
known sha256 = refl
known sha256_64 = refl
known sha1 = refl
known direct_hkdf_aes256 = refl
known direct_hkdf_aes128 = refl
known direct_hkdf_sha512 = refl
known direct_hkdf_sha256 = refl
known eddsa = refl
known es256 = refl
known direct = refl
known a256kw = refl
known a192kw = refl
known a128kw = refl
known a128gcm = refl
known a192gcm = refl
known a256gcm = refl
known hmac256_64 = refl
known hmac256_256 = refl
known hmac384_384 = refl
known hmac512_512 = refl
known aes_ccm_16_64_128 = refl
known aes_ccm_16_64_256 = refl
known aes_ccm_64_64_128 = refl
known aes_ccm_64_64_256 = refl
known aes_mac_128_64 = refl
known aes_mac_256_64 = refl
known chacha20_poly1305 = refl
known aes_mac_128_128 = refl
known aes_mac_256_128 = refl
known aes_ccm_16_128_128 = refl
known aes_ccm_16_128_256 = refl
known aes_ccm_64_128_128 = refl
known aes_ccm_64_128_256 = refl
known iv_generation = refl

-- A number is taken for an algorithm exactly when it is the number of that algorithm.
try_from-to_number : (i : ℤ) (a : CoseAlgorithm) → (try_from i ≡ some a) ↔ (i ≡ to_number a)
try_from-to_number i a =
    (λ e. subst (Denotes i) e (try_from-Denotes i), λ e. ap try_from e ∙ known a)
