-- ===== src/Der/Tests.antt =====
-- DER encodings of src/crypto/der.rs.
use authenticator_rs.Common.{
  ◌<◌, ◌≡◌, refl, [], ◌∷◌, ◌++◌, some, inr, All, IsByte, arith, replicate,
}
use authenticator_rs.Der.{Bytes, integer, read_p256_sig, and_then, first_byte}
use authenticator_rs.Der.Lengths.{read_encoded}
use authenticator_rs.Der.Integers.{value_be, IsMinimal, read_encoded-integer}
use authenticator_rs.Der.Signatures.{encode_sig, read_p256_sig-sequence}

-- An integer whose top bit is set, behind a leading zero.
integer_test : integer (0x00 ∷ 0x80 ∷ 0x01 ∷ []) ≡ inr (0x02 ∷ 3 ∷ 0x00 ∷ 0x80 ∷ 0x01 ∷ [])
unfolding integer
integer_test = refl

read_encoded-integer_example :
    (content : Bytes) × (read_encoded (integer (0x00 ∷ 0x80 ∷ 0x01 ∷ [])) []
      ≡ some (0x02, content, []))
    × (value_be content ≡ value_be (0x00 ∷ 0x80 ∷ 0x01 ∷ []))
    × (first_byte content < 128)
    × IsMinimal content
read_encoded-integer_example =
    read_encoded-integer 0x00 (0x80 ∷ 0x01 ∷ []) [] (omega arith, (omega arith, (omega arith, tt)))
      (omega arith)

-- 32 bytes with the top bit set, and 32 bytes with leading zeros.
abbrev high : Bytes
high = replicate 32 0xff

abbrev low : Bytes
low = replicate 16 0 ++ replicate 16 0x9c

high_bytes : All IsByte high
high_bytes = ground arith

low_bytes : All IsByte low
low_bytes = ground arith

read_p256_sig-sequence_example : and_then (encode_sig high low) read_p256_sig ≡ inr (high ++ low)
read_p256_sig-sequence_example = read_p256_sig-sequence high low high_bytes low_bytes refl refl
