-- ===== src/Der.antt =====
-- src/crypto/der.rs: the DER encoder for keys and the decoder for ECDSA signatures. A byte is a
-- number below 256, a `Vec<u8>` that is written to is the list of what is in it.
mod Tests
pub mod Integers
pub mod Lengths
pub mod Signatures
use authenticator_rs.Common.{
  ℕ, ◌+◌, ◌-◌, ◌/◌, ◌%◌, ◌^◌, List, [], ◌∷◌, ◌++◌, Bool, true, false, not, ◌&&◌, ◌||◌, inl, inr,
  ◌⊎◌, bit_and, length, take, drop, replicate, ltb, leb, ◌==◌, if◌then◌else◌,
}

-- The errors of `CryptoError` that this module raises.
pub data CryptoError : Type 0 where
  library_failure malformed_input : CryptoError

abbrev pub tag_integer : ℕ
tag_integer = 0x02

abbrev pub tag_bit_string : ℕ
tag_bit_string = 0x03

abbrev pub tag_null : ℕ
tag_null = 0x05

abbrev pub tag_object_id : ℕ
tag_object_id = 0x06

abbrev pub tag_sequence : ℕ
tag_sequence = 0x30

abbrev pub Bytes : Type 0
Bytes = List ℕ

-- `?` on a result.
abbrev pub and_then : {A B : Type 0} → CryptoError ⊎ A → (A → CryptoError ⊎ B) → CryptoError ⊎ B
and_then (inl e) k = inl e
and_then (inr a) k = k a

-- What is pushed behind `out`.
unfoldable pub write_tag_and_length : Bytes → ℕ → ℕ → CryptoError ⊎ Bytes
write_tag_and_length out tag len =
    if ltb 0xffff len
    then inl library_failure
    else inr (
        if ltb 0xff len
        then out ++ (tag ∷ 0x82 ∷ len / 2 ^ 8 % 256 ∷ len % 256 ∷ [])
        else if ltb 0x7f len
        then out ++ (tag ∷ 0x81 ∷ len % 256 ∷ [])
        else out ++ (tag ∷ len % 256 ∷ []))

-- `while val.len() > 1 && val[0] == 0 { val = &val[1..]; }`
unfoldable pub trim_zeros : Bytes → Bytes
trim_zeros [] = []
trim_zeros (b ∷ []) = b ∷ []
trim_zeros (b ∷ c ∷ val) = let rest = trim_zeros (c ∷ val) in if b == 0 then rest else b ∷ c ∷ val

-- `val[0]`, of bytes that are not empty.
abbrev pub first_byte : Bytes → ℕ
first_byte [] = 0
first_byte (b ∷ val) = b

unfoldable pub trimmed_integer : Bytes → CryptoError ⊎ Bytes
unfolding write_tag_and_length
trimmed_integer val =
    if not (bit_and (first_byte val) 0x80 == 0)
    then and_then (write_tag_and_length [] tag_integer (1 + length val))
        (λ out. inr (out ++ (0x00 ∷ val)))
    else and_then (write_tag_and_length [] tag_integer (length val)) (λ out. inr (out ++ val))

unfoldable pub integer : Bytes → CryptoError ⊎ Bytes
unfolding trim_zeros trimmed_integer
integer [] = inl malformed_input
integer (b ∷ val) = trimmed_integer (trim_zeros (b ∷ val))

unfoldable pub bit_string : Bytes → CryptoError ⊎ Bytes
unfolding write_tag_and_length
bit_string val =
    and_then (write_tag_and_length [] tag_bit_string (1 + length val))
      (λ out. inr (out ++ (0x00 ∷ val)))

unfoldable pub null : CryptoError ⊎ Bytes
unfolding write_tag_and_length
null = write_tag_and_length [] tag_null 0

unfoldable pub object_id : Bytes → CryptoError ⊎ Bytes
unfolding write_tag_and_length
object_id val =
    and_then (write_tag_and_length [] tag_object_id (length val)) (λ out. inr (out ++ val))

abbrev pub sum_lengths : List Bytes → ℕ
sum_lengths [] = 0
sum_lengths (i ∷ items) = length i + sum_lengths items

-- `for item in items { out.extend_from_slice(item); }`
abbrev pub extend_all : Bytes → List Bytes → Bytes
extend_all out [] = out
extend_all out (i ∷ items) = extend_all (out ++ i) items

unfoldable pub sequence : List Bytes → CryptoError ⊎ Bytes
unfolding write_tag_and_length
sequence items =
    and_then (write_tag_and_length [] tag_sequence (sum_lengths items))
      (λ out. inr (extend_all out items))

unfoldable pub expect_tag_with_short_len : ℕ → Bytes → CryptoError ⊎ (Bytes × Bytes)
expect_tag_with_short_len tag [] = inl malformed_input
expect_tag_with_short_len tag (h ∷ []) = inl malformed_input
expect_tag_with_short_len tag (h ∷ l ∷ z) =
    if not (h == tag)
    then inl malformed_input
    else if leb 0x80 l || ltb (length z) l
    then inl malformed_input
    else inr (take l z, drop l z)

abbrev pub is_empty : Bytes → Bool
is_empty [] = true
is_empty (b ∷ z) = false

-- The checks of `read_u256` on the content `r` of an integer with `z` behind it.
unfoldable pub check_u256 : Bytes → Bytes → CryptoError ⊎ (Bytes × Bytes)
check_u256 r z =
    if is_empty r || ltb 33 (length r)
    then inl malformed_input
    else if length r == 33 && not (first_byte r == 0)
    then inl malformed_input
    else if length r == 33
    then inr (drop 1 r, z)
    else inr (r, z)

unfoldable pub read_u256 : Bytes → CryptoError ⊎ (Bytes × Bytes)
unfolding expect_tag_with_short_len check_u256
read_u256 z = and_then (expect_tag_with_short_len tag_integer z) (λ (r, z'). check_u256 r z')

-- `r_out[32 - r.len()..].copy_from_slice(r)` on 32 zeros, for an `r` of at most 32 bytes.
abbrev pub left_pad : Bytes → Bytes
left_pad r = take (32 - length r) (replicate 32 0) ++ r

-- What `read_p256_sig` does with the content of the sequence.
unfoldable pub read_two : Bytes → CryptoError ⊎ Bytes
unfolding read_u256
read_two z = and_then (read_u256 z) (λ (r, z'). and_then (read_u256 z') (λ (s, z'').
    if not (is_empty z'') then inl malformed_input else inr (left_pad r ++ left_pad s)))

unfoldable pub read_p256_sig : Bytes → CryptoError ⊎ Bytes
unfolding expect_tag_with_short_len read_two
read_p256_sig z =
    and_then (expect_tag_with_short_len tag_sequence z)
      (λ (z', rest). if not (is_empty rest) then inl malformed_input else read_two z')
