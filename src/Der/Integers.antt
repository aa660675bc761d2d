-- ===== src/Der/Integers.antt =====
-- `integer` of src/crypto/der.rs: the shortest encoding of an unsigned number.
use authenticator_rs.Common.{
  ℕ, zero, suc, ◌+◌, ◌*◌, ◌^◌, ◌≤◌, ◌<◌, ◌≡◌, ◌≢◌, refl, sym, ap, ◌∙◌, [], ◌∷◌, ◌++◌, some, true,
  false, inl, inr, ◌⊎◌, length, replicate, ltb, ◌==◌, ==_iff, if◌then◌else◌, arith, IsByte, All,
  Bool-cases, ltb→lt, ltb→le, bit_and_top, bit_and,
}
use authenticator_rs.Der.{
  Bytes, and_then, write_tag_and_length, trim_zeros, first_byte, trimmed_integer, integer,
}
use authenticator_rs.Der.Lengths.{read_encoded, read_encoded-write_tag_and_length}

-- The number that big-endian bytes stand for.
abbrev pub value_be : Bytes → ℕ
value_be [] = 0
value_be (b ∷ val) = b * 256 ^ length val + value_be val

-- No shorter content stands for the same number: a leading zero only in front of a byte with its
-- top bit set, or alone.
abbrev pub IsMinimal : Bytes → Type 0
IsMinimal [] = ⊥
IsMinimal (b ∷ []) = Unit
IsMinimal (b ∷ c ∷ val) = (b ≢ 0) ⊎ (128 ≤ c)

-- Without leading zeros.
abbrev pub IsTrimmed : Bytes → Type 0
IsTrimmed [] = ⊥
IsTrimmed (b ∷ []) = Unit
IsTrimmed (b ∷ c ∷ val) = b ≢ 0

trim_zeros-keeps : (b c : ℕ) (val : Bytes) → trim_zeros (suc b ∷ c ∷ val) ≡ suc b ∷ c ∷ val
unfolding trim_zeros
trim_zeros-keeps b c val = ground arith

pub trim_zeros-IsTrimmed : (b : ℕ) (val : Bytes) → IsTrimmed (trim_zeros (b ∷ val))
unfolding trim_zeros
trim_zeros-IsTrimmed b [] = tt
trim_zeros-IsTrimmed zero (c ∷ val) = trim_zeros-IsTrimmed c val
trim_zeros-IsTrimmed (suc b) (c ∷ val) = rw (trim_zeros-keeps b c val) (λ e. absurd (omega arith))

trim_zeros-value_be : (val : Bytes) → value_be (trim_zeros val) ≡ value_be val
unfolding trim_zeros
trim_zeros-value_be [] = refl
trim_zeros-value_be (b ∷ []) = refl
trim_zeros-value_be (zero ∷ c ∷ val) = trim_zeros-value_be (c ∷ val) ∙ omega arith
trim_zeros-value_be (suc b ∷ c ∷ val) = ap value_be (trim_zeros-keeps b c val)

-- The bytes that are trimmed are zeros in front.
pub trim_zeros-replicate : (val : Bytes) → (k : ℕ) × (val ≡ replicate k 0 ++ trim_zeros val)
unfolding trim_zeros
trim_zeros-replicate [] = (0, refl)
trim_zeros-replicate (b ∷ []) = (0, refl)
trim_zeros-replicate (zero ∷ c ∷ val) =
    let (k, e) = trim_zeros-replicate (c ∷ val) in (suc k, ap (λ l. 0 ∷ l) e)
trim_zeros-replicate (suc b ∷ c ∷ val) = (0, sym (trim_zeros-keeps b c val))

pub trim_zeros-IsByte : (val : Bytes) → All IsByte val → All IsByte (trim_zeros val)
unfolding trim_zeros
trim_zeros-IsByte [] h = h
trim_zeros-IsByte (b ∷ []) h = h
trim_zeros-IsByte (zero ∷ c ∷ val) h = trim_zeros-IsByte (c ∷ val) h.1
trim_zeros-IsByte (suc b ∷ c ∷ val) h = rw (trim_zeros-keeps b c val) h

pub length-trim_zeros : (val : Bytes) → length (trim_zeros val) ≤ length val
unfolding trim_zeros
length-trim_zeros [] = omega arith
length-trim_zeros (b ∷ []) = omega arith
length-trim_zeros (zero ∷ c ∷ val) = omega (arith, length-trim_zeros (c ∷ val))
length-trim_zeros (suc b ∷ c ∷ val) = omega (arith, ap length (trim_zeros-keeps b c val))

-- The content of the integer: a byte with its top bit set has a zero in front.
abbrev pub signed : Bytes → Bytes
signed val = if ltb (first_byte val) 128 then val else 0 ∷ val

pub trimmed_integer_lem :
    (b : ℕ) (val : Bytes)
    → IsByte b
    → trimmed_integer (b ∷ val)
      ≡ and_then
          (write_tag_and_length [] 0x02 (length (signed (b ∷ val))))
          (λ out. inr (out ++ signed (b ∷ val)))
unfolding trimmed_integer
trimmed_integer_lem b val h = elim (Bool-cases (ltb b 128)) [
  | inl p ↦
      let low : (bit_and b 0x80 == 0) ≡ true =
        (==_iff _ _).1 (omega (arith, bit_and_top b h, ltb→lt b 128 p)) in
      rw (low, p) refl
  | inr p ↦
      let high : (bit_and b 0x80 == 0) ≡ false = ground (arith, bit_and_top b h, ltb→le b 128 p) in
      let one : 1 + length (b ∷ val) ≡ length (0 ∷ b ∷ val) = omega arith in rw (high, p, one) refl
]

signed_lem :
    (val : Bytes)
    → All IsByte val
    → IsTrimmed val
    → (value_be (signed val) ≡ value_be val)
      × (first_byte (signed val) < 128)
      × IsMinimal (signed val)
signed_lem [] h t = absurd t
signed_lem (b ∷ []) h t = elim (Bool-cases (ltb b 128)) [
  | inl p ↦ rw p (refl, ltb→lt b 128 p, tt)
  | inr p ↦ rw p (omega arith, omega arith, inr (ltb→le b 128 p))
]
signed_lem (b ∷ c ∷ val) h t = elim (Bool-cases (ltb b 128)) [
  | inl p ↦ rw p (refl, ltb→lt b 128 p, inl t)
  | inr p ↦ rw p (omega arith, omega arith, inr (ltb→le b 128 p))
]

-- What is written for trimmed bytes, read back.
read_encoded-trimmed_integer :
    (val rest : Bytes)
    → All IsByte val
    → IsTrimmed val
    → length val < 0xffff
    → read_encoded (trimmed_integer val) rest ≡ some (0x02, signed val, rest)
read_encoded-trimmed_integer [] rest h t short = absurd t
read_encoded-trimmed_integer (b ∷ val) rest h t short = rw (trimmed_integer_lem b val h.0) (
    read_encoded-write_tag_and_length 0x02 (length (signed (b ∷ val))) (signed (b ∷ val)) rest refl
      (ground arith))

-- The encoding of up to 65534 bytes, one at least, is read back by a DER reader, whatever is behind
-- it, as an integer that is not negative, that stands for the same number as the bytes, and whose
-- content is the shortest there is.
pub read_encoded-integer :
    (b : ℕ) (val rest : Bytes)
    → All IsByte (b ∷ val)
    → length (b ∷ val) < 0xffff
    → (content : Bytes) × (read_encoded (integer (b ∷ val)) rest ≡ some (0x02, content, rest))
      × (value_be content ≡ value_be (b ∷ val))
      × (first_byte content < 128)
      × IsMinimal content
unfolding integer
read_encoded-integer b val rest h short =
    let trimmed = trim_zeros-IsTrimmed b val in
    let bytes = trim_zeros-IsByte (b ∷ val) h in
    let shorter : length (trim_zeros (b ∷ val)) < 0xffff =
      omega (arith, length-trim_zeros (b ∷ val)) in
    let (same, low, least) = signed_lem (trim_zeros (b ∷ val)) bytes trimmed in
    (
      signed (trim_zeros (b ∷ val)),
      read_encoded-trimmed_integer (trim_zeros (b ∷ val)) rest bytes trimmed shorter,
      same ∙ trim_zeros-value_be (b ∷ val),
      low,
      least,
    )
