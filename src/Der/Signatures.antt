-- ===== src/Der/Signatures.antt =====
-- src/crypto/der.rs: `read_p256_sig` on the signatures that the encoder writes.
use authenticator_rs.Common.{
  ℕ, zero, suc, ◌+◌, ◌-◌, ◌%◌, ◌≤◌, ◌≡◌, refl, sym, ap, ◌∙◌, [], ◌∷◌, ◌++◌, false, inl, inr, ◌⊎◌,
  not, length, take, replicate, ltb, leb, ==_self, if◌then◌else◌, arith, length-append,
  length-replicate, take-append, drop-append, IsByte, All, Bool-cases, le→ltb, append-nil,
}
use authenticator_rs.Der.{
  Bytes, CryptoError, malformed_input, and_then, write_tag_and_length, trim_zeros, trimmed_integer,
  integer, sequence, expect_tag_with_short_len, check_u256, read_u256, read_two, read_p256_sig,
  left_pad, is_empty,
}
use authenticator_rs.Der.Lengths.{sequence_lem, concat}
use authenticator_rs.Der.Integers.{
  IsTrimmed, signed, trimmed_integer_lem, trim_zeros-IsTrimmed, trim_zeros-IsByte,
  trim_zeros-replicate, length-trim_zeros,
}

short_length : (tag len : ℕ) → len ≤ 0x7f → write_tag_and_length [] tag len ≡ inr (tag ∷ len ∷ [])
unfolding write_tag_and_length
short_length tag len h =
    let a : ltb 0xffff len ≡ false = le→ltb _ _ (omega arith) in
    let b : ltb 0xff len ≡ false = le→ltb _ _ (omega arith) in
    let c : ltb 0x7f len ≡ false = le→ltb _ _ h in
    let e : len % 256 ≡ len = omega arith in rw (a, b, c, e) refl

-- An integer of up to 100 bytes, written.
trimmed_integer-short :
    (val : Bytes)
    → All IsByte val
    → IsTrimmed val
    → length val ≤ 100
    → trimmed_integer val ≡ inr (0x02 ∷ length (signed val) ∷ signed val)
trimmed_integer-short [] h t short = absurd t
trimmed_integer-short (b ∷ val) h t short =
    rw (trimmed_integer_lem b val h.0, short_length 0x02 (length (signed (b ∷ val))) (ground arith))
      refl

expect_tag_lem :
    (tag : ℕ) (val z : Bytes)
    → length val ≤ 0x7f
    → expect_tag_with_short_len tag (tag ∷ length val ∷ (val ++ z)) ≡ inr (val, z)
unfolding expect_tag_with_short_len
expect_tag_lem tag val z h =
    let short : leb 0x80 (length val) ≡ false = ground arith in
    let fits : ltb (length (val ++ z)) (length val) ≡ false =
      le→ltb _ _ (omega (arith, length-append val z)) in
    rw
      (
        ==_self tag,
        short,
        fits,
        take-append (length val) val z refl,
        drop-append (length val) val z refl,
      )
      refl

take-replicate : (k n : ℕ) → k ≤ n → take {A = ℕ} k (replicate n 0) ≡ replicate k 0
take-replicate zero n h = refl
take-replicate (suc k) zero h = absurd (omega arith)
take-replicate (suc k) (suc n) h = ap (λ l. 0 ∷ l) (take-replicate k n (omega arith))

left_pad_lem : (k : ℕ) (r : Bytes) → k + length r ≡ 32 → left_pad r ≡ replicate k 0 ++ r
left_pad_lem k r h =
    let e : 32 - length r ≡ k = omega arith in
    ap (λ (n : ℕ). take n (replicate 32 0) ++ r) e
    ∙ ap (λ l. l ++ r) (take-replicate k 32 (omega arith))

replicate-cons : (k : ℕ) (r : Bytes) → replicate (suc k) 0 ++ r ≡ replicate k 0 ++ (0 ∷ r)
replicate-cons zero r = refl
replicate-cons (suc k) r = ap (λ l. 0 ∷ l) (replicate-cons k r)

-- What is read of an integer's content has the padding of the bytes that were written.
check_u256-signed :
    (k b : ℕ) (val z : Bytes)
    → k + length (b ∷ val) ≡ 32
    → (r : Bytes) × (check_u256 (signed (b ∷ val)) z ≡ inr (r, z))
      × (left_pad r ≡ replicate k 0 ++ (b ∷ val))
unfolding check_u256
check_u256-signed zero b val z h = elim (Bool-cases (ltb b 128)) [
  | inl p ↦ (b ∷ val, ground arith, left_pad_lem zero (b ∷ val) h)
  | inr p ↦ (b ∷ val, ground arith, left_pad_lem zero (b ∷ val) h)
]
check_u256-signed (suc k) b val z h = elim (Bool-cases (ltb b 128)) [
  | inl p ↦ (b ∷ val, ground arith, left_pad_lem (suc k) (b ∷ val) h)
  | inr p ↦ (
    0 ∷ b ∷ val,
    ground arith,
    left_pad_lem k (0 ∷ b ∷ val) (omega arith) ∙ sym (replicate-cons k (b ∷ val)),
  )
]

-- The content that `integer` writes.
content : Bytes → Bytes
content val = signed (trim_zeros val)

signed-bound : (val : Bytes) → length (signed val) ≤ 1 + length val
signed-bound val = ground arith

content-bound : (val : Bytes) → length val ≡ 32 → length (content val) ≤ 33
unfolding content
content-bound val h = omega (arith, signed-bound (trim_zeros val), length-trim_zeros val)

integer-short :
    (val : Bytes)
    → All IsByte val
    → length val ≡ 32
    → integer val ≡ inr (0x02 ∷ length (content val) ∷ content val)
unfolding integer content
integer-short [] h e = absurd (omega arith)
integer-short (b ∷ val) h e =
    trimmed_integer-short (trim_zeros (b ∷ val)) (trim_zeros-IsByte (b ∷ val) h)
      (trim_zeros-IsTrimmed b val) (omega (arith, length-trim_zeros (b ∷ val)))

check_u256-trimmed :
    (k : ℕ) (val trimmed z : Bytes)
    → val ≡ replicate k 0 ++ trimmed
    → IsTrimmed trimmed
    → length val ≡ 32
    → (r : Bytes) × (check_u256 (signed trimmed) z ≡ inr (r, z)) × (left_pad r ≡ val)
check_u256-trimmed k val [] z e t h = absurd t
check_u256-trimmed k val (b ∷ trimmed) z e t h =
    let whole : k + length (b ∷ trimmed) ≡ 32 = omega (
      arith,
      ap length e,
      length-append (replicate k 0) (b ∷ trimmed),
      length-replicate {A = ℕ} k 0,
    ) in
    let (r, checked, padded) = check_u256-signed k b trimmed z whole in (r, checked, padded ∙ sym e)

-- What is read of the content of an integer of 32 bytes is these bytes, when it is padded.
read_u256-content :
    (val z : Bytes)
    → length val ≡ 32
    → (r : Bytes) × (read_u256 (0x02 ∷ length (content val) ∷ (content val ++ z)) ≡ inr (r, z))
      × (left_pad r ≡ val)
unfolding read_u256 content
read_u256-content [] z e = absurd (omega arith)
read_u256-content (b ∷ val) z e =
    let (k, zeros) = trim_zeros-replicate (b ∷ val) in
    let (r, checked, padded) =
      check_u256-trimmed k (b ∷ val) (trim_zeros (b ∷ val)) z zeros (trim_zeros-IsTrimmed b val)
        e in
    let short : length (content (b ∷ val)) ≤ 0x7f = omega (arith, content-bound (b ∷ val) e) in
    (
      r,
      ap (λ t. and_then t (λ (r, z'). check_u256 r z'))
            (expect_tag_lem 0x02 (content (b ∷ val)) z short)
          ∙ checked,
      padded,
    )

-- The encoding of an integer of 32 bytes.
encoded : Bytes → Bytes
encoded val = 0x02 ∷ length (content val) ∷ content val

read_two_lem :
    (r s : Bytes)
    → length r ≡ 32
    → length s ≡ 32
    → read_two (encoded r ++ (encoded s ++ [])) ≡ inr (r ++ s)
unfolding read_two encoded
read_two_lem r s hr hs =
    let (r', read_r, pad_r) = read_u256-content r (encoded s ++ []) hr in
    let (s', read_s, pad_s) = read_u256-content s [] hs in rw (read_r, read_s, pad_r, pad_s) refl

read_p256_sig_lem : (c : Bytes) → length c ≤ 0x7f → read_p256_sig (0x30 ∷ length c ∷ c) ≡ read_two c
unfolding read_p256_sig
read_p256_sig_lem c h =
    ap (λ t. read_p256_sig (0x30 ∷ length c ∷ t)) (sym (append-nil c))
    ∙ ap
        (λ t.
          and_then t
            (λ (z', rest). if not (is_empty rest) then inl malformed_input else read_two z'))
        (expect_tag_lem 0x30 c [] h)

-- A signature as the encoder writes it: a sequence of two integers.
pub encode_sig : Bytes → Bytes → CryptoError ⊎ Bytes
encode_sig r s = and_then (integer r) (λ r'. and_then (integer s) (λ s'. sequence (r' ∷ s' ∷ [])))

-- Two integers of 32 bytes each, with or without leading zeros and whatever their top bits are,
-- encoded as a sequence of two DER integers, are read back as the same 64 bytes.
pub read_p256_sig-sequence :
    (r s : Bytes)
    → All IsByte r
    → All IsByte s
    → length r ≡ 32
    → length s ≡ 32
    → and_then (encode_sig r s) read_p256_sig ≡ inr (r ++ s)
unfolding encode_sig encoded
read_p256_sig-sequence r s br bs hr hs =
    let both : Bytes = concat (encoded r ∷ encoded s ∷ []) in
    let short : length both ≤ 0x7f = omega (
      arith,
      length-append (encoded r) (encoded s ++ []),
      length-append (encoded s) [],
      content-bound r hr,
      content-bound s hs,
    ) in
    let written : sequence (encoded r ∷ encoded s ∷ []) ≡ inr (0x30 ∷ length both ∷ both) =
      sequence_lem (encoded r ∷ encoded s ∷ [])
      ∙ ap (λ t. and_then t (λ out. inr (out ++ both))) (short_length 0x30 (length both) short) in
    rw (integer-short r br hr, integer-short s bs hs)
      (ap (λ t. and_then t read_p256_sig) written
        ∙ read_p256_sig_lem both short
        ∙ read_two_lem r s hr hs)
