-- ===== src/Der/Lengths.antt =====
-- The tag and the length of src/crypto/der.rs, read back by a DER reader.
use authenticator_rs.Common.{
  ℕ, ◌+◌, ◌*◌, ◌≤◌, ◌≡◌, refl, sym, ap, ◌∙◌, List, [], ◌∷◌, ◌++◌, Option, none, some, true, false,
  ◌<◌, ◌/◌, ◌%◌, ◌^◌, lt→ltb, append_assoc, append-nil, Bool-cases, ltb→lt, ltb→le, inl, inr, ◌⊎◌,
  length, take, drop, ltb, ◌==◌, if◌then◌else◌, arith, take-append, drop-append, length-append,
  le→ltb,
}
use authenticator_rs.Der.{
  Bytes, CryptoError, and_then, extend_all, sum_lengths, sequence, write_tag_and_length, object_id,
  bit_string,
}

-- A value of a known length in front of other bytes.
abbrev pub split_value : ℕ → ℕ → Bytes → Option (ℕ × Bytes × Bytes)
split_value tag len z = if ltb (length z) len then none else some (tag, take len z, drop len z)

-- A length in one byte and in two bytes, each only when a shorter form has no room for it.
abbrev pub read_long_one : ℕ → Bytes → Option (ℕ × Bytes × Bytes)
read_long_one tag [] = none
read_long_one tag (a ∷ z) = if ltb a 0x80 then none else split_value tag a z

abbrev pub read_long_two : ℕ → Bytes → Option (ℕ × Bytes × Bytes)
read_long_two tag [] = none
read_long_two tag (a ∷ []) = none
read_long_two tag (a ∷ b ∷ z) = if a == 0 then none else split_value tag (a * 256 + b) z

-- X.690 for lengths up to 65535: the tag, the value and what is behind it.
abbrev pub read_tlv : Bytes → Option (ℕ × Bytes × Bytes)
read_tlv [] = none
read_tlv (tag ∷ []) = none
read_tlv (tag ∷ l ∷ z) =
    if ltb l 0x80
    then split_value tag l z
    else if l == 0x81
    then read_long_one tag z
    else if l == 0x82
    then read_long_two tag z
    else none

-- An encoding in front of other bytes, read.
abbrev pub read_encoded : CryptoError ⊎ Bytes → Bytes → Option (ℕ × Bytes × Bytes)
read_encoded (inl e) rest = none
read_encoded (inr out) rest = read_tlv (out ++ rest)

split_value_lem :
    (tag n : ℕ) (val rest : Bytes)
    → length val ≡ n
    → split_value tag n (val ++ rest) ≡ some (tag, val, rest)
split_value_lem tag n val rest h =
    let fits : ltb (length (val ++ rest)) n ≡ false =
      le→ltb _ _ (omega (arith, length-append val rest)) in
    rw (fits, take-append n val rest (sym h), drop-append n val rest (sym h)) refl

-- The value behind its tag and length.
pub read_encoded-write_tag_and_length :
    (tag len : ℕ) (val rest : Bytes)
    → length val ≡ len
    → len ≤ 0xffff
    → read_encoded (and_then (write_tag_and_length [] tag len) (λ out. inr (out ++ val))) rest
      ≡ some (tag, val, rest)
unfolding write_tag_and_length
read_encoded-write_tag_and_length tag len val rest same h =
    let whole : ltb 0xffff len ≡ false = le→ltb _ _ h in
    elim (Bool-cases (ltb 0xff len)) [
      | inl p ↦
          let big : 0xff < len = ltb→lt _ _ p in
          let e : len / 2 ^ 8 % 256 * 256 + len % 256 ≡ len = omega arith in
          let some_byte : (len / 2 ^ 8 % 256 == 0) ≡ false = ground arith in
          rw (whole, p, some_byte, e) (split_value_lem tag len val rest same)
      | inr p ↦
          let small : len ≤ 0xff = ltb→le _ _ p in
          let e : len % 256 ≡ len = omega arith in
          elim (Bool-cases (ltb 0x7f len)) [
            | inl q ↦
                let long : ltb len 0x80 ≡ false = le→ltb _ _ (ltb→lt 0x7f len q) in
                rw (whole, p, q, e, long) (split_value_lem tag len val rest same)
            | inr q ↦
                let short : ltb len 0x80 ≡ true = lt→ltb _ _ (omega (arith, ltb→le 0x7f len q)) in
                rw (whole, p, q, e, short) (split_value_lem tag len val rest same)
          ]
    ]

abbrev pub concat : List Bytes → Bytes
concat [] = []
concat (i ∷ items) = i ++ concat items

pub extend_all_lem : (out : Bytes) (items : List Bytes) → extend_all out items ≡ out ++ concat items
extend_all_lem out [] = sym (append-nil out)
extend_all_lem out (i ∷ items) = extend_all_lem (out ++ i) items ∙ append_assoc out i (concat items)

pub length-concat : (items : List Bytes) → length (concat items) ≡ sum_lengths items
length-concat [] = refl
length-concat (i ∷ items) = omega (arith, length-append i (concat items), length-concat items)

extended :
    (items : List Bytes) (r : CryptoError ⊎ Bytes)
    → and_then r (λ out. inr (extend_all out items)) ≡ and_then r (λ out. inr (out ++ concat items))
extended items (inl e) = refl
extended items (inr out) = ap inr (extend_all_lem out items)

pub sequence_lem :
    (items : List Bytes)
    → sequence items
      ≡ and_then
          (write_tag_and_length [] 0x30 (length (concat items)))
          (λ out. inr (out ++ concat items))
unfolding sequence
sequence_lem items =
    ap (λ (n : ℕ). and_then (write_tag_and_length [] 0x30 n) (λ out. inr (extend_all out items)))
      (sym (length-concat items))
    ∙ extended items (write_tag_and_length [] 0x30 (length (concat items)))

-- The three encodings of a value that is written as it is. Each whose content has at most 65535
-- bytes is read back by a DER reader, whatever is behind it: an object identifier with its tag
-- and its bytes, a bit string with its bytes behind the byte 0 for no unused bits, and a
-- sequence with its items one after the other.
read_encoded-object_id :
    (val rest : Bytes) (items : List Bytes)
    → length val < 0xffff
    → sum_lengths items ≤ 0xffff
    → (read_encoded (object_id val) rest ≡ some (0x06, val, rest))
      × (read_encoded (bit_string val) rest ≡ some (0x03, 0 ∷ val, rest))
      × (read_encoded (sequence items) rest ≡ some (0x30, concat items, rest))
unfolding object_id bit_string
read_encoded-object_id val rest items hv hi =
    let whole : read_encoded (sequence items) rest ≡ some (0x30, concat items, rest) =
      rw (sequence_lem items) (
        read_encoded-write_tag_and_length 0x30 (length (concat items)) (concat items) rest refl
          (omega (arith, length-concat items))) in
    (
      read_encoded-write_tag_and_length 0x06 (length val) val rest refl (omega arith),
      read_encoded-write_tag_and_length 0x03 (1 + length val) (0 ∷ val) rest (omega arith)
          (omega arith),
      whole,
    )
