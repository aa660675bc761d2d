-- ===== src/Apdu/Frames.antt =====
-- What a token makes of the CTAP1 requests of src/u2ftypes.rs.
use authenticator_rs.Common.{
  ℕ, zero, suc, ◌+◌, ◌*◌, ◌/◌, ◌%◌, ◌^◌, ◌≤◌, ◌≡◌, refl, sym, ap, ◌∙◌, List, [], ◌∷◌, ◌++◌, true,
  false, Option, none, some, length, take, drop, replicate, ltb, ◌==◌, ==_iff, ◌↔◌, ◌⊎◌, inl, inr,
  if◌then◌else◌, arith, le→ltb, length-append, length-replicate, drop-append, take-append,
}
use mathlib.Core.Path.{ap₂}
use authenticator_rs.Apdu.{serialize, apdu_status, check_format, check_response}

-- The two zero bytes of a response of any length, behind the data.
abbrev drop_le : ℕ → List ℕ → Option (List ℕ)
drop_le len rest = if length rest == len + 2 then some (take len rest) else none

abbrev parse_body : ℕ → ℕ → ℕ → List ℕ → Option (ℕ × ℕ × List ℕ)
parse_body ins p1 len [] = if len == 0 then some (ins, p1, []) else none
parse_body ins p1 len (b ∷ rest) = elim (drop_le len (b ∷ rest)) [
  | none ↦ none
  | some payload ↦ some (ins, p1, payload)
]

-- An extended APDU of ISO 7816 as a token reads it: the class 0, the instruction, the two
-- parameters, of which the second is 0, and then either no data and the response length in three
-- bytes, or a zero, the length of the data, the data, and the response length in two bytes.
abbrev pub parse_apdu : List ℕ → Option (ℕ × ℕ × List ℕ)
parse_apdu (zero ∷ ins ∷ p1 ∷ zero ∷ zero ∷ hi ∷ lo ∷ rest) = parse_body ins p1 (hi * 256 + lo) rest
parse_apdu _ = none

abbrev pub parse_request : Option (List ℕ) → Option (ℕ × ℕ × List ℕ)
parse_request none = none
parse_request (some bytes) = parse_apdu bytes

zeros-snoc : (n : ℕ) → replicate {A = ℕ} n 0 ++ (0 ∷ 0 ∷ []) ≡ replicate (suc (suc n)) 0
zeros-snoc zero = refl
zeros-snoc (suc n) = ap (λ l. 0 ∷ l) (zeros-snoc n)

serialize_empty : (ins p1 : ℕ) → serialize ins p1 [] ≡ some (0 ∷ ins ∷ p1 ∷ 0 ∷ 0 ∷ 0 ∷ 0 ∷ [])
unfolding serialize
serialize_empty ins p1 = refl

-- The frame of a request with data.
serialize_lem :
    (ins p1 b : ℕ) (bytes : List ℕ)
    → length (b ∷ bytes) ≤ 0xffff
    → serialize ins p1 (b ∷ bytes)
      ≡ some (
          0
          ∷ ins
          ∷ p1
          ∷ 0
          ∷ 0
          ∷ length (b ∷ bytes) / 2 ^ 8 % 2 ^ 8
          ∷ length (b ∷ bytes) % 2 ^ 8
          ∷ ((b ∷ bytes) ++ (0 ∷ 0 ∷ [])))
unfolding serialize
serialize_lem ins p1 b bytes h =
    let n : ℕ = length (b ∷ bytes) in
    let fits : ltb 0xffff n ≡ false = le→ltb _ _ h in
    let size : 7 + (2 + n) ≡ suc (suc (suc (suc (suc (suc (suc (suc (suc n)))))))) = omega arith in
    let head : List ℕ = 0 ∷ ins ∷ p1 ∷ 0 ∷ 0 ∷ n / 2 ^ 8 % 2 ^ 8 ∷ n % 2 ^ 8 ∷ [] in
    let back : drop (7 + n) (head ++ replicate {A = ℕ} (suc (suc n)) 0) ≡ 0 ∷ 0 ∷ [] =
      ap (λ l. drop (7 + n) (head ++ l)) (sym (zeros-snoc n))
      ∙ drop-append (7 + n) (head ++ replicate n 0) (0 ∷ 0 ∷ [])
          (omega (arith, length-replicate {A = ℕ} n 0)) in
    rw (fits, size, back) refl

parse_body_lem :
    (ins p1 b : ℕ) (bytes : List ℕ)
    → parse_body ins p1 (length (b ∷ bytes)) ((b ∷ bytes) ++ (0 ∷ 0 ∷ []))
      ≡ some (ins, p1, b ∷ bytes)
parse_body_lem ins p1 b bytes =
    let n : ℕ = length (b ∷ bytes) in
    let whole : (length ((b ∷ bytes) ++ (0 ∷ 0 ∷ [])) == n + 2) ≡ true =
      (==_iff _ _).1 (omega (arith, length-append (b ∷ bytes) (0 ∷ 0 ∷ []))) in
    let behind : List ℕ = (b ∷ bytes) ++ (0 ∷ 0 ∷ []) in
    let found : drop_le n behind ≡ some (b ∷ bytes) =
      ap (λ t. if t then some (take n behind) else none) whole
      ∙ ap some (take-append n (b ∷ bytes) (0 ∷ 0 ∷ []) refl) in
    ap
      (λ r. elim r as (λ _. Option (ℕ × ℕ × List ℕ)) [
        | none ↦ none
        | some payload ↦ some (ins, p1, payload)
      ])
      found

-- Every request with at most 65535 bytes of data, none included, is framed, and a token that reads
-- extended APDUs finds in the frame its instruction, its first parameter and its data.
pub parse_request-serialize :
    (ins p1 : ℕ) (payload : List ℕ)
    → length payload ≤ 0xffff
    → parse_request (serialize ins p1 payload) ≡ some (ins, p1, payload)
parse_request-serialize ins p1 [] h = ap parse_request (serialize_empty ins p1)
parse_request-serialize ins p1 (b ∷ bytes) h =
    let n : ℕ = length (b ∷ bytes) in
    let len : n / 2 ^ 8 % 2 ^ 8 * 256 + n % 2 ^ 8 ≡ n = omega arith in
    rw (serialize_lem ins p1 b bytes h, len) (parse_body_lem ins p1 b bytes)

-- For two hashes of 32 bytes and a key handle of at most 255 bytes, the request that checks the key
-- handle is framed, and a token reads in it the instruction to authenticate, the parameter to check
-- only, and the hashes, the length of the key handle and the key handle, in this order.
parse_request-check_format :
    (key_handle client_data_hash rp_hash : List ℕ)
    → length key_handle ≤ 255
    → length client_data_hash ≡ 32
    → length rp_hash ≡ 32
    → parse_request (check_format key_handle client_data_hash rp_hash)
      ≡ some (0x02, 0x07, client_data_hash ++ (rp_hash ++ (length key_handle ∷ key_handle)))
unfolding check_format
parse_request-check_format key_handle client_data_hash rp_hash h hc hr =
    let len : length key_handle % 2 ^ 8 ≡ length key_handle = omega arith in
    rw len (
      parse_request-serialize 0x02 0x07
        (client_data_hash ++ (rp_hash ++ (length key_handle ∷ key_handle)))
        (omega (
          arith,
          length-append client_data_hash (rp_hash ++ (length key_handle ∷ key_handle)),
          length-append rp_hash (length key_handle ∷ key_handle),
        )))

status_own :
    (s0 s1 : ℕ)
    → check_response (apdu_status s0 s1) ≡ none
    → ((s0 ≡ 0x90) × (s1 ≡ 0x00)) ⊎ ((s0 ≡ 0x69) × (s1 ≡ 0x85))
unfolding check_response apdu_status
status_own s0 s1 e = ground (arith, e)

-- A key handle counts as the token's own exactly on two status words: 9000, no error, and 6985,
-- which asks for the user's presence.
check_response-apdu_status :
    (s0 s1 : ℕ)
    → (check_response (apdu_status s0 s1) ≡ none)
      ↔ (((s0 ≡ 0x90) × (s1 ≡ 0x00)) ⊎ ((s0 ≡ 0x69) × (s1 ≡ 0x85)))
unfolding check_response apdu_status
check_response-apdu_status s0 s1 = (
  status_own s0 s1,
  λ own. elim own [
    | inl (e, f) ↦ ap₂ (λ a b. check_response (apdu_status a b)) e f
    | inr (e, f) ↦ ap₂ (λ a b. check_response (apdu_status a b)) e f
  ],
)
