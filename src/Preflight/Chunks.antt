-- ===== src/Preflight/Chunks.antt =====
-- src/ctap2/preflight.rs: what lists of credentials are cut into, and what is kept of them.
use authenticator_rs.Common.{
  ℕ, zero, suc, ◌≤◌, ◌≡◌, refl, ap, ◌∙◌, List, [], ◌∷◌, ◌++◌, Option, none, some, length, take,
  drop, take-append-drop, length-take, length-drop, leb, arith, All, All-take, All-drop, Bool-cases,
  inl, inr,
}
use authenticator_rs.Info.{AuthenticatorInfo}
use authenticator_rs.Preflight.{
  Credential, chunks, chunk_size, count_limit, size_limit, retain, retain_known_lengths,
}

abbrev pub concat : List (List Credential) → List Credential
concat [] = []
concat (c ∷ cs) = c ++ concat cs

pub concat-chunks :
    (fuel size : ℕ) (cs : List Credential)
    → 1 ≤ size
    → length cs ≤ fuel
    → concat (chunks fuel size cs) ≡ cs
unfolding chunks
concat-chunks zero size [] h f = refl
concat-chunks (suc fuel) size [] h f = refl
concat-chunks zero size (c ∷ cs) h f = absurd (omega arith)
concat-chunks (suc fuel) size (c ∷ cs) h f =
    let rest =
      concat-chunks fuel size (drop size (c ∷ cs)) h (omega (arith, length-drop size (c ∷ cs))) in
    ap (λ l. take size (c ∷ cs) ++ l) rest ∙ take-append-drop size (c ∷ cs)

-- The length of an id and the number of credentials against the limits that a token states,
-- where an id limit of 0 is no limit, and a count limit of 0, or none, stands for 1.
abbrev pub FitsId : Option ℕ → Credential → Type 0
FitsId none c = Unit
FitsId (some zero) c = Unit
FitsId (some (suc n)) c = length c.id ≤ suc n

abbrev pub FitsCount : Option ℕ → ℕ → Type 0
FitsCount none n = n ≤ 1
FitsCount (some zero) n = n ≤ 1
FitsCount (some (suc k)) n = n ≤ suc k

size_limit-FitsCount : (count id : Option ℕ) (n : ℕ) → n ≤ size_limit count id → FitsCount count n
size_limit-FitsCount none none n h = h
size_limit-FitsCount none (some zero) n h = h
size_limit-FitsCount none (some (suc k)) n h = h
size_limit-FitsCount (some zero) none n h = h
size_limit-FitsCount (some zero) (some zero) n h = h
size_limit-FitsCount (some zero) (some (suc k)) n h = h
size_limit-FitsCount (some (suc c)) none n h = h
size_limit-FitsCount (some (suc c)) (some zero) n h = omega arith
size_limit-FitsCount (some (suc c)) (some (suc k)) n h = h

pub chunk_size-FitsCount :
    (info : AuthenticatorInfo) (n : ℕ)
    → n ≤ chunk_size info
    → FitsCount info.max_credential_count_in_list n
chunk_size-FitsCount info n h =
    size_limit-FitsCount info.max_credential_count_in_list info.max_credential_id_length n h

count_limit_pos : (count : Option ℕ) → 1 ≤ count_limit count
count_limit_pos none = omega arith
count_limit_pos (some zero) = omega arith
count_limit_pos (some (suc n)) = omega arith

size_limit_pos : (count id : Option ℕ) → 1 ≤ size_limit count id
size_limit_pos count none = count_limit_pos count
size_limit_pos count (some zero) = omega arith
size_limit_pos count (some (suc n)) = count_limit_pos count

pub chunk_size_pos : (info : AuthenticatorInfo) → 1 ≤ chunk_size info
chunk_size_pos info = size_limit_pos info.max_credential_count_in_list info.max_credential_id_length

module _ (Q : Credential → Type 0) where
  -- Each chunk has an element at least and `size` at most, all of them from the list.
  pub chunks-All :
      (fuel size : ℕ) (cs : List Credential)
      → 1 ≤ size
      → All Q cs
      → All
          (λ chunk. (1 ≤ length chunk) × (length chunk ≤ size) × All Q chunk)
          (chunks fuel size cs)
  unfolding chunks
  chunks-All zero size [] h q = tt
  chunks-All (suc fuel) size [] h q = tt
  chunks-All zero size (c ∷ cs) h q = tt
  chunks-All (suc fuel) size (c ∷ cs) h q = (
    (
      omega (arith, length-take size (c ∷ cs)),
      omega (arith, length-take size (c ∷ cs)),
      All-take Q size (c ∷ cs) q,
    ),
    chunks-All fuel size (drop size (c ∷ cs)) h (All-drop Q size (c ∷ cs) q),
  )

  pub retain-All :
      (n : ℕ) (cs : List Credential) → All Q cs → All (λ c. (length c.id ≤ n) × Q c) (retain n cs)
  retain-All n [] h = tt
  retain-All n (c ∷ cs) h = elim (Bool-cases (leb (length c.id) n)) [
    | inl p ↦ rw p ((ground arith, h.0), retain-All n cs h.1)
    | inr p ↦ rw p (retain-All n cs h.1)
  ]

  All-and : (cs : List Credential) → All Q cs → All (λ c. Unit {0} × Q c) cs
  All-and [] h = tt
  All-and (c ∷ cs) h = ((tt, h.0), All-and cs h.1)

  pub retain_known_lengths-All :
      (limit : Option ℕ) (cs : List Credential)
      → All Q cs
      → All (λ c. FitsId limit c × Q c) (retain_known_lengths limit cs)
  retain_known_lengths-All none cs h = All-and cs h
  retain_known_lengths-All (some zero) cs h = All-and cs h
  retain_known_lengths-All (some (suc n)) cs h = retain-All (suc n) cs h
