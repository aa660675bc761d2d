-- ===== src/Preflight/Honest.antt =====
-- src/ctap2/preflight.rs: what the filtering finds on a token that answers as the protocols say.
use authenticator_rs.Common.{
  leb, list-cases, ℕ, zero, suc, ◌≤◌, ◌≡◌, ◌↔◌, ◌⊎◌, refl, ap, List, [], ◌∷◌, ◌++◌, Bool, true,
  false, Option, none, some, inl, inr, length, if◌then◌else◌, arith, All, Bool-cases,
}
use mathlib.Core.Path.{subst}
use authenticator_rs.Hid.Device.{FidoProtocol, ctap1, ctap2}
use authenticator_rs.Info.{AuthenticatorInfo}
use authenticator_rs.Preflight.{
  Credential, FilterError, FidoDevice, chunks, chunk_size, retain, retain_known_lengths,
  set_pin_uv_auth_param, try_chunks, returned, do_credential_list_filtering_ctap2,
  do_credential_list_filtering_ctap1, silently_discover_credentials, to_vec,
}
use authenticator_rs.Preflight.Chunks.{
  concat, concat-chunks, chunk_size_pos, chunks-All, retain_known_lengths-All, retain-All, FitsId,
}

-- The credentials of a list that a token knows.
abbrev pub known_of : (List ℕ → Bool) → List Credential → List Credential
known_of knows [] = []
known_of knows (c ∷ cs) = let rest = known_of knows cs in if knows c.id then c ∷ rest else rest

abbrev pub all_some : List Credential → List (Option Credential)
all_some [] = []
all_some (c ∷ cs) = some c ∷ all_some cs

-- The answer to a silent assertion: an error when no credential of the list is known, and
-- otherwise those that are; when the list has one element, it may be left out.
abbrev pub answer : Bool → List Credential → List Credential → Option (List (Option Credential))
answer omits list [] = none
answer true (c ∷ []) (k ∷ ks) = some (none ∷ [])
answer omits list (k ∷ ks) = some (all_some (k ∷ ks))

module _ {Rp Param : Type 0} where
  abbrev pub honest :
      FidoProtocol → AuthenticatorInfo → (List ℕ → Bool) → Bool → FidoDevice Unit Rp Param
  honest protocol info knows omits = record {
    get_protocol = λ _. protocol;
    get_authenticator_info = λ _. some info;
    send_ctap1 = λ _ m. (knows m.key_handle, tt);
    send_msg = λ _ m. (answer omits m.allow_list (known_of knows m.allow_list), tt);
  }

-- Those of a list that the filtering keeps.
abbrev pub candidates : FidoProtocol → AuthenticatorInfo → List Credential → List Credential
candidates ctap1 info cs = retain 255 cs
candidates ctap2 info cs = retain_known_lengths info.max_credential_id_length cs

-- The limit itself.
abbrev pub Fits : FidoProtocol → AuthenticatorInfo → Credential → Type 0
Fits ctap1 info c = length c.id ≤ 255
Fits ctap2 info c = FitsId info.max_credential_id_length c

-- The known ones of the first chunk that has any.
first_known : (List ℕ → Bool) → List (List Credential) → List Credential
first_known knows [] = []
first_known knows (chunk ∷ rest) =
    let later = first_known knows rest in
    elim (known_of knows chunk) [ [] ↦ later | c ∷ cs ↦ c ∷ cs ]

returned-all_some : (chunk cs : List Credential) → returned chunk (all_some cs) ≡ cs
returned-all_some chunk [] = refl
returned-all_some [] (c ∷ cs) = ap (λ l. c ∷ l) (returned-all_some [] cs)
returned-all_some (a ∷ []) (c ∷ cs) = ap (λ l. c ∷ l) (returned-all_some (a ∷ []) cs)
returned-all_some (a ∷ b ∷ rest) (c ∷ cs) = ap (λ l. c ∷ l) (returned-all_some (a ∷ b ∷ rest) cs)

-- A response that is no error stands for the known ones of the chunk.
answered :
    (omits : Bool) (knows : List ℕ → Bool) (chunk : List Credential) (k : Credential)
    (ks : List Credential)
    → known_of knows chunk ≡ k ∷ ks
    → (results : List (Option Credential)) × (answer omits chunk (k ∷ ks) ≡ some results)
      × (returned chunk results ≡ k ∷ ks)
answered false knows chunk k ks e = (all_some (k ∷ ks), refl, returned-all_some chunk (k ∷ ks))
answered true knows [] k ks e = (all_some (k ∷ ks), refl, returned-all_some [] (k ∷ ks))
answered true knows (a ∷ b ∷ cs) k ks e =
    (all_some (k ∷ ks), refl, returned-all_some (a ∷ b ∷ cs) (k ∷ ks))
answered true knows (c ∷ []) k ks e = (none ∷ [], refl, ground (arith, e))

-- The first of them.
abbrev pub head? : List Credential → Option Credential
head? [] = none
head? (c ∷ cs) = some c

known_of-append :
    (knows : List ℕ → Bool) (a b : List Credential)
    → known_of knows (a ++ b) ≡ known_of knows a ++ known_of knows b
known_of-append knows [] b = refl
known_of-append knows (c ∷ a) b = elim (Bool-cases (knows c.id)) [
  | inl p ↦ rw p (ap (λ l. c ∷ l) (known_of-append knows a b))
  | inr p ↦ rw p (known_of-append knows a b)
]

-- Nothing is found exactly when nothing is known.
first_known-concat :
    (knows : List ℕ → Bool) (cs : List (List Credential))
    → (first_known knows cs ≡ []) ↔ (known_of knows (concat cs) ≡ [])
unfolding first_known
first_known-concat knows [] = (λ e. e, λ e. e)
first_known-concat knows (chunk ∷ cs) = elim (list-cases (known_of knows chunk)) [
  | inl e ↦
      rw (known_of-append knows chunk (concat cs), e, first_known) (first_known-concat knows cs)
  | inr (k, ks, e) ↦
      rw (known_of-append knows chunk (concat cs), e, first_known)
        (λ h. absurd (cc h), λ h. absurd (cc h))
]

module _ (knows : List ℕ → Bool) (Q : Credential → Type 0) where
  abbrev IsKnown : Credential → Type 0
  IsKnown c = (knows c.id ≡ true) × Q c

  known_of-All : (cs : List Credential) → All Q cs → All IsKnown (known_of knows cs)
  known_of-All [] h = tt
  known_of-All (c ∷ cs) h = elim (Bool-cases (knows c.id)) [
    | inl p ↦ rw p ((p, h.0), known_of-All cs h.1)
    | inr p ↦ rw p (known_of-All cs h.1)
  ]

  first_known-All :
      (cs : List (List Credential)) → All (All Q) cs → All IsKnown (first_known knows cs)
  unfolding first_known
  first_known-All [] h = tt
  first_known-All (chunk ∷ cs) h = elim (list-cases (known_of knows chunk)) [
    | inl e ↦ rw (e, first_known) (first_known-All cs h.1)
    | inr (k, ks, e) ↦ rw (e, first_known) (subst (All IsKnown) e (known_of-All chunk h.0))
  ]

module _ {Rp Param Token : Type 0} (protocol : FidoProtocol) (info : AuthenticatorInfo)
    (knows : List ℕ → Bool) (omits : Bool) (derive : Token → Option Param) (rp : Rp) where
  abbrev token_device : FidoDevice Unit Rp Param
  token_device = honest protocol info knows omits

  found : List Credential → (FilterError ⊎ List Credential) × Unit {0}
  found cs = (inr cs, tt)

  try_chunks_lem :
      (cs : List (List Credential))
      → try_chunks token_device derive rp none cs tt ≡ (inr (first_known knows cs), tt)
  unfolding try_chunks set_pin_uv_auth_param first_known found
  try_chunks_lem [] = refl
  try_chunks_lem (chunk ∷ cs) = elim (list-cases (known_of knows chunk)) [
    | inl e ↦ rw (e, first_known) (try_chunks_lem cs)
    | inr (k, ks, e) ↦
        let (results, sent, back) = answered omits knows chunk k ks e in
        rw (e, sent, try_chunks, first_known) (ap (λ l. found l) back)
  ]

  find_lem :
      (cs : List Credential) (hash : List ℕ)
      → (do_credential_list_filtering_ctap1 token_device derive cs rp hash tt).0
        ≡ head? (known_of knows (retain 255 cs))
  unfolding do_credential_list_filtering_ctap1
  find_lem [] hash = refl
  find_lem (c ∷ cs) hash = ground (arith, find_lem cs hash)

  head?-empty : (cs : List Credential) → (to_vec token_device derive (head? cs) ≡ []) ↔ (cs ≡ [])
  head?-empty [] = (λ e. refl, λ e. refl)
  head?-empty (c ∷ cs) = (λ e. absurd (cc e), λ e. absurd (cc e))

  head?-All :
      (P : Credential → Type 0) (cs : List Credential)
      → All P cs
      → All P (to_vec token_device derive (head? cs))
  head?-All P [] h = tt
  head?-All P (c ∷ cs) h = (h.0, tt)

All-third :
    (P R : List Credential → Type 0) (Q : Credential → Type 0) (cs : List (List Credential))
    → All (λ chunk. P chunk × R chunk × All Q chunk) cs
    → All (All Q) cs
All-third P R Q [] h = tt
All-third P R Q (c ∷ cs) h = (h.0.2, All-third P R Q cs h.1)

silently_discover_credentials-candidates :
    {Rp Param Token : Type 0} (protocol : FidoProtocol) (info : AuthenticatorInfo)
    (knows : List ℕ → Bool) (omits : Bool) (derive : Token → Option Param) (rp : Rp)
    (Q : Credential → Type 0) (cred_list : List Credential) (hash : List ℕ)
    → All Q cred_list
    → let found =
        (silently_discover_credentials
          (honest protocol info knows omits)
          derive
          cred_list
          rp
          hash
          tt).0 in
      ((found ≡ []) ↔ (known_of knows (candidates protocol info cred_list) ≡ []))
      × All (λ c. (knows c.id ≡ true) × (Fits protocol info c × Q c)) found
unfolding silently_discover_credentials
silently_discover_credentials-candidates ctap1 info knows omits derive rp Q cred_list hash h =
    rw (silently_discover_credentials, find_lem ctap1 info knows omits derive rp cred_list hash)
      (
        head?-empty ctap1 info knows omits derive rp (known_of knows (retain 255 cred_list)),
        head?-All ctap1 info knows omits derive rp _ (known_of knows (retain 255 cred_list)) (
            known_of-All knows (λ c. (length c.id ≤ 255) × Q c) (retain 255 cred_list)
              (retain-All Q 255 cred_list h)),
      )
silently_discover_credentials-candidates ctap2 info knows omits derive rp Q cred_list hash h =
    let cs : List Credential = retain_known_lengths info.max_credential_id_length cred_list in
    let cut : List (List Credential) = chunks (length cs) (chunk_size info) cs in
    let whole : concat cut ≡ cs =
      concat-chunks (length cs) (chunk_size info) cs (chunk_size_pos info) (omega arith) in
    let legal : All (All (λ c. FitsId info.max_credential_id_length c × Q c)) cut =
      All-third _ _ _ cut (
        chunks-All (λ c. FitsId info.max_credential_id_length c × Q c) (length cs) (chunk_size info)
          cs (chunk_size_pos info)
          (retain_known_lengths-All Q info.max_credential_id_length cred_list h)) in
    rw
      (
        silently_discover_credentials,
        do_credential_list_filtering_ctap2,
        try_chunks_lem ctap2 info knows omits derive rp cut,
      )
      (
        subst (λ l. (first_known knows cut ≡ []) ↔ (known_of knows l ≡ [])) whole
            (first_known-concat knows cut),
        first_known-All knows (λ c. FitsId info.max_credential_id_length c × Q c) cut legal,
      )

-- Every credential of the list that an id limit leaves is unknown, when none of them is known.
known_of-retain :
    (knows : List ℕ → Bool) (n : ℕ) (cs : List Credential)
    → (known_of knows (retain n cs) ≡ []) ↔ All (λ c. length c.id ≤ n → knows c.id ≡ false) cs
known_of-retain knows n [] = (λ e. tt, λ h. refl)
known_of-retain knows n (c ∷ cs) =
    let (to, from) = known_of-retain knows n cs in
    elim (Bool-cases (leb (length c.id) n)) [
      | inr l ↦ rw l (λ e. ((λ f. ground arith), to e), λ h. from h.1)
      | inl l ↦
          let fits : length c.id ≤ n = ground arith in
          elim (Bool-cases (knows c.id)) [
            | inl k ↦ rw (l, k) (λ e. ground arith, λ h. ground (arith, h.0 fits, k))
            | inr k ↦ rw (l, k) (λ e. ((λ f. refl), to e), λ h. from h.1)
          ]
    ]

known_of-none :
    (knows : List ℕ → Bool) (cs : List Credential)
    → (known_of knows cs ≡ []) ↔ All (λ c. Unit {0} → knows c.id ≡ false) cs
known_of-none knows [] = (λ e. tt, λ h. refl)
known_of-none knows (c ∷ cs) =
    let (to, from) = known_of-none knows cs in
    elim (Bool-cases (knows c.id)) [
      | inl k ↦ rw k (λ e. ground arith, λ h. ground (arith, h.0 tt, k))
      | inr k ↦ rw k (λ e. ((λ f. refl), to e), λ h. from h.1)
    ]

known_of-limit :
    (knows : List ℕ → Bool) (limit : Option ℕ) (cs : List Credential)
    → (known_of knows (retain_known_lengths limit cs) ≡ [])
      ↔ All (λ c. FitsId limit c → knows c.id ≡ false) cs
known_of-limit knows none cs = known_of-none knows cs
known_of-limit knows (some zero) cs = known_of-none knows cs
known_of-limit knows (some (suc n)) cs = known_of-retain knows (suc n) cs

known_of-candidates :
    (protocol : FidoProtocol) (info : AuthenticatorInfo) (knows : List ℕ → Bool)
    (cs : List Credential)
    → (known_of knows (candidates protocol info cs) ≡ [])
      ↔ All (λ c. Fits protocol info c → knows c.id ≡ false) cs
known_of-candidates ctap1 info knows cs = known_of-retain knows 255 cs
known_of-candidates ctap2 info knows cs = known_of-limit knows info.max_credential_id_length cs

-- On a token that answers as its protocol says, whether or not it leaves out the only credential
-- of a list: nothing is found exactly when it knows no credential of the list whose id is within its
-- limit (255 bytes for CTAP1; for CTAP2 the limit that the token states, none or 0 being no limit),
-- and all that is found is known to it, within that limit and from the list.
pub silently_discover_credentials-honest :
    {Rp Param Token : Type 0} (protocol : FidoProtocol) (info : AuthenticatorInfo)
    (knows : List ℕ → Bool) (omits : Bool) (derive : Token → Option Param) (rp : Rp)
    (Q : Credential → Type 0) (cred_list : List Credential) (hash : List ℕ)
    → All Q cred_list
    → let found =
        (silently_discover_credentials
          (honest protocol info knows omits)
          derive
          cred_list
          rp
          hash
          tt).0 in
      ((found ≡ []) ↔ All (λ c. Fits protocol info c → knows c.id ≡ false) cred_list)
      × All (λ c. (knows c.id ≡ true) × (Fits protocol info c × Q c)) found
silently_discover_credentials-honest protocol info knows omits derive rp Q cred_list hash h =
    let (found, known) =
      silently_discover_credentials-candidates protocol info knows omits derive rp Q cred_list hash
        h in
    let listed = known_of-candidates protocol info knows cred_list in
    ((λ e. listed.0 (found.0 e), λ e. found.1 (listed.1 e)), known)
