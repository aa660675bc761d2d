-- ===== src/Preflight/Requests.antt =====
-- src/ctap2/preflight.rs: the requests that the filtering sends.
use authenticator_rs.Common.{
  ◌⊎◌, ◌≤◌, ◌≡◌, refl, List, [], ◌∷◌, false, Option, none, some, inl, inr, length, All,
  Option-cases,
}
use authenticator_rs.Info.{AuthenticatorInfo}
use authenticator_rs.Preflight.{
  Credential, SilentAssert, FidoDevice, chunks, chunk_size, retain_known_lengths,
  set_pin_uv_auth_param, new_silent_assert, try_chunks, do_credential_list_filtering_ctap2,
}
use authenticator_rs.Preflight.Chunks.{
  FitsId, FitsCount, chunk_size-FitsCount, chunk_size_pos, chunks-All, retain_known_lengths-All,
}

-- A request that a token with these limits has to accept: one credential at least, not more than
-- it takes in a list, no id longer than it takes, and no user presence asked for.
abbrev pub IsLegal :
    {Rp Param : Type 0} → AuthenticatorInfo → (Credential → Type 0) → SilentAssert Rp Param → Type 0
IsLegal info Q m =
    (1 ≤ length m.allow_list)
    × FitsCount info.max_credential_count_in_list (length m.allow_list)
    × All (λ c. FitsId info.max_credential_id_length c × Q c) m.allow_list
    × (m.user_presence ≡ some false)

module _ {Dev Rp Param Token : Type 0} (device : FidoDevice Dev Rp Param)
    (derive : Token → Option Param) where
  -- A token changes the parameter of a request only, or no request is made.
  pub pin-cases :
      (m : SilentAssert Rp Param) (token : Option Token)
      → (set_pin_uv_auth_param device derive m token ≡ none)
        ⊎ ((p : Option Param) × (set_pin_uv_auth_param device derive m token
              ≡ some (record m { pin_uv_auth_param = p })))
  unfolding set_pin_uv_auth_param
  pin-cases m none = inr (none, refl)
  pin-cases m (some token) = elim (Option-cases (derive token)) [
    | inl e ↦ inl (rw (e, set_pin_uv_auth_param) refl)
    | inr (p, e) ↦ inr (some p, rw (e, set_pin_uv_auth_param) refl)
  ]

module _ {Dev Rp Param Token : Type 0} (device : FidoDevice Dev Rp Param)
    (derive : Token → Option Param) (info : AuthenticatorInfo) (P : Dev → Type 0)
    (Q : Credential → Type 0)
    (keeps : (dev : Dev) (m : SilentAssert Rp Param)
      → P dev
      → IsLegal info Q m
      → P (device.send_msg dev m).1) where
  abbrev IsLegalChunk : List Credential → Type 0
  IsLegalChunk chunk =
      (1 ≤ length chunk)
      × (length chunk ≤ chunk_size info)
      × All (λ c. FitsId info.max_credential_id_length c × Q c) chunk

  try_chunks-keeps :
      (rp : Rp) (token : Option Token) (cs : List (List Credential)) (dev : Dev)
      → All IsLegalChunk cs
      → P dev
      → P (try_chunks device derive rp token cs dev).1
  unfolding try_chunks
  try_chunks-keeps rp token [] dev h p = p
  try_chunks-keeps rp token (chunk ∷ cs) dev h p =
      elim (pin-cases device derive (new_silent_assert device derive rp chunk) token) [
        | inl e ↦ rw (e, try_chunks) p
        | inr (param, e) ↦
            let m : SilentAssert Rp Param = record (new_silent_assert device derive rp chunk) {
              pin_uv_auth_param = param;
            } in
            let sent : P (device.send_msg dev m).1 =
              keeps dev m p (h.0.0, chunk_size-FitsCount info (length chunk) h.0.1, h.0.2, refl) in
            elim (Option-cases (device.send_msg dev m).0) [
              | inl r ↦
                  rw (e, r, try_chunks)
                    (try_chunks-keeps rp token cs (device.send_msg dev m).1 h.1 sent)
              | inr (results, r) ↦ rw (e, r, try_chunks) sent
            ]
      ]

  -- For a token that states its limits, whatever it answers: a property of its state that every
  -- legal request keeps, and that holds before, holds after the filtering. Legal are requests of
  -- one credential at least, of no more than the token takes in a list, each from the given list
  -- and with an id no longer than the token takes, without a test of user presence.
  pub do_credential_list_filtering_ctap2-keeps :
      (cred_list : List Credential) (rp : Rp) (token : Option Token) (dev : Dev)
      → All Q cred_list
      → device.get_authenticator_info dev ≡ some info
      → P dev
      → P (do_credential_list_filtering_ctap2 device derive cred_list rp token dev).1
  unfolding do_credential_list_filtering_ctap2
  do_credential_list_filtering_ctap2-keeps cred_list rp token dev q i p =
      let cs : List Credential = retain_known_lengths info.max_credential_id_length cred_list in
      rw (i, do_credential_list_filtering_ctap2)
        (try_chunks-keeps rp token (chunks (length cs) (chunk_size info) cs) dev
          (chunks-All (λ c. FitsId info.max_credential_id_length c × Q c) (length cs)
            (chunk_size info) cs (chunk_size_pos info)
            (retain_known_lengths-All Q info.max_credential_id_length cred_list q))
          p)
