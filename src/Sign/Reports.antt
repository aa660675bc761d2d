-- ===== src/Sign/Reports.antt =====
-- src/ctap2/mod.rs: what `sign` reports to its caller.
use authenticator_rs.Common.{
  ℕ, List, [], ◌≡◌, refl, ◌⊎◌, inl, inr, Option, some, Option-cases, Bool-cases,
}
use authenticator_rs.Command.{GetAssertion, RelyingParty, rp_from, SecretOperations}
use authenticator_rs.Dispatch.{Authenticator, loop, preflight}
use authenticator_rs.Dispatch.Loops.{IfSome, IfSome-map, loop-Keeps}
use authenticator_rs.Preflight.{silently_discover_credentials}
use authenticator_rs.Puap.{Session}
use authenticator_rs.Sign.{
  SignArgs, is_empty, check_sign, use_app_id, new_get_assertion, sign_round, sign,
}
use authenticator_rs.Sign.Choice.{Reports}
use authenticator_rs.Sign.Round.{Goes, sign_round-Reports}

-- The relying party is the one of the arguments, or the alternative one that their extension names.
abbrev pub IsAddressed : SignArgs → RelyingParty → Type 0
IsAddressed args rp =
    (rp ≡ rp_from args.relying_party_id)
    ⊎ ((app_id : List ℕ) × (args.extensions.app_id ≡ some app_id) × (rp ≡ rp_from app_id))

module _ {Dev Token Secret Param Key Made Assertion User : Type 0}
    (a : Authenticator Dev Token Secret Param Key Made Assertion)
    (derive : Token → List ℕ → Option Param) (silent_hash : List ℕ)
    (secrets : SecretOperations Secret Key) (user : Assertion → Option User) where
  use_app_id-IsAddressed :
      (args : SignArgs) (dev : Dev)
      → IsAddressed args (use_app_id a derive silent_hash secrets user args dev).0.0
  unfolding use_app_id
  use_app_id-IsAddressed args dev = elim (Option-cases args.extensions.app_id) [
    | inl e ↦ rw (use_app_id, e) (inl refl)
    | inr (app_id, e) ↦
        let found =
          (silently_discover_credentials (preflight a) (λ token. derive token silent_hash)
            args.allow_list (rp_from app_id) args.client_data_hash dev).0 in
        elim (Bool-cases (is_empty args.allow_list)) [
          | inl l ↦ rw (use_app_id, e, l) (inl refl)
          | inr l ↦ elim (Bool-cases (is_empty found)) [
            | inl f ↦ rw (use_app_id, e, l, f) (inl refl)
            | inr f ↦ rw (use_app_id, e, l, f) (inr (app_id, refl, refl))
          ]
        ]
  ]

  -- Whenever `sign` returns, it has called the callback at most once. If it returns true, then with
  -- one of the assertions that the token gave in answer to a request for the client data and the
  -- relying party of the arguments, or the alternative one of their extension; or with the error of
  -- a user who cancelled, when there was not just one assertion to choose from. The request carried
  -- the parameter and the `uv` option that `determine_puap_if_needed`, called for such a request
  -- with the requirement of the arguments, left when it returned a kind of verification, and they
  -- fit that kind, so that there was never a parameter and the option both. If it returns false,
  -- then after one call with an error, or without a call and then because the closure `alive` had
  -- just said so.
  pub sign-Reports :
      (args : SignArgs) (fuel : ℕ) (s : Session Dev User Assertion)
      → IfSome
          (λ exit.
            (rp : RelyingParty) × IsAddressed args rp
            × Reports a derive args.user_verification_req s.called
                (new_get_assertion a derive silent_hash secrets user args (rp, []))
                exit)
          (sign a derive silent_hash secrets user args fuel s)
  unfolding sign
  sign-Reports args fuel s = elim (Option-cases (check_sign args (a.pins.get_protocol s.dev))) [
    | inr (e, r) ↦ rw (sign, r) (rp_from args.relying_party_id, inl refl, inl (e, refl))
    | inl r ↦
        let addressed = use_app_id-IsAddressed args s.dev in
        let rp : RelyingParty = (use_app_id a derive silent_hash secrets user args s.dev).0.0 in
        let request : GetAssertion Param Key =
          new_get_assertion a derive silent_hash secrets user args (rp, []) in
        rw (sign, r)
          (IfSome-map _ _
            (loop (sign_round a derive silent_hash secrets user args.user_verification_req) fuel _)
            (λ exit q. (rp, addressed, q))
            (loop-Keeps (sign_round a derive silent_hash secrets user args.user_verification_req)
              (Goes a derive args.user_verification_req silent_hash secrets user s.called request)
              (Reports a derive args.user_verification_req s.called request)
              (sign_round-Reports a derive args.user_verification_req silent_hash secrets user
                s.called request)
              fuel _ (refl, refl)))
  ]
