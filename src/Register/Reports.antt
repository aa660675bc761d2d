-- ===== src/Register/Reports.antt =====
-- src/ctap2/mod.rs: what `register` reports to its caller.
use authenticator_rs.Common.{
  ℕ, List, ◌≡◌, refl, inl, inr, true, false, Option, none, some, arith, Bool-cases,
}
use authenticator_rs.Command.{MakeCredentials, MakeCredentialsOptions, MakeCredentialsOptions}
use authenticator_rs.Command.Setters.{core}
use authenticator_rs.Dispatch.{Authenticator, Exit, loop, call_and_return}
use authenticator_rs.Dispatch.Handling.{sum-cases}
use authenticator_rs.Dispatch.Loops.{IfSome-map, IfSome, loop-Keeps}
use authenticator_rs.Errors.{AuthenticatorError, UnsupportedOption, unsupported_option, Result, err}
use authenticator_rs.Hid.Device.{FidoProtocol}
use authenticator_rs.Info.{AuthenticatorInfo}
use authenticator_rs.Puap.{Session}
use authenticator_rs.Register.{
  RegisterArgs, required, choose_options, lacks_cred_protect, new_make_credentials, register_round,
  register,
}
use authenticator_rs.Register.Round.{Goes, Reports, register_round-Reports}

-- The request is made of these arguments; a resident key that is required is asked for.
abbrev pub Requested : {Param : Type 0} → RegisterArgs → MakeCredentials Param → Type 0
Requested args request =
    (core request
      ≡ core (
          new_make_credentials args
            (record { resident_key = request.options.resident_key; user_verification = none })))
    × (args.resident_key_req ≡ required → request.options.resident_key ≡ some true)

new-Requested :
    {Param : Type 0} (args : RegisterArgs) (p : FidoProtocol) (info : Option AuthenticatorInfo)
    (o : MakeCredentialsOptions)
    → choose_options args p info ≡ inr o
    → Requested {Param = Param} args (new_make_credentials args o)
unfolding choose_options
new-Requested args p info o e = (refl, ground arith)

module _ {Dev Token Secret Param Key Made Assertion User : Type 0}
    (a : Authenticator Dev Token Secret Param Key Made Assertion)
    (derive : Token → List ℕ → Option Param) (silent_hash : List ℕ) where
  abbrev Reported : RegisterArgs → List (Result Made) → Exit Dev User Made → Type 0
  Reported args before exit =
      (request : MakeCredentials Param) × Requested args request
      × Reports a derive silent_hash args.user_verification_req before request exit

  refused-Reported :
      (args : RegisterArgs) (e : AuthenticatorError) (s : Session Dev User Made)
      → IfSome (Reported args s.called) (some (call_and_return (err e) false s))
  refused-Reported args e s =
      let request : MakeCredentials Param =
        new_make_credentials args (record { resident_key = some true; user_verification = none }) in
      (request, (refl, λ r. refl), inl (e, refl))

  -- Whenever `register` returns, it has called the callback at most once. If it returns true, then
  -- with a credential that is the token's answer to a request made of the arguments: the same
  -- client data, relying party, user, algorithms and extensions, with a resident key if one is
  -- required. The request carried the parameter and the `uv` option that
  -- `determine_puap_if_needed`, called for such a request with the requirement of the arguments,
  -- left when it returned a kind of verification, and they fit that kind, so that there was never a
  -- parameter and the option both. If it returns false, then after one call with an error, or
  -- without a call and then because the closure `alive` had just said so.
  pub register-Reports :
      (args : RegisterArgs) (fuel : ℕ) (s : Session Dev User Made)
      → IfSome
          (λ exit.
            (request : MakeCredentials Param) × Requested args request
            × Reports a derive silent_hash args.user_verification_req s.called request exit)
          (register a derive silent_hash args fuel s)
  unfolding register
  register-Reports args fuel s =
      elim (sum-cases
        (choose_options args (a.pins.get_protocol s.dev) (a.pins.get_authenticator_info s.dev))) [
          | inl (e, r) ↦ rw (register, r) (refused-Reported args e s)
          | inr (options, r) ↦
              elim (Bool-cases (lacks_cred_protect args (a.pins.get_authenticator_info s.dev))) [
                | inl l ↦
                    rw (register, r, l)
                      (refused-Reported args (unsupported_option UnsupportedOption.cred_protect) s)
                | inr l ↦
                    let request = new_make_credentials args options in
                    rw (register, r, l)
                      (IfSome-map _ _
                        (loop (register_round a derive silent_hash args.user_verification_req) fuel
                          _)
                        (λ exit q. (request, new-Requested args _ _ options r, q))
                        (loop-Keeps (register_round a derive silent_hash args.user_verification_req)
                          (Goes a derive silent_hash args.user_verification_req s.called request)
                          (Reports a derive silent_hash args.user_verification_req s.called request)
                          (register_round-Reports a derive silent_hash args.user_verification_req
                            s.called request)
                          fuel _ (refl, refl)))
              ]
        ]
