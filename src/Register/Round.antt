-- ===== src/Register/Round.antt =====
-- src/ctap2/mod.rs: one round of the loop of `register`.
use authenticator_rs.Common.{
  ℕ, List, ◌∷◌, ◌≡◌, ◌∙◌, refl, ap, ◌⊎◌, inl, inr, Bool, true, false, Option, arith, Bool-cases,
  Option-cases,
}
use mathlib.Core.Path.{subst}
use authenticator_rs.Command.{MakeCredentials, make_credentials}
use authenticator_rs.Command.Setters.{core, core-set_param, make_credentials-Laws}
use authenticator_rs.Dispatch.{Authenticator, Exit, Try, handle_in_loop, filter_error, preflight}
use authenticator_rs.Dispatch.Handling.{
  FidoProtocol-cases, sum-cases, HidResult-cases, handle_in_loop-Keeps,
}
use authenticator_rs.Dispatch.Loops.{Keeps, Keeps-map}
use authenticator_rs.Errors.{AuthenticatorError, credential_excluded, Result, ok, err, done}
use authenticator_rs.Preflight.{
  Credential, FilterError, do_credential_list_filtering_ctap1, do_credential_list_filtering_ctap2,
}
use authenticator_rs.Puap.{
  Pin, UserVerificationRequirement, PinUvAuthResult, Session, determine_puap_if_needed,
  get_pin_uv_auth_token,
}
use authenticator_rs.Puap.Frame.{determine_puap_if_needed-F}
use authenticator_rs.Puap.Laws.{Agrees, AgreesIfOk}
use authenticator_rs.Puap.Loop.{Result-cases}
use authenticator_rs.Puap.Param.{determine_puap_if_needed-Agrees}
use authenticator_rs.Register.{
  filter_exclude_list, send_registration, register_round, register_permissions,
}

module _ {Dev Token Secret Param Key Made Assertion : Type 0}
    (a : Authenticator Dev Token Secret Param Key Made Assertion)
    (derive : Token → List ℕ → Option Param) (silent_hash : List ℕ) where
  -- The command carries what `determine_puap_if_needed` put there for these arguments when it
  -- returned this kind of verification.
  abbrev pub IsDecided :
      Type 0
      → UserVerificationRequirement
      → MakeCredentials Param
      → PinUvAuthResult Token
      → MakeCredentials Param
      → Type 0
  IsDecided User uv_req request kind m =
      (fuel : ℕ) × (skip_uv : Bool) × (c : MakeCredentials Param) × (pin : Option Pin)
      × (s : Session Dev User Made) × (core c ≡ core request)
      × (let q =
            determine_puap_if_needed a.pins (make_credentials derive) register_permissions uv_req
              fuel skip_uv c pin s in
          (q.result ≡ ok kind)
          × (m.pin_uv_auth_param ≡ q.cmd.pin_uv_auth_param)
          × (m.options.user_verification ≡ q.cmd.options.user_verification))

  -- That, and what it carries fits the kind of verification.
  abbrev pub Fits :
      Type 0
      → UserVerificationRequirement
      → MakeCredentials Param
      → PinUvAuthResult Token
      → MakeCredentials Param
      → Type 0
  Fits User uv_req request kind m =
      Agrees (make_credentials-Laws derive) kind m × IsDecided User uv_req request kind m

  -- The credential is the token's answer to a request that is this one but for the exclude list,
  -- and that carries the verification that was decided.
  abbrev pub MadeBy : Type 0 → UserVerificationRequirement → MakeCredentials Param → Made → Type 0
  MadeBy User uv_req request made =
      (m : MakeCredentials Param) × (d : Dev) × (kind : PinUvAuthResult Token) × (core m
        ≡ core request)
      × Fits User uv_req request kind m
      × ((a.send_make_credentials m d).0 ≡ done made)

  Agrees-exclude :
      (kind : PinUvAuthResult Token) (m : MakeCredentials Param) (listed : List Credential)
      → Agrees (make_credentials-Laws derive) kind m
      → Agrees (make_credentials-Laws derive) kind (record m { exclude_list = listed })
  Agrees-exclude kind m listed h = ground arith

  -- The closure has just said that it is enough.
  abbrev pub Stopped : Dev → Type 0
  Stopped dev = (d : Dev) × ((a.pins.alive d).0 ≡ false) × (dev ≡ (a.pins.alive d).1)

  module _ {User : Type 0} where
    abbrev pub Reports :
        UserVerificationRequirement
        → List (Result Made)
        → MakeCredentials Param
        → Exit Dev User Made
        → Type 0
    Reports uv_req before request exit = elim exit.returned [
      | true ↦
          (made : Made) × MadeBy User uv_req request made × (exit.session.called ≡ ok made ∷ before)
      | false ↦
          ((e : AuthenticatorError) × (exit.session.called ≡ err e ∷ before))
          ⊎ ((exit.session.called ≡ before) × Stopped exit.session.dev)
    ]

    failure-Reports :
        (uv_req : UserVerificationRequirement) (before : List (Result Made))
        (request : MakeCredentials Param) (exit : Exit Dev User Made) (e : AuthenticatorError)
        → exit.returned ≡ false
        → exit.session.called ≡ err e ∷ before
        → Reports uv_req before request exit
    failure-Reports uv_req before request exit e r c = rw r (inl (e, c))

    module _ (uv_req : UserVerificationRequirement) (before : List (Result Made))
        (request : MakeCredentials Param) where
      abbrev pub Goes : Try (MakeCredentials Param) Dev User Made → Type 0
      Goes t = (core t.cmd ≡ core request) × (t.session.called ≡ before)

      abbrev Filtered :
          PinUvAuthResult Token
          → Exit Dev User Made ⊎ Try (MakeCredentials Param) Dev User Made
          → Type 0
      Filtered kind (inl exit) = Reports uv_req before request exit
      Filtered kind (inr t) = Goes t × Fits User uv_req request kind t.cmd

      abbrev filtered2 :
          PinUvAuthResult Token
          → Try (MakeCredentials Param) Dev User Made
          → (FilterError ⊎ List Credential) × Dev
      filtered2 kind t =
          do_credential_list_filtering_ctap2 (preflight a) (λ token. derive token silent_hash)
            t.cmd.exclude_list t.cmd.rp (get_pin_uv_auth_token kind) t.session.dev

      abbrev filtered1 : Try (MakeCredentials Param) Dev User Made → Option Credential × Dev
      filtered1 t =
          do_credential_list_filtering_ctap1 (preflight a) (λ token. derive token silent_hash)
            t.cmd.exclude_list t.cmd.rp t.cmd.client_data_hash t.session.dev

      filter_exclude_list-Reports :
          (kind : PinUvAuthResult Token) (t : Try (MakeCredentials Param) Dev User Made)
          → Goes t
          → Fits User uv_req request kind t.cmd
          → Filtered kind (filter_exclude_list a derive silent_hash kind t)
      unfolding filter_exclude_list
      filter_exclude_list-Reports kind t (i, c) h =
          elim (FidoProtocol-cases (a.pins.get_protocol t.session.dev)) [
            | inr p ↦ elim (sum-cases (filtered2 kind t).0) [
              | inl (e, f) ↦
                  rw (filter_exclude_list, p, f)
                    (inl (filter_error e, ap (λ l. err (filter_error e) ∷ l) c))
              | inr (listed, f) ↦
                  rw (filter_exclude_list, p, f)
                    ((i, c), (Agrees-exclude kind t.cmd listed h.0, h.1))
            ]
            | inl p ↦ elim (Option-cases (filtered1 t).0) [
              | inr (known, f) ↦
                  rw (filter_exclude_list, p, f)
                    (inl (credential_excluded, ap (λ l. err credential_excluded ∷ l) c))
              | inl f ↦ rw (filter_exclude_list, p, f) ((i, c), h)
            ]
          ]

      send_registration-Reports :
          (kind : PinUvAuthResult Token) (t : Try (MakeCredentials Param) Dev User Made)
          → Goes t
          → Fits User uv_req request kind t.cmd
          → Keeps Goes
              (Reports uv_req before request)
              (send_registration a derive silent_hash kind t)
      unfolding send_registration
      send_registration-Reports kind t (i, c) h =
          elim (HidResult-cases (a.send_make_credentials t.cmd t.session.dev).0) [
            | inl (made, e) ↦
                rw (send_registration, e)
                  (made, (t.cmd, t.session.dev, kind, i, h, e), ap (λ l. ok made ∷ l) c)
            | inr (e, r) ↦
                rw (send_registration, r)
                  (Keeps-map _ _ _ (handle_in_loop e kind _)
                    (λ exit q. failure-Reports uv_req before request exit q.1 q.0 q.2)
                    (handle_in_loop-Keeps (λ m. core m ≡ core request) before e kind _ i c))
          ]

      pub register_round-Reports :
          (fuel : ℕ) (t : Try (MakeCredentials Param) Dev User Made)
          → Goes t
          → Keeps Goes
              (Reports uv_req before request)
              (register_round a derive silent_hash uv_req fuel t)
      unfolding register_round
      register_round-Reports fuel t (i, c) =
          let (running, dev) = a.pins.alive t.session.dev in
          let s : Session Dev User Made = record t.session { dev = dev } in
          let q =
            determine_puap_if_needed a.pins (make_credentials derive) register_permissions uv_req
              fuel t.skip_uv t.cmd t.pin s in
          let kept =
            determine_puap_if_needed-F a.pins (make_credentials derive) (λ m. core m ≡ core request)
              (λ m m' x y z. core-set_param derive m m' x y ∙ z) (λ m u h. h) register_permissions
              uv_req fuel t.skip_uv t.cmd t.pin s i in
          let agrees =
            (determine_puap_if_needed-Agrees a.pins (make_credentials derive)
              (make_credentials-Laws derive) register_permissions uv_req fuel t.skip_uv t.cmd t.pin
              s).1 in
          let went : Try (MakeCredentials Param) Dev User Made = record t {
            cmd = q.cmd;
            pin = q.pin;
            session = q.session;
          } in
          elim (Bool-cases running) [
            | inr f ↦ rw (register_round, f) (inr (c, (t.session.dev, f, refl)))
            | inl r ↦ elim (Result-cases q.result) [
              | inr (inl e) ↦ rw (register_round, r, e) tt
              | inr (inr (e, w)) ↦
                  rw (register_round, r, w) (inl (e, ap (λ l. err e ∷ l) (kept.1 ∙ c)))
              | inl (kind, w) ↦
                  let h : Agrees (make_credentials-Laws derive) kind q.cmd =
                    subst (λ x. AgreesIfOk (make_credentials-Laws derive) x q.cmd) w agrees in
                  let filtered =
                    filter_exclude_list-Reports kind went (kept.0, kept.1 ∙ c)
                      (h, (fuel, t.skip_uv, t.cmd, t.pin, s, i, (w, refl, refl))) in
                  elim (sum-cases (filter_exclude_list a derive silent_hash kind went)) [
                    | inl (exit, x) ↦
                        rw (register_round, r, w, x) (subst (Filtered kind) x filtered)
                    | inr (t', x) ↦
                        let (goes, agreed) = subst (Filtered kind) x filtered in
                        rw (register_round, r, w, x) (send_registration-Reports kind t' goes agreed)
                  ]
            ]
          ]
