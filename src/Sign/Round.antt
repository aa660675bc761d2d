-- ===== src/Sign/Round.antt =====
-- src/ctap2/mod.rs: one round of the loop of `sign`.
use authenticator_rs.Common.{
  ℕ, List, ◌∷◌, ◌≡◌, ◌∙◌, refl, ap, ◌⊎◌, inl, inr, Bool, not, ◌&&◌, Option, Bool-cases,
  Option-cases,
}
use mathlib.Core.Path.{subst}
use authenticator_rs.Command.{GetAssertion, SecretOperations, get_assertion, calculate}
use authenticator_rs.Command.Setters.{assertion_core, assertion_core-set_param, get_assertion-Laws}
use authenticator_rs.Dispatch.{Authenticator, preflight, filter_error, Exit, Try, handle_in_loop}
use authenticator_rs.Dispatch.Handling.{
  FidoProtocol-cases, sum-cases, HidResult-cases, handle_in_loop-Keeps,
}
use authenticator_rs.Dispatch.Loops.{Keeps, Keeps-map}
use authenticator_rs.Errors.{AuthenticatorError, Result, err, hid_error}
use authenticator_rs.Hid.Device.{command}
use authenticator_rs.Preflight.{
  Credential, FilterError, do_credential_list_filtering_ctap1, do_credential_list_filtering_ctap2,
}
use authenticator_rs.Puap.{
  UserVerificationRequirement, PinUvAuthResult, Session, determine_puap_if_needed,
  get_pin_uv_auth_token, crypto_failed, send_status, presence_required, send_status,
}
use authenticator_rs.Puap.Frame.{determine_puap_if_needed-F}
use authenticator_rs.Puap.Laws.{Agrees, AgreesIfOk}
use authenticator_rs.Puap.Loop.{Result-cases}
use authenticator_rs.Puap.Param.{determine_puap_if_needed-Agrees}
use authenticator_rs.Sign.{
  is_empty, sign_permissions, only_known, report_results, calculate_hmac, check_list, with_list,
  filter_allow_list, send_assertion, sign_round,
}
use authenticator_rs.Status.{StatusCode, status_code}
use authenticator_rs.Sign.Choice.{
  Reports, Fits, success-Reports, failure-Reports, Agrees-other, report_results-Reported,
}

abbrev nothing_known : AuthenticatorError
nothing_known = hid_error (command (status_code StatusCode.no_credentials))

module _ {Dev Token Secret Param Key Made Assertion : Type 0}
    (a : Authenticator Dev Token Secret Param Key Made Assertion)
    (derive : Token → List ℕ → Option Param) (uv_req : UserVerificationRequirement) where
  module _ (silent_hash : List ℕ) (secrets : SecretOperations Secret Key) {User : Type 0}
      (user : Assertion → Option User) (before : List (Result Assertion))
      (request : GetAssertion Param Key) where
    abbrev pub Goes : Try (GetAssertion Param Key) Dev User Assertion → Type 0
    Goes t = (assertion_core t.cmd ≡ assertion_core request) × (t.session.called ≡ before)

    -- A step before the request leaves with an error, or goes on.
    abbrev Prepared :
        PinUvAuthResult Token
        → Exit Dev User Assertion ⊎ Try (GetAssertion Param Key) Dev User Assertion
        → Type 0
    Prepared kind (inl exit) = Reports a derive uv_req before request exit
    Prepared kind (inr t) = Goes t × Fits a derive User uv_req request kind t.cmd

    calculate_hmac-Prepared :
        (kind : PinUvAuthResult Token) (t : Try (GetAssertion Param Key) Dev User Assertion)
        → Goes t
        → Fits a derive User uv_req request kind t.cmd
        → Prepared kind (calculate_hmac a derive silent_hash secrets user t)
    unfolding calculate_hmac
    calculate_hmac-Prepared kind t (i, c) h = elim (Option-cases t.cmd.extensions.hmac_secret) [
      | inl x ↦ rw (calculate_hmac, x) ((i, c), h)
      | inr (extension, x) ↦ elim (Option-cases (a.pins.get_shared_secret t.session.dev)) [
        | inl y ↦ rw (calculate_hmac, x, y) ((i, c), h)
        | inr (secret, y) ↦ elim (Option-cases (calculate secrets secret extension)) [
          | inl z ↦
              rw (calculate_hmac, x, y, z) (inl (crypto_failed, ap (λ l. err crypto_failed ∷ l) c))
          | inr (calculated, z) ↦
              rw (calculate_hmac, x, y, z)
                ((i, c), (Agrees-other a derive kind t.cmd _ refl refl refl h.0, h.1))
        ]
      ]
    ]

    check_list-Prepared :
        (kind : PinUvAuthResult Token) (was_empty : Bool) (listed : List Credential) (dev : Dev)
        (t : Try (GetAssertion Param Key) Dev User Assertion)
        → Goes t
        → Fits a derive User uv_req request kind t.cmd
        → Prepared kind (
            check_list a derive silent_hash secrets user was_empty
              (with_list a derive silent_hash secrets user listed dev t))
    check_list-Prepared kind was_empty listed dev t (i, c) h =
        elim (Bool-cases (not was_empty && is_empty listed)) [
          | inl e ↦ rw e (inl (nothing_known, ap (λ l. err nothing_known ∷ l) c))
          | inr e ↦ rw e ((i, c), (Agrees-other a derive kind t.cmd _ refl refl refl h.0, h.1))
        ]

    abbrev filtered2 :
        PinUvAuthResult Token
        → Try (GetAssertion Param Key) Dev User Assertion
        → (FilterError ⊎ List Credential) × Dev
    filtered2 kind t =
        do_credential_list_filtering_ctap2 (preflight a) (λ token. derive token silent_hash)
          t.cmd.allow_list t.cmd.rp (get_pin_uv_auth_token kind) t.session.dev

    abbrev filtered1 : Try (GetAssertion Param Key) Dev User Assertion → Option Credential × Dev
    filtered1 t =
        do_credential_list_filtering_ctap1 (preflight a) (λ token. derive token silent_hash)
          t.cmd.allow_list t.cmd.rp t.cmd.client_data_hash t.session.dev

    filter_allow_list-Prepared :
        (kind : PinUvAuthResult Token) (t : Try (GetAssertion Param Key) Dev User Assertion)
        → Goes t
        → Fits a derive User uv_req request kind t.cmd
        → Prepared kind (filter_allow_list a derive silent_hash secrets user kind t)
    unfolding filter_allow_list
    filter_allow_list-Prepared kind t (i, c) h =
        elim (FidoProtocol-cases (a.pins.get_protocol t.session.dev)) [
          | inr p ↦ elim (sum-cases (filtered2 kind t).0) [
            | inl (e, f) ↦
                rw (filter_allow_list, p, f)
                  (inl (filter_error e, ap (λ l. err (filter_error e) ∷ l) c))
            | inr (listed, f) ↦
                rw (filter_allow_list, p, f)
                  (check_list-Prepared kind (is_empty t.cmd.allow_list) listed (filtered2 kind t).1
                    t (i, c) h)
          ]
          | inl p ↦
              rw (filter_allow_list, p)
                (check_list-Prepared kind (is_empty t.cmd.allow_list) (only_known (filtered1 t).0)
                  (filtered1 t).1 t (i, c) h)
        ]

    send_assertion-Reports :
        (kind : PinUvAuthResult Token) (t : Try (GetAssertion Param Key) Dev User Assertion)
        → Goes t
        → Fits a derive User uv_req request kind t.cmd
        → Keeps Goes
            (Reports a derive uv_req before request)
            (send_assertion a derive silent_hash secrets user kind t)
    unfolding send_assertion
    send_assertion-Reports kind t (i, c) h =
        elim (HidResult-cases (a.send_get_assertion t.cmd t.session.dev).0) [
          | inl (results, e) ↦
              let sent : Session Dev User Assertion =
                send_status presence_required
                  (record t.session { dev = (a.send_get_assertion t.cmd t.session.dev).1 }) in
              let (r, q) = report_results-Reported a derive user before results sent c in
              rw (send_assertion, e)
                (success-Reports a derive uv_req before request (report_results user results sent)
                  results r (t.cmd, t.session.dev, kind, i, h, e) q)
          | inr (e, r) ↦
              rw (send_assertion, r)
                (Keeps-map _ _ _ (handle_in_loop e kind _)
                  (λ exit q. failure-Reports a derive uv_req before request exit q.1 q.0 q.2)
                  (handle_in_loop-Keeps (λ m. assertion_core m ≡ assertion_core request) before e
                    kind _ i c))
        ]

    pub sign_round-Reports :
        (fuel : ℕ) (t : Try (GetAssertion Param Key) Dev User Assertion)
        → Goes t
        → Keeps Goes
            (Reports a derive uv_req before request)
            (sign_round a derive silent_hash secrets user uv_req fuel t)
    unfolding sign_round
    sign_round-Reports fuel t (i, c) =
        let (running, dev) = a.pins.alive t.session.dev in
        let s : Session Dev User Assertion = record t.session { dev = dev } in
        let q =
          determine_puap_if_needed a.pins (get_assertion derive) sign_permissions uv_req fuel
            t.skip_uv t.cmd t.pin s in
        let kept =
          determine_puap_if_needed-F a.pins (get_assertion derive)
            (λ m. assertion_core m ≡ assertion_core request)
            (λ m m' x y z. assertion_core-set_param derive m m' x y ∙ z) (λ m u h. h)
            sign_permissions uv_req fuel t.skip_uv t.cmd t.pin s i in
        let agrees =
          (determine_puap_if_needed-Agrees a.pins (get_assertion derive)
            (get_assertion-Laws derive {Key = Key}) sign_permissions uv_req fuel t.skip_uv t.cmd
            t.pin s).1 in
        let went : Try (GetAssertion Param Key) Dev User Assertion = record t {
          cmd = q.cmd;
          pin = q.pin;
          session = q.session;
        } in
        elim (Bool-cases running) [
          | inr f ↦ rw (sign_round, f) (inr (c, (t.session.dev, f, refl)))
          | inl r ↦ elim (Result-cases q.result) [
            | inr (inl e) ↦ rw (sign_round, r, e) tt
            | inr (inr (e, w)) ↦ rw (sign_round, r, w) (inl (e, ap (λ l. err e ∷ l) (kept.1 ∙ c)))
            | inl (kind, w) ↦
                let h : Agrees (get_assertion-Laws derive {Key = Key}) kind q.cmd =
                  subst (λ x. AgreesIfOk (get_assertion-Laws derive {Key = Key}) x q.cmd) w
                    agrees in
                let hmac =
                  calculate_hmac-Prepared kind went (kept.0, kept.1 ∙ c)
                    (h, (fuel, t.skip_uv, t.cmd, t.pin, s, i, (w, refl, refl))) in
                elim (sum-cases (calculate_hmac a derive silent_hash secrets user went)) [
                  | inl (exit, x) ↦ rw (sign_round, r, w, x) (subst (Prepared kind) x hmac)
                  | inr (t', x) ↦
                      let (goes, agreed) = subst (Prepared kind) x hmac in
                      let filtered = filter_allow_list-Prepared kind t' goes agreed in
                      elim (sum-cases
                        (filter_allow_list a derive silent_hash secrets user kind t')) [
                          | inl (exit, y) ↦
                              rw (sign_round, r, w, x, y) (subst (Prepared kind) y filtered)
                          | inr (t'', y) ↦
                              let (goes', agreed') = subst (Prepared kind) y filtered in
                              rw (sign_round, r, w, x, y)
                                (send_assertion-Reports kind t'' goes' agreed')
                        ]
                ]
          ]
        ]
