-- ===== src/Sign.antt =====
-- src/ctap2/mod.rs: `sign`, with its loop as rounds.
mod Tests
pub mod Choice
pub mod Round
pub mod Reports
use authenticator_rs.Common.{
  ℕ, List, [], ◌∷◌, Bool, true, false, not, ◌&&◌, Option, none, some, ◌⊎◌, inl, inr, ltb, length,
  get_elem?, if◌then◌else◌,
}
use authenticator_rs.Command.{
  RelyingParty, rp_from, ClientInputs, GetAssertion, assertion_extensions, SecretOperations,
  calculate, get_assertion,
}
use authenticator_rs.Dispatch.{
  Authenticator, preflight, filter_error, Exit, Next, leave, starved, loop, Try, call_and_return,
  handle_in_loop,
}
use authenticator_rs.Errors.{
  AuthenticatorError, UnsupportedOption, ok, err, stuck, done, failed, hid_error,
  unsupported_option, cancelled_by_user,
}
use authenticator_rs.Hid.Device.{FidoProtocol, ctap1, ctap2, command}
use authenticator_rs.Preflight.{
  Credential, do_credential_list_filtering_ctap1, do_credential_list_filtering_ctap2,
  silently_discover_credentials,
}
use authenticator_rs.Puap.{
  Pin, UserVerificationRequirement, PinUvAuthResult, Session, get_pin_uv_auth_token, is_required,
  presence_required, crypto_failed, select_result_notice, send_status, determine_puap_if_needed,
}
use authenticator_rs.Status.{StatusCode, status_code}

-- `SignArgs`
pub record SignArgs : Type 0 where
  pub client_data_hash : List ℕ
  pub origin : List ℕ
  pub relying_party_id : List ℕ
  pub allow_list : List Credential
  pub user_verification_req : UserVerificationRequirement
  pub user_presence_req : Bool
  pub extensions : ClientInputs
  pub pin : Option Pin
  pub use_ctap1_fallback : Bool

abbrev pub is_empty : {A : Type 0} → List A → Bool
is_empty [] = true
is_empty (x ∷ xs) = false

-- The checks for a CTAP1 device.
unfoldable pub check_sign : SignArgs → FidoProtocol → Option AuthenticatorError
check_sign args ctap2 = none
check_sign args ctap1 =
    if is_required args.user_verification_req
    then some (unsupported_option UnsupportedOption.user_verification)
    else if is_empty args.allow_list
    then some (unsupported_option UnsupportedOption.empty_allow_list)
    else none

-- `PinUvAuthTokenPermission::GetAssertion`
abbrev pub sign_permissions : ℕ
sign_permissions = 2

-- `results.iter().filter_map(|x| x.assertion.user.clone()).collect()`
abbrev pub user_entities :
    {Assertion User : Type 0} → (Assertion → Option User) → List Assertion → List User
user_entities user [] = []
user_entities user (r ∷ rs) =
    let rest = user_entities user rs in elim (user r) [ some u ↦ u ∷ rest | none ↦ rest ]

-- `Ok(Some(index)) if index < results.len()`
abbrev pub chosen : {Out : Type 0} → Option (Option ℕ) → List Out → Option Out
chosen (some (some index)) results =
    if ltb index (length results) then get_elem? results index else none
chosen _ results = none

-- `match key_handle`
abbrev pub only_known : Option Credential → List Credential
only_known (some known) = known ∷ []
only_known none = []

module _ {Dev User Out : Type 0} where
  -- `rx.recv()`: the next selection, or an error once the sender is dropped.
  abbrev pub recv_choice : Session Dev User Out → Option (Option ℕ) × Session Dev User Out
  recv_choice s = elim s.choices [
    | [] ↦ (none, s)
    | choice ∷ rest ↦ (some choice, record s { choices = rest })
  ]

  abbrev pub report_choice : Option Out → Session Dev User Out → Exit Dev User Out
  report_choice (some result) s = call_and_return (ok result) true s
  report_choice none s = call_and_return (err cancelled_by_user) true s

  -- What follows on several results, or none: the user selects one of them.
  unfoldable pub select_result :
      (Out → Option User) → List Out → Session Dev User Out → Exit Dev User Out
  select_result user results s =
      let (choice, s') =
        recv_choice (send_status (select_result_notice (user_entities user results)) s) in
      report_choice (chosen choice results) s'

  unfoldable pub report_results :
      (Out → Option User) → List Out → Session Dev User Out → Exit Dev User Out
  unfolding select_result
  report_results user (result ∷ []) s = call_and_return (ok result) true s
  report_results user results s = select_result user results s

-- `silent_hash` is the digest of the empty string; `user` is the user of an assertion.
module _ {Dev Token Secret Param Key Made Assertion User : Type 0}
    (a : Authenticator Dev Token Secret Param Key Made Assertion)
    (derive : Token → List ℕ → Option Param) (silent_hash : List ℕ)
    (secrets : SecretOperations Secret Key) (user : Assertion → Option User) where
  -- The relying party and the list, after the search for credentials of the alternative one.
  unfoldable pub use_app_id : SignArgs → Dev → (RelyingParty × List Credential) × Dev
  use_app_id args dev =
      let rp = rp_from args.relying_party_id in
      elim args.extensions.app_id [
        | none ↦ ((rp, args.allow_list), dev)
        | some app_id ↦
            let (found, dev') =
              silently_discover_credentials (preflight a) (λ token. derive token silent_hash)
                args.allow_list (rp_from app_id) args.client_data_hash dev in
            if is_empty args.allow_list
            then ((rp, args.allow_list), dev)
            else if is_empty found
            then ((rp, args.allow_list), dev')
            else ((rp_from app_id, found), dev')
      ]

  -- `GetAssertion::new`
  abbrev pub new_get_assertion : SignArgs → RelyingParty × List Credential → GetAssertion Param Key
  new_get_assertion args (rp, allow_list) = record {
    client_data_hash = args.client_data_hash;
    rp = rp;
    allow_list = allow_list;
    extensions = assertion_extensions args.extensions;
    options = record { user_verification = none; user_presence = some args.user_presence_req };
    pin_uv_auth_param = none;
  }

  -- The shared secret in the hmac-secret extension.
  unfoldable pub calculate_hmac :
      Try (GetAssertion Param Key) Dev User Assertion
      → Exit Dev User Assertion ⊎ Try (GetAssertion Param Key) Dev User Assertion
  calculate_hmac t = elim t.cmd.extensions.hmac_secret [
    | none ↦ inr t
    | some extension ↦ elim (a.pins.get_shared_secret t.session.dev) [
      | none ↦ inr t
      | some secret ↦ elim (calculate secrets secret extension) [
        | some calculated ↦ inr (record t {
          cmd = record t.cmd {
            extensions = record t.cmd.extensions { hmac_secret = some calculated };
          };
        })
        | none ↦ inl (call_and_return (err crypto_failed) false t.session)
      ]
    ]
  ]

  -- `Err(NoCredentials)` if a list was given and nothing of it is left.
  abbrev pub check_list :
      Bool
      → Try (GetAssertion Param Key) Dev User Assertion
      → Exit Dev User Assertion ⊎ Try (GetAssertion Param Key) Dev User Assertion
  check_list was_empty t =
      if not was_empty && is_empty t.cmd.allow_list
      then inl (
          call_and_return (err (hid_error (command (status_code StatusCode.no_credentials)))) false
            (send_status presence_required (record t.session { dev = a.send_dummy t.session.dev })))
      else inr t

  abbrev pub with_list :
      List Credential
      → Dev
      → Try (GetAssertion Param Key) Dev User Assertion
      → Try (GetAssertion Param Key) Dev User Assertion
  with_list listed dev t = record t {
    cmd = record t.cmd { allow_list = listed };
    session = record t.session { dev = dev };
  }

  -- The filtering of the allow list, which leaves the function or goes on.
  unfoldable pub filter_allow_list :
      PinUvAuthResult Token
      → Try (GetAssertion Param Key) Dev User Assertion
      → Exit Dev User Assertion ⊎ Try (GetAssertion Param Key) Dev User Assertion
  filter_allow_list kind t = elim (a.pins.get_protocol t.session.dev) [
    | ctap2 ↦
        let (found, dev) =
          do_credential_list_filtering_ctap2 (preflight a) (λ token. derive token silent_hash)
            t.cmd.allow_list t.cmd.rp (get_pin_uv_auth_token kind) t.session.dev in
        elim found [
          | inl e ↦
              inl (call_and_return (err (filter_error e)) false (record t.session { dev = dev }))
          | inr listed ↦ check_list (is_empty t.cmd.allow_list) (with_list listed dev t)
        ]
    | ctap1 ↦
        let (found, dev) =
          do_credential_list_filtering_ctap1 (preflight a) (λ token. derive token silent_hash)
            t.cmd.allow_list t.cmd.rp t.cmd.client_data_hash t.session.dev in
        check_list (is_empty t.cmd.allow_list) (with_list (only_known found) dev t)
  ]

  -- The request, and what is done about its answer.
  unfoldable pub send_assertion :
      PinUvAuthResult Token
      → Try (GetAssertion Param Key) Dev User Assertion
      → Next (Try (GetAssertion Param Key) Dev User Assertion) (Exit Dev User Assertion)
  unfolding handle_in_loop report_results
  send_assertion kind t =
      let (answer, dev) = a.send_get_assertion t.cmd t.session.dev in
      let s = send_status presence_required (record t.session { dev = dev }) in
      elim answer [
        | done results ↦ leave (report_results user results s)
        | failed e ↦ handle_in_loop e kind (record t { session = s })
      ]

  -- One round of the loop.
  unfoldable pub sign_round :
      UserVerificationRequirement
      → ℕ
      → Try (GetAssertion Param Key) Dev User Assertion
      → Next (Try (GetAssertion Param Key) Dev User Assertion) (Exit Dev User Assertion)
  unfolding calculate_hmac filter_allow_list send_assertion
  sign_round uv_req fuel t =
      let (running, dev) = a.pins.alive t.session.dev in
      let s = record t.session { dev = dev } in
      elim running [
        | false ↦ leave (record { returned = false; session = s })
        | true ↦
            let q =
              determine_puap_if_needed a.pins (get_assertion derive) sign_permissions uv_req fuel
                t.skip_uv t.cmd t.pin s in
            elim q.result [
              | stuck ↦ starved
              | err e ↦ leave (call_and_return (err e) false q.session)
              | ok kind ↦
                  elim (calculate_hmac
                    (record t { cmd = q.cmd; pin = q.pin; session = q.session })) [
                      | inl exit ↦ leave exit
                      | inr t' ↦ elim (filter_allow_list kind t') [
                        | inl exit ↦ leave exit
                        | inr t'' ↦ send_assertion kind t''
                      ]
                    ]
            ]
      ]

  -- `sign`; `none` is no result of the program: the fuel ran out.
  unfoldable pub sign : SignArgs → ℕ → Session Dev User Assertion → Option (Exit Dev User Assertion)
  unfolding check_sign use_app_id sign_round
  sign args fuel s = elim (check_sign args (a.pins.get_protocol s.dev)) [
    | some e ↦ some (call_and_return (err e) false s)
    | none ↦
        let (chosen_rp, dev) = use_app_id args s.dev in
        loop (sign_round args.user_verification_req) fuel (record {
          skip_uv = false;
          cmd = new_get_assertion args chosen_rp;
          pin = args.pin;
          session = record s { dev = dev };
        })
  ]
