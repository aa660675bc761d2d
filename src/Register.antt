-- ===== src/Register.antt =====
-- src/ctap2/mod.rs: `register`, with its loop as rounds.
mod Tests
pub mod Round
pub mod Reports
pub mod Refusals
use authenticator_rs.Common.{
  ℕ, List, [], ◌∷◌, Bool, true, false, not, ◌&&◌, ◌||◌, Option, none, some, ◌⊎◌, inl, inr,
  if◌then◌else◌,
}
use authenticator_rs.Command.{
  RelyingParty, UserEntity, ClientInputs, MakeCredentials, MakeCredentialsOptions,
  CredentialProtectionPolicy, user_verification_optional, registration_extensions, make_credentials,
}
use authenticator_rs.Cose.{CoseAlgorithm, es256}
use authenticator_rs.Dispatch.{
  Authenticator, preflight, filter_error, Exit, Next, leave, starved, loop, Try, call_and_return,
  handle_in_loop,
}
use authenticator_rs.Errors.{
  AuthenticatorError, UnsupportedOption, ok, err, stuck, done, failed, hid_error,
  unsupported_option, credential_excluded,
}
use authenticator_rs.Hid.Device.{HidError, FidoProtocol, ctap1, ctap2}
use authenticator_rs.Info.{AuthenticatorInfo, is_set, supports_cred_protect}
use authenticator_rs.Preflight.{
  Credential, do_credential_list_filtering_ctap1, do_credential_list_filtering_ctap2,
}
use authenticator_rs.Puap.{
  Pin, UserVerificationRequirement, PinUvAuthResult, Session, get_pin_uv_auth_token, is_required,
  presence_required, send_status, determine_puap_if_needed,
}

-- `enum ResidentKeyRequirement`
pub data ResidentKeyRequirement : Type 0 where
  discouraged preferred required : ResidentKeyRequirement

-- `RegisterArgs`
pub record RegisterArgs : Type 0 where
  pub client_data_hash : List ℕ
  pub relying_party : RelyingParty
  pub origin : List ℕ
  pub user : UserEntity
  pub pub_cred_params : List CoseAlgorithm
  pub exclude_list : List Credential
  pub user_verification_req : UserVerificationRequirement
  pub resident_key_req : ResidentKeyRequirement
  pub extensions : ClientInputs
  pub pin : Option Pin
  pub use_ctap1_fallback : Bool

-- `match args.resident_key_req`
abbrev pub resident_key_option : ResidentKeyRequirement → AuthenticatorInfo → Option Bool
resident_key_option required info = some true
resident_key_option preferred info = some info.options.resident_key
resident_key_option discouraged info = some false

-- `args.resident_key_req == ResidentKeyRequirement::Required`
abbrev pub needs_resident_key : ResidentKeyRequirement → Bool
needs_resident_key required = true
needs_resident_key _ = false

abbrev pub is_es256 : CoseAlgorithm → Bool
is_es256 es256 = true
is_es256 _ = false

-- `.any(|x| x.alg == COSEAlgorithm::ES256)`
abbrev pub any_es256 : List CoseAlgorithm → Bool
any_es256 [] = false
any_es256 (alg ∷ algs) = is_es256 alg || any_es256 algs

-- The checks for a CTAP1 device.
abbrev pub check_ctap1 : RegisterArgs → AuthenticatorError ⊎ MakeCredentialsOptions
check_ctap1 args =
    if needs_resident_key args.resident_key_req
    then inl (unsupported_option UnsupportedOption.resident_key)
    else if is_required args.user_verification_req
    then inl (unsupported_option UnsupportedOption.user_verification)
    else if not (any_es256 args.pub_cred_params)
    then inl (unsupported_option UnsupportedOption.pub_cred_params)
    else inr (record { resident_key = none; user_verification = none })

-- The options, or the error that is reported before anything is sent.
unfoldable pub choose_options :
    RegisterArgs
    → FidoProtocol
    → Option AuthenticatorInfo
    → AuthenticatorError ⊎ MakeCredentialsOptions
choose_options args ctap2 none = inl (hid_error HidError.device_not_initialized)
choose_options args ctap2 (some info) = inr (record {
  resident_key = resident_key_option args.resident_key_req info;
  user_verification = none;
})
choose_options args ctap1 info = check_ctap1 args

-- `!= Some(CredentialProtectionPolicy::UserVerificationOptional)`
abbrev pub is_optional : Option CredentialProtectionPolicy → Bool
is_optional (some user_verification_optional) = true
is_optional _ = false

-- `map_or(false, |info| info.supports_cred_protect())`
abbrev pub dev_supports_cred_protect : Option AuthenticatorInfo → Bool
dev_supports_cred_protect (some info) = supports_cred_protect info
dev_supports_cred_protect none = false

abbrev pub lacks_cred_protect : RegisterArgs → Option AuthenticatorInfo → Bool
lacks_cred_protect args info =
    is_set args.extensions.enforce_credential_protection_policy
    && not (is_optional args.extensions.credential_protection_policy)
    && not (dev_supports_cred_protect info)

-- `MakeCredentials::new`
abbrev pub new_make_credentials :
    {Param : Type 0} → RegisterArgs → MakeCredentialsOptions → MakeCredentials Param
new_make_credentials args options = record {
  client_data_hash = args.client_data_hash;
  rp = args.relying_party;
  user = some args.user;
  pub_cred_params = args.pub_cred_params;
  exclude_list = args.exclude_list;
  extensions = registration_extensions args.extensions;
  options = options;
  pin_uv_auth_param = none;
  enterprise_attestation = none;
}

-- `PinUvAuthTokenPermission::MakeCredential | PinUvAuthTokenPermission::GetAssertion`
abbrev pub register_permissions : ℕ
register_permissions = 3

-- `silent_hash` is the digest of the empty string, which the silent assertions of the filtering carry.
module _ {Dev Token Secret Param Key Made Assertion User : Type 0}
    (a : Authenticator Dev Token Secret Param Key Made Assertion)
    (derive : Token → List ℕ → Option Param) (silent_hash : List ℕ) where
  -- The filtering of the exclude list, which leaves the function or goes on.
  unfoldable pub filter_exclude_list :
      PinUvAuthResult Token
      → Try (MakeCredentials Param) Dev User Made
      → Exit Dev User Made ⊎ Try (MakeCredentials Param) Dev User Made
  filter_exclude_list kind t = elim (a.pins.get_protocol t.session.dev) [
    | ctap2 ↦
        let (found, dev) =
          do_credential_list_filtering_ctap2 (preflight a) (λ token. derive token silent_hash)
            t.cmd.exclude_list t.cmd.rp (get_pin_uv_auth_token kind) t.session.dev in
        elim found [
          | inl e ↦
              inl (call_and_return (err (filter_error e)) false (record t.session { dev = dev }))
          | inr listed ↦ inr (record t {
            cmd = record t.cmd { exclude_list = listed };
            session = record t.session { dev = dev };
          })
        ]
    | ctap1 ↦
        let (found, dev) =
          do_credential_list_filtering_ctap1 (preflight a) (λ token. derive token silent_hash)
            t.cmd.exclude_list t.cmd.rp t.cmd.client_data_hash t.session.dev in
        elim found [
          | some known ↦ inl (
              call_and_return (err credential_excluded) false
                (send_status presence_required (record t.session { dev = a.send_dummy dev })))
          | none ↦ inr (record t { session = record t.session { dev = dev } })
        ]
  ]

  -- The request, and what is done about its answer.
  unfoldable pub send_registration :
      PinUvAuthResult Token
      → Try (MakeCredentials Param) Dev User Made
      → Next (Try (MakeCredentials Param) Dev User Made) (Exit Dev User Made)
  unfolding handle_in_loop
  send_registration kind t =
      let (answer, dev) = a.send_make_credentials t.cmd t.session.dev in
      let s = send_status presence_required (record t.session { dev = dev }) in
      elim answer [
        | done made ↦ leave (call_and_return (ok made) true s)
        | failed e ↦ handle_in_loop e kind (record t { session = s })
      ]

  -- One round of the loop.
  unfoldable pub register_round :
      UserVerificationRequirement
      → ℕ
      → Try (MakeCredentials Param) Dev User Made
      → Next (Try (MakeCredentials Param) Dev User Made) (Exit Dev User Made)
  unfolding filter_exclude_list send_registration
  register_round uv_req fuel t =
      let (running, dev) = a.pins.alive t.session.dev in
      let s = record t.session { dev = dev } in
      elim running [
        | false ↦ leave (record { returned = false; session = s })
        | true ↦
            let q =
              determine_puap_if_needed a.pins (make_credentials derive) register_permissions uv_req
                fuel t.skip_uv t.cmd t.pin s in
            elim q.result [
              | stuck ↦ starved
              | err e ↦ leave (call_and_return (err e) false q.session)
              | ok kind ↦
                  elim (filter_exclude_list kind
                    (record t { cmd = q.cmd; pin = q.pin; session = q.session })) [
                      | inl exit ↦ leave exit
                      | inr t' ↦ send_registration kind t'
                    ]
            ]
      ]

  -- `register`; `none` is no result of the program: the fuel ran out.
  unfoldable pub register : RegisterArgs → ℕ → Session Dev User Made → Option (Exit Dev User Made)
  unfolding choose_options register_round
  register args fuel s =
      let info = a.pins.get_authenticator_info s.dev in
      elim (choose_options args (a.pins.get_protocol s.dev) info) [
        | inl e ↦ some (call_and_return (err e) false s)
        | inr options ↦
            if lacks_cred_protect args info
            then some
                (call_and_return (err (unsupported_option UnsupportedOption.cred_protect)) false s)
            else loop (register_round args.user_verification_req) fuel (record {
              skip_uv = false;
              cmd = new_make_credentials args options;
              pin = args.pin;
              session = s;
            })
      ]
