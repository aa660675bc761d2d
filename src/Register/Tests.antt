-- ===== src/Register/Tests.antt =====
-- Runs of `register`, and the theorems about it at concrete arguments.
use authenticator_rs.Common.{
  ℕ, ◌+◌, ◌≡◌, refl, List, [], ◌∷◌, true, false, Option, none, some, arith,
}
use authenticator_rs.Command.{
  ClientInputs, MakeCredentials, UserEntity, rp_from, user_verification_required,
}
use authenticator_rs.Cose.{es256}
use authenticator_rs.Dispatch.{Authenticator, loop}
use authenticator_rs.Dispatch.Loops.{IfSome}
use authenticator_rs.Errors.{AuthenticatorError, ok, err, done}
use authenticator_rs.Preflight.{do_credential_list_filtering_ctap2}
use authenticator_rs.Info.{supports_cred_protect}
use authenticator_rs.Puap.{
  determine_puap_if_needed, Pin, Session, preferred, presence_required, ask_pin, ask_pin_again,
}
use authenticator_rs.Puap.Honest.{honest, Tries, in_a_row}
use authenticator_rs.Register.{RegisterArgs, required, register}
use authenticator_rs.Register.Refusals.{protection, register-Impossible}
use authenticator_rs.Register.Reports.{Requested, register-Reports}
use authenticator_rs.Register.Round.{Reports}

abbrev derive : ℕ → List ℕ → Option ℕ
derive token hash = some (token + 1)

abbrev right : Pin
right = 1 ∷ 2 ∷ []

abbrev wrong : Pin
wrong = 3 ∷ []

abbrev token_number : ℕ
token_number = 7

abbrev tries : ℕ
tries = 8

abbrev fuel : ℕ
fuel = 5

abbrev credential_number : ℕ
credential_number = 42

-- A token with a PIN that knows no credentials and makes this one, or gives two assertions.
abbrev token : Authenticator Tries ℕ (Unit {0}) ℕ (Unit {0}) ℕ ℕ
token = record {
  pins = honest right token_number tries true;
  check_key_handle = λ d request. (false, d);
  silent_assert = λ d request. (none, d);
  send_make_credentials = λ m d. (done credential_number, d);
  send_get_assertion = λ m d. (done (5 ∷ 6 ∷ []), d);
  send_dummy = λ d. d;
}

abbrev no_extensions : ClientInputs
no_extensions = record {
  app_id = none;
  cred_props = none;
  credential_protection_policy = none;
  enforce_credential_protection_policy = none;
  hmac_create_secret = none;
  min_pin_length = none;
}

abbrev arguments : RegisterArgs
arguments = record {
  client_data_hash = 9 ∷ [];
  relying_party = rp_from (1 ∷ []);
  origin = [];
  user = record { id = 0 ∷ []; name = none; display_name = none };
  pub_cred_params = es256 ∷ [];
  exclude_list = [];
  user_verification_req = preferred;
  resident_key_req = required;
  extensions = no_extensions;
  pin = none;
  use_ctap1_fallback = false;
}

abbrev begun : List Pin → Session Tries UserEntity ℕ
begun answers = record { dev = (3, 3); updates = []; answers = answers; choices = []; called = [] }

-- One wrong PIN, then the right one, then the touch.
registered :
    register token derive [] arguments fuel (begun (wrong ∷ right ∷ []))
    ≡ some (record {
      returned = true;
      session = record {
        dev = (tries, in_a_row);
        updates = presence_required ∷ ask_pin_again (some 2) ∷ ask_pin ∷ [];
        answers = [];
        choices = [];
        called = ok credential_number ∷ [];
      };
    })
unfolding register loop determine_puap_if_needed do_credential_list_filtering_ctap2
registered = refl

register-Reports_example :
    IfSome
      (λ exit.
        (request : MakeCredentials ℕ) × Requested arguments request
        × Reports token derive [] arguments.user_verification_req [] request exit)
      (register token derive [] arguments fuel (begun (wrong ∷ right ∷ [])))
register-Reports_example =
    register-Reports token derive [] arguments fuel (begun (wrong ∷ right ∷ []))

-- The token does not support the protection of the credential that is to be enforced.
abbrev protected : RegisterArgs
protected = record arguments {
  extensions = record no_extensions {
    credential_protection_policy = some user_verification_required;
    enforce_credential_protection_policy = some true;
  };
}

register-Impossible_example :
    (e : AuthenticatorError) × (register token derive [] protected fuel (begun [])
      ≡ some (record { returned = false; session = record (begun []) { called = err e ∷ [] } }))
unfolding supports_cred_protect
register-Impossible_example =
    register-Impossible token derive [] protected fuel (begun [])
      (protection refl (λ e. ground arith) refl)
