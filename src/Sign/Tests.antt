-- ===== src/Sign/Tests.antt =====
-- Runs of `sign`, and the theorem about it at concrete arguments.
use authenticator_rs.Common.{ℕ, ◌+◌, ◌≡◌, refl, List, [], ◌∷◌, true, false, Option, none, some}
use authenticator_rs.Command.{ClientInputs, RelyingParty, SecretOperations, UserEntity}
use authenticator_rs.Dispatch.{Authenticator, loop}
use authenticator_rs.Dispatch.Loops.{IfSome}
use authenticator_rs.Errors.{ok, done}
use authenticator_rs.Preflight.{do_credential_list_filtering_ctap2}
use authenticator_rs.Puap.{
  determine_puap_if_needed, Pin, Session, preferred, presence_required, select_result_notice,
  ask_pin,
}
use authenticator_rs.Puap.Honest.{honest, Tries, in_a_row}
use authenticator_rs.Sign.{SignArgs, new_get_assertion, sign}
use authenticator_rs.Sign.Choice.{Reports}
use authenticator_rs.Sign.Reports.{IsAddressed, sign-Reports}

abbrev derive : ℕ → List ℕ → Option ℕ
derive token hash = some (token + 1)

abbrev right : Pin
right = 1 ∷ 2 ∷ []

abbrev wrong : Pin
wrong = 3 ∷ []

abbrev token_number : ℕ
token_number = 7

abbrev tries : ℕ
tries = 8

abbrev fuel : ℕ
fuel = 5

abbrev credential_number : ℕ
credential_number = 42

-- A token with a PIN that knows no credentials and makes this one, or gives two assertions.
abbrev token : Authenticator Tries ℕ (Unit {0}) ℕ (Unit {0}) ℕ ℕ
token = record {
  pins = honest right token_number tries true;
  check_key_handle = λ d request. (false, d);
  silent_assert = λ d request. (none, d);
  send_make_credentials = λ m d. (done credential_number, d);
  send_get_assertion = λ m d. (done (5 ∷ 6 ∷ []), d);
  send_dummy = λ d. d;
}

abbrev no_extensions : ClientInputs
no_extensions = record {
  app_id = none;
  cred_props = none;
  credential_protection_policy = none;
  enforce_credential_protection_policy = none;
  hmac_create_secret = none;
  min_pin_length = none;
}

abbrev arguments : SignArgs
arguments = record {
  client_data_hash = 9 ∷ [];
  origin = [];
  relying_party_id = 1 ∷ [];
  allow_list = [];
  user_verification_req = preferred;
  user_presence_req = true;
  extensions = no_extensions;
  pin = none;
  use_ctap1_fallback = false;
}

abbrev secrets : SecretOperations (Unit {0}) (Unit {0})
secrets = record {
  encrypt = λ s input. some input;
  authenticate = λ s input. some input;
  client_input = λ s. tt;
}

abbrev user : ℕ → Option UserEntity
user n = none

abbrev begun : List (Option ℕ) → Session Tries UserEntity ℕ
begun choices = record {
  dev = (3, 3);
  updates = [];
  answers = right ∷ [];
  choices = choices;
  called = [];
}

abbrev second : List (Option ℕ)
second = some 1 ∷ []

-- The user selects the second of two assertions.
signed :
    sign token derive [] secrets user arguments fuel (begun second)
    ≡ some (record {
      returned = true;
      session = record {
        dev = (tries, in_a_row);
        updates = select_result_notice [] ∷ presence_required ∷ ask_pin ∷ [];
        answers = [];
        choices = [];
        called = ok 6 ∷ [];
      };
    })
unfolding sign loop determine_puap_if_needed do_credential_list_filtering_ctap2
signed = refl

sign-Reports_example :
    IfSome
      (λ exit.
        (rp : RelyingParty) × IsAddressed arguments rp
        × Reports token derive arguments.user_verification_req []
            (new_get_assertion token derive [] secrets user arguments (rp, []))
            exit)
      (sign token derive [] secrets user arguments fuel (begun second))
sign-Reports_example = sign-Reports token derive [] secrets user arguments fuel (begun second)
