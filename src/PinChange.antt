-- ===== src/PinChange.antt =====
-- src/ctap2/mod.rs: `set_or_change_pin_helper`, with its loop as rounds. The loop of
-- `ask_user_for_pin` and its errors are those of Puap, the requests those of ClientPin.
mod Tests
pub mod Requests
pub mod Rounds
pub mod Reports
use authenticator_rs.Common.{
  ℕ, ◌≤◌, List, [], ◌∷◌, Bool, true, false, Option, none, some, ◌⊎◌, inl, inr, ltb, leb, length,
  if◌then◌else◌,
}
use authenticator_rs.ClientPin.{
  PinUvAuthProtocol, ClientPin, choose_protocol, set_new_pin, change_existing_pin,
}
use authenticator_rs.Command.{SecretOperations}
use authenticator_rs.Dispatch.{Next, continue_with, leave, loop}
use authenticator_rs.Errors.{
  AuthenticatorError, PinError, Result, HidResult, ok, err, stuck, done, failed, hid_error,
  pin_error, cancelled_by_user, pin_is_too_short, pin_is_too_long, invalid_pin,
}
use authenticator_rs.Hid.Device.{HidError, command}
use authenticator_rs.Info.{AuthenticatorInfo, is_set}
use authenticator_rs.Puap.{Pin, PinDevice, Session, ask_user_for_pin, repackage_pin_errors}
use authenticator_rs.Status.{CommandError}

module _ {Dev User : Type 0} where
  -- `callback.call(r)`
  abbrev pub report : Result (Unit {0}) → Session Dev User (Unit {0}) → Session Dev User (Unit {0})
  report r s = record s { called = r ∷ s.called }

  abbrev pub with_dev : Dev → Session Dev User (Unit {0}) → Session Dev User (Unit {0})
  with_dev dev s = record s { dev = dev }

-- The variables of the loop.
pub record Change (Dev Secret User : Type 0) : Type 0 where
  pub was_invalid : Bool
  pub retries : Option ℕ
  pub current_pin : Option Pin
  pub shared_secret : Secret
  pub session : Session Dev User (Unit {0})

-- `if let Err(AuthenticatorError::PinError(PinError::InvalidPin(r))) = res`
abbrev pub is_wrong_pin : AuthenticatorError → Option (Option ℕ)
is_wrong_pin (pin_error (invalid_pin r)) = some r
is_wrong_pin _ = none

-- `min_pin_length.unwrap_or(4)`
abbrev pub min_pin_length : AuthenticatorInfo → ℕ
min_pin_length info = elim info.min_pin_length [ some n ↦ n | none ↦ 4 ]

-- The checks of the new PIN.
unfoldable pub check_new_pin : AuthenticatorInfo → Pin → Option PinError
check_new_pin info new_pin =
    if ltb (length new_pin) (min_pin_length info)
    then some pin_is_too_short
    else if leb 64 (length new_pin)
    then some (pin_is_too_long (length new_pin))
    else none

-- `send` sends a request that is built and waits for the answer, which is discarded.
module _ {Dev Token Secret Key : Type 0} (device : PinDevice Dev Token Secret)
    (send : ClientPin Key → Dev → HidResult (Unit {0}) × Dev)
    (secrets : SecretOperations Secret Key) (protocol : Secret → PinUvAuthProtocol)
    (sha256 : List ℕ → List ℕ) where
  -- `send_cbor_cancellable`, which builds the request first.
  abbrev pub send_request : CommandError ⊎ ClientPin Key → Dev → HidResult (Unit {0}) × Dev
  send_request (inl e) dev = (failed (command e), dev)
  send_request (inr request) dev = send request dev

  -- `ChangeExistingPin::new(..).and_then(..)`
  unfoldable pub send_change :
      AuthenticatorInfo → Secret → Pin → Pin → Dev → HidResult (Unit {0}) × Dev
  unfolding choose_protocol change_existing_pin
  send_change info secret current_pin new_pin dev = elim (choose_protocol info) [
    | inl e ↦ (failed (command e), dev)
    | inr chosen ↦
        send_request (change_existing_pin secrets protocol sha256 secret current_pin new_pin) dev
  ]

  module _ {User : Type 0} where
    -- What follows on a wrong PIN: a new shared secret.
    unfoldable pub renew_secret :
        Option ℕ
        → Change Dev Secret User
        → Next (Change Dev Secret User) (Session Dev User (Unit {0}))
    renew_secret r t =
        let (secret, dev) = device.establish_shared_secret t.session.dev in
        elim secret [
          | done s ↦ continue_with (record {
            was_invalid = true;
            retries = r;
            current_pin = none;
            shared_secret = s;
            session = with_dev dev t.session;
          })
          | failed e ↦ leave (report (err (hid_error e)) (with_dev dev t.session))
        ]

    -- A try with a PIN.
    unfoldable pub try_change :
        AuthenticatorInfo
        → Pin
        → Pin
        → Change Dev Secret User
        → Next (Change Dev Secret User) (Session Dev User (Unit {0}))
    unfolding send_change repackage_pin_errors renew_secret
    try_change info new_pin current_pin t =
        let (answer, dev) = send_change info t.shared_secret current_pin new_pin t.session.dev in
        elim answer [
          | done u ↦ leave (report (ok u) (with_dev dev t.session))
          | failed e ↦
              let (e', dev') = repackage_pin_errors device e dev in
              elim (is_wrong_pin e') [
                | some r ↦ renew_secret r (record t { session = with_dev dev' t.session })
                | none ↦ leave (report (err e') (with_dev dev' t.session))
              ]
        ]

    -- One round of the loop. The current PIN is taken, so that it is tried once only.
    unfoldable pub change_round :
        AuthenticatorInfo
        → Pin
        → Change Dev Secret User
        → Next (Change Dev Secret User) (Session Dev User (Unit {0}))
    unfolding try_change ask_user_for_pin
    change_round info new_pin t = elim t.current_pin [
      | some pin ↦ try_change info new_pin pin (record t { current_pin = none })
      | none ↦
          let (answer, asked) = ask_user_for_pin t.was_invalid t.retries t.session in
          elim answer [
            | some pin ↦ try_change info new_pin pin (record t { session = asked })
            | none ↦ leave (report (err cancelled_by_user) asked)
          ]
    ]

    -- The part of the function that sends the requests.
    unfoldable pub send_new_pin :
        AuthenticatorInfo
        → Option Pin
        → Pin
        → Secret
        → ℕ
        → Session Dev User (Unit {0})
        → Option (Session Dev User (Unit {0}))
    unfolding change_round set_new_pin
    send_new_pin info current_pin new_pin secret fuel s =
        if is_set info.options.client_pin
        then loop (λ left. change_round info new_pin) fuel
            (record {
              was_invalid = false;
              retries = none;
              current_pin = current_pin;
              shared_secret = secret;
              session = s;
            })
        else (let (answer, dev) =
              send_request (set_new_pin secrets protocol sha256 secret new_pin) s.dev in
            elim answer [
              | done u ↦ some (report (ok u) (with_dev dev s))
              | failed e ↦ some (report (err (hid_error e)) (with_dev dev s))
            ])

    -- `set_or_change_pin_helper`; `none` is no result of the program: the fuel ran out.
    unfoldable pub set_or_change_pin :
        Option Pin → Pin → ℕ → Session Dev User (Unit {0}) → Option (Session Dev User (Unit {0}))
    unfolding check_new_pin send_new_pin
    set_or_change_pin current_pin new_pin fuel s =
        let (secret, dev) = device.establish_shared_secret s.dev in
        let s' = with_dev dev s in
        elim secret [
          | failed e ↦ some (report (err (hid_error e)) s')
          | done shared ↦ elim (device.get_authenticator_info dev) [
            | none ↦ some (report (err (hid_error HidError.device_not_initialized)) s')
            | some info ↦ elim (check_new_pin info new_pin) [
              | some e ↦ some (report (err (pin_error e)) s')
              | none ↦ send_new_pin info current_pin new_pin shared fuel s'
            ]
          ]
        ]
