-- ===== src/Puap.antt =====
-- src/ctap2/mod.rs: `get_pin_uv_auth_param` and `determine_puap_if_needed`, which verify the user by
-- PIN or by the token itself before a command is sent, and `ask_user_for_pin`. The token is an
-- interface, as the trait `FidoDevice` is in the source, and so is the command.
mod Tests
pub mod Loop
pub mod Laws
pub mod Param
pub mod Prompts
pub mod Method
pub mod Frame
pub mod Honest
use authenticator_rs.Common.{
  ℕ, zero, suc, List, [], ◌∷◌, Bool, true, false, not, ◌&&◌, ◌||◌, Option, none, some, ◌==◌,
  if◌then◌else◌,
}
use authenticator_rs.Errors.{
  AuthenticatorError, PinError, Result, HidResult, ok, err, stuck, done, failed, hid_error,
  pin_error, cancelled_by_user, pin_required, invalid_pin, invalid_uv, pin_auth_blocked,
  pin_blocked, pin_not_set, uv_blocked, pin_auth_invalid,
}
use authenticator_rs.Hid.Device.{FidoProtocol, ctap1, ctap2, HidError, command}
use authenticator_rs.Info.{AuthenticatorInfo, is_set, is_some, supports_hmac_secret}
use authenticator_rs.Status.{StatusCode, status_code, crypto}

abbrev pub Pin : Type 0
Pin = List ℕ

-- `enum UserVerificationRequirement`
pub data UserVerificationRequirement : Type 0 where
  discouraged preferred required : UserVerificationRequirement

-- `enum PinUvAuthResult`
pub data PinUvAuthResult (Token : Type 0) : Type 0 where
  request_is_ctap1 device_is_ctap1 no_auth_type_supported no_auth_required using_internal_uv :
      PinUvAuthResult Token
  success_get_pin_token success_using_uv success_using_pin : Token → PinUvAuthResult Token

unfoldable pub get_pin_uv_auth_token : {Token : Type 0} → PinUvAuthResult Token → Option Token
get_pin_uv_auth_token (success_get_pin_token token) = some token
get_pin_uv_auth_token (success_using_uv token) = some token
get_pin_uv_auth_token (success_using_pin token) = some token
get_pin_uv_auth_token _ = none

-- The status updates that are sent here, `StatusPinUv` among them, without their channels.
pub data StatusUpdate (User : Type 0) : Type 0 where
  ask_pin : StatusUpdate User
  ask_pin_again : Option ℕ → StatusUpdate User
  uv_failed : Option ℕ → StatusUpdate User
  auth_is_blocked pin_is_blocked pin_is_not_set uv_is_blocked presence_required : StatusUpdate User
  select_result_notice : List User → StatusUpdate User

-- What a request reads and changes beside its own variables: the token with its surroundings, the
-- updates sent (the last one first), the PINs and the selections that the receiver of the updates
-- will send back, after which it drops the channel, and what the callback was called with (the last
-- call first).
pub record Session (Dev User Out : Type 0) : Type 0 where
  pub dev : Dev
  pub updates : List (StatusUpdate User)
  pub answers : List Pin
  pub choices : List (Option ℕ)
  pub called : List (Result Out)

-- What is asked of a token here. `alive` is the closure of that name: it may answer otherwise each
-- time, and the calls that take it may call it.
pub record PinDevice (Dev Token Secret : Type 0) : Type 0 where
  pub get_protocol : Dev → FidoProtocol
  pub get_authenticator_info : Dev → Option AuthenticatorInfo
  pub get_shared_secret : Dev → Option Secret
  pub establish_shared_secret : Dev → HidResult Secret × Dev
  pub get_pin_token : Option Pin → Dev → HidResult Token × Dev
  pub get_token_using_uv : ℕ → Option (List ℕ) → Dev → HidResult Token × Dev
  pub get_token_using_pin : Option Pin → ℕ → Option (List ℕ) → Dev → HidResult Token × Dev
  pub get_pin_retries : Dev → Option ℕ × Dev
  pub get_uv_retries : Dev → Option ℕ × Dev
  pub alive : Dev → Bool × Dev

-- `trait PinUvAuthCommand`. Setting the parameter fails when the token's cryptography does.
pub record PinUvAuthCommand (Cmd Token Param : Type 0) : Type 0 where
  pub set_pin_uv_auth_param : Cmd → Option Token → Option Cmd
  pub get_pin_uv_auth_param : Cmd → Option Param
  pub set_uv_option : Cmd → Option Bool → Cmd
  pub get_rp_id : Cmd → Option (List ℕ)
  pub can_skip_user_verification : Cmd → AuthenticatorInfo → UserVerificationRequirement → Bool

-- `CommandError::Crypto(e).into()`
abbrev pub crypto_failed : AuthenticatorError
crypto_failed = hid_error (command crypto)

-- `uv_req == UserVerificationRequirement::Required`
abbrev pub is_required : UserVerificationRequirement → Bool
is_required required = true
is_required _ = false

-- Which retry counter is read, if any, and the error that is made of it.
pub data Repackaged : Type 0 where
  with_pin_retries with_uv_retries : Repackaged
  plain : AuthenticatorError → Repackaged

abbrev pub repackaged_status : StatusCode → Repackaged
repackaged_status StatusCode.pin_invalid = with_pin_retries
repackaged_status StatusCode.pin_auth_blocked = plain (pin_error pin_auth_blocked)
repackaged_status StatusCode.pin_blocked = plain (pin_error pin_blocked)
repackaged_status StatusCode.pin_required = plain (pin_error pin_required)
repackaged_status StatusCode.pin_not_set = plain (pin_error pin_not_set)
repackaged_status StatusCode.pin_auth_invalid = plain (pin_error pin_auth_invalid)
repackaged_status StatusCode.uv_invalid = with_uv_retries
repackaged_status StatusCode.uv_blocked = plain (pin_error uv_blocked)
repackaged_status code = plain (hid_error (command (status_code code)))

abbrev pub repackaged : HidError → Repackaged
repackaged (command (status_code code)) = repackaged_status code
repackaged e = plain (hid_error e)

-- What the loop of `determine_puap_if_needed` does about an error: ask for a PIN, send an update and
-- try again, or return the error, after an update or without. The Boolean is `skip_uv` afterwards.
pub data Reaction (User : Type 0) : Type 0 where
  ask : Bool → Option ℕ → Bool → Reaction User
  again : StatusUpdate User → Bool → Reaction User
  report : StatusUpdate User → Reaction User
  give_up : Reaction User

-- `retries == Some(0)`
abbrev pub none_left : Option ℕ → Bool
none_left (some n) = n == 0
none_left none = false

abbrev pub pin_reaction : {User : Type 0} → Bool → PinError → Reaction User
pin_reaction skip_uv pin_required = ask false none true
pin_reaction skip_uv (invalid_pin retries) = ask true retries skip_uv
pin_reaction skip_uv (invalid_uv retries) = again (uv_failed retries) (none_left retries || skip_uv)
pin_reaction skip_uv pin_auth_blocked = report auth_is_blocked
pin_reaction skip_uv pin_blocked = report pin_is_blocked
pin_reaction skip_uv pin_not_set = report pin_is_not_set
pin_reaction skip_uv uv_blocked = again uv_is_blocked true
pin_reaction skip_uv pin_auth_invalid = again (uv_failed none) true
pin_reaction skip_uv _ = give_up

abbrev pub reaction : {User : Type 0} → Bool → AuthenticatorError → Reaction User
reaction skip_uv (pin_error e) = pin_reaction skip_uv e
reaction skip_uv _ = give_up

module _ {Dev User Out : Type 0} where
  abbrev pub send_status : StatusUpdate User → Session Dev User Out → Session Dev User Out
  send_status u s = record s { updates = u ∷ s.updates }

  -- `rx.recv()`: the next answer, or an error once the sender is dropped.
  abbrev pub recv_pin : Session Dev User Out → Option Pin × Session Dev User Out
  recv_pin s = elim s.answers [
    | [] ↦ (none, s)
    | pin ∷ rest ↦ (some pin, record s { answers = rest })
  ]

  unfoldable pub ask_user_for_pin :
      Bool → Option ℕ → Session Dev User Out → Option Pin × Session Dev User Out
  ask_user_for_pin was_invalid retries s =
      recv_pin (send_status (if was_invalid then ask_pin_again retries else ask_pin) s)

-- What `determine_puap_if_needed` returns, and the command, the PIN and the session it leaves.
pub record Puap (Cmd Dev Token User Out : Type 0) : Type 0 where
  pub result : Result (PinUvAuthResult Token)
  pub cmd : Cmd
  pub pin : Option Pin
  pub session : Session Dev User Out

module _ {Dev Token Secret : Type 0} (device : PinDevice Dev Token Secret) where
  unfoldable pub repackage_pin_errors : HidError → Dev → AuthenticatorError × Dev
  repackage_pin_errors e dev = elim (repackaged e) [
    | with_pin_retries ↦
        let (retries, dev') = device.get_pin_retries dev in (pin_error (invalid_pin retries), dev')
    | with_uv_retries ↦
        let (retries, dev') = device.get_uv_retries dev in (pin_error (invalid_uv retries), dev')
    | plain e' ↦ (e', dev)
  ]

  abbrev pub info_of : FidoProtocol → Option AuthenticatorInfo → Option AuthenticatorInfo
  info_of ctap2 info = info
  info_of ctap1 info = none

  -- `match (dev.get_protocol(), dev.get_authenticator_info())`
  abbrev pub ctap2_info : Dev → Option AuthenticatorInfo
  ctap2_info dev = info_of (device.get_protocol dev) (device.get_authenticator_info dev)

module _ {Dev Token Secret Cmd Param : Type 0} (device : PinDevice Dev Token Secret)
    (trait : PinUvAuthCommand Cmd Token Param) where
  -- `.map_err(|e| repackage_pin_errors(dev, e))?`, then the token is set in the command.
  unfoldable pub adopt_token :
      (Token → PinUvAuthResult Token)
      → HidResult Token × Dev
      → Cmd
      → Result (PinUvAuthResult Token) × Cmd × Dev
  unfolding repackage_pin_errors
  adopt_token success (failed e, dev) cmd =
      let (e', dev') = repackage_pin_errors device e dev in (err e', cmd, dev')
  adopt_token success (done token, dev) cmd = elim (trait.set_pin_uv_auth_param cmd (some token)) [
    | some cmd' ↦ (ok (success token), cmd', dev)
    | none ↦ (err crypto_failed, cmd, dev)
  ]

  -- The branch of CTAP 2.0 that leaves the verification to the token.
  unfoldable pub use_internal_uv :
      AuthenticatorInfo → Cmd → Dev → Result (PinUvAuthResult Token) × Cmd × Dev
  use_internal_uv info cmd dev =
      let (secret, dev') = device.establish_shared_secret dev in
      let with_uv = trait.set_uv_option cmd (some true) in
      if supports_hmac_secret info
      then elim secret [
        | done shared ↦ (ok using_internal_uv, with_uv, dev')
        | failed e ↦ (err (hid_error e), cmd, dev')
      ]
      else (ok using_internal_uv, with_uv, dev)

  module _ (permission : ℕ) (uv_req : UserVerificationRequirement) where
    -- What follows once the token's information is there.
    unfoldable pub choose_method :
        Bool
        → Option Pin
        → AuthenticatorInfo
        → Cmd
        → Dev
        → Result (PinUvAuthResult Token) × Cmd × Dev
    unfolding adopt_token use_internal_uv
    choose_method skip_uv pin info cmd dev =
        let supports_uv = is_set info.options.user_verification in
        let supports_pin = is_some info.options.client_pin in
        let pin_configured = is_set info.options.client_pin in
        let rp_id = trait.get_rp_id cmd in
        if trait.can_skip_user_verification cmd info uv_req
        then (ok no_auth_required, cmd, dev)
        else if (skip_uv || not supports_uv) && not supports_pin
        then (
          ok no_auth_type_supported,
          (if supports_uv && is_required uv_req then trait.set_uv_option cmd (some true) else cmd),
          dev,
        )
        else if (skip_uv || not supports_uv) && not pin_configured
        then (err (pin_error pin_not_set), cmd, dev)
        else if is_set info.options.pin_uv_auth_token
        then (if not skip_uv && supports_uv
            then adopt_token success_using_uv (device.get_token_using_uv permission rp_id dev) cmd
            else adopt_token success_using_pin (device.get_token_using_pin pin permission rp_id dev)
                cmd)
        else if not skip_uv && supports_uv && not (is_some pin)
        then use_internal_uv info cmd dev
        else adopt_token success_get_pin_token (device.get_pin_token pin dev) cmd

    unfoldable pub get_pin_uv_auth_param :
        Bool → Option Pin → Cmd → Dev → Result (PinUvAuthResult Token) × Cmd × Dev
    unfolding choose_method
    get_pin_uv_auth_param skip_uv pin cmd dev = elim (trait.set_pin_uv_auth_param cmd none) [
      | none ↦ (err crypto_failed, cmd, dev)
      | some cmd' ↦
          let cleared = trait.set_uv_option cmd' none in
          elim (ctap2_info device dev) [
            | none ↦ (ok device_is_ctap1, cleared, dev)
            | some info ↦ choose_method skip_uv pin info cleared dev
          ]
    ]

    module _ {User Out : Type 0} where
      -- The loop. The source bounds its rounds by nothing but `alive`, here is fuel.
      unfoldable pub determine_puap_if_needed :
          ℕ → Bool → Cmd → Option Pin → Session Dev User Out → Puap Cmd Dev Token User Out
      unfolding get_pin_uv_auth_param ask_user_for_pin
      determine_puap_if_needed zero skip_uv cmd pin s = record {
        result = stuck;
        cmd = cmd;
        pin = pin;
        session = s;
      }
      determine_puap_if_needed (suc fuel) skip_uv cmd pin s =
          let (running, dev) = device.alive s.dev in
          elim running [
            | false ↦ record {
              result = err cancelled_by_user;
              cmd = cmd;
              pin = pin;
              session = record s { dev = dev };
            }
            | true ↦
                let (r, cmd', dev') = get_pin_uv_auth_param skip_uv pin cmd dev in
                let s' = record s { dev = dev' } in
                elim r [
                  | ok kind ↦ record { result = ok kind; cmd = cmd'; pin = pin; session = s' }
                  | stuck ↦ record { result = stuck; cmd = cmd'; pin = pin; session = s' }
                  | err e ↦ elim (reaction skip_uv e) [
                    | ask was_invalid retries skip ↦
                        let (answer, asked) = ask_user_for_pin was_invalid retries s' in
                        elim answer [
                          | some new_pin ↦
                              determine_puap_if_needed fuel skip cmd' (some new_pin) asked
                          | none ↦ record {
                            result = err cancelled_by_user;
                            cmd = cmd';
                            pin = pin;
                            session = asked;
                          }
                        ]
                    | again u skip ↦ determine_puap_if_needed fuel skip cmd' pin (send_status u s')
                    | report u ↦ record {
                      result = err e;
                      cmd = cmd';
                      pin = pin;
                      session = send_status u s';
                    }
                    | give_up ↦ record { result = err e; cmd = cmd'; pin = pin; session = s' }
                  ]
                ]
          ]
