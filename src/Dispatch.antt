-- ===== src/Dispatch.antt =====
-- src/ctap2/mod.rs: what `register` and `sign` share. The rounds of their loops are values: a round
-- goes on (`continue`) or leaves the function (`return`, or `break` to its end). `handle_errors!` is
-- a function of the flags that the macro may set.
pub mod Loops
pub mod Handling
use authenticator_rs.Common.{
  ℕ, zero, suc, List, [], ◌∷◌, Bool, true, false, Option, none, some, ◌⊎◌, inl, inr, if◌then◌else◌,
}
use authenticator_rs.Command.{MakeCredentials, GetAssertion, RelyingParty}
use authenticator_rs.Errors.{
  AuthenticatorError, Result, HidResult, ok, err, hid_error, credential_excluded,
}
use authenticator_rs.Hid.Device.{HidError, command, FidoProtocol}
use authenticator_rs.Preflight.{
  Credential, SilentAssert, CheckKeyHandle, FidoDevice, FilterError, crypto,
}
use authenticator_rs.Puap.{
  Pin, PinDevice, Session, StatusUpdate, PinUvAuthResult, using_internal_uv, success_using_uv,
  uv_failed, presence_required, crypto_failed, send_status,
}
use authenticator_rs.Status.{StatusCode, status_code}

-- A token as the dispatching functions see it: the verification of the user, the two requests of
-- the credential lists, the two commands, and the dummy request that makes it blink. Each call may
-- ask the closure `alive`.
pub record Authenticator (Dev Token Secret Param Key Made Assertion : Type 0) : Type 0 where
  pub pins : PinDevice Dev Token Secret
  pub check_key_handle : Dev → CheckKeyHandle RelyingParty → Bool × Dev
  pub silent_assert :
      Dev → SilentAssert RelyingParty Param → Option (List (Option Credential)) × Dev
  pub send_make_credentials : MakeCredentials Param → Dev → HidResult Made × Dev
  pub send_get_assertion : GetAssertion Param Key → Dev → HidResult (List Assertion) × Dev
  pub send_dummy : Dev → Dev

module _ {Dev Token Secret Param Key Made Assertion : Type 0}
    (a : Authenticator Dev Token Secret Param Key Made Assertion) where
  -- The token as the functions that filter the lists see it.
  abbrev pub preflight : FidoDevice Dev RelyingParty Param
  preflight = record {
    get_protocol = a.pins.get_protocol;
    get_authenticator_info = a.pins.get_authenticator_info;
    send_ctap1 = a.check_key_handle;
    send_msg = a.silent_assert;
  }

-- `e.into()` for the errors of the filtering.
abbrev pub filter_error : FilterError → AuthenticatorError
filter_error crypto = crypto_failed
filter_error FilterError.device_not_initialized = hid_error HidError.device_not_initialized

-- What a function of this file returns, and the session that it leaves.
pub record Exit (Dev User Out : Type 0) : Type 0 where
  pub returned : Bool
  pub session : Session Dev User Out

-- The end of a round of a loop. `starved` is none of the program: a loop within ran out of fuel.
pub data Next (S E : Type 0) : Type 0 where
  continue_with : S → Next S E
  leave : E → Next S E
  starved : Next S E

-- A loop of such rounds; each round is told how much fuel is left.
unfoldable pub loop : {S E : Type 0} → (ℕ → S → Next S E) → ℕ → S → Option E
loop round zero s = none
loop round (suc fuel) s = elim (round fuel s) [
  | continue_with s' ↦ loop round fuel s'
  | leave e ↦ some e
  | starved ↦ none
]

-- The variables of the loops of `register` and `sign`.
pub record Try (Cmd Dev User Out : Type 0) : Type 0 where
  pub skip_uv : Bool
  pub cmd : Cmd
  pub pin : Option Pin
  pub session : Session Dev User Out

module _ {Dev User Out : Type 0} where
  -- `callback.call(r); return b;`
  abbrev pub call_and_return : Result Out → Bool → Session Dev User Out → Exit Dev User Out
  call_and_return r b s = record { returned = b; session = record s { called = r ∷ s.called } }

-- The variables that `handle_errors!` may set.
pub record Flags : Type 0 where
  pub skip_uv : Bool
  pub skip_puap : Bool
  pub cached_puat : Bool

-- What the macro does about an error: try again with these flags, after an update or without, or
-- call the callback with this error and leave the loop.
pub data Handled (User : Type 0) : Type 0 where
  again : Flags → List (StatusUpdate User) → Handled User
  stop : AuthenticatorError → Handled User

-- `matches!($pin_uv_auth_result, PinUvAuthResult::UsingInternalUv)`
abbrev pub is_internal_uv : {Token : Type 0} → PinUvAuthResult Token → Bool
is_internal_uv using_internal_uv = true
is_internal_uv _ = false

-- `PinUvAuthResult::SuccessGetPinUvAuthTokenUsingUvWithPermissions(..)`
abbrev pub is_token_by_uv : {Token : Type 0} → PinUvAuthResult Token → Bool
is_token_by_uv (success_using_uv token) = true
is_token_by_uv _ = false

module _ {User Token : Type 0} (kind : PinUvAuthResult Token) (flags : Flags) where
  abbrev pub fail_with : StatusCode → Handled User
  fail_with code = stop (hid_error (command (status_code code)))

  -- The arm of a failed verification by the token itself, and the one of a cached token.
  abbrev pub on_denied : StatusCode → Handled User
  on_denied code =
      if is_internal_uv kind
      then again (record flags { skip_puap = false }) (uv_failed none ∷ [])
      else fail_with code

  abbrev pub on_status : StatusCode → Handled User
  on_status StatusCode.channel_busy = again flags []
  on_status StatusCode.operation_denied = on_denied StatusCode.operation_denied
  on_status StatusCode.pin_auth_invalid =
      if is_internal_uv kind
      then again (record flags { skip_puap = false }) (uv_failed none ∷ [])
      else if flags.cached_puat
      then again (record flags { cached_puat = false; skip_puap = false }) []
      else fail_with StatusCode.pin_auth_invalid
  on_status StatusCode.pin_required =
      if is_internal_uv kind
      then again (record flags { skip_uv = true; skip_puap = false }) []
      else fail_with StatusCode.pin_required
  on_status StatusCode.uv_blocked =
      if is_token_by_uv kind
      then again (record flags { skip_uv = true; skip_puap = false }) []
      else fail_with StatusCode.uv_blocked
  on_status StatusCode.credential_excluded = stop credential_excluded
  on_status code = fail_with code

  unfoldable pub handle_errors : HidError → Handled User
  handle_errors (command (status_code code)) = on_status code
  handle_errors e = stop (hid_error e)

module _ {Cmd Dev User Out Token : Type 0} where
  -- The call of the macro in the two functions, where `skip_puap` and `cached_puat` are dummies.
  unfoldable pub handle_in_loop :
      HidError
      → PinUvAuthResult Token
      → Try Cmd Dev User Out
      → Next (Try Cmd Dev User Out) (Exit Dev User Out)
  unfolding handle_errors
  handle_in_loop e kind t =
      let flags : Flags = record { skip_uv = t.skip_uv; skip_puap = false; cached_puat = false } in
      elim (handle_errors {User = User} kind flags e) [
        | again flags' [] ↦ continue_with (record t { skip_uv = flags'.skip_uv })
        | again flags' (u ∷ us) ↦
            continue_with (record t { skip_uv = flags'.skip_uv; session = send_status u t.session })
        | stop e' ↦ leave (call_and_return (err e') false t.session)
      ]
