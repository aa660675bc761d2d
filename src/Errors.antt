-- ===== src/Errors.antt =====
-- src/errors.rs, and the PIN errors of src/ctap2/commands/client_pin.rs: the errors that are
-- reported to the caller of the library. Payloads that no code reads are left out.
use authenticator_rs.Common.{ℕ, Option}
use authenticator_rs.Hid.Device.{HidError}

-- `PinError`
pub data PinError : Type 0 where
  pin_required pin_is_too_short : PinError
  pin_is_too_long : ℕ → PinError
  invalid_pin : Option ℕ → PinError
  invalid_uv : Option ℕ → PinError
  pin_auth_blocked pin_blocked pin_not_set uv_blocked pin_auth_invalid crypto : PinError

-- `UnsupportedOption`
pub data UnsupportedOption : Type 0 where
  cred_protect empty_allow_list max_pin_length pub_cred_params resident_key user_verification :
      UnsupportedOption

-- `AuthenticatorError`
pub data AuthenticatorError : Type 0 where
  io invalid_relying_party_input no_configured_transports platform internal_error u2f_token custom :
      AuthenticatorError
  version_mismatch crypto_error cancelled_by_user credential_excluded : AuthenticatorError
  hid_error : HidError → AuthenticatorError
  pin_error : PinError → AuthenticatorError
  unsupported_option : UnsupportedOption → AuthenticatorError

-- `Result<A, AuthenticatorError>`; `stuck` is no result of the program: a loop ran out of fuel.
pub data Result {ℓ} (A : Type ℓ) : Type ℓ where
  ok : A → Result A
  err : AuthenticatorError → Result A
  stuck : Result A

-- `Result<A, HIDError>`
pub data HidResult {ℓ} (A : Type ℓ) : Type ℓ where
  done : A → HidResult A
  failed : HidError → HidResult A
