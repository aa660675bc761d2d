-- ===== src/Transport.antt =====
-- src/transport/mod.rs: `init` and `block_and_blink` of the trait FidoDevice, with the setters of
-- src/transport/linux/device.rs. The requests that are sent are an argument.
mod Tests
pub mod Starting
use authenticator_rs.Common.{Bool, true, false, Option, none, some, ◌&&◌, if◌then◌else◌}
use authenticator_rs.Errors.{HidResult, done, failed}
use authenticator_rs.Hid.Device.{FidoProtocol, ctap1, ctap2, HidError, command}
use authenticator_rs.Info.{
  AuthenticatorInfo, u2f_v2, fido_2_1, same_version, has_version, max_supported_version,
}
use authenticator_rs.Status.{StatusCode, status_code, pin_invalid, pin_auth_invalid, pin_not_set}

-- What a token is asked here. `Io` is the device below.
pub record Requests (Io : Type 0) : Type 0 where
  pub pre_init : Io → HidResult (Unit {0}) × Io
  pub should_try_ctap2 : Io → Bool
  pub get_info : Io → HidResult AuthenticatorInfo × Io
  pub get_version : Io → HidResult (Unit {0}) × Io
  pub selection : Io → HidResult (Unit {0}) × Io
  pub dummy_make_credentials : Io → HidResult (Unit {0}) × Io

pub record Token (Io : Type 0) : Type 0 where
  pub protocol : FidoProtocol
  pub authenticator_info : Option AuthenticatorInfo
  pub io : Io

pub data BlinkResult : Type 0 where
  device_selected cancelled : BlinkResult

module _ {Io : Type 0} where
  abbrev pub downgrade_to_ctap1 : Token Io → Token Io
  downgrade_to_ctap1 t = record t { protocol = ctap1 }

  abbrev pub set_authenticator_info : AuthenticatorInfo → Token Io → Token Io
  set_authenticator_info info t = record t { authenticator_info = some info }

  abbrev pub with_io : Io → Token Io → Token Io
  with_io io t = record t { io = io }

  module _ (requests : Requests Io) where
    -- The end of `init`, for a token that does not speak CTAP2.
    unfoldable pub init_ctap1 : Token Io → HidResult (Unit {0}) × Token Io
    init_ctap1 t =
        let (answer, io) = requests.get_version t.io in (answer, with_io io (downgrade_to_ctap1 t))

    -- `if let Ok(info) = self.send_cbor(&command)`
    unfoldable pub init_ctap2 : Token Io → HidResult (Unit {0}) × Token Io
    unfolding init_ctap1
    init_ctap2 t =
        let (answer, io) = requests.get_info t.io in
        elim answer [
          | done info ↦
              let t' = with_io io t in
              (
                done tt,
                set_authenticator_info info (
                    if same_version (max_supported_version info) u2f_v2
                    then downgrade_to_ctap1 t'
                    else t'),
              )
          | failed e ↦ init_ctap1 (with_io io t)
        ]

    unfoldable pub init : Token Io → HidResult (Unit {0}) × Token Io
    unfolding init_ctap1 init_ctap2
    init t =
        let (started, io) = requests.pre_init t.io in
        elim started [
          | failed e ↦ (failed e, with_io io t)
          | done u ↦
              if requests.should_try_ctap2 io
              then init_ctap2 (with_io io t)
              else init_ctap1 (with_io io t)
        ]

    -- `supports_select_cmd`
    abbrev pub supports_select_cmd : FidoProtocol → Option AuthenticatorInfo → Bool
    supports_select_cmd ctap2 (some info) = has_version fido_2_1 info.versions
    supports_select_cmd _ _ = false

    -- `match resp`
    abbrev pub blink_result : HidResult (Unit {0}) → BlinkResult
    blink_result (done u) = device_selected
    blink_result (failed (command (status_code pin_invalid))) = device_selected
    blink_result (failed (command (status_code pin_auth_invalid))) = device_selected
    blink_result (failed (command (status_code pin_not_set))) = device_selected
    blink_result (failed e) = cancelled

    unfoldable pub block_and_blink : Token Io → BlinkResult × Token Io
    block_and_blink t =
        let (resp, io) =
          if supports_select_cmd t.protocol t.authenticator_info
          then requests.selection t.io
          else requests.dummy_make_credentials t.io in
        (blink_result resp, with_io io t)
