-- ===== src/Status.antt =====
-- The status codes of CTAP2 responses (src/ctap2/commands/mod.rs).
use authenticator_rs.Common.{ℕ, ◌≡◌, refl, ◌==◌, if◌then◌else◌, arith}

-- `StatusCode`
pub data StatusCode : Type 0 where
  ok invalid_command invalid_parameter invalid_length invalid_seq : StatusCode
  timeout channel_busy lock_required invalid_channel cbor_unexpected_type : StatusCode
  invalid_cbor missing_parameter limit_exceeded unsupported_extension credential_excluded :
      StatusCode
  processing invalid_credential user_action_pending operation_pending no_operations : StatusCode
  unsupported_algorithm operation_denied key_store_full no_operation_pending unsupported_option :
      StatusCode
  invalid_option keepalive_cancel no_credentials user_action_timeout not_allowed : StatusCode
  pin_invalid pin_blocked pin_auth_invalid pin_auth_blocked pin_not_set : StatusCode
  pin_required pin_policy_violation pin_token_expired request_too_large action_timeout : StatusCode
  up_required uv_blocked integrity_failure invalid_subcommand uv_invalid : StatusCode
  unauthorized_permission other : StatusCode
  unknown : ℕ → StatusCode

-- `CommandError`, without the payloads that no code reads.
pub data CommandError : Type 0 where
  input_too_small missing_required_field deserializing serializing json crypto : CommandError
  unsupported_pin_protocol : CommandError
  status_code : StatusCode → CommandError

-- `From<u8> for StatusCode`
unfoldable pub status_from_byte : ℕ → StatusCode
status_from_byte value =
    if value == 0x00
    then ok
    else if value == 0x01
    then invalid_command
    else if value == 0x02
    then invalid_parameter
    else if value == 0x03
    then invalid_length
    else if value == 0x04
    then invalid_seq
    else if value == 0x05
    then timeout
    else if value == 0x06
    then channel_busy
    else if value == 0x0a
    then lock_required
    else if value == 0x0b
    then invalid_channel
    else if value == 0x11
    then cbor_unexpected_type
    else if value == 0x12
    then invalid_cbor
    else if value == 0x14
    then missing_parameter
    else if value == 0x15
    then limit_exceeded
    else if value == 0x16
    then unsupported_extension
    else if value == 0x19
    then credential_excluded
    else if value == 0x21
    then processing
    else if value == 0x22
    then invalid_credential
    else if value == 0x23
    then user_action_pending
    else if value == 0x24
    then operation_pending
    else if value == 0x25
    then no_operations
    else if value == 0x26
    then unsupported_algorithm
    else if value == 0x27
    then operation_denied
    else if value == 0x28
    then key_store_full
    else if value == 0x2a
    then no_operation_pending
    else if value == 0x2b
    then unsupported_option
    else if value == 0x2c
    then invalid_option
    else if value == 0x2d
    then keepalive_cancel
    else if value == 0x2e
    then no_credentials
    else if value == 0x2f
    then user_action_timeout
    else if value == 0x30
    then not_allowed
    else if value == 0x31
    then pin_invalid
    else if value == 0x32
    then pin_blocked
    else if value == 0x33
    then pin_auth_invalid
    else if value == 0x34
    then pin_auth_blocked
    else if value == 0x35
    then pin_not_set
    else if value == 0x36
    then pin_required
    else if value == 0x37
    then pin_policy_violation
    else if value == 0x38
    then pin_token_expired
    else if value == 0x39
    then request_too_large
    else if value == 0x3a
    then action_timeout
    else if value == 0x3b
    then up_required
    else if value == 0x3c
    then uv_blocked
    else if value == 0x3d
    then integrity_failure
    else if value == 0x3e
    then invalid_subcommand
    else if value == 0x3f
    then uv_invalid
    else if value == 0x40
    then unauthorized_permission
    else if value == 0x7f
    then other
    else unknown value

-- `From<StatusCode> for u8`
unfoldable pub status_to_byte : StatusCode → ℕ
status_to_byte ok = 0x00
status_to_byte invalid_command = 0x01
status_to_byte invalid_parameter = 0x02
status_to_byte invalid_length = 0x03
status_to_byte invalid_seq = 0x04
status_to_byte timeout = 0x05
status_to_byte channel_busy = 0x06
status_to_byte lock_required = 0x0a
status_to_byte invalid_channel = 0x0b
status_to_byte cbor_unexpected_type = 0x11
status_to_byte invalid_cbor = 0x12
status_to_byte missing_parameter = 0x14
status_to_byte limit_exceeded = 0x15
status_to_byte unsupported_extension = 0x16
status_to_byte credential_excluded = 0x19
status_to_byte processing = 0x21
status_to_byte invalid_credential = 0x22
status_to_byte user_action_pending = 0x23
status_to_byte operation_pending = 0x24
status_to_byte no_operations = 0x25
status_to_byte unsupported_algorithm = 0x26
status_to_byte operation_denied = 0x27
status_to_byte key_store_full = 0x28
status_to_byte no_operation_pending = 0x2a
status_to_byte unsupported_option = 0x2b
status_to_byte invalid_option = 0x2c
status_to_byte keepalive_cancel = 0x2d
status_to_byte no_credentials = 0x2e
status_to_byte user_action_timeout = 0x2f
status_to_byte not_allowed = 0x30
status_to_byte pin_invalid = 0x31
status_to_byte pin_blocked = 0x32
status_to_byte pin_auth_invalid = 0x33
status_to_byte pin_auth_blocked = 0x34
status_to_byte pin_not_set = 0x35
status_to_byte pin_required = 0x36
status_to_byte pin_policy_violation = 0x37
status_to_byte pin_token_expired = 0x38
status_to_byte request_too_large = 0x39
status_to_byte action_timeout = 0x3a
status_to_byte up_required = 0x3b
status_to_byte uv_blocked = 0x3c
status_to_byte integrity_failure = 0x3d
status_to_byte invalid_subcommand = 0x3e
status_to_byte uv_invalid = 0x3f
status_to_byte unauthorized_permission = 0x40
status_to_byte other = 0x7f
status_to_byte (unknown v) = v

-- A status that is written as `Unknown` although its byte has a name does not come back.
abbrev pub IsNamed : StatusCode → Type 0
IsNamed (unknown v) = ⊥
IsNamed _ = Unit {0}

back : (v : ℕ) → status_to_byte (status_from_byte v) ≡ v
unfolding status_to_byte status_from_byte
back v = ground arith

forth : (c : StatusCode) → IsNamed c → status_from_byte (status_to_byte c) ≡ c
unfolding status_to_byte status_from_byte
forth ok h = refl
forth invalid_command h = refl
forth invalid_parameter h = refl
forth invalid_length h = refl
forth invalid_seq h = refl
forth timeout h = refl
forth channel_busy h = refl
forth lock_required h = refl
forth invalid_channel h = refl
forth cbor_unexpected_type h = refl
forth invalid_cbor h = refl
forth missing_parameter h = refl
forth limit_exceeded h = refl
forth unsupported_extension h = refl
forth credential_excluded h = refl
forth processing h = refl
forth invalid_credential h = refl
forth user_action_pending h = refl
forth operation_pending h = refl
forth no_operations h = refl
forth unsupported_algorithm h = refl
forth operation_denied h = refl
forth key_store_full h = refl
forth no_operation_pending h = refl
forth unsupported_option h = refl
forth invalid_option h = refl
forth keepalive_cancel h = refl
forth no_credentials h = refl
forth user_action_timeout h = refl
forth not_allowed h = refl
forth pin_invalid h = refl
forth pin_blocked h = refl
forth pin_auth_invalid h = refl
forth pin_auth_blocked h = refl
forth pin_not_set h = refl
forth pin_required h = refl
forth pin_policy_violation h = refl
forth pin_token_expired h = refl
forth request_too_large h = refl
forth action_timeout h = refl
forth up_required h = refl
forth uv_blocked h = refl
forth integrity_failure h = refl
forth invalid_subcommand h = refl
forth uv_invalid h = refl
forth unauthorized_permission h = refl
forth other h = refl
forth (unknown v) h = absurd h

-- For every byte, reading it as a status code and writing that code gives the byte back, and every
-- status code with a name is read back from the byte that is written for it.
status_to_byte-status_from_byte :
    (v : ℕ) (c : StatusCode)
    → IsNamed c
    → (status_to_byte (status_from_byte v) ≡ v) × (status_from_byte (status_to_byte c) ≡ c)
status_to_byte-status_from_byte v c h = (back v, forth c h)
