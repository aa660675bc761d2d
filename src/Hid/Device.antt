-- ===== src/Hid/Device.antt =====
-- The state of a HID device that the trait methods of src/transport/hid.rs read and write, and the
-- monad of its fallible methods. What the operating system delivers and accepts is part of the
-- state: a list of read outcomes, and a function that answers each write.
use authenticator_rs.Common.{
  ℕ, List, [], ◌∷◌, ◌++◌, Bool, Option, none, some, get_elem?, take, drop, length,
}
use authenticator_rs.Apdu.{ApduErrorStatus}
use authenticator_rs.Status.{CommandError}

-- The errors of these methods: the operating system's, the messages that the code gives to `io_err`,
-- and those of `HIDError` (src/transport/errors.rs). An `io::Error` and the `HIDError::IO(None, _)`
-- that `?` makes of it are one value here.
pub data HidError : Type 0 where
  os_error : HidError
  invalid_init_packet invalid_cont_packet invalid_sequence_number : HidError
  payload_too_long write_failed : HidError
  invalid_init_response invalid_nonce : HidError
  device_error short_response keepalive_cancelled : HidError
  unexpected_cmd : ℕ → HidError
  apdu_error : ApduErrorStatus → HidError
  device_not_initialized device_not_supported unsupported_command unexpected_version : HidError
  command : CommandError → HidError

-- One outcome of `read` on the device node: the bytes of a report, or an error.
pub data ReadEvent : Type 0 where
  report : List ℕ → ReadEvent
  read_error : ReadEvent

pub data FidoProtocol : Type 0 where
  ctap1 ctap2 : FidoProtocol

-- `U2FDeviceInfo`
pub record DeviceInfo : Type 0 where
  pub vendor_name : List ℕ
  pub device_name : List ℕ
  pub version_interface : ℕ
  pub version_major : ℕ
  pub version_minor : ℕ
  pub version_build : ℕ
  pub cap_flags : ℕ

-- `sink` is what a write of a frame returns, after the frames that were written before it: `none`
-- is an error, `some n` the number of bytes taken. `property` is `get_property`.
-- `overflow_checks` says whether the build panics on integer overflow, or wraps around.
pub record Device : Type 0 where
  pub cid : List ℕ
  pub in_rpt_size : ℕ
  pub out_rpt_size : ℕ
  pub protocol : FidoProtocol
  pub dev_info : Option DeviceInfo
  pub property : List ℕ → Option (List ℕ)
  pub overflow_checks : Bool
  pub incoming : List ReadEvent
  pub outgoing : List (List ℕ)
  pub sink : List (List ℕ) → List ℕ → Option ℕ

-- A method returns a value or an error with the new state, panics, or waits for a report that never
-- comes. `stuck` is no outcome of the program: a loop of the model ran out of fuel.
pub data Outcome {ℓ} (A : Type ℓ) : Type ℓ where
  ok : A → Device → Outcome A
  err : HidError → Device → Outcome A
  panic : Outcome A
  blocked : Outcome A
  stuck : Outcome A

abbrev pub M {ℓ} : Type ℓ → Type ℓ
M A = Device → Outcome A

abbrev pub bind {ℓ κ} : {A : Type ℓ} {B : Type κ} → Outcome A → (A → M B) → Outcome B
bind (ok a d) f = f a d
bind (err e d) f = err e d
bind panic f = panic
bind blocked f = blocked
bind stuck f = stuck

infixl 5 ◌>>=◌ ◌>>◌
abbrev pub ◌>>=◌ {ℓ κ} : {A : Type ℓ} {B : Type κ} → M A → (A → M B) → M B
◌>>=◌ m f d = bind (m d) f

abbrev pub ◌>>◌ {ℓ κ} : {A : Type ℓ} {B : Type κ} → M A → M B → M B
m >> k = m >>= λ _. k

abbrev pub pure {ℓ} : {A : Type ℓ} → A → M A
pure a d = ok a d

abbrev pub fail {ℓ} : {A : Type ℓ} → HidError → M A
fail e d = err e d

abbrev pub abort {ℓ} : {A : Type ℓ} → M A
abort d = panic

-- `frame[i]`: out of range is a panic.
abbrev pub index : List ℕ → ℕ → M ℕ
index frame i = elim (get_elem? frame i) [ none ↦ abort | some b ↦ pure b ]

-- `dev.write(&frame)`
unfoldable pub write : List ℕ → M ℕ
write frame d = elim (d.sink d.outgoing frame) [
  | none ↦ err os_error d
  | some n ↦ ok n (record d { outgoing = d.outgoing ++ frame ∷ [] })
]

-- What a read of `bytes` leaves in the buffer `frame`: it overwrites the front.
abbrev pub fill : List ℕ → List ℕ → List ℕ
fill bytes frame = take (length frame) bytes ++ drop (length bytes) frame
