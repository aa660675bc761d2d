-- ===== src/Hid/Cmd.antt =====
-- src/consts.rs: the CTAPHID constants, and `HIDCmd` with its conversions from and to a byte.
use authenticator_rs.Common.{
  ℕ, ◌≡◌, refl, List, [], ◌∷◌, Bool, true, false, bit_or, arith, ◌==◌, if◌then◌else◌,
}

abbrev pub max_hid_rpt_size : ℕ
max_hid_rpt_size = 64

abbrev pub cid_broadcast : List ℕ
cid_broadcast = 0xff ∷ 0xff ∷ 0xff ∷ 0xff ∷ []

abbrev pub type_init : ℕ
type_init = 0x80

abbrev pub init_header_size : ℕ
init_header_size = 7

abbrev pub cont_header_size : ℕ
cont_header_size = 5

abbrev pub init_nonce_size : ℕ
init_nonce_size = 8

-- `Unknown(u8)` holds the byte itself.
pub data HidCmd : Type 0 where
  ping msg lock init wink cbor cancel keepalive error : HidCmd
  unknown : ℕ → HidCmd

-- `impl From<HIDCmd> for u8`
unfoldable pub cmd_to_byte : HidCmd → ℕ
cmd_to_byte ping = bit_or type_init 0x01
cmd_to_byte msg = bit_or type_init 0x03
cmd_to_byte lock = bit_or type_init 0x04
cmd_to_byte init = bit_or type_init 0x06
cmd_to_byte wink = bit_or type_init 0x08
cmd_to_byte cbor = bit_or type_init 0x10
cmd_to_byte cancel = bit_or type_init 0x11
cmd_to_byte keepalive = bit_or type_init 0x3b
cmd_to_byte error = bit_or type_init 0x3f
cmd_to_byte (unknown v) = v

-- `impl From<u8> for HIDCmd`
unfoldable pub cmd_from_byte : ℕ → HidCmd
cmd_from_byte v =
    if v == bit_or type_init 0x01
    then ping
    else if v == bit_or type_init 0x03
    then msg
    else if v == bit_or type_init 0x04
    then lock
    else if v == bit_or type_init 0x06
    then init
    else if v == bit_or type_init 0x08
    then wink
    else if v == bit_or type_init 0x10
    then cbor
    else if v == bit_or type_init 0x11
    then cancel
    else if v == bit_or type_init 0x3b
    then keepalive
    else if v == bit_or type_init 0x3f
    then error
    else unknown v

-- `cmd == HIDCmd::X` for the three commands that the code compares with.
unfoldable pub is_keepalive : HidCmd → Bool
is_keepalive keepalive = true
is_keepalive _ = false

unfoldable pub is_init : HidCmd → Bool
is_init init = true
is_init _ = false

-- A command that is written as `Unknown` although its byte has a name.
abbrev pub IsNamed : HidCmd → Type 0
IsNamed (unknown v) = ⊥
IsNamed _ = Unit {0}

-- For every byte, reading it as a command and writing that command gives the byte back.
cmd_to_byte-cmd_from_byte : (v : ℕ) → cmd_to_byte (cmd_from_byte v) ≡ v
unfolding cmd_to_byte cmd_from_byte
cmd_to_byte-cmd_from_byte v = ground arith

pub cmd_from_byte-cmd_to_byte : (c : HidCmd) → IsNamed c → cmd_from_byte (cmd_to_byte c) ≡ c
unfolding cmd_to_byte cmd_from_byte
cmd_from_byte-cmd_to_byte ping h = refl
cmd_from_byte-cmd_to_byte msg h = refl
cmd_from_byte-cmd_to_byte lock h = refl
cmd_from_byte-cmd_to_byte init h = refl
cmd_from_byte-cmd_to_byte wink h = refl
cmd_from_byte-cmd_to_byte cbor h = refl
cmd_from_byte-cmd_to_byte cancel h = refl
cmd_from_byte-cmd_to_byte keepalive h = refl
cmd_from_byte-cmd_to_byte error h = refl
cmd_from_byte-cmd_to_byte (unknown v) h = absurd h
