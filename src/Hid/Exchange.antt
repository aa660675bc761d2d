-- ===== src/Hid/Exchange.antt =====
-- src/transport/hid.rs and src/u2ftypes.rs: `sendrecv`, one command and its answer, and `pre_init`,
-- which gets a channel of its own for the host.
use Prim.Native.Char.{code}
use Prim.Native.String.{String}
use authenticator_rs.Common.{
  ℕ, zero, suc, ◌+◌, List, [], ◌∷◌, Bool, true, not, Option, none, some, bit_and, length, take,
  slice_eq, ltb, ◌==◌, if◌then◌else◌,
}
use authenticator_rs.Hid.Cmd.{
  HidCmd, init, cancel, cmd_to_byte, is_keepalive, is_init, cid_broadcast, init_nonce_size,
}
use authenticator_rs.Hid.Device.{
  Device, FidoProtocol, ctap1, ctap2, M, ok, err, panic, stuck, bind, ◌>>=◌, pure, index,
  invalid_init_response, invalid_nonce, device_error,
}
use authenticator_rs.Hid.Message.{u2f_write, u2f_read}

-- The loop of `sendrecv`. `keep_alive n` is what the n-th call of the closure returns. The result is
-- `none` where the loop ends by `break`.
unfoldable pub await_answer : ℕ → ℕ → (ℕ → Bool) → M (Option (HidCmd × List ℕ))
await_answer zero calls keep_alive d = stuck
await_answer (suc fuel) calls keep_alive d = bind (u2f_read d) (λ answer d'.
    let again = await_answer fuel (calls + 1) keep_alive d' in
    if is_keepalive answer.0
    then if keep_alive calls then again else ok none d'
    else ok (some answer) d')

-- `if self.get_protocol() == FidoProtocol::CTAP2 { self.u2f_write(Cancel, &[])?; }`
unfoldable pub send_cancel : FidoProtocol → M (Unit {0})
send_cancel ctap1 d = ok tt d
send_cancel ctap2 d = u2f_write (cmd_to_byte cancel) [] d

unfoldable pub finish_exchange : Option (HidCmd × List ℕ) → M (HidCmd × List ℕ)
unfolding send_cancel
finish_exchange (some answer) d = ok answer d
finish_exchange none d = bind (send_cancel d.protocol d) (λ _. u2f_read)

-- Each round reads a report at least, so the rounds are bounded by what the device node delivers.
unfoldable pub sendrecv : HidCmd → List ℕ → (ℕ → Bool) → M (HidCmd × List ℕ)
unfolding await_answer finish_exchange
sendrecv cmd send keep_alive d =
    bind (u2f_write (cmd_to_byte cmd) send d)
      (λ _ d'. bind (await_answer (suc (length d'.incoming)) 0 keep_alive d') finish_exchange)

-- `U2FHIDInitResp`
pub record InitResp : Type 0 where
  pub cid : List ℕ
  pub version_interface : ℕ
  pub version_major : ℕ
  pub version_minor : ℕ
  pub version_build : ℕ
  pub cap_flags : ℕ

-- `Capability::from_bits_truncate` keeps the four bits that have a name.
abbrev pub capability_bits : ℕ
capability_bits = 0x0f

-- `U2FHIDInitResp::read`
unfoldable pub init_resp_read : List ℕ → List ℕ → M InitResp
init_resp_read bytes nonce d =
    if not (length nonce == init_nonce_size)
    then panic
    else if ltb (length bytes) (init_nonce_size + 9)
    then err invalid_init_response d
    else if not (slice_eq nonce (take init_nonce_size bytes))
    then err invalid_nonce d
    else (do
      c0 ← index bytes init_nonce_size
      c1 ← index bytes (init_nonce_size + 1)
      c2 ← index bytes (init_nonce_size + 2)
      c3 ← index bytes (init_nonce_size + 3)
      interface ← index bytes (init_nonce_size + 4)
      major ← index bytes (init_nonce_size + 5)
      minor ← index bytes (init_nonce_size + 6)
      build ← index bytes (init_nonce_size + 7)
      flags ← index bytes (init_nonce_size + 8)
      pure (record {
        cid = c0 ∷ c1 ∷ c2 ∷ c3 ∷ [];
        version_interface = interface;
        version_major = major;
        version_minor = minor;
        version_build = build;
        cap_flags = bit_and flags capability_bits;
      }))
        d

-- `fn initialized` of the platform devices: `self.cid != CID_BROADCAST`.
unfoldable pub initialized : Device → Bool
initialized d = not (slice_eq d.cid cid_broadcast)

-- `self.get_property(name).unwrap_or_else(|_| default)`; the texts are ASCII.
abbrev pub property_or : Device → List ℕ → List ℕ → List ℕ
property_or d name default = elim (d.property name) [ none ↦ default | some value ↦ value ]

abbrev pub codes : String → List ℕ
codes String.[] = []
codes (String.◌∷◌ c s) = code c ∷ codes s

-- The new channel id and what the device says of itself.
unfoldable pub adopt : InitResp → Device → Device
adopt rsp d = record d {
  cid = rsp.cid;
  dev_info = some (record {
    vendor_name = property_or d (codes "Manufacturer") (codes "Unknown Vendor");
    device_name = property_or d (codes "Product") (codes "Unknown Device");
    version_interface = rsp.version_interface;
    version_major = rsp.version_major;
    version_minor = rsp.version_minor;
    version_build = rsp.version_build;
    cap_flags = rsp.cap_flags;
  });
}

-- `HIDDevice::pre_init`; `nonce` is what the random generator filled in.
unfoldable pub pre_init : List ℕ → M (Unit {0})
unfolding init_resp_read adopt initialized
pre_init nonce d =
    if initialized d
    then ok tt d
    else bind (sendrecv init nonce (λ _. true) (record d { cid = cid_broadcast })) (λ answer d'.
      if not (is_init answer.0)
      then err device_error d'
      else bind (init_resp_read answer.1 nonce d') (λ rsp d''. ok tt (adopt rsp d'')))
