-- ===== src/Hid/Channel.antt =====
-- src/transport/hid.rs and src/u2ftypes.rs: what `pre_init` makes of the answer to its request.
use authenticator_rs.Common.{
  ℕ, ◌≤◌, ◌≡◌, refl, List, [], ◌∷◌, ◌++◌, true, false, some, none, length, take, arith, slice_eq,
  slice_eq_self, le→ltb, bit_and, ltb, ◌==◌,
}
use authenticator_rs.Hid.Cmd.{init, cmd_to_byte, cid_broadcast, is_init, is_keepalive}
use authenticator_rs.Hid.Device.{Device, DeviceInfo, ReadEvent, ok, err, invalid_nonce}
use authenticator_rs.Hid.Packets.{packets}
use authenticator_rs.Hid.Frames.{Accepts}
use authenticator_rs.Hid.Answers.{Messages, exchanged, sendrecv-Messages}
use authenticator_rs.Hid.Exchange.{
  InitResp, init_resp_read, capability_bits, codes, initialized, adopt, pre_init, sendrecv,
}

-- What an init response says after the nonce.
abbrev pub resp_of : ℕ → ℕ → ℕ → ℕ → ℕ → ℕ → ℕ → ℕ → ℕ → InitResp
resp_of c0 c1 c2 c3 interface major minor build flags = record {
  cid = c0 ∷ c1 ∷ c2 ∷ c3 ∷ [];
  version_interface = interface;
  version_major = major;
  version_minor = minor;
  version_build = build;
  cap_flags = bit_and flags capability_bits;
}

eight :
    (xs : List ℕ)
    → length xs ≡ 8
    → (a b c e f g h i : ℕ) × (xs ≡ a ∷ b ∷ c ∷ e ∷ f ∷ g ∷ h ∷ i ∷ [])
eight [] p = absurd (omega arith)
eight (a ∷ []) p = absurd (omega arith)
eight (a ∷ b ∷ []) p = absurd (omega arith)
eight (a ∷ b ∷ c ∷ []) p = absurd (omega arith)
eight (a ∷ b ∷ c ∷ e ∷ []) p = absurd (omega arith)
eight (a ∷ b ∷ c ∷ e ∷ f ∷ []) p = absurd (omega arith)
eight (a ∷ b ∷ c ∷ e ∷ f ∷ g ∷ []) p = absurd (omega arith)
eight (a ∷ b ∷ c ∷ e ∷ f ∷ g ∷ h ∷ []) p = absurd (omega arith)
eight (a ∷ b ∷ c ∷ e ∷ f ∷ g ∷ h ∷ i ∷ []) p = (a, b, c, e, f, g, h, i, refl)
eight (a ∷ b ∷ c ∷ e ∷ f ∷ g ∷ h ∷ i ∷ j ∷ l) p = absurd (omega arith)

init_resp_read_lem :
    (nonce extra : List ℕ) (c0 c1 c2 c3 interface major minor build flags : ℕ) (d : Device)
    → length nonce ≡ 8
    → init_resp_read
        (nonce ++ (c0 ∷ c1 ∷ c2 ∷ c3 ∷ interface ∷ major ∷ minor ∷ build ∷ flags ∷ extra))
        nonce
        d
      ≡ ok (resp_of c0 c1 c2 c3 interface major minor build flags) d
unfolding init_resp_read
init_resp_read_lem nonce extra c0 c1 c2 c3 interface major minor build flags d h =
    let (n0, n1, n2, n3, n4, n5, n6, n7, e) = eight nonce h in
    let bytes : List ℕ =
      n0 ∷ n1 ∷ n2 ∷ n3 ∷ n4 ∷ n5 ∷ n6 ∷ n7 ∷ c0 ∷ c1 ∷ c2 ∷ c3 ∷ interface ∷ major ∷ minor ∷ build
      ∷ flags ∷ extra in
    let long : ltb (length bytes) 17 ≡ false = le→ltb (length bytes) 17 (omega arith) in
    rw e (rw (long, slice_eq_self (n0 ∷ n1 ∷ n2 ∷ n3 ∷ n4 ∷ n5 ∷ n6 ∷ n7 ∷ [])))

init_resp_read_mismatch :
    (bytes nonce : List ℕ) (d : Device)
    → length nonce ≡ 8
    → 17 ≤ length bytes
    → slice_eq nonce (take 8 bytes) ≡ false
    → init_resp_read bytes nonce d ≡ err invalid_nonce d
unfolding init_resp_read
init_resp_read_mismatch bytes nonce d h l e =
    let eight_long : (length nonce == 8) ≡ true = ground arith in
    rw (eight_long, le→ltb (length bytes) 17 l, e)

init_answers : (is_init init ≡ true) × (is_keepalive init ≡ false)
unfolding is_init is_keepalive
init_answers = (refl, refl)

-- What is known of a device that has a channel.
abbrev pub info_of : Device → ℕ → ℕ → ℕ → ℕ → ℕ → DeviceInfo
info_of d interface major minor build flags = record {
  vendor_name = elim (d.property (codes "Manufacturer")) [
    | none ↦ codes "Unknown Vendor"
    | some name ↦ name
  ];
  device_name = elim (d.property (codes "Product")) [
    | none ↦ codes "Unknown Device"
    | some name ↦ name
  ];
  version_interface = interface;
  version_major = major;
  version_minor = minor;
  version_build = build;
  cap_flags = flags;
}

-- What `pre_init` leaves behind when the answer is refused: the request sent on the broadcast channel.
abbrev pub asked : List ℕ → Device → List ReadEvent → Device
asked nonce d rest =
    exchanged (record d { cid = cid_broadcast })
      (packets d.out_rpt_size cid_broadcast (cmd_to_byte init) nonce) rest

module _ (nonce : List ℕ) (d : Device) (rest : List ReadEvent) (hn : length nonce ≡ 8)
    (fresh : initialized d ≡ false) (hi : 7 ≤ d.in_rpt_size) (ho : 7 ≤ d.out_rpt_size)
    (hw : Accepts d) where
  init_exchange :
      (bytes : List ℕ)
      → Messages cid_broadcast d.in_rpt_size rest ((init, bytes) ∷ []) d.incoming
      → sendrecv init nonce (λ _. true) (record d { cid = cid_broadcast })
        ≡ ok (init, bytes) (asked nonce d rest)
  init_exchange bytes m =
      sendrecv-Messages init init nonce bytes [] (λ _. true) (record d { cid = cid_broadcast }) rest
        refl hi ho (omega arith) (omega arith) hw init_answers.1 (λ n h. refl) m

  -- On a device without a channel, with reports of seven bytes at least, that takes every frame and
  -- answers the request for a channel, in one init message on the broadcast channel, by the same eight
  -- bytes of nonce, a channel id, versions, flags and any further bytes: `pre_init` succeeds, has sent
  -- exactly its request on the broadcast channel, and afterwards the device has this channel id, its
  -- manufacturer and product or the defaults for them, the versions and the four known flags.
  pub pre_init-adopt :
      (extra : List ℕ) (c0 c1 c2 c3 interface major minor build flags : ℕ)
      → Messages cid_broadcast d.in_rpt_size rest
          ((init, nonce ++ (c0 ∷ c1 ∷ c2 ∷ c3 ∷ interface ∷ major ∷ minor ∷ build ∷ flags ∷ extra))
            ∷ [])
          d.incoming
      → pre_init nonce d
        ≡ ok tt (record (asked nonce d rest) {
          cid = c0 ∷ c1 ∷ c2 ∷ c3 ∷ [];
          dev_info = some (info_of d interface major minor build (bit_and flags 0x0f));
        })
  unfolding pre_init adopt
  pre_init-adopt extra c0 c1 c2 c3 interface major minor build flags m =
      rw
        (
          fresh,
          init_exchange _ m,
          init_answers.0,
          init_resp_read_lem nonce extra c0 c1 c2 c3 interface major minor build flags
              (asked nonce d rest) hn,
        )
        refl

  -- On a device without a channel, with reports of seven bytes at least, that takes every frame: if
  -- the answer on the broadcast channel is an init message of 17 bytes at least that does not begin with
  -- the nonce, `pre_init` fails with the nonce error and the device stays on the broadcast channel.
  pub pre_init-invalid_nonce :
      (bytes : List ℕ)
      → 17 ≤ length bytes
      → slice_eq nonce (take 8 bytes) ≡ false
      → Messages cid_broadcast d.in_rpt_size rest ((init, bytes) ∷ []) d.incoming
      → (pre_init nonce d ≡ err invalid_nonce (asked nonce d rest))
        × (initialized (asked nonce d rest) ≡ false)
  unfolding pre_init
  pre_init-invalid_nonce bytes hl he m = (
    rw (
      fresh,
      init_exchange bytes m,
      init_answers.0,
      init_resp_read_mismatch bytes nonce (asked nonce d rest) hn hl he,
    ),
    refl,
  )
