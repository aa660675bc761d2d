-- ===== src/Hid/Reads.antt =====
-- What `u2f_read` of src/transport/hid.rs makes of the packets of a message, between which the
-- device node may deliver packets of other channels.
use authenticator_rs.Common.{
  ℕ, ◌+◌, ◌-◌, ◌*◌, ◌/◌, ◌%◌, ◌^◌, ◌≤◌, ◌≡◌, refl, sym, ap, ◌∙◌, List, [], ◌∷◌, min, length, take,
  drop, replicate, arith, length-take, length-replicate, take_all, take-append, drop_all,
  append-nil, true, false, slice_eq, slice_eq_self, ==_self, le→ltb, leb, bit_or, bit_or_bytes,
}
use authenticator_rs.Hid.Cmd.{cmd_from_byte, type_init}
use authenticator_rs.Hid.Device.{Device, ReadEvent, report, ok, fill}
use authenticator_rs.Hid.Frame.{
  await_frame, read_frame, parse_init, parse_cont, init_read, cont_read, slice,
}
use authenticator_rs.Hid.Frames.{four}
use authenticator_rs.Hid.Packets.{
  pad, init_packet, cont_packet, length-init_packet, length-cont_packet,
}

-- The events deliver the packets in their order, and then `rest`. Before each packet may come any
-- number of reports of the full size that carry another channel id.
pub data Arrives (cid : List ℕ) (size : ℕ) (rest : List ReadEvent)
    : List (List ℕ) → List ReadEvent → Type 0 where
  done : Arrives cid size rest [] rest
  own :
      {p : List ℕ} {ps : List (List ℕ)} {es : List ReadEvent}
      → Arrives cid size rest ps es
      → Arrives cid size rest (p ∷ ps) (report p ∷ es)
  foreign :
      {p : List ℕ} {ps : List (List ℕ)} {es : List ReadEvent} (bytes : List ℕ)
      → length bytes ≡ size
      → slice_eq cid (take 4 bytes) ≡ false
      → Arrives cid size rest (p ∷ ps) es
      → Arrives cid size rest (p ∷ ps) (report bytes ∷ es)

pub Arrives-done :
    {cid : List ℕ} {size : ℕ} {rest es : List ReadEvent} → Arrives cid size rest [] es → es ≡ rest
Arrives-done done = refl

-- A report of the size of the buffer overwrites it whole.
fill_whole : (bytes frame : List ℕ) → length bytes ≡ length frame → fill bytes frame ≡ bytes
fill_whole bytes frame h =
    rw (take_all (length frame) bytes (omega arith), drop_all (length bytes) frame (omega arith))
      (append-nil bytes)

module _ {cid : List ℕ} {size : ℕ} {rest : List ReadEvent} where
  -- The read loop passes over the other channels and stops at the next packet of its own.
  await_frame-Arrives :
      {p : List ℕ} {ps : List (List ℕ)} {es : List ReadEvent} (frame : List ℕ) (d : Device)
      → 4 ≤ size
      → length frame ≡ size
      → length p ≡ size
      → slice_eq cid (take 4 p) ≡ true
      → Arrives cid size rest (p ∷ ps) es
      → (es' : List ReadEvent) × Arrives cid size rest ps es'
        × (await_frame cid frame es d ≡ ok (size, p) (record d { incoming = es' }))
  unfolding await_frame
  await_frame-Arrives {p} frame d h4 hf hp hc (own {es = es} a) = (
    es,
    a,
    rw (fill_whole p frame (hp ∙ sym hf), le→ltb (length p) 4 (omega arith), hc)
        (ap (λ (n : ℕ). ok (n, p) (record d { incoming = es }))
          (let t : min (length p) (length frame) ≡ size = omega arith in t)),
  )
  await_frame-Arrives frame d h4 hf hp hc (foreign bytes hb hx a) =
      let (es', a', e) = await_frame-Arrives bytes d h4 hb hp hc a in
      (
        es',
        a',
        rw (fill_whole bytes frame (hb ∙ sym hf), le→ltb (length bytes) 4 (omega arith), hx) e,
      )

take-pad : (k : ℕ) (xs : List ℕ) → take (min (length xs) k) (pad k xs) ≡ take k xs
take-pad k xs =
    take-append (min (length xs) k) (take k xs) (replicate (k - length xs) 0)
      (omega (arith, length-take k xs))

slice_lem :
    (frame : List ℕ) (from len : ℕ) (d : Device)
    → from + len ≤ length frame
    → slice frame from (from + len) d ≡ ok (take len (drop from frame)) d
slice_lem frame from len d h =
    let a : leb from (from + len) ≡ true = ground arith in
    let b : leb (from + len) (length frame) ≡ true = ground arith in
    let e : from + len - from ≡ len = omega arith in rw (a, b, e)

-- Parsing an init packet gives the command, the length of the whole message, and its front.
parse_init-init_packet :
    (size cmd a b c e : ℕ) (send : List ℕ) (d : Device)
    → 7 ≤ size
    → length send ≤ 0xffff
    → parse_init size (size, init_packet size (a ∷ b ∷ c ∷ e ∷ []) cmd send) d
      ≡ ok
          (
            cmd_from_byte (bit_or cmd type_init),
            record { capacity = length send; bytes = take (size - 7) send },
          )
          d
unfolding parse_init
parse_init-init_packet size cmd a b c e send d hs hl =
    let n : ℕ = length send in
    let cap : bit_or (n / 256 * 2 ^ 8) (n % 256) ≡ n =
      bit_or_bytes (n / 256) (n % 256) (omega arith)
      ∙ (let t : n / 256 * 256 + n % 256 ≡ n = omega arith in t) in
    let big : leb 7 size ≡ true = ground arith in
    let packet : List ℕ = init_packet size (a ∷ b ∷ c ∷ e ∷ []) cmd send in
    rw (
      ==_self size,
      cap,
      big,
      slice_lem packet 7 (min n (size - 7)) d
          (omega (arith, length-init_packet size (a ∷ b ∷ c ∷ e ∷ []) cmd send refl hs)),
      take-pad (size - 7) send,
    )

-- Parsing a continuation packet of the expected number, with just its message missing.
parse_cont-cont_packet :
    (size seq a b c e : ℕ) (send : List ℕ) (d : Device)
    → 5 ≤ size
    → parse_cont size seq (length send) (size, cont_packet size (a ∷ b ∷ c ∷ e ∷ []) seq send) d
      ≡ ok (take (size - 5) send) d
unfolding parse_cont
parse_cont-cont_packet size seq a b c e send d hs =
    let n : ℕ = length send in
    let big : leb 5 size ≡ true = ground arith in
    let packet : List ℕ = cont_packet size (a ∷ b ∷ c ∷ e ∷ []) seq send in
    rw (
      ==_self size,
      big,
      ==_self seq,
      slice_lem packet 5 (min n (size - 5)) d
          (omega (arith, length-cont_packet size (a ∷ b ∷ c ∷ e ∷ []) seq send refl hs)),
      take-pad (size - 5) send,
    )

parse_init_lem :
    (size cmd : ℕ) (cid send : List ℕ) (d : Device)
    → length cid ≡ 4
    → 7 ≤ size
    → length send ≤ 0xffff
    → parse_init size (size, init_packet size cid cmd send) d
      ≡ ok
          (
            cmd_from_byte (bit_or cmd type_init),
            record { capacity = length send; bytes = take (size - 7) send },
          )
          d
parse_init_lem size cmd cid send d hc hs hl =
    let (a, b, c, e, h) = four cid hc in rw h (parse_init-init_packet size cmd a b c e send d hs hl)

parse_cont_lem :
    (size seq : ℕ) (cid send : List ℕ) (d : Device)
    → length cid ≡ 4
    → 5 ≤ size
    → parse_cont size seq (length send) (size, cont_packet size cid seq send) d
      ≡ ok (take (size - 5) send) d
parse_cont_lem size seq cid send d hc hs =
    let (a, b, c, e, h) = four cid hc in rw h (parse_cont-cont_packet size seq a b c e send d hs)

module _ (d : Device) {rest : List ReadEvent} where
  -- One packet of its own, through the read loop.
  pub read_frame-Arrives :
      {p : List ℕ} {ps : List (List ℕ)}
      → 4 ≤ d.in_rpt_size
      → length p ≡ d.in_rpt_size
      → slice_eq d.cid (take 4 p) ≡ true
      → Arrives d.cid d.in_rpt_size rest (p ∷ ps) d.incoming
      → (es : List ReadEvent) × Arrives d.cid d.in_rpt_size rest ps es
        × (read_frame d ≡ ok (d.in_rpt_size, p) (record d { incoming = es }))
  unfolding read_frame
  read_frame-Arrives h4 hp hc a =
      await_frame-Arrives (replicate d.in_rpt_size 0) d h4 (length-replicate d.in_rpt_size 0) hp hc
        a

  pub init_read-Arrives :
      (cmd : ℕ) (send : List ℕ) {ps : List (List ℕ)}
      → length d.cid ≡ 4
      → 7 ≤ d.in_rpt_size
      → length send ≤ 0xffff
      → Arrives d.cid d.in_rpt_size rest (init_packet d.in_rpt_size d.cid cmd send ∷ ps) d.incoming
      → (es : List ReadEvent) × Arrives d.cid d.in_rpt_size rest ps es
        × (init_read d
            ≡ ok
                (
                  cmd_from_byte (bit_or cmd type_init),
                  record { capacity = length send; bytes = take (d.in_rpt_size - 7) send },
                )
                (record d { incoming = es }))
  unfolding init_read
  init_read-Arrives cmd send hc hs hl a =
      let p : List ℕ = init_packet d.in_rpt_size d.cid cmd send in
      let own_cid : slice_eq d.cid (take 4 p) ≡ true =
        rw
          (take-append 4 d.cid
            (cmd ∷ (length send / 256) ∷ (length send % 256) ∷ pad (d.in_rpt_size - 7) send)
            (sym hc))
          (slice_eq_self d.cid) in
      let (es, a', e) =
        read_frame-Arrives (omega arith) (length-init_packet d.in_rpt_size d.cid cmd send hc hs)
          own_cid a in
      (
        es,
        a',
        rw e (parse_init_lem d.in_rpt_size cmd d.cid send (record d { incoming = es }) hc hs hl),
      )

  pub cont_read-Arrives :
      (seq : ℕ) (send : List ℕ) {ps : List (List ℕ)}
      → length d.cid ≡ 4
      → 5 ≤ d.in_rpt_size
      → Arrives d.cid d.in_rpt_size rest (cont_packet d.in_rpt_size d.cid seq send ∷ ps) d.incoming
      → (es : List ReadEvent) × Arrives d.cid d.in_rpt_size rest ps es
        × (cont_read seq (length send) d
            ≡ ok (take (d.in_rpt_size - 5) send) (record d { incoming = es }))
  unfolding cont_read
  cont_read-Arrives seq send hc hs a =
      let p : List ℕ = cont_packet d.in_rpt_size d.cid seq send in
      let own_cid : slice_eq d.cid (take 4 p) ≡ true =
        rw (take-append 4 d.cid (seq ∷ pad (d.in_rpt_size - 5) send) (sym hc))
          (slice_eq_self d.cid) in
      let (es, a', e) =
        read_frame-Arrives (omega arith) (length-cont_packet d.in_rpt_size d.cid seq send hc hs)
          own_cid a in
      (
        es,
        a',
        rw e (parse_cont_lem d.in_rpt_size seq d.cid send (record d { incoming = es }) hc hs),
      )
