-- ===== src/Hid/Frame.antt =====
-- src/u2ftypes.rs: `U2FHIDInit` and `U2FHIDCont`, one packet read from or written to a device.
use authenticator_rs.Common.{
  ℕ, ◌+◌, ◌-◌, ◌*◌, ◌/◌, ◌%◌, ◌^◌, List, [], ◌∷◌, ◌++◌, min, bit_or, length, take, drop, replicate,
  slice_eq, ltb, leb, ◌==◌, if◌then◌else◌,
}
use authenticator_rs.Hid.Cmd.{HidCmd, cmd_from_byte, type_init, init_header_size, cont_header_size}
use authenticator_rs.Hid.Device.{
  M, ReadEvent, report, read_error, ok, err, panic, blocked, bind, ◌>>=◌, pure, fail, abort, index,
  write, fill, os_error, invalid_init_packet, invalid_cont_packet, invalid_sequence_number,
  payload_too_long, write_failed,
}

-- `Vec<u8>`, whose capacity is the one that it was made with.
pub record Buffer : Type 0 where
  pub capacity : ℕ
  pub bytes : List ℕ

-- `count = dev.read(&mut frame)?; while dev.get_cid() != &frame[..4] { … }`: the list is what the
-- device node delivers from now on, and behind it the read waits without end. The list is finite, so
-- that no device here keeps this loop going with reports of other channels for ever.
unfoldable pub await_frame : List ℕ → List ℕ → List ReadEvent → M (ℕ × List ℕ)
await_frame cid frame [] d = blocked
await_frame cid frame (read_error ∷ events) d = err os_error (record d { incoming = events })
await_frame cid frame (report bytes ∷ events) d =
    let frame' = fill bytes frame in
    let more = await_frame cid frame' events d in
    if ltb (length frame') 4
    then panic
    else if slice_eq cid (take 4 frame')
    then ok (min (length bytes) (length frame), frame') (record d { incoming = events })
    else more

unfoldable pub read_frame : M (ℕ × List ℕ)
unfolding await_frame
read_frame d = await_frame d.cid (replicate d.in_rpt_size 0) d.incoming d

-- `frame[from..to].to_vec()`
abbrev pub slice : List ℕ → ℕ → ℕ → M (List ℕ)
slice frame from to =
    if leb from to
    then if leb to (length frame) then pure (take (to - from) (drop from frame)) else abort
    else abort

unfoldable pub parse_init : ℕ → ℕ × List ℕ → M (HidCmd × Buffer)
parse_init in_rpt_size (count, frame) =
    if count == in_rpt_size
    then (do
      cmd ← index frame 4
      high ← index frame 5
      low ← index frame 6
      let cap = bit_or (high * 2 ^ 8) low
      let len =
          if leb init_header_size in_rpt_size then min cap (in_rpt_size - init_header_size) else cap
      bytes ← slice frame 7 (7 + len)
      pure (cmd_from_byte (bit_or cmd type_init), record { capacity = cap; bytes = bytes }))
    else fail invalid_init_packet

-- `U2FHIDInit::read`
unfoldable pub init_read : M (HidCmd × Buffer)
unfolding parse_init read_frame
init_read d = bind (read_frame d) (parse_init d.in_rpt_size)

unfoldable pub parse_cont : ℕ → ℕ → ℕ → ℕ × List ℕ → M (List ℕ)
parse_cont in_rpt_size seq max (count, frame) =
    if count == in_rpt_size
    then (do
      number ← index frame 4
      let len =
          if leb cont_header_size in_rpt_size then min max (in_rpt_size - cont_header_size) else max
      if seq == number then slice frame 5 (5 + len) else fail invalid_sequence_number)
    else fail invalid_cont_packet

-- `U2FHIDCont::read`
unfoldable pub cont_read : ℕ → ℕ → M (List ℕ)
unfolding parse_cont read_frame
cont_read seq max d = bind (read_frame d) (parse_cont d.in_rpt_size seq max)

-- `frame[at..at + src.len()].copy_from_slice(src)`: out of range is a panic.
unfoldable pub copy_into : ℕ → List ℕ → List ℕ → M (List ℕ)
copy_into at src frame =
    if leb (at + length src) (length frame)
    then pure (take at frame ++ (src ++ drop (at + length src) frame))
    else abort

-- `frame[i] = v`
abbrev assign : ℕ → ℕ → List ℕ → M (List ℕ)
assign i v = copy_into i (v ∷ [])

unfoldable pub write_frame : ℕ × List ℕ → M ℕ
unfolding write
write_frame (count, frame) = do
  n ← write frame
  if n == length frame then pure count else fail write_failed

-- The frame that `U2FHIDInit::write` fills in, and how much of the payload it holds.
unfoldable pub init_frame : ℕ → List ℕ → ℕ → List ℕ → M (ℕ × List ℕ)
init_frame out_rpt_size cid cmd payload = do
  frame ← copy_into 1 cid (replicate (out_rpt_size + 1) 0)
  frame ← assign 5 cmd frame
  frame ← assign 6 (length payload / 2 ^ 8 % 2 ^ 8) frame
  frame ← assign 7 (length payload % 2 ^ 8) frame
  let count =
      if leb init_header_size out_rpt_size
      then min (length payload) (out_rpt_size - init_header_size)
      else length payload
  frame ← copy_into 8 (take count payload) frame
  pure (count, frame)

-- `U2FHIDInit::write`
unfoldable pub init_write : ℕ → List ℕ → M ℕ
unfolding write_frame
init_write cmd payload d =
    if ltb 0xffff (length payload)
    then err payload_too_long d
    else bind (init_frame d.out_rpt_size d.cid cmd payload d) write_frame

-- The frame that `U2FHIDCont::write` fills in, and how much of the payload it holds.
unfoldable pub cont_frame : ℕ → List ℕ → ℕ → List ℕ → M (ℕ × List ℕ)
cont_frame out_rpt_size cid seq payload = do
  frame ← copy_into 1 cid (replicate (out_rpt_size + 1) 0)
  frame ← assign 5 seq frame
  let count =
      if leb cont_header_size out_rpt_size
      then min (length payload) (out_rpt_size - cont_header_size)
      else length payload
  frame ← copy_into 6 (take count payload) frame
  pure (count, frame)

-- `U2FHIDCont::write`
unfoldable pub cont_write : ℕ → List ℕ → M ℕ
unfolding write_frame
cont_write seq payload d = bind (cont_frame d.out_rpt_size d.cid seq payload d) write_frame
