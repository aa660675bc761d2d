-- ===== src/Hid/RoundTrip.antt =====
-- src/transport/hid.rs: what `u2f_write` sends, `u2f_read` reads back.
use mathlib.Core.Path.{ap₂, subst}
use authenticator_rs.Common.{
  ℕ, zero, suc, ◌+◌, ◌-◌, ◌*◌, ◌≤◌, ◌<◌, ◌≡◌, refl, sym, ap, ◌∙◌, List, [], ◌∷◌, ◌++◌, length, take,
  drop, arith, length-append, length-drop, take-append-drop, append_assoc, append-nil, true, ltb,
  lt→ltb, le→ltb, bit_or,
}
use authenticator_rs.Hid.Cmd.{
  HidCmd, cmd_from_byte, cmd_to_byte, type_init, IsNamed, cmd_from_byte-cmd_to_byte, ping, msg,
  lock, init, wink, cbor, cancel, keepalive, error, unknown,
}
use authenticator_rs.Hid.Device.{Device, ReadEvent, ok}
use authenticator_rs.Hid.Message.{read_rest, finish_read, u2f_read, u2f_write}
use authenticator_rs.Hid.Packets.{cont_packets, packets}
use authenticator_rs.Hid.Frames.{Accepts, sent_more}
use authenticator_rs.Hid.Writes.{next_sequence_lem, seq_bound, suc-mul, u2f_write-packets}
use authenticator_rs.Hid.Reads.{Arrives, Arrives-done, init_read-Arrives, cont_read-Arrives}

nothing_left :
    (bytes : List ℕ) (d : Device) (rest : List ReadEvent)
    → d.incoming ≡ rest
    → ok bytes d ≡ ok (bytes ++ []) (record d { incoming = rest })
nothing_left bytes d rest e =
    ap₂ ok (sym (append-nil bytes)) (ap (λ es. record d { incoming = es }) e)

-- `read_rest` appends to `bytes` what is left of the message.
read_rest_lem :
    (fuel seq : ℕ) (bytes left : List ℕ) (d : Device) (rest : List ReadEvent)
    → length d.cid ≡ 4
    → 6 ≤ d.in_rpt_size
    → length left ≤ fuel
    → length left ≤ (255 - seq) * (d.in_rpt_size - 5)
    → Arrives d.cid d.in_rpt_size rest (cont_packets d.in_rpt_size d.cid fuel seq left) d.incoming
    → read_rest fuel (length bytes + length left) seq bytes d
      ≡ ok (bytes ++ left) (record d { incoming = rest })
unfolding read_rest cont_packets
read_rest_lem zero seq bytes [] d rest hc hs hf hn a =
    rw (le→ltb (length bytes) (length bytes + 0) (omega arith))
      (nothing_left bytes d rest (Arrives-done a))
read_rest_lem (suc fuel) seq bytes [] d rest hc hs hf hn a =
    rw (le→ltb (length bytes) (length bytes + 0) (omega arith))
      (nothing_left bytes d rest (Arrives-done a))
read_rest_lem zero seq bytes (b ∷ bs) d rest hc hs hf hn a = absurd (omega arith)
read_rest_lem (suc fuel) seq bytes (b ∷ bs) d rest hc hs hf hn a =
    let left : List ℕ = b ∷ bs in
    let k : ℕ = d.in_rpt_size - 5 in
    let total : ℕ = length bytes + length left in
    let before : seq < 255 = seq_bound seq k 0 (length left) (omega arith) (omega arith) in
    let more : ltb (length bytes) total ≡ true = lt→ltb (length bytes) total (omega arith) in
    let missing : total - length bytes ≡ length left = omega arith in
    let (es, a', e) = cont_read-Arrives d seq left hc (omega arith) a in
    let d' : Device = record d { incoming = es } in
    let room : (255 - seq) * k ≡ (255 - (seq + 1)) * k + k =
      ap (λ (t : ℕ). t * k) (let t : 255 - seq ≡ suc (255 - (seq + 1)) = omega (arith, before) in t)
      ∙ suc-mul (255 - (seq + 1)) k in
    let ih =
      read_rest_lem fuel (seq + 1) (bytes ++ take k left) (drop k left) d' rest hc hs
        (omega (arith, length-drop k left)) (omega (arith, room, length-drop k left)) a' in
    let whole : (bytes ++ take k left) ++ drop k left ≡ bytes ++ left =
      append_assoc bytes (take k left) (drop k left)
      ∙ ap (λ l. bytes ++ l) (take-append-drop k left) in
    let length_whole : total ≡ length (bytes ++ take k left) + length (drop k left) = omega (
      arith,
      ap length whole,
      length-append bytes left,
      length-append (bytes ++ take k left) (drop k left),
    ) in
    rw (more, missing, e, next_sequence_lem seq d' before)
      (ap (λ n. read_rest fuel n (seq + 1) (bytes ++ take k left) d') length_whole
        ∙ ih
        ∙ ap (λ l. ok l (record d { incoming = rest })) whole)

-- The message limit of 255 continuation packets, after the init packet.
abbrev pub message_limit : ℕ → ℕ
message_limit size = size - 7 + 255 * (size - 5)

-- For a channel id of four bytes, a report of seven bytes at least, and a message that fits 16 bits
-- and needs 255 continuation packets at most: if the device node delivers the packets of the message
-- in their order, with any full-size reports of other channels before each of them, then `u2f_read`
-- returns the command and the whole message, and leaves unread exactly what follows.
pub u2f_read-packets :
    (cmd : ℕ) (send : List ℕ) (d : Device) (rest : List ReadEvent)
    → length d.cid ≡ 4
    → 7 ≤ d.in_rpt_size
    → length send ≤ 0xffff
    → length send ≤ message_limit d.in_rpt_size
    → Arrives d.cid d.in_rpt_size rest (packets d.in_rpt_size d.cid cmd send) d.incoming
    → u2f_read d ≡ ok (cmd_from_byte (bit_or cmd type_init), send) (record d { incoming = rest })
unfolding u2f_read finish_read
u2f_read-packets cmd send d rest hc hs hl hn a =
    let k : ℕ = d.in_rpt_size - 7 in
    let (es, a', e) = init_read-Arrives d cmd send hc hs hl a in
    let d' : Device = record d { incoming = es } in
    let whole : take k send ++ drop k send ≡ send = take-append-drop k send in
    let length_whole : length send ≡ length (take k send) + length (drop k send) =
      omega (arith, ap length whole, length-append (take k send) (drop k send)) in
    let read : read_rest (length send) (length send) 0 (take k send) d'
        ≡ ok send (record d { incoming = rest }) =
      ap (λ n. read_rest (length send) n 0 (take k send) d') length_whole
      ∙ read_rest_lem (length send) 0 (take k send) (drop k send) d' rest hc (omega arith)
          (omega (arith, length-drop k send)) (omega (arith, length-drop k send)) a'
      ∙ ap (λ l. ok l (record d { incoming = rest })) whole in
    rw (e, read)

-- A named command already has the bit that marks an init packet.
pub IsNamed-type_init : (c : HidCmd) → IsNamed c → bit_or (cmd_to_byte c) type_init ≡ cmd_to_byte c
unfolding cmd_to_byte
IsNamed-type_init ping h = refl
IsNamed-type_init msg h = refl
IsNamed-type_init lock h = refl
IsNamed-type_init init h = refl
IsNamed-type_init wink h = refl
IsNamed-type_init cbor h = refl
IsNamed-type_init cancel h = refl
IsNamed-type_init keepalive h = refl
IsNamed-type_init error h = refl
IsNamed-type_init (unknown v) h = absurd h

-- For two devices on one channel with one report size (seven bytes at least, a channel id of four
-- bytes), a named command, and a message that fits 16 bits and the message limit: `u2f_write` on a
-- device that takes every frame succeeds and sends the packets of the message, and `u2f_read` on a
-- device that gets these packets in order, with any full-size reports of other channels before each,
-- returns that command and that message, and leaves unread what follows.
pub u2f_read-u2f_write :
    (c : HidCmd) (send : List ℕ) (d e : Device) (rest : List ReadEvent)
    → IsNamed c
    → length d.cid ≡ 4
    → 7 ≤ d.out_rpt_size
    → length send ≤ 0xffff
    → length send ≤ message_limit d.out_rpt_size
    → Accepts d
    → e.cid ≡ d.cid
    → e.in_rpt_size ≡ d.out_rpt_size
    → Arrives e.cid e.in_rpt_size rest
        (packets d.out_rpt_size d.cid (cmd_to_byte c) send)
        e.incoming
    → (u2f_write (cmd_to_byte c) send d
        ≡ ok tt (sent_more d (packets d.out_rpt_size d.cid (cmd_to_byte c) send)))
      × (u2f_read e ≡ ok (c, send) (record e { incoming = rest }))
u2f_read-u2f_write c send d e rest hn hc hs hl hm hw ec es a =
    let same : packets e.in_rpt_size e.cid (cmd_to_byte c) send
        ≡ packets d.out_rpt_size d.cid (cmd_to_byte c) send =
      ap₂ (λ size cid. packets size cid (cmd_to_byte c) send) es ec in
    let command : cmd_from_byte (bit_or (cmd_to_byte c) type_init) ≡ c =
      ap cmd_from_byte (IsNamed-type_init c hn) ∙ cmd_from_byte-cmd_to_byte c hn in
    (
      u2f_write-packets (cmd_to_byte c) send d hc hs hl hm hw,
      u2f_read-packets (cmd_to_byte c) send e rest (ap length ec ∙ hc) (omega arith) hl
            (subst (λ n. length send ≤ message_limit n) (sym es) hm)
            (subst (λ ps. Arrives e.cid e.in_rpt_size rest ps e.incoming) (sym same) a)
          ∙ ap (λ t. ok (t, send) (record e { incoming = rest })) command,
    )
