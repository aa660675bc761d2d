-- ===== src/Hid/Sequence.antt =====
-- The sequence numbers of the packets that `u2f_write` of src/transport/hid.rs puts on the wire.
use authenticator_rs.Common.{
  ℕ, zero, suc, ◌+◌, ◌-◌, ◌*◌, ◌≤◌, ◌<◌, ◌≡◌, refl, ap, ◌∙◌, List, [], ◌∷◌, ◌++◌, length, drop,
  length-drop, arith, Bool-cases, ltb, ltb→lt, ltb→le, inl, inr,
}
use authenticator_rs.Hid.Device.{Device, ok}
use authenticator_rs.Hid.Message.{u2f_write}
use authenticator_rs.Hid.Frames.{Accepts, sent_more}
use authenticator_rs.Hid.Packets.{
  init_packet, pad, cont_packets, length-init_packet, length-cont_packet,
}
use authenticator_rs.Hid.Writes.{suc-mul, u2f_write-packets}

-- Continuation packets as CTAPHID has them: each of the size of a report, on the channel, with the
-- next sequence number behind the channel id, and no such number above 127.
abbrev pub IsSequence : ℕ → List ℕ → ℕ → List (List ℕ) → Type 0
IsSequence size cid seq [] = Unit
IsSequence size cid seq (p ∷ ps) =
    (length p ≡ size)
    × (seq < 128)
    × ((payload : List ℕ) × (p ≡ cid ++ (seq ∷ payload)))
    × IsSequence size cid (seq + 1) ps

seq_below : (seq k n : ℕ) → 0 < n → n ≤ (128 - seq) * k → seq < 128
seq_below seq k n h b = elim (Bool-cases (ltb seq 128)) [
  | inl lt ↦ ltb→lt seq 128 lt
  | inr ge ↦
      let e : 128 - seq ≡ 0 = omega (arith, ltb→le seq 128 ge) in
      absurd (omega (arith, ap (λ (t : ℕ). t * k) e))
]

cont_packets-IsSequence :
    (size : ℕ) (cid : List ℕ) (n seq : ℕ) (payload : List ℕ)
    → length cid ≡ 4
    → 6 ≤ size
    → length payload ≤ (128 - seq) * (size - 5)
    → IsSequence size cid seq (cont_packets size cid n seq payload)
unfolding cont_packets
cont_packets-IsSequence size cid zero seq payload hc hs h = tt
cont_packets-IsSequence size cid (suc n) seq [] hc hs h = tt
cont_packets-IsSequence size cid (suc n) seq (b ∷ bs) hc hs h =
    let k : ℕ = size - 5 in
    let below : seq < 128 = seq_below seq k (length (b ∷ bs)) (omega arith) h in
    let room : (128 - seq) * k ≡ (128 - (seq + 1)) * k + k =
      ap (λ (t : ℕ). t * k) (let e : 128 - seq ≡ suc (128 - (seq + 1)) = omega (arith, below) in e)
      ∙ suc-mul (128 - (seq + 1)) k in
    (
      length-cont_packet size cid seq (b ∷ bs) hc (omega arith),
      below,
      (pad (size - 5) (b ∷ bs), refl),
      cont_packets-IsSequence size cid n (seq + 1) (drop k (b ∷ bs)) hc hs
          (omega (arith, room, length-drop k (b ∷ bs), h)),
    )

-- For a channel id of four bytes, a report of seven bytes at least, a message that fits 16 bits and
-- needs 128 continuation packets at most, and a device node that takes every frame, `u2f_write`
-- succeeds and sends the initialization packet and the continuation packets of the message, each
-- behind the report number 0. All are of the size of a report, and the continuation packets are
-- numbered on from 0 and have no number above 127.
pub u2f_write-IsSequence :
    (cmd : ℕ) (send : List ℕ) (d : Device)
    → length d.cid ≡ 4
    → 7 ≤ d.out_rpt_size
    → length send ≤ 0xffff
    → length send ≤ d.out_rpt_size - 7 + 128 * (d.out_rpt_size - 5)
    → Accepts d
    → let first = init_packet d.out_rpt_size d.cid cmd send in
      let rest =
        cont_packets d.out_rpt_size d.cid (length send) 0 (drop (d.out_rpt_size - 7) send) in
      (u2f_write cmd send d ≡ ok tt (sent_more d (first ∷ rest)))
      × (length first ≡ d.out_rpt_size)
      × IsSequence d.out_rpt_size d.cid 0 rest
u2f_write-IsSequence cmd send d hc hs hl hn hw = (
  u2f_write-packets cmd send d hc hs hl (omega arith) hw,
  length-init_packet d.out_rpt_size d.cid cmd send hc hs,
  cont_packets-IsSequence d.out_rpt_size d.cid (length send) 0 (drop (d.out_rpt_size - 7) send) hc
      (omega arith) (omega (arith, length-drop (d.out_rpt_size - 7) send)),
)
