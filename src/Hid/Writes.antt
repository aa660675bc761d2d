-- ===== src/Hid/Writes.antt =====
-- What `u2f_write` of src/transport/hid.rs puts on the wire.
use authenticator_rs.Common.{
  ℕ, zero, suc, ◌+◌, ◌-◌, ◌*◌, ◌≤◌, ◌<◌, ◌≡◌, refl, sym, ap, ◌∙◌, List, [], ◌∷◌, min, length, drop,
  arith, length-drop, drop-min, drop-drop, append-nil, append_assoc, lt→ltb, ltb→lt, ltb→le, le→ltb,
  true, Bool-cases, inl, inr, ltb, map,
}
use authenticator_rs.Hid.Device.{Device, ok, panic}
use authenticator_rs.Hid.Message.{next_sequence, write_rest, u2f_write}
use authenticator_rs.Hid.Frames.{Accepts, sent_more, init_write_lem, cont_write_lem}
use authenticator_rs.Hid.Packets.{init_packet, cont_packet, cont_packets, packets}

module _ (size : ℕ) (cid : List ℕ) where
  pub cont_packets-cons :
      (n seq : ℕ) (payload : List ℕ)
      → 0 < length payload
      → cont_packets size cid (suc n) seq payload
        ≡ cont_packet size cid seq payload
          ∷ cont_packets size cid n (seq + 1) (drop (size - 5) payload)
  unfolding cont_packets
  cont_packets-cons n seq [] h = absurd (omega arith)
  cont_packets-cons n seq (b ∷ bs) h = refl

  pub cont_packets-nil :
      (n seq : ℕ) (payload : List ℕ) → length payload ≡ 0 → cont_packets size cid n seq payload ≡ []
  unfolding cont_packets
  cont_packets-nil zero seq payload h = refl
  cont_packets-nil (suc n) seq [] h = refl
  cont_packets-nil (suc n) seq (b ∷ bs) h = absurd (omega arith)

pub next_sequence_lem : (seq : ℕ) (d : Device) → seq < 255 → next_sequence seq d ≡ ok (seq + 1) d
unfolding next_sequence
next_sequence_lem seq d h = ground arith

pub sent_more-nil : (d : Device) → sent_more d [] ≡ d
sent_more-nil d = ap (λ l. record d { outgoing = l }) (append-nil d.outgoing)

sent_more-sent_more :
    (d : Device) (p : List ℕ) (ps : List (List ℕ))
    → sent_more (sent_more d (p ∷ [])) ps ≡ sent_more d (p ∷ ps)
sent_more-sent_more d p ps =
    ap (λ l. record d { outgoing = l })
      (append_assoc d.outgoing ((0 ∷ p) ∷ []) (map (λ q. 0 ∷ q) ps))

pub seq_bound : (seq k count n : ℕ) → count < n → n ≤ count + (255 - seq) * k → seq < 255
seq_bound seq k count n h b = elim (Bool-cases (ltb seq 255)) [
  | inl lt ↦ ltb→lt seq 255 lt
  | inr ge ↦
      let e : 255 - seq ≡ 0 = omega (arith, ltb→le seq 255 ge) in
      absurd (omega (arith, ap (λ (t : ℕ). t * k) e))
]

pub suc-mul : (m k : ℕ) → suc m * k ≡ m * k + k
suc-mul m k = omega arith

-- The packets that `write_rest` sends, while the sequence number does not pass 255.
write_rest_lem :
    (fuel count seq : ℕ) (send : List ℕ) (d : Device)
    → length d.cid ≡ 4
    → 6 ≤ d.out_rpt_size
    → Accepts d
    → length send ≤ count + fuel
    → length send ≤ count + (255 - seq) * (d.out_rpt_size - 5)
    → write_rest fuel count seq send d
      ≡ ok tt (sent_more d (cont_packets d.out_rpt_size d.cid fuel seq (drop count send)))
unfolding write_rest
write_rest_lem zero count seq send d hc hs hw hf hn =
    rw (le→ltb count (length send) (omega arith))
      (unfold cont_packets in ap (ok tt) (sym (sent_more-nil d)))
write_rest_lem (suc fuel) count seq send d hc hs hw hf hn =
    elim (Bool-cases (ltb count (length send))) [
      | inl more ↦
          let lt : count < length send = ltb→lt count (length send) more in
          let k : ℕ = d.out_rpt_size - 5 in
          let n : ℕ = min (length (drop count send)) k in
          let hd : length (drop count send) ≡ length send - count = length-drop count send in
          let before : seq < 255 = seq_bound seq k count (length send) lt hn in
          let room : (255 - seq) * k ≡ (255 - (seq + 1)) * k + k =
            ap (λ (t : ℕ). t * k)
              (let e : 255 - seq ≡ suc (255 - (seq + 1)) = omega (arith, before) in e)
            ∙ suc-mul (255 - (seq + 1)) k in
          let d' : Device =
            sent_more d (cont_packet d.out_rpt_size d.cid seq (drop count send) ∷ []) in
          rw
            (
              more,
              cont_write_lem seq (drop count send) d hc (omega arith) hw,
              next_sequence_lem seq d' before,
              write_rest_lem fuel (count + n) (seq + 1) send d' hc hs hw (omega arith)
                  (omega arith),
              cont_packets-cons d.out_rpt_size d.cid fuel seq (drop count send) (omega arith),
              drop-drop count n send,
              drop-min k (drop count send),
            )
            (ap (ok tt) (sent_more-sent_more d _ _))
      | inr done ↦
          let le : length send ≤ count = ltb→le count (length send) done in
          rw
            (
              done,
              cont_packets-nil d.out_rpt_size d.cid (suc fuel) seq (drop count send)
                  (omega (arith, length-drop count send)),
            )
            (ap (ok tt) (sym (sent_more-nil d)))
    ]

-- For a channel id of four bytes, a report of seven bytes at least, a message that fits 16 bits and
-- needs 255 continuation packets at most, and a device node that takes every frame, `u2f_write`
-- succeeds and sends exactly the packets of the message, numbered from 0 on up to 254 at most, each
-- behind the report number 0.
pub u2f_write-packets :
    (cmd : ℕ) (send : List ℕ) (d : Device)
    → length d.cid ≡ 4
    → 7 ≤ d.out_rpt_size
    → length send ≤ 0xffff
    → length send ≤ d.out_rpt_size - 7 + 255 * (d.out_rpt_size - 5)
    → Accepts d
    → u2f_write cmd send d ≡ ok tt (sent_more d (packets d.out_rpt_size d.cid cmd send))
unfolding u2f_write
u2f_write-packets cmd send d hc hs hl hn hw =
    let k : ℕ = d.out_rpt_size - 7 in
    let d' : Device = sent_more d (init_packet d.out_rpt_size d.cid cmd send ∷ []) in
    rw
      (
        init_write_lem cmd send d hc hs hl hw,
        write_rest_lem (length send) (min (length send) k) 0 send d' hc (omega arith) hw
            (omega arith) (omega arith),
        drop-min k send,
      )
      (ap (ok tt) (sent_more-sent_more d _ _))

pub next_sequence_overflow :
    (seq : ℕ) (d : Device) → seq ≡ 255 → d.overflow_checks ≡ true → next_sequence seq d ≡ panic
unfolding next_sequence
next_sequence_overflow seq d h o = ground arith

write_rest_overflow :
    (fuel count seq : ℕ) (send : List ℕ) (d : Device)
    → length d.cid ≡ 4
    → 6 ≤ d.out_rpt_size
    → Accepts d
    → d.overflow_checks ≡ true
    → seq ≤ 255
    → length send ≤ count + fuel
    → count + (255 - seq) * (d.out_rpt_size - 5) < length send
    → write_rest fuel count seq send d ≡ panic
unfolding write_rest
write_rest_overflow zero count seq send d hc hs hw ho hq hf hn = absurd (omega arith)
write_rest_overflow (suc fuel) count seq send d hc hs hw ho hq hf hn =
    let k : ℕ = d.out_rpt_size - 5 in
    let more : ltb count (length send) ≡ true = lt→ltb count (length send) (omega arith) in
    let d' : Device = sent_more d (cont_packet d.out_rpt_size d.cid seq (drop count send) ∷ []) in
    rw (more, cont_write_lem seq (drop count send) d hc (omega arith) hw)
      (elim (Bool-cases (ltb seq 255)) [
        | inl lt ↦
            let before : seq < 255 = ltb→lt seq 255 lt in
            let room : (255 - seq) * k ≡ (255 - (seq + 1)) * k + k =
              ap (λ (t : ℕ). t * k)
                (let e : 255 - seq ≡ suc (255 - (seq + 1)) = omega (arith, before) in e)
              ∙ suc-mul (255 - (seq + 1)) k in
            rw (next_sequence_lem seq d' before) (
              write_rest_overflow fuel (count + min (length (drop count send)) k) (seq + 1) send d'
                hc hs hw ho (omega arith) (omega (arith, length-drop count send))
                (omega (arith, room, length-drop count send)))
        | inr ge ↦ rw (next_sequence_overflow seq d' (omega (arith, ltb→le seq 255 ge)) ho)
      ])

-- For a channel id of four bytes, a report of seven bytes at least and a device node that takes every
-- frame: in a build that checks for overflow, every message that fits 16 bits and needs more than 255
-- continuation packets ends in a panic, where `u2f_write` adds 1 to the sequence number 255.
pub u2f_write_overflow :
    (cmd : ℕ) (send : List ℕ) (d : Device)
    → length d.cid ≡ 4
    → 7 ≤ d.out_rpt_size
    → length send ≤ 0xffff
    → d.out_rpt_size - 7 + 255 * (d.out_rpt_size - 5) < length send
    → Accepts d
    → d.overflow_checks ≡ true
    → u2f_write cmd send d ≡ panic
unfolding u2f_write
u2f_write_overflow cmd send d hc hs hl hn hw ho =
    let k : ℕ = d.out_rpt_size - 7 in
    let d' : Device = sent_more d (init_packet d.out_rpt_size d.cid cmd send ∷ []) in
    rw (init_write_lem cmd send d hc hs hl hw) (
      write_rest_overflow (length send) (min (length send) k) 0 send d' hc (omega arith) hw ho
        (omega arith) (omega arith) (omega arith))
