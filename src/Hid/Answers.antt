-- ===== src/Hid/Answers.antt =====
-- src/transport/hid.rs: which answer `sendrecv` returns, and that it ends.
use mathlib.Core.Path.{ap₂, subst}
use mathlib.Core.List.{map-append}
use authenticator_rs.Common.{
  ℕ, zero, suc, ◌+◌, ◌≤◌, ◌<◌, ◌≡◌, refl, sym, ap, ◌∙◌, List, [], ◌∷◌, ◌++◌, Bool, true, false,
  some, none, length, map, append_assoc, arith,
}
use authenticator_rs.Hid.Cmd.{
  HidCmd, IsNamed, keepalive, cancel, cmd_to_byte, is_keepalive, cmd_from_byte,
  cmd_from_byte-cmd_to_byte,
}
use authenticator_rs.Hid.Device.{Device, ReadEvent, FidoProtocol, ctap1, ctap2, ok}
use authenticator_rs.Hid.Message.{u2f_read}
use authenticator_rs.Hid.Packets.{packets}
use authenticator_rs.Hid.Frames.{Accepts, sent_more}
use authenticator_rs.Hid.Writes.{sent_more-nil, u2f_write-packets}
use authenticator_rs.Hid.Reads.{Arrives}
use authenticator_rs.Hid.RoundTrip.{message_limit, u2f_read-packets, IsNamed-type_init}
use authenticator_rs.Hid.Ends.{Ends, SameSizes}
use authenticator_rs.Hid.ReadsEnd.{u2f_read-Ends}
use authenticator_rs.Hid.Exchange.{await_answer, send_cancel, finish_exchange, sendrecv}

-- The device node delivers the packets of these messages, each in order, and then `rest`.
pub data Messages (cid : List ℕ) (size : ℕ) (rest : List ReadEvent)
    : List (HidCmd × List ℕ) → List ReadEvent → Type 0 where
  none_left : Messages cid size rest [] rest
  message :
      {es es' : List ReadEvent} {ms : List (HidCmd × List ℕ)} (c : HidCmd) (bytes : List ℕ)
      → IsNamed c
      → length bytes ≤ 0xffff
      → length bytes ≤ message_limit size
      → Arrives cid size es' (packets size cid (cmd_to_byte c) bytes) es
      → Messages cid size rest ms es'
      → Messages cid size rest ((c, bytes) ∷ ms) es

waits : is_keepalive keepalive ≡ true
unfolding is_keepalive
waits = refl

Messages-none :
    {cid : List ℕ} {size : ℕ} {rest es : List ReadEvent} → Messages cid size rest [] es → es ≡ rest
Messages-none none_left = refl

module _ (d : Device) (hc : length d.cid ≡ 4) (hs : 7 ≤ d.in_rpt_size) {rest : List ReadEvent} where
  u2f_read-Messages :
      (c : HidCmd) (bytes : List ℕ) (ms : List (HidCmd × List ℕ)) (es : List ReadEvent)
      → Messages d.cid d.in_rpt_size rest ((c, bytes) ∷ ms) es
      → (es' : List ReadEvent) × Messages d.cid d.in_rpt_size rest ms es'
        × (u2f_read (record d { incoming = es }) ≡ ok (c, bytes) (record d { incoming = es' }))
        × (length es' < length es)
  u2f_read-Messages c bytes ms es (message {es' = es'} _ _ hn hl hm a more) =
      let d0 : Device = record d { incoming = es } in
      let read : u2f_read d0 ≡ ok (c, bytes) (record d { incoming = es' }) =
        u2f_read-packets (cmd_to_byte c) bytes d0 es' hc hs hl hm a
        ∙ ap (λ t. ok (t, bytes) (record d { incoming = es' }))
            (ap cmd_from_byte (IsNamed-type_init c hn) ∙ cmd_from_byte-cmd_to_byte c hn) in
      (
        es',
        more,
        read,
        (subst (Ends (λ r d'. SameSizes d0 d' × (length d'.incoming < length es))) read
            (u2f_read-Ends d0)).1,
      )

  -- The loop of `sendrecv` passes over the keepalive messages, while the caller wants to go on.
  await_answer-Messages :
      (ks : List (List ℕ)) (c : HidCmd) (bytes : List ℕ) (fuel calls : ℕ) (keep_alive : ℕ → Bool)
      (es : List ReadEvent)
      → is_keepalive c ≡ false
      → ((n : ℕ) → n < calls + length ks → keep_alive n ≡ true)
      → length es < fuel
      → Messages d.cid d.in_rpt_size rest (map (λ k. (keepalive, k)) ks ++ (c, bytes) ∷ []) es
      → await_answer fuel calls keep_alive (record d { incoming = es })
        ≡ ok (some (c, bytes)) (record d { incoming = rest })
  unfolding await_answer
  await_answer-Messages ks c bytes zero calls keep_alive es hk ha hf m = absurd (omega arith)
  await_answer-Messages [] c bytes (suc fuel) calls keep_alive es hk ha hf m =
      let (es', m', read, _) = u2f_read-Messages c bytes [] es m in
      rw (read, hk) (ap (λ l. ok (some (c, bytes)) (record d { incoming = l })) (Messages-none m'))
  await_answer-Messages (k ∷ ks) c bytes (suc fuel) calls keep_alive es hk ha hf m =
      let (es', m', read, shorter) = u2f_read-Messages keepalive k _ es m in
      let again =
        await_answer-Messages ks c bytes fuel (calls + 1) keep_alive es' hk
          (λ n h. ha n (omega arith)) (omega (arith, shorter)) m' in
      let first : keep_alive calls ≡ true = ha calls (omega arith) in rw (read, waits, first) again

-- The packets of the cancel message, which only a CTAP2 device gets.
abbrev pub cancel_packets : FidoProtocol → ℕ → List ℕ → List (List ℕ)
cancel_packets ctap1 size cid = []
cancel_packets ctap2 size cid = packets size cid (cmd_to_byte cancel) []

send_cancel_lem :
    (p : FidoProtocol) (d : Device)
    → length d.cid ≡ 4
    → 7 ≤ d.out_rpt_size
    → Accepts d
    → send_cancel p d ≡ ok tt (sent_more d (cancel_packets p d.out_rpt_size d.cid))
unfolding send_cancel
send_cancel_lem ctap1 d hc ho hw = ap (ok tt) (sym (sent_more-nil d))
send_cancel_lem ctap2 d hc ho hw =
    u2f_write-packets (cmd_to_byte cancel) [] d hc ho (omega arith) (omega arith) hw

sent_twice :
    (l xs ys : List (List ℕ))
    → (l ++ map (λ p. 0 ∷ p) xs) ++ map (λ p. 0 ∷ p) ys ≡ l ++ map (λ p. 0 ∷ p) (xs ++ ys)
sent_twice l xs ys =
    append_assoc l (map (λ p. 0 ∷ p) xs) (map (λ p. 0 ∷ p) ys)
    ∙ ap (λ t. l ++ t) (sym (map-append (λ p. 0 ∷ p) xs ys))

-- What a device that got a request, and delivers these messages, has sent and still has to deliver.
abbrev pub exchanged : Device → List (List ℕ) → List ReadEvent → Device
exchanged d sent rest = record (sent_more d sent) { incoming = rest }

-- For a channel id of four bytes, reports of seven bytes at least, a request within 16 bits and the
-- message limit, and a device that takes every frame: if the device then delivers any number of
-- keepalive messages and another message, between any reports of other channels, and the caller lets
-- the exchange go on through all of the keepalives, then `sendrecv` sends exactly the request, returns
-- that other message and leaves unread what follows.
pub sendrecv-Messages :
    (cmd c : HidCmd) (send bytes : List ℕ) (ks : List (List ℕ)) (keep_alive : ℕ → Bool) (d : Device)
    (rest : List ReadEvent)
    → length d.cid ≡ 4
    → 7 ≤ d.in_rpt_size
    → 7 ≤ d.out_rpt_size
    → length send ≤ 0xffff
    → length send ≤ message_limit d.out_rpt_size
    → Accepts d
    → is_keepalive c ≡ false
    → ((n : ℕ) → n < length ks → keep_alive n ≡ true)
    → Messages d.cid d.in_rpt_size rest (map (λ k. (keepalive, k)) ks ++ (c, bytes) ∷ []) d.incoming
    → sendrecv cmd send keep_alive d
      ≡ ok (c, bytes) (exchanged d (packets d.out_rpt_size d.cid (cmd_to_byte cmd) send) rest)
unfolding sendrecv finish_exchange
sendrecv-Messages cmd c send bytes ks keep_alive d rest hc hi ho hl hm hw hk ha m =
    let d' : Device = sent_more d (packets d.out_rpt_size d.cid (cmd_to_byte cmd) send) in
    rw (
      u2f_write-packets (cmd_to_byte cmd) send d hc ho hl hm hw,
      await_answer-Messages d' hc hi ks c bytes (suc (length d.incoming)) 0 keep_alive d.incoming hk
          (λ n h. ha n (omega arith)) (omega arith) m,
    )

module _ (d : Device) (hc : length d.cid ≡ 4) (hs : 7 ≤ d.in_rpt_size) {rest : List ReadEvent} where
  -- The loop ends at the keepalive at which the caller gives up, and leaves the message behind it.
  await_answer-none :
      (ks : List (List ℕ)) (k : List ℕ) (ms : List (HidCmd × List ℕ)) (fuel calls : ℕ)
      (keep_alive : ℕ → Bool) (es : List ReadEvent)
      → ((n : ℕ) → n < calls + length ks → keep_alive n ≡ true)
      → keep_alive (calls + length ks) ≡ false
      → length es < fuel
      → Messages d.cid d.in_rpt_size rest (map (λ b. (keepalive, b)) ks ++ (keepalive, k) ∷ ms) es
      → (es' : List ReadEvent) × Messages d.cid d.in_rpt_size rest ms es'
        × (await_answer fuel calls keep_alive (record d { incoming = es })
            ≡ ok none (record d { incoming = es' }))
  unfolding await_answer
  await_answer-none ks k ms zero calls keep_alive es ha hb hf m = absurd (omega arith)
  await_answer-none [] k ms (suc fuel) calls keep_alive es ha hb hf m =
      let (es', m', read, _) = u2f_read-Messages d hc hs keepalive k ms es m in
      let e : calls + 0 ≡ calls = omega arith in
      let stop : keep_alive calls ≡ false = sym (ap keep_alive e) ∙ hb in
      (es', m', rw (read, waits, stop) refl)
  await_answer-none (b ∷ ks) k ms (suc fuel) calls keep_alive es ha hb hf m =
      let (es', m', read, shorter) = u2f_read-Messages d hc hs keepalive b _ es m in
      let e : calls + 1 + length ks ≡ calls + suc (length ks) = omega arith in
      let (es'', m'', again) =
        await_answer-none ks k ms fuel (calls + 1) keep_alive es' (λ n h. ha n (omega arith))
          (ap keep_alive e ∙ hb) (omega (arith, shorter)) m' in
      let first : keep_alive calls ≡ true = ha calls (omega arith) in
      (es'', m'', rw (read, waits, first) again)

-- For a channel id of four bytes, reports of seven bytes at least, a request within 16 bits and the
-- message limit, and a device that takes every frame, which then delivers any number of keepalive
-- messages, one more of them and another message of a named command, between any reports of other
-- channels: if the caller lets the exchange go on at all the keepalives but gives up at the last,
-- `sendrecv` returns the message after it, were it a keepalive too, and has sent after the request a
-- cancel message to a CTAP2 device, and nothing more to a CTAP1 device.
pub sendrecv_cancelled :
    (cmd c : HidCmd) (send k bytes : List ℕ) (ks : List (List ℕ)) (keep_alive : ℕ → Bool)
    (d : Device) (rest : List ReadEvent)
    → length d.cid ≡ 4
    → 7 ≤ d.in_rpt_size
    → 7 ≤ d.out_rpt_size
    → length send ≤ 0xffff
    → length send ≤ message_limit d.out_rpt_size
    → Accepts d
    → ((n : ℕ) → n < length ks → keep_alive n ≡ true)
    → keep_alive (length ks) ≡ false
    → Messages d.cid d.in_rpt_size rest
        (map (λ b. (keepalive, b)) ks ++ (keepalive, k) ∷ (c, bytes) ∷ [])
        d.incoming
    → sendrecv cmd send keep_alive d
      ≡ ok
          (c, bytes)
          (exchanged d
            (packets d.out_rpt_size d.cid (cmd_to_byte cmd) send
              ++ cancel_packets d.protocol d.out_rpt_size d.cid)
            rest)
unfolding sendrecv finish_exchange
sendrecv_cancelled cmd c send k bytes ks keep_alive d rest hc hi ho hl hm hw ha hb m =
    let request : List (List ℕ) = packets d.out_rpt_size d.cid (cmd_to_byte cmd) send in
    let d' : Device = sent_more d request in
    let e : 0 + length ks ≡ length ks = omega arith in
    let (es, m', read) =
      await_answer-none d' hc hi ks k ((c, bytes) ∷ []) (suc (length d.incoming)) 0 keep_alive
        d.incoming (λ n h. ha n (omega arith)) (ap keep_alive e ∙ hb) (omega arith) m in
    let (es', m'', read', _) =
      u2f_read-Messages (sent_more d' (cancel_packets d.protocol d.out_rpt_size d.cid)) hc hi c
        bytes [] es m' in
    rw
      (
        u2f_write-packets (cmd_to_byte cmd) send d hc ho hl hm hw,
        read,
        send_cancel_lem d.protocol (record d' { incoming = es }) hc ho hw,
        read',
      )
      (ap₂ (λ l sent. ok (c, bytes) (record d { incoming = l; outgoing = sent }))
        (Messages-none m'')
        (sent_twice d.outgoing request (cancel_packets d.protocol d.out_rpt_size d.cid)))
