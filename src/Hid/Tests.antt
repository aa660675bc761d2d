-- ===== src/Hid/Tests.antt =====
-- The CTAPHID transport on concrete devices.
use authenticator_rs.Common.{
  ltb, ℕ, ◌≡◌, ◌≢◌, refl, List, [], ◌∷◌, ◌++◌, true, false, some, none, length, drop, replicate,
  length-replicate, arith,
}
use authenticator_rs.Hid.Cmd.{
  init, cbor, keepalive, cmd_to_byte, cmd_from_byte, cid_broadcast, is_keepalive,
}
use authenticator_rs.Hid.Device.{
  Device, ReadEvent, report, ctap2, ok, err, panic, stuck, invalid_nonce,
}
use authenticator_rs.Hid.Packets.{packets, init_packet, cont_packets}
use authenticator_rs.Hid.Message.{u2f_write, u2f_read}
use authenticator_rs.Hid.Frames.{Accepts, sent_more}
use authenticator_rs.Hid.Writes.{u2f_write_overflow}
use authenticator_rs.Hid.Sequence.{IsSequence, u2f_write-IsSequence}
use authenticator_rs.Hid.Reads.{Arrives, done, own, foreign}
use authenticator_rs.Hid.RoundTrip.{u2f_read-packets, u2f_read-u2f_write}
use authenticator_rs.Hid.WritesEnd.{u2f_write-ne-stuck}
use authenticator_rs.Hid.ReadsEnd.{u2f_read-ne-stuck}
use authenticator_rs.Hid.Exchange.{sendrecv, initialized, pre_init}
use authenticator_rs.Hid.Answers.{
  Messages, none_left, message, exchanged, cancel_packets, sendrecv-Messages, sendrecv_cancelled,
}
use authenticator_rs.Hid.Channel.{asked, info_of, pre_init-adopt, pre_init-invalid_nonce}

-- A device with reports of eight bytes, that takes every frame and delivers these events.
abbrev device : List ReadEvent → Device
device incoming = record {
  cid = 1 ∷ 2 ∷ 3 ∷ 4 ∷ [];
  in_rpt_size = 8;
  out_rpt_size = 8;
  protocol = ctap2;
  dev_info = none;
  property = λ _. none;
  overflow_checks = true;
  incoming = incoming;
  outgoing = [];
  sink = λ _ frame. some (length frame);
}

device-Accepts : (es : List ReadEvent) → Accepts (device es)
device-Accepts es sent frame = refl

abbrev five_bytes : List ℕ
five_bytes = 10 ∷ 20 ∷ 30 ∷ 40 ∷ 50 ∷ []

-- A report of another channel, and a report that follows the message.
abbrev other_channel : List ℕ
other_channel = 9 ∷ 9 ∷ 9 ∷ 9 ∷ 0 ∷ 1 ∷ 2 ∷ 3 ∷ []

abbrev later : List ReadEvent
later = report (7 ∷ []) ∷ []

-- Three packets, with the other channel's report before the second.
abbrev three_reports : ℕ → List ReadEvent
three_reports cmd =
    report (1 ∷ 2 ∷ 3 ∷ 4 ∷ cmd ∷ 0 ∷ 5 ∷ 10 ∷ [])
    ∷ report other_channel
    ∷ report (1 ∷ 2 ∷ 3 ∷ 4 ∷ 0 ∷ 20 ∷ 30 ∷ 40 ∷ [])
    ∷ report (1 ∷ 2 ∷ 3 ∷ 4 ∷ 1 ∷ 50 ∷ 0 ∷ 0 ∷ [])
    ∷ later

three_reports-Arrives :
    Arrives
      (1 ∷ 2 ∷ 3 ∷ 4 ∷ [])
      8
      later
      (packets 8 (1 ∷ 2 ∷ 3 ∷ 4 ∷ []) 0x90 five_bytes)
      (three_reports 0x90)
unfolding cont_packets
three_reports-Arrives = own (foreign other_channel refl refl (own (own done)))

u2f_read-packets_example :
    u2f_read (device (three_reports 0x90)) ≡ ok (cmd_from_byte 0x90, five_bytes) (device later)
u2f_read-packets_example =
    u2f_read-packets 0x90 five_bytes (device (three_reports 0x90)) later refl (omega arith)
      (omega arith) (omega arith) three_reports-Arrives

-- The same message to the device.
u2f_write-IsSequence_example :
    let cid : List ℕ = 1 ∷ 2 ∷ 3 ∷ 4 ∷ [] in
    let rest : List (List ℕ) = cont_packets 8 cid 5 0 (drop 1 five_bytes) in
    (u2f_write 0x90 five_bytes (device [])
      ≡ ok tt (sent_more (device []) (init_packet 8 cid 0x90 five_bytes ∷ rest)))
    × (length (init_packet 8 cid 0x90 five_bytes) ≡ 8)
    × IsSequence 8 cid 0 rest
u2f_write-IsSequence_example =
    u2f_write-IsSequence 0x90 five_bytes (device []) refl (omega arith) (omega arith) (omega arith)
      (device-Accepts [])

u2f_read-u2f_write_example :
    (u2f_write (cmd_to_byte cbor) five_bytes (device [])
      ≡ ok tt
          (sent_more (device []) (packets 8 (1 ∷ 2 ∷ 3 ∷ 4 ∷ []) (cmd_to_byte cbor) five_bytes)))
    × (u2f_read (device (three_reports 0x90)) ≡ ok (cbor, five_bytes) (device later))
unfolding cmd_to_byte
u2f_read-u2f_write_example =
    u2f_read-u2f_write cbor five_bytes (device []) (device (three_reports 0x90)) later tt refl
      (omega arith) (omega arith) (omega arith) (device-Accepts []) refl refl three_reports-Arrives

-- A message one byte longer than 255 continuation packets hold.
abbrev long_message : List ℕ
long_message = replicate 767 7

u2f_write_overflow_example : u2f_write 0x90 long_message (device []) ≡ panic
u2f_write_overflow_example =
    u2f_write_overflow 0x90 long_message (device []) refl (omega arith)
      (omega (arith, length-replicate {A = ℕ} 767 7))
      (omega (arith, length-replicate {A = ℕ} 767 7)) (device-Accepts []) refl

u2f_write-ne-stuck_example : u2f_write 0x90 five_bytes (device []) ≢ stuck
u2f_write-ne-stuck_example = u2f_write-ne-stuck 0x90 five_bytes (device [])

u2f_read-ne-stuck_example : u2f_read (device (three_reports 0x90)) ≢ stuck
u2f_read-ne-stuck_example = u2f_read-ne-stuck (device (three_reports 0x90))

-- The answer behind a keepalive message, with the other channel's report between them.
abbrev keepalive_then_answer : List ReadEvent
keepalive_then_answer =
    report (1 ∷ 2 ∷ 3 ∷ 4 ∷ 0xbb ∷ 0 ∷ 1 ∷ 2 ∷ []) ∷ report other_channel ∷ three_reports 0x90

one_packet-Arrives :
    (rest : List ReadEvent)
    → Arrives
        (1 ∷ 2 ∷ 3 ∷ 4 ∷ [])
        8
        rest
        (packets 8 (1 ∷ 2 ∷ 3 ∷ 4 ∷ []) 0xbb (2 ∷ []))
        (report (1 ∷ 2 ∷ 3 ∷ 4 ∷ 0xbb ∷ 0 ∷ 1 ∷ 2 ∷ []) ∷ rest)
unfolding cont_packets
one_packet-Arrives rest = own done

answer-Messages :
    Messages
      (1 ∷ 2 ∷ 3 ∷ 4 ∷ [])
      8
      later
      ((cbor, five_bytes) ∷ [])
      (report other_channel ∷ three_reports 0x90)
unfolding cmd_to_byte cont_packets
answer-Messages =
    message cbor five_bytes tt (omega arith) (omega arith)
      (foreign other_channel refl refl three_reports-Arrives) none_left

both-Messages :
    Messages
      (1 ∷ 2 ∷ 3 ∷ 4 ∷ [])
      8
      later
      ((keepalive, 2 ∷ []) ∷ (cbor, five_bytes) ∷ [])
      keepalive_then_answer
unfolding cmd_to_byte
both-Messages =
    message keepalive (2 ∷ []) tt (omega arith) (omega arith)
      (one_packet-Arrives (report other_channel ∷ three_reports 0x90)) answer-Messages

cbor_answers : is_keepalive cbor ≡ false
unfolding is_keepalive
cbor_answers = refl

sendrecv-Messages_example :
    sendrecv cbor five_bytes (λ _. true) (device keepalive_then_answer)
    ≡ ok
        (cbor, five_bytes)
        (exchanged
          (device keepalive_then_answer)
          (packets 8 (1 ∷ 2 ∷ 3 ∷ 4 ∷ []) (cmd_to_byte cbor) five_bytes)
          later)
sendrecv-Messages_example =
    sendrecv-Messages cbor cbor five_bytes five_bytes ((2 ∷ []) ∷ []) (λ _. true)
      (device keepalive_then_answer) later refl (omega arith) (omega arith) (omega arith)
      (omega arith) (device-Accepts keepalive_then_answer) cbor_answers (λ n h. refl) both-Messages

-- One keepalive more in front.
abbrev two_keepalives : List ReadEvent
two_keepalives = report (1 ∷ 2 ∷ 3 ∷ 4 ∷ 0xbb ∷ 0 ∷ 1 ∷ 2 ∷ []) ∷ keepalive_then_answer

three-Messages :
    Messages
      (1 ∷ 2 ∷ 3 ∷ 4 ∷ [])
      8
      later
      ((keepalive, 2 ∷ []) ∷ (keepalive, 2 ∷ []) ∷ (cbor, five_bytes) ∷ [])
      two_keepalives
unfolding cmd_to_byte
three-Messages =
    message keepalive (2 ∷ []) tt (omega arith) (omega arith)
      (one_packet-Arrives keepalive_then_answer) both-Messages

sendrecv_cancelled_example :
    sendrecv cbor five_bytes (λ n. ltb n 1) (device two_keepalives)
    ≡ ok
        (cbor, five_bytes)
        (exchanged
          (device two_keepalives)
          (packets 8 (1 ∷ 2 ∷ 3 ∷ 4 ∷ []) (cmd_to_byte cbor) five_bytes
            ++ cancel_packets ctap2 8 (1 ∷ 2 ∷ 3 ∷ 4 ∷ []))
          later)
sendrecv_cancelled_example =
    sendrecv_cancelled cbor cbor five_bytes (2 ∷ []) five_bytes ((2 ∷ []) ∷ []) (λ n. ltb n 1)
      (device two_keepalives) later refl (omega arith) (omega arith) (omega arith) (omega arith)
      (device-Accepts two_keepalives) (λ n h. ground arith) refl three-Messages

-- A device without a channel, with reports of 32 bytes.
abbrev fresh : List ReadEvent → Device
fresh incoming = record (device incoming) {
  cid = cid_broadcast;
  in_rpt_size = 32;
  out_rpt_size = 32;
}

abbrev nonce : List ℕ
nonce = 8 ∷ 7 ∷ 6 ∷ 5 ∷ 4 ∷ 3 ∷ 2 ∷ 1 ∷ []

abbrev init_answer : List ℕ → List ℕ
init_answer first = first ++ (1 ∷ 2 ∷ 3 ∷ 4 ∷ 2 ∷ 5 ∷ 6 ∷ 7 ∷ 0x0f ∷ [])

abbrev init_report : List ℕ → List ReadEvent
init_report first =
    report (0xff ∷ 0xff ∷ 0xff ∷ 0xff ∷ 0x86 ∷ 0 ∷ 17 ∷ (init_answer first ++ replicate 8 0))
    ∷ later

own_nonce-Messages :
    Messages cid_broadcast 32 later ((init, init_answer nonce) ∷ []) (init_report nonce)
unfolding cmd_to_byte cont_packets
own_nonce-Messages =
    message init (init_answer nonce) tt (omega arith) (omega arith) (own done) none_left

other_nonce-Messages :
    Messages cid_broadcast 32 later
      ((init, init_answer (replicate 8 0)) ∷ [])
      (init_report (replicate 8 0))
unfolding cmd_to_byte cont_packets
other_nonce-Messages =
    message init (init_answer (replicate 8 0)) tt (omega arith) (omega arith) (own done) none_left

not_initialized : (es : List ReadEvent) → initialized (fresh es) ≡ false
unfolding initialized
not_initialized es = refl

pre_init-adopt_example :
    pre_init nonce (fresh (init_report nonce))
    ≡ ok tt (record (asked nonce (fresh (init_report nonce)) later) {
      cid = 1 ∷ 2 ∷ 3 ∷ 4 ∷ [];
      dev_info = some (info_of (fresh (init_report nonce)) 2 5 6 7 0x0f);
    })
pre_init-adopt_example =
    pre_init-adopt nonce (fresh (init_report nonce)) later refl
      (not_initialized (init_report nonce)) (omega arith) (omega arith) (device-Accepts []) [] 1 2 3
      4 2 5 6 7 0x0f own_nonce-Messages

pre_init-invalid_nonce_example :
    (pre_init nonce (fresh (init_report (replicate 8 0)))
      ≡ err invalid_nonce (asked nonce (fresh (init_report (replicate 8 0))) later))
    × (initialized (asked nonce (fresh (init_report (replicate 8 0))) later) ≡ false)
pre_init-invalid_nonce_example =
    pre_init-invalid_nonce nonce (fresh (init_report (replicate 8 0))) later refl
      (not_initialized (init_report (replicate 8 0))) (omega arith) (omega arith)
      (device-Accepts []) (init_answer (replicate 8 0)) (omega arith) refl other_nonce-Messages
