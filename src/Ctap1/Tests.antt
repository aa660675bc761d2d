-- ===== src/Ctap1/Tests.antt =====
-- A CTAP1 request of src/transport/hid.rs that has to be sent twice.
use authenticator_rs.Common.{
  ℕ, suc, ◌+◌, ◌<◌, ◌≡◌, refl, List, [], ◌∷◌, true, false, some, none, length, arith, ltb,
}
use authenticator_rs.Apdu.{conditions_not_satisfied, apdu_status}
use authenticator_rs.Hid.Cmd.{msg, cmd_to_byte, is_keepalive}
use authenticator_rs.Hid.Device.{
  Device, ReadEvent, report, ctap1, ok, err, keepalive_cancelled, apdu_error,
}
use authenticator_rs.Hid.Packets.{packets, cont_packets}
use authenticator_rs.Hid.Reads.{done, own}
use authenticator_rs.Hid.Exchange.{sendrecv}
use authenticator_rs.Hid.Answers.{Messages, none_left, message, exchanged, sendrecv-Messages}
use authenticator_rs.Ctap1.{Reply, retry, failed, Handler, send_ctap1}
use authenticator_rs.Ctap1.Retry.{Retries, no_more, once_more, send_ctap1_cancelled}

abbrev cid : List ℕ
cid = 1 ∷ 2 ∷ 3 ∷ 4 ∷ []

-- The answer that asks for the user's presence, and one with a byte of data, in reports of 12 bytes.
abbrev waits : List ℕ
waits = 0x69 ∷ 0x85 ∷ []

abbrev data_byte : List ℕ
data_byte = 42 ∷ 0x90 ∷ 0x00 ∷ []

abbrev last : List ReadEvent
last = report (1 ∷ 2 ∷ 3 ∷ 4 ∷ 0x83 ∷ 0 ∷ 3 ∷ 42 ∷ 0x90 ∷ 0x00 ∷ 0 ∷ 0 ∷ []) ∷ []

abbrev both : List ReadEvent
both = report (1 ∷ 2 ∷ 3 ∷ 4 ∷ 0x83 ∷ 0 ∷ 2 ∷ 0x69 ∷ 0x85 ∷ 0 ∷ 0 ∷ 0 ∷ []) ∷ last

abbrev device : Device
device = record {
  cid = cid;
  in_rpt_size = 12;
  out_rpt_size = 12;
  protocol = ctap1;
  dev_info = none;
  property = λ _. none;
  overflow_checks = true;
  incoming = both;
  outgoing = [];
  sink = λ _ frame. some (length frame);
}

abbrev request : List ℕ
request = 0 ∷ 1 ∷ 2 ∷ 0 ∷ 0 ∷ 0 ∷ 0 ∷ []

-- A handler that waits for the user's presence.
abbrev handler : Handler (List ℕ)
handler none body = Reply.done body
handler (some conditions_not_satisfied) body = retry
handler (some e) body = failed (apdu_error e)

abbrev sent : List (List ℕ)
sent = packets 12 cid (cmd_to_byte msg) request

abbrev after_first : Device
after_first = exchanged device sent last

abbrev after_second : Device
after_second = exchanged after_first sent []

answer_is_msg : is_keepalive msg ≡ false
unfolding is_keepalive
answer_is_msg = refl

first_Messages : Messages cid 12 last ((msg, waits) ∷ []) both
unfolding cmd_to_byte cont_packets
first_Messages = message msg waits tt (omega arith) (omega arith) (own done) none_left

first_answer : sendrecv msg request (λ _. true) device ≡ ok (msg, waits) after_first
first_answer =
    sendrecv-Messages msg msg request waits [] (λ _. true) device last refl (omega arith)
      (omega arith) (omega arith) (omega arith) (λ s frame. refl) answer_is_msg (λ n h. refl)
      first_Messages

one_retry : Retries request handler 1 device after_first
unfolding apdu_status
one_retry = once_more [] 0x69 0x85 first_answer refl no_more

once_below : (i : ℕ) → i < 1 → ltb i 1 ≡ true
once_below i h = ground (arith, h)

send_ctap1_cancelled_example :
    send_ctap1 request handler (λ i. ltb i 1) (1 + suc 5) 0 device
    ≡ err keepalive_cancelled after_first
send_ctap1_cancelled_example =
    send_ctap1_cancelled request handler (λ i. ltb i 1) 1 5 device after_first once_below refl
      one_retry
