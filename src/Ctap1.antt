-- ===== src/Ctap1.antt =====
-- src/transport/hid.rs: `send_ctap1_cancellable`, which sends a CTAP1 request again and again until
-- the token has an answer. The request is its frame and the handling of a status and a body.
mod Tests
pub mod Retry
use authenticator_rs.Common.{
  ℕ, zero, suc, ◌+◌, ◌-◌, List, [], ◌∷◌, Bool, true, false, Option, none, some, length, take, drop,
  ltb, if◌then◌else◌,
}
use authenticator_rs.Apdu.{ApduErrorStatus, apdu_status, check_response}
use authenticator_rs.Hid.Cmd.{HidCmd, msg, cmd_to_byte}
use authenticator_rs.Hid.Device.{
  Device, Outcome, M, HidError, ok, err, stuck, bind, panic, short_response, keepalive_cancelled,
  unexpected_cmd, apdu_error,
}
use authenticator_rs.Hid.Exchange.{sendrecv}

-- `Result<Out, Retryable<HIDError>>`
pub data Reply (Out : Type 0) : Type 0 where
  done : Out → Reply Out
  retry : Reply Out
  failed : HidError → Reply Out

-- `handle_response_ctap1`
abbrev pub Handler : Type 0 → Type 0
Handler Out = Option ApduErrorStatus → List ℕ → Reply Out

-- The same of a `CheckKeyHandle`.
abbrev pub check_handler : Handler (Unit {0})
check_handler status body = elim (check_response status) [
  | none ↦ done tt
  | some e ↦ failed (apdu_error e)
]

-- `cmd == HIDCmd::Msg`
unfoldable pub is_msg : HidCmd → Bool
is_msg msg = true
is_msg _ = false

-- `ApduErrorStatus::from([status[0], status[1]])` on the two bytes that are split off.
abbrev pub status_of : List ℕ → Option ApduErrorStatus
status_of (s0 ∷ s1 ∷ rest) = apdu_status s0 s1
status_of (s0 ∷ []) = none
status_of [] = none

-- What the handler says of an answer of two bytes at least: the status is its last two bytes.
abbrev pub reply_to : {Out : Type 0} → Handler Out → List ℕ → Reply Out
reply_to handle answer =
    let split_at = length answer - 2 in
    handle (status_of (drop split_at answer)) (take split_at answer)

module _ {Out : Type 0} (request : List ℕ) (handle : Handler Out) (keep_alive : ℕ → Bool) where
  -- The loop. `keep_alive n` is what the n-th call of the closure returns; `sendrecv` gets a closure
  -- that is always true. The source bounds the rounds by nothing but the closure, here is fuel.
  unfoldable pub send_ctap1 : ℕ → ℕ → M Out
  unfolding is_msg
  send_ctap1 zero calls d = stuck
  send_ctap1 (suc fuel) calls d =
      let round = bind (sendrecv msg request (λ _. true) d) (λ answer d'.
        let again = send_ctap1 fuel (calls + 1) d' in
        if is_msg answer.0
        then (if ltb (length answer.1) 2
            then err short_response d'
            else elim (reply_to handle answer.1) [
              | done out ↦ ok out d'
              | retry ↦ again
              | failed e ↦ err e d'
            ])
        else err (unexpected_cmd (cmd_to_byte answer.0)) d') in
      if keep_alive calls then round else err keepalive_cancelled d
