-- ===== src/Ctap1/Retry.antt =====
-- src/transport/hid.rs: how often a CTAP1 request is sent.
use authenticator_rs.Common.{
  ℕ, zero, suc, ◌+◌, ◌-◌, ◌<◌, ◌≡◌, refl, ap, ◌∙◌, List, [], ◌∷◌, ◌++◌, Bool, true, false, length,
  ltb, le→ltb, length-append, take-append, drop-append, arith,
}
use authenticator_rs.Apdu.{apdu_status}
use authenticator_rs.Hid.Cmd.{msg}
use authenticator_rs.Hid.Device.{
  Device, Outcome, HidError, bind, ok, err, keepalive_cancelled, short_response,
}
use authenticator_rs.Hid.Exchange.{sendrecv}
use authenticator_rs.Ctap1.{done, retry, failed, Handler, is_msg, reply_to, send_ctap1}

-- The token answers the request, sent this often in a row, each time with a body and two bytes of
-- status of which the handler says to try again.
pub data Retries {Out : Type 0} (request : List ℕ) (handle : Handler Out)
    : ℕ → Device → Device → Type 0 where
  no_more : {d : Device} → Retries request handle 0 d d
  once_more :
      {n : ℕ} {d d' d'' : Device} (body : List ℕ) (s0 s1 : ℕ)
      → sendrecv msg request (λ _. true) d ≡ ok (msg, body ++ (s0 ∷ s1 ∷ [])) d'
      → handle (apdu_status s0 s1) body ≡ retry
      → Retries request handle n d' d''
      → Retries request handle (suc n) d d''

-- What the last answer, after which the device is the given one, is to give: a body and two bytes of
-- status what the handler makes of them, or the error with which it refuses them, and an answer of
-- less than two bytes the error of a short response.
pub data Decides {Out : Type 0} (handle : Handler Out) (d : Device)
    : List ℕ → Outcome Out → Type 0 where
  accepted :
      (body : List ℕ) (s0 s1 : ℕ) (out : Out)
      → handle (apdu_status s0 s1) body ≡ done out
      → Decides handle d (body ++ (s0 ∷ s1 ∷ [])) (ok out d)
  refused :
      (body : List ℕ) (s0 s1 : ℕ) (e : HidError)
      → handle (apdu_status s0 s1) body ≡ failed e
      → Decides handle d (body ++ (s0 ∷ s1 ∷ [])) (err e d)
  cut_short : (answer : List ℕ) → length answer < 2 → Decides handle d answer (err short_response d)

module _ {Out : Type 0} (request : List ℕ) (handle : Handler Out) (keep_alive : ℕ → Bool) where
  reply_to-append :
      (body : List ℕ) (s0 s1 : ℕ)
      → reply_to handle (body ++ (s0 ∷ s1 ∷ [])) ≡ handle (apdu_status s0 s1) body
  reply_to-append body s0 s1 =
      let end : List ℕ = s0 ∷ s1 ∷ [] in
      let e : length (body ++ end) - 2 ≡ length body = omega (arith, length-append body end) in
      rw
        (
          take-append (length (body ++ end) - 2) body end e,
          drop-append (length (body ++ end) - 2) body end e,
        )
        refl

  long_enough : (body : List ℕ) (s0 s1 : ℕ) → ltb (length (body ++ (s0 ∷ s1 ∷ []))) 2 ≡ false
  long_enough body s0 s1 = le→ltb _ _ (omega (arith, length-append body (s0 ∷ s1 ∷ [])))

  again :
      (fuel calls : ℕ) (d d' : Device) (body : List ℕ) (s0 s1 : ℕ)
      → keep_alive calls ≡ true
      → sendrecv msg request (λ _. true) d ≡ ok (msg, body ++ (s0 ∷ s1 ∷ [])) d'
      → handle (apdu_status s0 s1) body ≡ retry
      → send_ctap1 request handle keep_alive (suc fuel) calls d
        ≡ send_ctap1 request handle keep_alive fuel (calls + 1) d'
  unfolding send_ctap1 is_msg
  again fuel calls d d' body s0 s1 k s r =
      let reply = reply_to-append body s0 s1 ∙ r in
      rw (send_ctap1, k, s, bind, long_enough body s0 s1, reply) refl

  retried :
      (n extra calls : ℕ) (d d' : Device)
      → ((i : ℕ) → i < calls + n → keep_alive i ≡ true)
      → Retries request handle n d d'
      → send_ctap1 request handle keep_alive (n + suc extra) calls d
        ≡ send_ctap1 request handle keep_alive (suc extra) (calls + n) d'
  retried zero extra calls d d' k no_more =
      let e : calls ≡ calls + 0 = omega arith in
      let f : 0 + suc extra ≡ suc extra = omega arith in
      rw f (ap (λ c. send_ctap1 request handle keep_alive (suc extra) c d) e)
  retried (suc n) extra calls d d' k (once_more {d' = e} body s0 s1 s r more) =
      let fuel : suc n + suc extra ≡ suc (n + suc extra) = omega arith in
      let called : calls + 1 + n ≡ calls + suc n = omega arith in
      rw fuel (
        again (n + suc extra) calls d e body s0 s1 (k calls (omega arith)) s r
        ∙ retried n extra (calls + 1) e d' (λ i h. k i (omega arith)) more
        ∙ ap (λ c. send_ctap1 request handle keep_alive (suc extra) c d') called)

  -- If the token answers a number of times so that the handler asks to try again, and the caller then
  -- wants the loop to end, `send_ctap1_cancellable` sends nothing more and fails as cancelled.
  pub send_ctap1_cancelled :
      (n extra : ℕ) (d d' : Device)
      → ((i : ℕ) → i < n → keep_alive i ≡ true)
      → keep_alive n ≡ false
      → Retries request handle n d d'
      → send_ctap1 request handle keep_alive (n + suc extra) 0 d ≡ err keepalive_cancelled d'
  unfolding send_ctap1
  send_ctap1_cancelled n extra d d' k stop more =
      let called : 0 + n ≡ n = omega arith in
      retried n extra 0 d d' (λ i h. k i (omega arith)) more ∙ rw (called, send_ctap1, stop) refl
