-- ===== src/Reset.antt =====
-- src/ctap2/mod.rs: `reset_helper`. The selector is told the token's choice by an event.
use authenticator_rs.Common.{
  List, ◌∷◌, ◌≡◌, refl, Bool, true, false, ◌⊎◌, inl, inr, Bool-cases, if◌then◌else◌,
}
use authenticator_rs.Dispatch.Handling.{HidResult-cases}
use authenticator_rs.Errors.{Result, HidResult, ok, err, done, failed, hid_error}
use authenticator_rs.Hid.Device.{HidError, command, device_not_supported, unsupported_command}
use authenticator_rs.Puap.{Session, presence_required, send_status}
use authenticator_rs.Status.{status_code, channel_busy}

-- The errors that the function passes over.
abbrev is_passed_over : HidError → Bool
is_passed_over device_not_supported = true
is_passed_over unsupported_command = true
is_passed_over (command (status_code channel_busy)) = true
is_passed_over e = false

-- The session that the function leaves, and whether it has sent `SelectedToken`.
record Reset (Dev User : Type 0) : Type 0 where
  session : Session Dev User (Unit {0})
  selected : Bool

-- `match resp`
abbrev answer_of : HidResult (Unit {0}) → List (Result (Unit {0})) → List (Result (Unit {0}))
answer_of (done u) called = ok u ∷ called
answer_of (failed e) called = if is_passed_over e then called else err (hid_error e) ∷ called

-- `resp.is_ok()`
abbrev is_ok : HidResult (Unit {0}) → Bool
is_ok (done u) = true
is_ok (failed e) = false

-- `send_reset` is `send_cbor_cancellable(&reset, keep_alive)`.
module _ {Dev User : Type 0} (send_reset : Dev → HidResult (Unit {0}) × Dev) where
  unfoldable reset : Session Dev User (Unit {0}) → Reset Dev User
  reset s =
      let (resp, dev) = send_reset s.dev in
      let s' = send_status presence_required s in
      record {
        session = record s' { dev = dev; called = answer_of resp s.called };
        selected = is_ok resp;
      }

  -- The token is announced as the selected one exactly when the callback is told of success. Else
  -- the callback is told of the error, or not called when the token is busy or knows no such command.
  reset-Reports :
      (s : Session Dev User (Unit {0}))
      → ((reset s).selected ≡ true × ((reset s).session.called ≡ ok tt ∷ s.called))
        ⊎ (((reset s).selected ≡ false)
            × (e : HidError) × ((send_reset s.dev).0 ≡ failed e)
            × (((reset s).session.called ≡ err (hid_error e) ∷ s.called)
                ⊎ ((is_passed_over e ≡ true) × ((reset s).session.called ≡ s.called))))
  unfolding reset
  reset-Reports s = elim (HidResult-cases (send_reset s.dev).0) [
    | inl (u, q) ↦ rw (reset, q) (inl (refl, refl))
    | inr (e, q) ↦ elim (Bool-cases (is_passed_over e)) [
      | inl p ↦ rw (reset, q, p) (inr (refl, e, refl, inr (p, refl)))
      | inr p ↦ rw (reset, q, p) (inr (refl, e, refl, inl refl))
    ]
  ]
