-- ===== src/PinChange/Reports.antt =====
-- What `set_or_change_pin_helper` tells its caller.
use authenticator_rs.Common.{
  ℕ, ◌+◌, ◌≤◌, ◌<◌, List, ◌∷◌, ◌≡◌, refl, ap, true, Option, none, some, inl, inr, Option-cases,
  Bool-cases, arith, length,
}
use authenticator_rs.ClientPin.{PinUvAuthProtocol, ClientPin, set_pin, set_new_pin}
use authenticator_rs.Command.{SecretOperations}
use authenticator_rs.Dispatch.Loops.{loop-Moves}
use authenticator_rs.Errors.{Result, HidResult, ok, err, stuck, hid_error, pin_error}
use authenticator_rs.Hid.Device.{HidError}
use authenticator_rs.Info.{AuthenticatorInfo, is_set}
use authenticator_rs.Puap.{Pin, PinDevice, Session}
use authenticator_rs.Dispatch.Handling.{HidResult-cases}
use authenticator_rs.PinChange.{
  report, with_dev, min_pin_length, check_new_pin, send_request, change_round, send_new_pin,
  set_or_change_pin,
}
use authenticator_rs.PinChange.Requests.{Carries, set_new_pin-Carries}
use authenticator_rs.PinChange.Rounds.{
  tries, IsEstablished, Accepted, Told, Reports, left, Goes, change_round-Moves, send_request-done,
}

Told-map : {A B : Type 0} (r : Result (Unit {0})) → (A → B) → Told A r → Told B r
Told-map (ok u) f a = f a
Told-map (err e) f a = tt
Told-map stuck f a = a

-- What the function has done when it returns.
abbrev pub Reported :
    {Dev User : Type 0}
    → List (Result (Unit {0}))
    → Type 0
    → Option (Session Dev User (Unit {0}))
    → Type 0
Reported {Dev} {User} before A out =
    (s : Session Dev User (Unit {0})) × (out ≡ some s) × Reports before A s

module _ {Dev Token Secret Key : Type 0} (device : PinDevice Dev Token Secret)
    (send : ClientPin Key → Dev → HidResult (Unit {0}) × Dev)
    (secrets : SecretOperations Secret Key) (protocol : Secret → PinUvAuthProtocol)
    (sha256 : List ℕ → List ℕ) (new_pin : Pin) where
  -- The new PIN is as long as the token asks for and not longer than 63 bytes, and the token has
  -- accepted it.
  abbrev pub IsSetOn : Dev → Type 0
  IsSetOn dev =
      (info : AuthenticatorInfo) × (device.get_authenticator_info dev ≡ some info)
      × (min_pin_length info ≤ length new_pin)
      × (length new_pin < 64)
      × Accepted device send secrets protocol sha256 new_pin (is_set info.options.client_pin)

  check_new_pin-none :
      (info : AuthenticatorInfo)
      → check_new_pin info new_pin ≡ none
      → (min_pin_length info ≤ length new_pin) × (length new_pin < 64)
  unfolding check_new_pin
  check_new_pin-none info h = ground arith

  module _ {User : Type 0} (before : List (Result (Unit {0}))) where
    send_new_pin-Reported :
        (info : AuthenticatorInfo) (current_pin : Option Pin) (secret : Secret) (fuel : ℕ)
        (s : Session Dev User (Unit {0}))
        → s.called ≡ before
        → IsEstablished device send secrets protocol sha256 new_pin secret
        → length s.answers + tries current_pin < fuel
        → Reported before
            (Accepted device send secrets protocol sha256 new_pin (is_set info.options.client_pin))
            (send_new_pin device send secrets protocol sha256 info current_pin new_pin secret fuel
              s)
    unfolding send_new_pin
    send_new_pin-Reported info current_pin secret fuel s c i h =
        elim (Bool-cases (is_set info.options.client_pin)) [
          | inl b ↦
              rw (send_new_pin, b)
                (loop-Moves (λ left. change_round device send secrets protocol sha256 info new_pin)
                  (Goes device send secrets protocol sha256 new_pin before)
                  (left device send secrets protocol sha256 new_pin before)
                  (Reports before (Accepted device send secrets protocol sha256 new_pin true))
                  (λ n. change_round-Moves device send secrets protocol sha256 new_pin before info)
                  fuel _ (c, i) h)
          | inr b ↦
              let sent : HidResult (Unit {0}) × Dev =
                send_request device send secrets protocol sha256
                  (set_new_pin secrets protocol sha256 secret new_pin) s.dev in
              elim (HidResult-cases sent.0) [
                | inl (u, e) ↦
                    let (request, carries, taken) =
                      send_request-done device send secrets protocol sha256 new_pin
                        (set_new_pin secrets protocol sha256 secret new_pin) s.dev
                        (Carries secrets protocol sha256 new_pin set_pin none secret) u
                        (set_new_pin-Carries secrets protocol sha256 new_pin secret) e in
                    rw (send_new_pin, b, e)
                      (
                        report (ok u) (with_dev sent.1 s),
                        refl,
                        (
                          ok u,
                          ap (λ l. ok u ∷ l) c,
                          (secret, set_pin, none, request, s.dev, i, (refl, refl), carries, taken),
                        ),
                      )
                | inr (x, e) ↦
                    rw (send_new_pin, b, e)
                      (
                        report (err (hid_error x)) (with_dev sent.1 s),
                        refl,
                        (err (hid_error x), ap (λ l. err (hid_error x) ∷ l) c, tt),
                      )
              ]
        ]

  module _ {User : Type 0} where
    -- If there is more fuel than the user has PINs to enter and a current PIN to try, then
    -- `set_or_change_pin` returns, whatever the token answers, and it has called the callback
    -- exactly once: with an error, or with success when the new PIN has at least the token's minimum
    -- of bytes (4 if it names none) and at most 63, and the token has accepted a request that
    -- carries this PIN, padded and encrypted under a secret that it agreed on: one that changes the
    -- PIN and carries the hash of a current one, if the token said that it has a PIN, and else one
    -- that sets it.
    pub set_or_change_pin-Reports :
        (current_pin : Option Pin) (fuel : ℕ) (s : Session Dev User (Unit {0}))
        → length s.answers + tries current_pin < fuel
        → Reported s.called
            (IsSetOn (device.establish_shared_secret s.dev).1)
            (set_or_change_pin device send secrets protocol sha256 current_pin new_pin fuel s)
    unfolding set_or_change_pin
    set_or_change_pin-Reports current_pin fuel s h =
        let dev = (device.establish_shared_secret s.dev).1 in
        elim (HidResult-cases (device.establish_shared_secret s.dev).0) [
          | inr (x, e) ↦ rw (set_or_change_pin, e) (_, refl, (err (hid_error x), refl, tt))
          | inl (secret, e) ↦ elim (Option-cases (device.get_authenticator_info dev)) [
            | inl i ↦
                rw (set_or_change_pin, e, i)
                  (_, refl, (err (hid_error HidError.device_not_initialized), refl, tt))
            | inr (info, i) ↦ elim (Option-cases (check_new_pin info new_pin)) [
              | inr (x, k) ↦
                  rw (set_or_change_pin, e, i, k) (_, refl, (err (pin_error x), refl, tt))
              | inl k ↦
                  let (out, q, (r, c, told)) =
                    send_new_pin-Reported s.called info current_pin secret fuel (with_dev dev s)
                      refl (s.dev, e) h in
                  let (long, short) = check_new_pin-none info k in
                  rw (set_or_change_pin, e, i, k)
                    (out, q, (r, c, Told-map r (λ a. (info, refl, long, short, a)) told))
            ]
          ]
        ]
