-- ===== src/PinChange/Rounds.antt =====
-- The rounds of the loop of `set_or_change_pin_helper`.
use authenticator_rs.Common.{
  ℕ, suc, ◌+◌, ◌<◌, List, ◌∷◌, ◌≡◌, refl, ◌∙◌, ap, Bool, true, false, Option, none, some, ◌⊎◌, inl,
  inr, Option-cases, arith, length,
}
use authenticator_rs.ClientPin.{
  PinUvAuthProtocol, PinSubcommand, ClientPin, set_pin, change_pin, for_pin_token, choose_protocol,
  change_existing_pin,
}
use authenticator_rs.Command.{SecretOperations}
use authenticator_rs.Dispatch.{Next, continue_with, leave, starved}
use authenticator_rs.Dispatch.Loops.{Moves}
use authenticator_rs.Errors.{Result, HidResult, ok, err, stuck, done, hid_error, cancelled_by_user}
use authenticator_rs.Info.{AuthenticatorInfo}
use authenticator_rs.Puap.{Pin, PinDevice, Session, ask_user_for_pin, repackage_pin_errors}
use authenticator_rs.Dispatch.Handling.{sum-cases, HidResult-cases}
use authenticator_rs.Status.{CommandError}
use authenticator_rs.PinChange.{
  with_dev, Change, is_wrong_pin, send_request, send_change, renew_secret, try_change, change_round,
}
use authenticator_rs.PinChange.Requests.{IfBuilt, Carries, change_existing_pin-Carries}

module _ {Dev User Out : Type 0} where
  ask_user_for_pin-called :
      (w : Bool) (r : Option ℕ) (s : Session Dev User Out)
      → (ask_user_for_pin w r s).1.called ≡ s.called
  unfolding ask_user_for_pin
  ask_user_for_pin-called w r s = ground arith

  -- A PIN that comes is one answer less to come.
  ask_user_for_pin-answers :
      (w : Bool) (r : Option ℕ) (s : Session Dev User Out) (pin : Pin)
      → (ask_user_for_pin w r s).0 ≡ some pin
      → length s.answers ≡ suc (length (ask_user_for_pin w r s).1.answers)
  unfolding ask_user_for_pin
  ask_user_for_pin-answers w r s pin h = ground arith

-- What the callback is told: an error, or that the new PIN is set.
abbrev pub Told : Type 0 → Result (Unit {0}) → Type 0
Told A (ok u) = A
Told A (err e) = Unit {0}
Told A stuck = ⊥

-- The callback has been called once more.
abbrev pub Reports :
    {Dev User : Type 0} → List (Result (Unit {0})) → Type 0 → Session Dev User (Unit {0}) → Type 0
Reports before A s = (r : Result (Unit {0})) × (s.called ≡ r ∷ before) × Told A r

-- A current PIN is tried once.
abbrev pub tries : Option Pin → ℕ
tries none = 0
tries (some pin) = 1

module _ {Dev Token Secret Key : Type 0} (device : PinDevice Dev Token Secret)
    (send : ClientPin Key → Dev → HidResult (Unit {0}) × Dev)
    (secrets : SecretOperations Secret Key) (protocol : Secret → PinUvAuthProtocol)
    (sha256 : List ℕ → List ℕ) (new_pin : Pin) where
  -- The token has agreed on the secret.
  abbrev pub IsEstablished : Secret → Type 0
  IsEstablished secret = (d : Dev) × ((device.establish_shared_secret d).0 ≡ done secret)

  -- The hash that a request carries: of the PIN in use, if there is one.
  abbrev pub IsHashFor : Bool → Secret → PinSubcommand → Option (List ℕ) → Type 0
  IsHashFor false secret subcommand hash = (subcommand ≡ set_pin) × (hash ≡ none)
  IsHashFor true secret subcommand hash =
      (subcommand ≡ change_pin)
      × ((pin : Pin) × (hash ≡ secrets.encrypt secret (for_pin_token sha256 pin)))

  -- The token has accepted a request for the new PIN, made with a secret that it agreed on.
  abbrev pub Accepted : Bool → Type 0
  Accepted has_pin =
      (secret : Secret) × (subcommand : PinSubcommand) × (hash : Option (List ℕ))
      × (request : ClientPin Key) × (d : Dev) × IsEstablished secret
      × IsHashFor has_pin secret subcommand hash
      × Carries secrets protocol sha256 new_pin subcommand hash secret request
      × ((send request d).0 ≡ done tt)

  pub send_request-done :
      (m : CommandError ⊎ ClientPin Key) (d : Dev) (P : ClientPin Key → Type 0) (u : Unit {0})
      → IfBuilt P m
      → (send_request device send secrets protocol sha256 m d).0 ≡ done u
      → (request : ClientPin Key) × P request × ((send request d).0 ≡ done tt)
  send_request-done (inl e) d P u p h = ground arith
  send_request-done (inr request) d P u p h = (request, p, h)

  change-Accepted :
      (info : AuthenticatorInfo) (secret : Secret) (pin : Pin) (d : Dev) (u : Unit {0})
      → IsEstablished secret
      → (send_change device send secrets protocol sha256 info secret pin new_pin d).0 ≡ done u
      → Accepted true
  unfolding send_change
  change-Accepted info secret pin d u established = elim (sum-cases (choose_protocol info)) [
    | inl (e, c) ↦ rw (send_change, c) (λ h. ground arith)
    | inr (chosen, c) ↦
        let hash = secrets.encrypt secret (for_pin_token sha256 pin) in
        rw (send_change, c)
          (λ h.
            let (request, carries, taken) =
              send_request-done (change_existing_pin secrets protocol sha256 secret pin new_pin) d
                (Carries secrets protocol sha256 new_pin change_pin hash secret) u
                (change_existing_pin-Carries secrets protocol sha256 new_pin secret pin) h in
            (
              secret,
              change_pin,
              hash,
              request,
              d,
              established,
              (refl, (pin, refl)),
              carries,
              taken,
            ))
  ]

  module _ {User : Type 0} (before : List (Result (Unit {0}))) where
    -- After a wrong PIN: the loop goes on with a fresh secret and no current PIN, or has reported.
    abbrev Retried : ℕ → Next (Change Dev Secret User) (Session Dev User (Unit {0})) → Type 0
    Retried n (continue_with t) =
        (t.session.called ≡ before)
        × IsEstablished t.shared_secret
        × (t.current_pin ≡ none)
        × (length t.session.answers ≡ n)
    Retried n (leave s) = Reports before (Accepted true) s
    Retried n starved = ⊥

    renew_secret-Retried :
        (r : Option ℕ) (t : Change Dev Secret User)
        → t.session.called ≡ before
        → Retried (length t.session.answers) (renew_secret device send secrets protocol sha256 r t)
    unfolding renew_secret
    renew_secret-Retried r t c =
        elim (HidResult-cases (device.establish_shared_secret t.session.dev).0) [
          | inl (s, e) ↦ rw (renew_secret, e) (c, (t.session.dev, e), refl, refl)
          | inr (x, e) ↦
              rw (renew_secret, e) (err (hid_error x), ap (λ l. err (hid_error x) ∷ l) c, tt)
        ]

    try_change-Retried :
        (info : AuthenticatorInfo) (pin : Pin) (t : Change Dev Secret User)
        → t.session.called ≡ before
        → IsEstablished t.shared_secret
        → Retried
            (length t.session.answers)
            (try_change device send secrets protocol sha256 info new_pin pin t)
    unfolding try_change
    try_change-Retried info pin t c i =
        let sent : HidResult (Unit {0}) × Dev =
          send_change device send secrets protocol sha256 info t.shared_secret pin new_pin
            t.session.dev in
        elim (HidResult-cases sent.0) [
          | inl (u, e) ↦
              rw (try_change, e)
                (
                  ok u,
                  ap (λ l. ok u ∷ l) c,
                  change-Accepted info t.shared_secret pin t.session.dev u i e,
                )
          | inr (x, e) ↦
              let (e', dev') = repackage_pin_errors device x sent.1 in
              elim (Option-cases (is_wrong_pin e')) [
                | inl w ↦ rw (try_change, e, w) (err e', ap (λ l. err e' ∷ l) c, tt)
                | inr (r, w) ↦
                    rw (try_change, e, w)
                      (renew_secret-Retried r (record t { session = with_dev dev' t.session }) c)
              ]
        ]

    -- The PINs that the loop may still try.
    abbrev pub left : Change Dev Secret User → ℕ
    left t = length t.session.answers + tries t.current_pin

    abbrev pub Goes : Change Dev Secret User → Type 0
    Goes t = (t.session.called ≡ before) × IsEstablished t.shared_secret

    Retried-Moves :
        (n m : ℕ) (next : Next (Change Dev Secret User) (Session Dev User (Unit {0})))
        → n < m
        → Retried n next
        → Moves Goes left m (Reports before (Accepted true)) next
    Retried-Moves n m (continue_with t) h (c, i, p, l) =
        let q : tries t.current_pin ≡ 0 = ap tries p in ((c, i), omega arith)
    Retried-Moves n m (leave s) h r = r
    Retried-Moves n m starved h r = r

    pub change_round-Moves :
        (info : AuthenticatorInfo) (t : Change Dev Secret User)
        → Goes t
        → Moves Goes left
            (left t)
            (Reports before (Accepted true))
            (change_round device send secrets protocol sha256 info new_pin t)
    unfolding change_round
    change_round-Moves info t (c, i) = elim (Option-cases t.current_pin) [
      | inr (pin, p) ↦
          let q : tries t.current_pin ≡ 1 = ap tries p in
          rw (change_round, p)
            (Retried-Moves (length t.session.answers) (length t.session.answers + tries (some pin))
              (try_change device send secrets protocol sha256 info new_pin pin
                (record t { current_pin = none }))
              (omega arith) (try_change-Retried info pin (record t { current_pin = none }) c i))
      | inl p ↦
          let q : tries t.current_pin ≡ 0 = ap tries p in
          elim (Option-cases (ask_user_for_pin t.was_invalid t.retries t.session).0) [
            | inl a ↦
                rw (change_round, p, a)
                  (
                    err cancelled_by_user,
                    ap (λ l. err cancelled_by_user ∷ l)
                        (ask_user_for_pin-called t.was_invalid t.retries t.session ∙ c),
                    tt,
                  )
            | inr (pin, a) ↦
                let asked : Session Dev User (Unit {0}) =
                  (ask_user_for_pin t.was_invalid t.retries t.session).1 in
                let n : length t.session.answers ≡ suc (length asked.answers) =
                  ask_user_for_pin-answers t.was_invalid t.retries t.session pin a in
                rw (change_round, p, a)
                  (Retried-Moves (length asked.answers) (length t.session.answers + tries none)
                    (try_change device send secrets protocol sha256 info new_pin pin
                      (record t { session = asked }))
                    (omega arith)
                    (try_change-Retried info pin (record t { session = asked })
                      (ask_user_for_pin-called t.was_invalid t.retries t.session ∙ c) i))
          ]
    ]
