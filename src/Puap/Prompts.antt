-- ===== src/Puap/Prompts.antt =====
-- src/ctap2/mod.rs: what `determine_puap_if_needed` asks and tells the user.
use authenticator_rs.Common.{
  ℕ, suc, ◌+◌, List, [], ◌∷◌, ◌++◌, ◌≡◌, ◌∙◌, refl, ap, ◌⊎◌, inl, inr, Bool, true, false, Option,
  some, length, arith,
}
use authenticator_rs.Errors.{
  AuthenticatorError, PinError, Result, err, pin_error, cancelled_by_user, pin_required,
  invalid_pin, invalid_uv, uv_blocked, pin_auth_invalid, pin_auth_blocked, pin_blocked, pin_not_set,
}
use authenticator_rs.Puap.{
  Pin, UserVerificationRequirement, PinUvAuthResult, StatusUpdate, Session, PinDevice,
  PinUvAuthCommand, again, report, give_up, reaction, ask_pin, ask_pin_again, auth_is_blocked,
  pin_is_blocked, pin_is_not_set, determine_puap_if_needed, Puap,
}
use authenticator_rs.Puap.Loop.{Rounds, question, determine_puap_if_needed-Rounds}

-- The update asks for a PIN.
abbrev pub asks_pin : {User : Type 0} → StatusUpdate User → ℕ
asks_pin ask_pin = 1
asks_pin (ask_pin_again retries) = 1
asks_pin _ = 0

abbrev pub asked : {User : Type 0} → List (StatusUpdate User) → ℕ
asked [] = 0
asked (u ∷ us) = asks_pin u + asked us

-- The last of some PINs, or else this one.
abbrev pub last_or : Option Pin → List Pin → Option Pin
last_or pin [] = pin
last_or pin (p ∷ ps) = last_or (some p) ps

-- How the user hears of an error that is returned: those that a PIN or another try may mend are
-- never returned, and of the three that block the user the last update tells.
abbrev pub Announced : {A User : Type 0} → Result A → List (StatusUpdate User) → Type 0
Announced {User = User} (err (pin_error e)) us = elim e [
  | pin_required ↦ ⊥
  | invalid_pin retries ↦ ⊥
  | invalid_uv retries ↦ ⊥
  | uv_blocked ↦ ⊥
  | pin_auth_invalid ↦ ⊥
  | pin_auth_blocked ↦ (rest : List (StatusUpdate User)) × (us ≡ auth_is_blocked ∷ rest)
  | pin_blocked ↦ (rest : List (StatusUpdate User)) × (us ≡ pin_is_blocked ∷ rest)
  | pin_not_set ↦ (rest : List (StatusUpdate User)) × (us ≡ pin_is_not_set ∷ rest)
  | PinError.pin_is_too_short ↦ Unit {0}
  | PinError.pin_is_too_long n ↦ Unit {0}
  | PinError.crypto ↦ Unit {0}
]
Announced _ us = Unit {0}

module _ (User : Type 0) where
  question-asks_pin : (w : Bool) (n : Option ℕ) → asks_pin (question {User = User} w n) ≡ 1
  question-asks_pin true n = refl
  question-asks_pin false n = refl

  again-asks_pin :
      (k k' : Bool) (e : AuthenticatorError) (u : StatusUpdate User)
      → reaction k e ≡ again u k'
      → asks_pin u ≡ 0
  again-asks_pin k k' (pin_error e) u h = ground arith
  again-asks_pin k k' e u h = ground arith

  report-asks_pin :
      (k : Bool) (e : AuthenticatorError) (u : StatusUpdate User)
      → reaction k e ≡ report u
      → asks_pin u ≡ 0
  report-asks_pin k e u h = ground arith

  give_up-Announced :
      (A : Type 0) (k : Bool) (e : AuthenticatorError) (us : List (StatusUpdate User))
      → reaction {User = User} k e ≡ give_up
      → Announced {A = A} (err e) us
  give_up-Announced A k e us h = ground arith

  report-Announced :
      (A : Type 0) (k : Bool) (e : AuthenticatorError) (u : StatusUpdate User)
      (us : List (StatusUpdate User))
      → reaction {User = User} k e ≡ report u
      → Announced {A = A} (err e) (u ∷ us)
  report-Announced A k e u us h = ground arith

module _ {Dev Token Secret Cmd Param User Out : Type 0} (device : PinDevice Dev Token Secret)
    (trait : PinUvAuthCommand Cmd Token Param) (permission : ℕ)
    (uv_req : UserVerificationRequirement) where
  abbrev Told :
      ℕ → Bool → Cmd → Option Pin → Session Dev User Out → Puap Cmd Dev Token User Out → Type 0
  Told i k c p s q = Announced q.result q.session.updates

  round-Told : Rounds device trait permission uv_req Told
  round-Told = record {
    out_of_fuel = λ k c p s. tt;
    stopped = λ i k c p s a. tt;
    returned = λ i k c p s kind r. tt;
    no_result = λ i k c p s r. tt;
    gave_up = λ i k c p s e r g. give_up-Announced User (PinUvAuthResult Token) k e s.updates g;
    reported = λ i k c p s e u r g. report-Announced User (PinUvAuthResult Token) k e u s.updates g;
    dropped = λ i k c p s e w n k' r g a. tt;
    answered = λ i k c p s e w n k' pin rest q t r g a h. h;
    retried = λ i k c p s e u k' q t r g h. h;
  }

  -- An error that `determine_puap_if_needed` returns is none of those that asking for a PIN or
  -- trying again may mend; and if it says that the PIN or the token is blocked, or that no PIN is
  -- set, then the last update that the user gets says the same.
  pub determine_puap_if_needed-Announced :
      (fuel : ℕ) (skip_uv : Bool) (c : Cmd) (pin : Option Pin) (s : Session Dev User Out)
      → let q = determine_puap_if_needed device trait permission uv_req fuel skip_uv c pin s in
        Announced q.result q.session.updates
  determine_puap_if_needed-Announced =
      determine_puap_if_needed-Rounds device trait permission uv_req Told round-Told

  -- These are the answers of the user that were taken.
  abbrev pub Uses :
      List Pin → Option Pin → Session Dev User Out → Puap Cmd Dev Token User Out → Type 0
  Uses used p s q =
      (s.answers ≡ used ++ q.session.answers)
      × (q.pin ≡ last_or p used)
      × ((asked q.session.updates ≡ length used + asked s.updates)
          ⊎ ((asked q.session.updates ≡ suc (length used) + asked s.updates)
              × (q.session.answers ≡ [])
              × (q.result ≡ err cancelled_by_user)))

  abbrev Prompted :
      ℕ → Bool → Cmd → Option Pin → Session Dev User Out → Puap Cmd Dev Token User Out → Type 0
  Prompted i k c p s q = (used : List Pin) × Uses used p s q

  round-Prompted : Rounds device trait permission uv_req Prompted
  round-Prompted = record {
    out_of_fuel = λ k c p s. ([], (refl, refl, inl (omega arith)));
    stopped = λ i k c p s a. ([], (refl, refl, inl (omega arith)));
    returned = λ i k c p s kind r. ([], (refl, refl, inl (omega arith)));
    no_result = λ i k c p s r. ([], (refl, refl, inl (omega arith)));
    gave_up = λ i k c p s e r g. ([], (refl, refl, inl (omega arith)));
    reported = λ i k c p s e u r g.
        let none : asks_pin u ≡ 0 = report-asks_pin User k e u g in
        ([], (refl, refl, inl (omega arith)));
    dropped = λ i k c p s e w n k' r g a.
        let one : asks_pin (question {User = User} w n) ≡ 1 = question-asks_pin User w n in
        ([], (refl, refl, inr (omega arith, a, refl)));
    answered = λ i k c p s e w n k' pin rest q t r g a (used, (taken, last, count)).
        let one : asks_pin (question {User = User} w n) ≡ 1 = question-asks_pin User w n in
        (pin ∷ used, (a ∙ ap (λ l. pin ∷ l) taken, last, ground arith));
    retried = λ i k c p s e u k' q t r g (used, (taken, last, count)).
        let none : asks_pin u ≡ 0 = again-asks_pin User k k' e u g in
        (used, (taken, last, ground arith));
  }

  -- `determine_puap_if_needed` takes the answers of the user in order and asks once for each that it
  -- takes, and once more only if it then finds the channel dropped and returns that the user
  -- cancelled; the PIN that it leaves is the last answer taken, or the one that it began with.
  pub determine_puap_if_needed-Uses :
      (fuel : ℕ) (skip_uv : Bool) (c : Cmd) (pin : Option Pin) (s : Session Dev User Out)
      → (used : List Pin) × Uses used pin s
          (determine_puap_if_needed device trait permission uv_req fuel skip_uv c pin s)
  determine_puap_if_needed-Uses =
      determine_puap_if_needed-Rounds device trait permission uv_req Prompted round-Prompted
