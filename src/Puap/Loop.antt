-- ===== src/Puap/Loop.antt =====
-- src/ctap2/mod.rs: the rounds of `determine_puap_if_needed`, as a principle of induction.
use authenticator_rs.Common.{
  ℕ, zero, suc, List, [], ◌∷◌, ◌≡◌, refl, ap, ◌⊎◌, inl, inr, Bool, true, false, Option, none, some,
  Bool-cases,
}
use authenticator_rs.Errors.{AuthenticatorError, Result, ok, err, stuck, cancelled_by_user}
use authenticator_rs.Puap.{
  Pin, UserVerificationRequirement, PinUvAuthResult, StatusUpdate, Session, PinDevice,
  PinUvAuthCommand, Reaction, ask, again, report, give_up, reaction, send_status, ask_user_for_pin,
  ask_pin, ask_pin_again, Puap, get_pin_uv_auth_param, determine_puap_if_needed,
}

-- A computed outcome is one of these.
pub Result-cases :
    {A : Type 0} (r : Result A)
    → ((a : A) × (r ≡ ok a)) ⊎ ((r ≡ stuck) ⊎ ((e : AuthenticatorError) × (r ≡ err e)))
Result-cases (ok a) = inl (a, refl)
Result-cases stuck = inr (inl refl)
Result-cases (err e) = inr (inr (e, refl))

Reaction-cases :
    {User : Type 0} (r : Reaction User)
    → ((w : Bool) × (n : Option ℕ) × (k : Bool) × (r ≡ ask w n k))
      ⊎ (((u : StatusUpdate User) × (k : Bool) × (r ≡ again u k))
          ⊎ (((u : StatusUpdate User) × (r ≡ report u)) ⊎ (r ≡ give_up)))
Reaction-cases (ask w n k) = inl (w, n, k, refl)
Reaction-cases (again u k) = inr (inl (u, k, refl))
Reaction-cases (report u) = inr (inr (inl (u, refl)))
Reaction-cases give_up = inr (inr (inr refl))

list-cases : {A : Type 0} (l : List A) → (l ≡ []) ⊎ ((x : A) × (xs : List A) × (l ≡ x ∷ xs))
list-cases [] = inl refl
list-cases (x ∷ xs) = inr (x, xs, refl)

-- The update by which the user is asked.
abbrev pub question : {User : Type 0} → Bool → Option ℕ → StatusUpdate User
question true retries = ask_pin_again retries
question false retries = ask_pin

module _ {Dev User Out : Type 0} where
  ask_user_for_pin_answered :
      (w : Bool) (n : Option ℕ) (s : Session Dev User Out) {p : Pin} {ps : List Pin}
      → s.answers ≡ p ∷ ps
      → ask_user_for_pin w n s
        ≡ (some p, record s { updates = question w n ∷ s.updates; answers = ps })
  unfolding ask_user_for_pin
  ask_user_for_pin_answered true n s e = rw e refl
  ask_user_for_pin_answered false n s e = rw e refl

  ask_user_for_pin_dropped :
      (w : Bool) (n : Option ℕ) (s : Session Dev User Out)
      → s.answers ≡ []
      → ask_user_for_pin w n s ≡ (none, send_status (question w n) s)
  unfolding ask_user_for_pin
  ask_user_for_pin_dropped true n s e = rw e refl
  ask_user_for_pin_dropped false n s e = rw e refl

module _ {Dev Token Secret Cmd Param User Out : Type 0} (device : PinDevice Dev Token Secret)
    (trait : PinUvAuthCommand Cmd Token Param) (permission : ℕ)
    (uv_req : UserVerificationRequirement) where
  -- One try, on the state after the test of `alive`.
  abbrev pub tried :
      Bool → Cmd → Option Pin → Session Dev User Out → Result (PinUvAuthResult Token) × Cmd × Dev
  tried skip_uv cmd pin s =
      get_pin_uv_auth_param device trait permission uv_req skip_uv pin cmd (device.alive s.dev).1

  abbrev pub after : Bool → Cmd → Option Pin → Session Dev User Out → Session Dev User Out
  after skip_uv cmd pin s = record s { dev = (tried skip_uv cmd pin s).2 }

  -- What is to be shown, of each way in which a round of the loop ends, for a property of the
  -- loop's variables and of what it returns; a round that goes on may take it of the rest.
  pub record Rounds
      (P : ℕ
        → Bool
        → Cmd
        → Option Pin
        → Session Dev User Out
        → Puap Cmd Dev Token User Out
        → Type 0)
      : Type 0 where
    pub out_of_fuel :
        (k : Bool) (c : Cmd) (p : Option Pin) (s : Session Dev User Out)
        → P zero k c p s (record { result = stuck; cmd = c; pin = p; session = s })
    pub stopped :
        (i : ℕ) (k : Bool) (c : Cmd) (p : Option Pin) (s : Session Dev User Out)
        → (device.alive s.dev).0 ≡ false
        → P (suc i) k c p s (record {
          result = err cancelled_by_user;
          cmd = c;
          pin = p;
          session = record s { dev = (device.alive s.dev).1 };
        })
    pub returned :
        (i : ℕ) (k : Bool) (c : Cmd) (p : Option Pin) (s : Session Dev User Out)
        (kind : PinUvAuthResult Token)
        → (tried k c p s).0 ≡ ok kind
        → P
            (suc i)
            k
            c
            p
            s
            (record { result = ok kind; cmd = (tried k c p s).1; pin = p; session = after k c p s })
    pub no_result :
        (i : ℕ) (k : Bool) (c : Cmd) (p : Option Pin) (s : Session Dev User Out)
        → (tried k c p s).0 ≡ stuck
        → P
            (suc i)
            k
            c
            p
            s
            (record { result = stuck; cmd = (tried k c p s).1; pin = p; session = after k c p s })
    pub gave_up :
        (i : ℕ) (k : Bool) (c : Cmd) (p : Option Pin) (s : Session Dev User Out)
        (e : AuthenticatorError)
        → (tried k c p s).0 ≡ err e
        → reaction {User = User} k e ≡ give_up
        → P
            (suc i)
            k
            c
            p
            s
            (record { result = err e; cmd = (tried k c p s).1; pin = p; session = after k c p s })
    pub reported :
        (i : ℕ) (k : Bool) (c : Cmd) (p : Option Pin) (s : Session Dev User Out)
        (e : AuthenticatorError) (u : StatusUpdate User)
        → (tried k c p s).0 ≡ err e
        → reaction k e ≡ report u
        → P (suc i) k c p s (record {
          result = err e;
          cmd = (tried k c p s).1;
          pin = p;
          session = send_status u (after k c p s);
        })
    pub dropped :
        (i : ℕ) (k : Bool) (c : Cmd) (p : Option Pin) (s : Session Dev User Out)
        (e : AuthenticatorError) (w : Bool) (n : Option ℕ) (k' : Bool)
        → (tried k c p s).0 ≡ err e
        → reaction {User = User} k e ≡ ask w n k'
        → s.answers ≡ []
        → P (suc i) k c p s (record {
          result = err cancelled_by_user;
          cmd = (tried k c p s).1;
          pin = p;
          session = send_status (question w n) (after k c p s);
        })
    pub answered :
        (i : ℕ) (k : Bool) (c : Cmd) (p : Option Pin) (s : Session Dev User Out)
        (e : AuthenticatorError) (w : Bool) (n : Option ℕ) (k' : Bool) (pin : Pin) (rest : List Pin)
        (q : Puap Cmd Dev Token User Out)
        → (device.alive s.dev).0 ≡ true
        → (tried k c p s).0 ≡ err e
        → reaction {User = User} k e ≡ ask w n k'
        → s.answers ≡ pin ∷ rest
        → P i k'
            (tried k c p s).1
            (some pin)
            (record (after k c p s) { updates = question w n ∷ s.updates; answers = rest })
            q
        → P (suc i) k c p s q
    pub retried :
        (i : ℕ) (k : Bool) (c : Cmd) (p : Option Pin) (s : Session Dev User Out)
        (e : AuthenticatorError) (u : StatusUpdate User) (k' : Bool)
        (q : Puap Cmd Dev Token User Out)
        → (device.alive s.dev).0 ≡ true
        → (tried k c p s).0 ≡ err e
        → reaction k e ≡ again u k'
        → P i k' (tried k c p s).1 p (send_status u (after k c p s)) q
        → P (suc i) k c p s q

  module _
      (P : ℕ
        → Bool
        → Cmd
        → Option Pin
        → Session Dev User Out
        → Puap Cmd Dev Token User Out
        → Type 0)
      (rounds : Rounds P) where
    -- A property that every way to end a round has, is one of the loop.
    pub determine_puap_if_needed-Rounds :
        (fuel : ℕ) (k : Bool) (c : Cmd) (p : Option Pin) (s : Session Dev User Out)
        → P fuel k c p s (determine_puap_if_needed device trait permission uv_req fuel k c p s)
    unfolding determine_puap_if_needed
    determine_puap_if_needed-Rounds zero k c p s = rounds.out_of_fuel k c p s
    determine_puap_if_needed-Rounds (suc fuel) k c p s = elim (Bool-cases (device.alive s.dev).0) [
      | inr f ↦ rw (determine_puap_if_needed, f) (rounds.stopped fuel k c p s f)
      | inl t ↦ elim (Result-cases (tried k c p s).0) [
        | inl (kind, r) ↦ rw (determine_puap_if_needed, t, r) (rounds.returned fuel k c p s kind r)
        | inr (inl r) ↦ rw (determine_puap_if_needed, t, r) (rounds.no_result fuel k c p s r)
        | inr (inr (e, r)) ↦ elim (Reaction-cases (reaction {User = User} k e)) [
          | inr (inr (inr g)) ↦
              rw (determine_puap_if_needed, t, r, g) (rounds.gave_up fuel k c p s e r g)
          | inr (inr (inl (u, g))) ↦
              rw (determine_puap_if_needed, t, r, g) (rounds.reported fuel k c p s e u r g)
          | inr (inl (u, k', g)) ↦
              rw (determine_puap_if_needed, t, r, g)
                (rounds.retried fuel k c p s e u k' _ t r g (
                  determine_puap_if_needed-Rounds fuel k' (tried k c p s).1 p
                    (send_status u (after k c p s))))
          | inl (w, n, k', g) ↦ elim (list-cases s.answers) [
            | inl none_left ↦
                let d = ask_user_for_pin_dropped w n (after k c p s) none_left in
                rw (determine_puap_if_needed, t, r, g, ap (λ x. x.0) d, ap (λ x. x.1) d)
                  (rounds.dropped fuel k c p s e w n k' r g none_left)
            | inr (pin, rest, a) ↦
                let d = ask_user_for_pin_answered w n (after k c p s) a in
                rw (determine_puap_if_needed, t, r, g, ap (λ x. x.0) d, ap (λ x. x.1) d)
                  (rounds.answered fuel k c p s e w n k' pin rest _ t r g a (
                    determine_puap_if_needed-Rounds fuel k' (tried k c p s).1 (some pin)
                      (record (after k c p s) {
                        updates = question w n ∷ s.updates;
                        answers = rest;
                      })))
          ]
        ]
      ]
    ]
