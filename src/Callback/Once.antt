-- ===== src/Callback/Once.antt =====
-- The callback of src/statecallback.rs runs once.
use authenticator_rs.Common.{
  ℕ, ◌≤◌, List, [], ◌∷◌, ◌≡◌, refl, ap, Bool, true, false, not, length, arith, inl, inr, Bool-cases,
}
use authenticator_rs.Callback.{
  StateCallback, new, observer, Step, make_clone, add_observer, call_with, apply, apply_all, call,
  call_observer, clone, add_uncloneable_observer, wait,
}

-- The argument of the first call, if there is one.
abbrev pub first_call : {T : Type 0} → List (Step T) → List T
first_call [] = []
first_call (call_with i rv ∷ xs) = rv ∷ []
first_call (make_clone ∷ xs) = first_call xs
first_call (add_observer i ∷ xs) = first_call xs

abbrev pub is_called : {T : Type 0} → List (Step T) → Bool
is_called [] = false
is_called (call_with i rv ∷ xs) = true
is_called (make_clone ∷ xs) = is_called xs
is_called (add_observer i ∷ xs) = is_called xs

module _ {T : Type 0} where
  -- What a sequence of steps comes to.
  abbrev pub Ran : List T → Bool → StateCallback T → Type 0
  Ran called ended sc = (sc.called ≡ called) × (wait sc ≡ ended) × (length sc.observed ≤ 1)

  -- Before the first call.
  abbrev IsFresh : StateCallback T → Type 0
  IsFresh sc = (sc.callback ≡ true) × (sc.pending ≡ true) × (sc.called ≡ []) × (sc.observed ≡ [])

  -- After it.
  abbrev IsSpent : T → StateCallback T → Type 0
  IsSpent rv sc =
      (sc.callback ≡ false)
      × (sc.pending ≡ false)
      × (sc.called ≡ rv ∷ [])
      × (length sc.observed ≤ 1)

  call-IsSpent : (i : ℕ) (rv : T) (sc : StateCallback T) → IsFresh sc → IsSpent rv (call i rv sc)
  unfolding call call_observer
  call-IsSpent i rv sc (c, p, l, o) =
      let n : length sc.observed ≡ 0 = ap length o in
      elim (Bool-cases (observer sc.observers i)) [
        | inl b ↦ rw (call, c, call_observer, b) (refl, refl, ap (λ t. rv ∷ t) l, omega arith)
        | inr b ↦ rw (call, c, call_observer, b) (refl, refl, ap (λ t. rv ∷ t) l, omega arith)
      ]

  apply-IsSpent :
      (rv : T) (x : Step T) (sc : StateCallback T) → IsSpent rv sc → IsSpent rv (apply x sc)
  unfolding apply clone add_uncloneable_observer call
  apply-IsSpent rv make_clone sc h = h
  apply-IsSpent rv (add_observer i) sc h = h
  apply-IsSpent rv (call_with i rv') sc (c, p, l, o) = rw (apply, call, c) (c, refl, l, o)

  apply_all-IsSpent :
      (rv : T) (xs : List (Step T)) (sc : StateCallback T)
      → IsSpent rv sc
      → IsSpent rv (apply_all xs sc)
  unfolding apply_all
  apply_all-IsSpent rv [] sc h = h
  apply_all-IsSpent rv (x ∷ xs) sc h =
      apply_all-IsSpent rv xs (apply x sc) (apply-IsSpent rv x sc h)

  apply_all-Ran :
      (xs : List (Step T)) (sc : StateCallback T)
      → IsFresh sc
      → Ran (first_call xs) (is_called xs) (apply_all xs sc)
  unfolding apply_all apply clone add_uncloneable_observer wait
  apply_all-Ran [] sc (c, p, l, o) =
      let n : length sc.observed ≡ 0 = ap length o in (l, ap not p, omega arith)
  apply_all-Ran (make_clone ∷ xs) sc h = apply_all-Ran xs (clone sc) h
  apply_all-Ran (add_observer i ∷ xs) sc h = apply_all-Ran xs (add_uncloneable_observer i sc) h
  apply_all-Ran (call_with i rv ∷ xs) sc h =
      let (c, p, l, o) = apply_all-IsSpent rv xs (call i rv sc) (call-IsSpent i rv sc h) in
      (l, ap not p, o)

  -- However its clones are used after `new`, one thing after the other, the callback has been called
  -- with the argument of the first call of any of them and with no other; `wait` returns exactly when
  -- there has been such a call; and at most one observer has been called.
  pub apply_all-new-Once :
      (xs : List (Step T)) → Ran (first_call xs) (is_called xs) (apply_all xs new)
  apply_all-new-Once xs = apply_all-Ran xs new (refl, refl, refl, refl)
