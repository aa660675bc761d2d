-- ===== src/Callback.antt =====
-- src/statecallback.rs: a callback that its clones share, and that runs once. The clones are numbered
-- in the order in which they are made; what they share is a state. A method runs to its end, as it
-- does in the source under its locks; `wait` is the test that it waits for.
mod Tests
pub mod Once
use authenticator_rs.Common.{
  ℕ, zero, suc, List, [], ◌∷◌, ◌++◌, Bool, true, false, not, Option, none, some, get_elem?,
}

-- The cells behind `StateCallback`: whether the callback is still there, the observer of each clone,
-- `pending`, and what has been called: the arguments of the callback, and whose observers, the last
-- first.
pub record StateCallback (T : Type 0) : Type 0 where
  pub callback : Bool
  pub observers : List Bool
  pub pending : Bool
  pub called : List T
  pub observed : List ℕ

abbrev pub new : {T : Type 0} → StateCallback T
new = record { callback = true; observers = false ∷ []; pending = true; called = []; observed = [] }

-- The observer of a clone; a number that no clone has stands for none.
abbrev pub observer : List Bool → ℕ → Bool
observer observers clone = elim (get_elem? observers clone) [ some b ↦ b | none ↦ false ]

abbrev pub set_observer : Bool → List Bool → ℕ → List Bool
set_observer b [] clone = []
set_observer b (o ∷ os) zero = b ∷ os
set_observer b (o ∷ os) (suc clone) = o ∷ set_observer b os clone

module _ {T : Type 0} where
  -- `clone`: an observer stays with the clone that it was added to.
  unfoldable pub clone : StateCallback T → StateCallback T
  clone sc = record sc { observers = sc.observers ++ (false ∷ []) }

  unfoldable pub add_uncloneable_observer : ℕ → StateCallback T → StateCallback T
  add_uncloneable_observer i sc = record sc { observers = set_observer true sc.observers i }

  -- `if let Some(obs) = .. .take()`
  unfoldable pub call_observer : ℕ → StateCallback T → StateCallback T
  call_observer i sc = elim (observer sc.observers i) [
    | true ↦ record sc { observers = set_observer false sc.observers i; observed = i ∷ sc.observed }
    | false ↦ sc
  ]

  unfoldable pub call : ℕ → T → StateCallback T → StateCallback T
  unfolding call_observer
  call i rv sc = elim sc.callback [
    | true ↦ record (call_observer i (record sc { callback = false; called = rv ∷ sc.called })) {
      pending = false;
    }
    | false ↦ record sc { pending = false }
  ]

  -- Whether `wait` returns.
  unfoldable pub wait : StateCallback T → Bool
  wait sc = not sc.pending

-- What is done to the clones, one thing after the other.
pub data Step (T : Type 0) : Type 0 where
  make_clone : Step T
  add_observer : ℕ → Step T
  call_with : ℕ → T → Step T

unfoldable pub apply : {T : Type 0} → Step T → StateCallback T → StateCallback T
unfolding clone add_uncloneable_observer call
apply make_clone sc = clone sc
apply (add_observer i) sc = add_uncloneable_observer i sc
apply (call_with i rv) sc = call i rv sc

unfoldable pub apply_all : {T : Type 0} → List (Step T) → StateCallback T → StateCallback T
unfolding apply
apply_all [] sc = sc
apply_all (x ∷ xs) sc = apply_all xs (apply x sc)
