-- ===== src/Callback/Tests.antt =====
-- A clone that calls the callback, and the one it was made of, which calls it again.
use authenticator_rs.Common.{List, ℕ, ◌∷◌, [], true}
use authenticator_rs.Callback.{Step, make_clone, add_observer, call_with, apply_all, new}
use authenticator_rs.Callback.Once.{Ran, apply_all-new-Once}

abbrev steps : List (Step ℕ)
steps = make_clone ∷ add_observer 0 ∷ add_observer 1 ∷ call_with 1 7 ∷ call_with 0 8 ∷ []

apply_all-new-Once_example : Ran (7 ∷ []) true (apply_all steps new)
apply_all-new-Once_example = apply_all-new-Once steps
