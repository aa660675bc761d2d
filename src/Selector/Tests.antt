-- ===== src/Selector/Tests.antt =====
-- The event loop of src/transport/device_selector.rs on concrete messages.
use authenticator_rs.Common.{
  ℕ, ◌≡◌, inl, inr, refl, List, [], ◌∷◌, Bool, true, false, none, some, map, arith,
}
use authenticator_rs.Selector.{
  cancel_command, continue_command, received, devices_added, im_a_token, not_a_token,
  selected_token, Selector, start, step, run, contains, on_wakeup, on_event, on_not_a_token, settle,
  set_remove, choose, cancel_all, deliver,
}
use authenticator_rs.Selector.Laws.{Once, run-start-Once}
use authenticator_rs.Selector.Commands.{Told, selected_token_cancels}
use authenticator_rs.Selector.FirstRound.{
  Answer, DistinctIds, SameIds, ids, tokens_of, verdict, wake, run_first_round,
}

-- Every thread is there.
abbrev all_up : ℕ → Bool
all_up tx = true

-- Two tokens blink, on channels 10 and 20.
abbrev two_blinking : Selector
two_blinking = record {
  running = true;
  blinking = true;
  waiting = [];
  tokens = (1, 10) ∷ (2, 20) ∷ [];
  sent = [];
}

-- One token blinks, and device 3 has not answered yet.
abbrev one_blinking : Selector
one_blinking = record {
  running = true;
  blinking = true;
  waiting = 3 ∷ [];
  tokens = (1, 10) ∷ [];
  sent = [];
}

run-start-Once_example : Once (
    run
      ((all_up, received (devices_added (1 ∷ []))) ∷ (all_up, received (im_a_token 1 10)) ∷ [])
      start)
run-start-Once_example =
    run-start-Once
      ((all_up, received (devices_added (1 ∷ []))) ∷ (all_up, received (im_a_token 1 10)) ∷ [])

selected_token_cancels_example :
    let s' = step (all_up, received (selected_token 1)) two_blinking in
    (s'.running ≡ false) × Told 20 cancel_command s'.sent
selected_token_cancels_example =
    selected_token_cancels all_up 1 2 20 two_blinking refl (inr (inl (refl, refl))) refl
      (λ e. absurd (omega arith))

-- Unlike a removed device, the last device that turns out to be no token ends the blinking: the one
-- token that is left is told to continue, without a touch.
blinking_ended :
    let s' = step (all_up, received (not_a_token 3)) one_blinking in
    (s'.running ≡ false) × (s'.tokens ≡ []) × (s'.sent ≡ (10, continue_command) ∷ [])
unfolding step on_wakeup on_event on_not_a_token settle set_remove choose cancel_all deliver
blinking_ended = (refl, refl, refl)

abbrev answers : List Answer
answers = (2, some 20) ∷ (3, none) ∷ (1, some 10) ∷ []

answers-DistinctIds : DistinctIds answers
answers-DistinctIds = (
  (λ e. absurd (omega arith), (λ e. absurd (omega arith), tt)),
  ((λ e. absurd (omega arith), tt), (tt, tt)),
)

answers-SameIds : SameIds (1 ∷ 2 ∷ 3 ∷ []) (ids answers)
unfolding contains
answers-SameIds x = ground arith

run_first_round_example :
    run
      ((all_up, received (devices_added (1 ∷ 2 ∷ 3 ∷ [])))
        ∷ map (wake all_up) ((2, some 20) ∷ (3, none) ∷ (1, some 10) ∷ []))
      start
    ≡ verdict (tokens_of ((2, some 20) ∷ (3, none) ∷ (1, some 10) ∷ []) [])
run_first_round_example =
    run_first_round all_up (1 ∷ 2 ∷ 3 ∷ []) 2 (some 20) ((3, none) ∷ (1, some 10) ∷ []) (λ tx. refl)
      answers-DistinctIds answers-SameIds
