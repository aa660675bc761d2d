-- ===== src/Selector/FirstRound.antt =====
-- src/transport/device_selector.rs: the first round of answers, from the start of the event loop.
use mathlib.Core.List.{reverse, reverse-cons}
use authenticator_rs.Common.{
  ℕ, ◌≡◌, ◌≢◌, refl, sym, ap, ◌∙◌, List, [], ◌∷◌, ◌++◌, Bool, true, false, Option, none, some,
  arith, if◌then◌else◌, ==_self, ◌==◌, map, append_assoc, append-nil,
}
use authenticator_rs.Selector.{
  DeviceCommand, blink, continue_command, DeviceSelectorEvent, devices_added, not_a_token,
  im_a_token, Wakeup, received, Selector, start, deliver, deliver_all, cancel_all, choose, settle,
  on_devices_added, on_not_a_token, on_im_a_token, on_event, on_wakeup, step, run, is_empty,
  contains, set_insert, set_remove, map_remove, map_insert,
}

-- The answer of a device: the channel to its thread, if it is a token.
abbrev pub Answer : Type 0
Answer = ℕ × Option ℕ

abbrev pub answer_event : Answer → DeviceSelectorEvent
answer_event (id, none) = not_a_token id
answer_event (id, some tx) = im_a_token id tx

-- The tokens among the devices that answered, the last one first.
abbrev pub tokens_of : List Answer → List (ℕ × ℕ) → List (ℕ × ℕ)
tokens_of [] tokens = tokens
tokens_of ((id, none) ∷ answers) tokens = tokens_of answers tokens
tokens_of ((id, some tx) ∷ answers) tokens = tokens_of answers ((id, tx) ∷ tokens)

-- No device answers twice.
abbrev pub Fresh : ℕ → List Answer → Type 0
Fresh id [] = Unit {0}
Fresh id ((id', r) ∷ answers) = (id ≢ id') × Fresh id answers

abbrev pub DistinctIds : List Answer → Type 0
DistinctIds [] = Unit {0}
DistinctIds ((id, r) ∷ answers) = Fresh id answers × DistinctIds answers

-- No token has this id.
abbrev Absent : ℕ → List (ℕ × ℕ) → Type 0
Absent id [] = Unit {0}
Absent id ((id', tx) ∷ tokens) = (id ≢ id') × Absent id tokens

abbrev AllAbsent : List Answer → List (ℕ × ℕ) → Type 0
AllAbsent [] tokens = Unit {0}
AllAbsent ((id, r) ∷ answers) tokens = Absent id tokens × AllAbsent answers tokens

map_remove-Absent :
    (id : ℕ) (tokens : List (ℕ × ℕ)) → Absent id tokens → map_remove id tokens ≡ tokens
unfolding map_remove
map_remove-Absent id [] h = refl
map_remove-Absent id ((id', tx) ∷ tokens) h = ground (arith, map_remove-Absent id tokens)

AllAbsent-cons :
    (id tx : ℕ) (answers : List Answer) (tokens : List (ℕ × ℕ))
    → Fresh id answers
    → AllAbsent answers tokens
    → AllAbsent answers ((id, tx) ∷ tokens)
AllAbsent-cons id tx [] tokens f h = tt
AllAbsent-cons id tx ((id', r) ∷ answers) tokens f h =
    ((λ e. f.0 (sym e), h.0), AllAbsent-cons id tx answers tokens f.1 h.1)

contains-set_remove :
    (x id : ℕ) (xs : List ℕ)
    → contains x (set_remove id xs) ≡ (if x == id then false else contains x xs)
unfolding contains set_remove
contains-set_remove x id [] = ground arith
contains-set_remove x id (y ∷ ys) = ground (arith, contains-set_remove x id ys)

contains-set_insert :
    (x id : ℕ) (xs : List ℕ)
    → contains x (set_insert id xs) ≡ (if x == id then true else contains x xs)
unfolding contains set_insert
contains-set_insert x id xs = ground arith

empty_of_contains : (xs : List ℕ) → ((x : ℕ) → contains x xs ≡ false) → xs ≡ []
unfolding contains
empty_of_contains [] h = refl
empty_of_contains (y ∷ ys) h = ground (arith, h y)

not_empty_of_contains : (x : ℕ) (xs : List ℕ) → contains x xs ≡ true → is_empty xs ≡ false
unfolding contains
not_empty_of_contains x [] h = cc
not_empty_of_contains x (y ∷ ys) h = refl

abbrev pub ids : List Answer → List ℕ
ids [] = []
ids ((id, r) ∷ answers) = id ∷ ids answers

-- The same devices, in any order.
abbrev pub SameIds : List ℕ → List ℕ → Type 0
SameIds xs ys = (x : ℕ) → contains x xs ≡ contains x ys

Fresh-contains :
    (id : ℕ) (answers : List Answer) → Fresh id answers → contains id (ids answers) ≡ false
unfolding contains
Fresh-contains id [] f = refl
Fresh-contains id ((id', r) ∷ answers) f = ground (arith, Fresh-contains id answers)

SameIds-remove :
    (id : ℕ) (r : Option ℕ) (answers : List Answer) (waiting : List ℕ)
    → Fresh id answers
    → SameIds waiting (ids ((id, r) ∷ answers))
    → SameIds (set_remove id waiting) (ids answers)
unfolding contains
SameIds-remove id r answers waiting f h x =
    ground (arith, contains-set_remove x id waiting, h x, Fresh-contains id answers)

-- A running selector that has sent nothing yet.
abbrev pub asking : List ℕ → List (ℕ × ℕ) → Selector
asking waiting tokens = record {
  running = true;
  blinking = false;
  waiting = waiting;
  tokens = tokens;
  sent = [];
}

-- How the first round ends: without a token the selector waits on, one token is told to continue and
-- the loop stops, and of several tokens each is told to blink.
abbrev pub verdict : List (ℕ × ℕ) → Selector
verdict [] = asking [] []
verdict ((id, tx) ∷ []) = record {
  running = false;
  blinking = false;
  waiting = [];
  tokens = [];
  sent = (tx, continue_command) ∷ [];
}
verdict (a ∷ b ∷ tokens) = record {
  running = true;
  blinking = true;
  waiting = [];
  tokens = a ∷ b ∷ tokens;
  sent = reverse (map (λ t. (t.1, blink)) (a ∷ b ∷ tokens));
}

-- The message that brings an answer, with the channels that are up then.
abbrev pub wake : (ℕ → Bool) → Answer → (ℕ → Bool) × Wakeup
wake up answer = (up, received (answer_event answer))

contains_nil : (x : ℕ) → contains x [] ≡ false
unfolding contains
contains_nil x = refl

contains_head : (x : ℕ) (xs : List ℕ) → contains x (x ∷ xs) ≡ true
unfolding contains
contains_head x xs = rw (==_self x)

inserted : List ℕ → List ℕ → List ℕ
inserted [] waiting = waiting
inserted (id ∷ added) waiting = inserted added (set_insert id waiting)

contains-inserted :
    (x : ℕ) (added waiting : List ℕ)
    → contains x (inserted added waiting) ≡ (if contains x added then true else contains x waiting)
unfolding inserted contains
contains-inserted x [] waiting = refl
contains-inserted x (id ∷ added) waiting =
    ground
      (arith, contains-inserted x added (set_insert id waiting), contains-set_insert x id waiting)

contains_or_nil :
    (x : ℕ) (xs : List ℕ) → (if contains x xs then true else contains x []) ≡ contains x xs
contains_or_nil x xs = ground (arith, contains_nil x)

AllAbsent-nil : (answers : List Answer) → AllAbsent answers []
AllAbsent-nil [] = tt
AllAbsent-nil ((id, r) ∷ answers) = (tt, AllAbsent-nil answers)

module _ (up : ℕ → Bool) (all_up : (tx : ℕ) → up tx ≡ true) where
  deliver_all_lem :
      (command : DeviceCommand) (tokens : List (ℕ × ℕ)) (sent : List (ℕ × DeviceCommand))
      → deliver_all up command tokens sent ≡ reverse (map (λ t. (t.1, command)) tokens) ++ sent
  unfolding deliver_all deliver
  deliver_all_lem command [] sent = refl
  deliver_all_lem command ((id, tx) ∷ tokens) sent =
      let told : List (ℕ × DeviceCommand) = map (λ t. (t.1, command)) tokens in
      rw all_up (
        deliver_all_lem command tokens ((tx, command) ∷ sent)
        ∙ sym (append_assoc (reverse told) ((tx, command) ∷ []) sent)
        ∙ ap (λ l. l ++ sent) (sym (reverse-cons (tx, command) told)))

  settle-verdict : (tokens : List (ℕ × ℕ)) → settle up (asking [] tokens) ≡ verdict tokens
  unfolding settle choose deliver cancel_all
  settle-verdict [] = refl
  settle-verdict ((id, tx) ∷ []) = rw all_up
  settle-verdict (a ∷ b ∷ tokens) =
      ap (λ l. record (verdict (a ∷ b ∷ tokens)) { sent = l })
        (deliver_all_lem blink (a ∷ b ∷ tokens) [] ∙ append-nil _)

  settle_waiting :
      (waiting : List ℕ) (tokens : List (ℕ × ℕ))
      → is_empty waiting ≡ false
      → settle up (asking waiting tokens) ≡ asking waiting tokens
  unfolding settle
  settle_waiting waiting tokens h = rw h

  -- One answer takes the device off the set, and adds it to the tokens if it is one.
  step-answer_event :
      (id : ℕ) (r : Option ℕ) (waiting : List ℕ) (tokens : List (ℕ × ℕ))
      → Absent id tokens
      → step (up, received (answer_event (id, r))) (asking waiting tokens)
        ≡ settle up (asking (set_remove id waiting) (tokens_of ((id, r) ∷ []) tokens))
  unfolding step on_wakeup on_event on_not_a_token on_im_a_token map_insert
  step-answer_event id none waiting tokens h = refl
  step-answer_event id (some tx) waiting tokens h =
      ap (λ l. settle up (asking (set_remove id waiting) ((id, tx) ∷ l)))
        (map_remove-Absent id tokens h)

  tokens_of-AllAbsent :
      (id : ℕ) (r : Option ℕ) (answers : List Answer) (tokens : List (ℕ × ℕ))
      → Fresh id answers
      → AllAbsent answers tokens
      → AllAbsent answers (tokens_of ((id, r) ∷ []) tokens)
  tokens_of-AllAbsent id none answers tokens f h = h
  tokens_of-AllAbsent id (some tx) answers tokens f h = AllAbsent-cons id tx answers tokens f h

  tokens_of-tokens_of :
      (id : ℕ) (r : Option ℕ) (answers : List Answer) (tokens : List (ℕ × ℕ))
      → tokens_of answers (tokens_of ((id, r) ∷ []) tokens) ≡ tokens_of ((id, r) ∷ answers) tokens
  tokens_of-tokens_of id none answers tokens = refl
  tokens_of-tokens_of id (some tx) answers tokens = refl

  run_answers :
      (id : ℕ) (r : Option ℕ) (answers : List Answer) (waiting : List ℕ) (tokens : List (ℕ × ℕ))
      → DistinctIds ((id, r) ∷ answers)
      → AllAbsent ((id, r) ∷ answers) tokens
      → SameIds waiting (ids ((id, r) ∷ answers))
      → run (map (wake up) ((id, r) ∷ answers)) (asking waiting tokens)
        ≡ verdict (tokens_of ((id, r) ∷ answers) tokens)
  unfolding run
  run_answers id r [] waiting tokens dist abs same =
      let none_left : set_remove id waiting ≡ [] =
        empty_of_contains _ (λ x. SameIds-remove id r [] waiting tt same x ∙ contains_nil x) in
      step-answer_event id r waiting tokens abs.0
      ∙ ap (λ w. settle up (asking w (tokens_of ((id, r) ∷ []) tokens))) none_left
      ∙ settle-verdict (tokens_of ((id, r) ∷ []) tokens)
  run_answers id r ((id', r') ∷ answers) waiting tokens dist abs same =
      let rest : List Answer = (id', r') ∷ answers in
      let left : SameIds (set_remove id waiting) (ids rest) =
        SameIds-remove id r rest waiting dist.0 same in
      let more : is_empty (set_remove id waiting) ≡ false =
        not_empty_of_contains id' _ (left id' ∙ contains_head id' (ids answers)) in
      ap (run (map (wake up) rest)) (
        step-answer_event id r waiting tokens abs.0
        ∙ settle_waiting _ (tokens_of ((id, r) ∷ []) tokens) more)
      ∙ run_answers id' r' answers (set_remove id waiting) (tokens_of ((id, r) ∷ []) tokens) dist.1
          (tokens_of-AllAbsent id r rest tokens dist.0 abs.1) left
      ∙ ap verdict (tokens_of-tokens_of id r rest tokens)

  on_devices_added-inserted :
      (added waiting : List ℕ) (tokens : List (ℕ × ℕ))
      → on_devices_added up added (asking waiting tokens) ≡ asking (inserted added waiting) tokens
  unfolding on_devices_added inserted
  on_devices_added-inserted [] waiting tokens = refl
  on_devices_added-inserted (id ∷ added) waiting tokens =
      on_devices_added-inserted added (set_insert id waiting) tokens

-- From the start of the loop: if some devices are added, all of them answer once, in any order, and
-- every channel is up, then the selector ends as `verdict` says of the tokens among them: without a
-- token it waits on, of one token it tells the thread to continue and stops, and of several it tells
-- each to blink and goes on blinking. (At least one device answers.)
pub run_first_round :
    (up : ℕ → Bool) (added : List ℕ) (id : ℕ) (r : Option ℕ) (answers : List Answer)
    → ((tx : ℕ) → up tx ≡ true)
    → DistinctIds ((id, r) ∷ answers)
    → SameIds added (ids ((id, r) ∷ answers))
    → run ((up, received (devices_added added)) ∷ map (wake up) ((id, r) ∷ answers)) start
      ≡ verdict (tokens_of ((id, r) ∷ answers) [])
unfolding run start step on_wakeup on_event
run_first_round up added id r answers all_up dist same =
    let all : List Answer = (id, r) ∷ answers in
    ap (run (map (wake up) all)) (on_devices_added-inserted up all_up added [] [])
    ∙ run_answers up all_up id r answers (inserted added []) [] dist (AllAbsent-nil all)
        (λ x. contains-inserted x added [] ∙ contains_or_nil x added ∙ same x)
