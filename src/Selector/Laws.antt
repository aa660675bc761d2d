-- ===== src/Selector/Laws.antt =====
-- src/transport/device_selector.rs: safety of the event loop, after any run.
use authenticator_rs.Common.{
  ℕ, ◌+◌, ◌≤◌, ◌≡◌, refl, List, [], ◌∷◌, Bool, true, Option, none, some, arith, if◌then◌else◌,
}
use authenticator_rs.Selector.{
  DeviceCommand, blink, cancel_command, continue_command, removed, DeviceSelectorEvent, cancel,
  timeout, devices_added, device_removed, not_a_token, im_a_token, selected_token, Wakeup,
  not_alive, disconnected, timed_out, received, Selector, start, deliver, deliver_all,
  deliver_removed, cancel_all, choose, settle, settle_unless_blinking, on_devices_added,
  on_device_removed, on_not_a_token, on_im_a_token, stop, on_event, on_wakeup, step, run,
  set_remove, map_remove, map_insert,
}

abbrev pub is_continue : DeviceCommand → ℕ
is_continue continue_command = 1
is_continue _ = 0

-- How many `Continue` commands have reached a device thread.
abbrev pub continues : List (ℕ × DeviceCommand) → ℕ
continues [] = 0
continues ((tx, command) ∷ sent) = is_continue command + continues sent

module _ (up : ℕ → Bool) where
  continues-deliver :
      (tx : ℕ) (command : DeviceCommand) (sent : List (ℕ × DeviceCommand))
      → continues sent ≤ continues (deliver up tx command sent)
        × (continues (deliver up tx command sent) ≤ is_continue command + continues sent)
  unfolding deliver
  continues-deliver tx command sent = ground arith

  continues-deliver_all :
      (tokens : List (ℕ × ℕ)) (sent : List (ℕ × DeviceCommand))
      → continues (deliver_all up blink tokens sent) ≡ continues sent
  unfolding deliver_all
  continues-deliver_all [] sent = refl
  continues-deliver_all ((id, tx) ∷ tokens) sent = omega (
    arith,
    continues-deliver_all tokens (deliver up tx blink sent),
    continues-deliver tx blink sent,
  )

  continues-deliver_removed :
      (id : ℕ) (tokens : List (ℕ × ℕ)) (sent : List (ℕ × DeviceCommand))
      → continues (deliver_removed up id tokens sent) ≡ continues sent
  unfolding deliver_removed
  continues-deliver_removed id [] sent = refl
  continues-deliver_removed id ((x, tx) ∷ tokens) sent = ground (
    arith,
    continues-deliver_removed id tokens (deliver up tx removed sent),
    continues-deliver_removed id tokens sent,
    continues-deliver tx removed sent,
  )

  continues-cancel_all :
      (tokens : List (ℕ × ℕ)) (exclude : Option ℕ) (sent : List (ℕ × DeviceCommand))
      → continues (cancel_all up tokens exclude sent) ≡ continues sent
  unfolding cancel_all
  continues-cancel_all [] exclude sent = refl
  continues-cancel_all ((id, tx) ∷ tokens) exclude sent = ground (
    arith,
    continues-cancel_all tokens exclude (deliver up tx cancel_command sent),
    continues-cancel_all tokens exclude sent,
    continues-deliver tx cancel_command sent,
  )

-- No `Continue` was sent while the loop runs, and one at most when it has ended.
abbrev pub Once : Selector → Type 0
Once s = continues s.sent ≤ (if s.running then 0 else 1)

module _ (up : ℕ → Bool) where
  choose-Once :
      (tokens : List (ℕ × ℕ)) (s : Selector) → s.running ≡ true → Once s → Once (choose up tokens s)
  unfolding choose
  choose-Once [] s r h = h
  choose-Once ((id, tx) ∷ []) s r h = ground (
    arith,
    continues-cancel_all up [] (some id) (deliver up tx continue_command s.sent),
    continues-deliver up tx continue_command s.sent,
  )
  choose-Once (a ∷ b ∷ tokens) s r h =
      ground (arith, continues-deliver_all up (a ∷ b ∷ tokens) s.sent)

  settle-Once : (s : Selector) → s.running ≡ true → Once s → Once (settle up s)
  unfolding settle
  settle-Once s r h = ground (arith, choose-Once s.tokens s)

  on_devices_added-Once : (ids : List ℕ) (s : Selector) → Once s → Once (on_devices_added up ids s)
  unfolding on_devices_added
  on_devices_added-Once [] s h = h
  on_devices_added-Once (id ∷ ids) s h = on_devices_added-Once ids _ h

  settle_unless_blinking-Once :
      (s : Selector) → s.running ≡ true → Once s → Once (settle_unless_blinking up s)
  unfolding settle_unless_blinking
  settle_unless_blinking-Once s r h = ground (arith, settle-Once s)

  on_device_removed-Once :
      (id : ℕ) (s : Selector) → s.running ≡ true → Once s → Once (on_device_removed up id s)
  unfolding on_device_removed
  on_device_removed-Once id s r h =
      let kept : Selector = record s { waiting = set_remove id s.waiting } in
      let dropped : Selector = record s {
        tokens = map_remove id s.tokens;
        sent = deliver_removed up id s.tokens s.sent;
      } in
      ground (
        arith,
        settle_unless_blinking-Once kept,
        settle_unless_blinking-Once dropped,
        continues-deliver_removed up id s.tokens s.sent,
      )

  on_im_a_token-Once :
      (id tx : ℕ) (s : Selector) → s.running ≡ true → Once s → Once (on_im_a_token up id tx s)
  unfolding on_im_a_token
  on_im_a_token-Once id tx s r h = ground (
    arith,
    settle-Once
        (record s { waiting = set_remove id s.waiting; tokens = map_insert id tx s.tokens }),
    continues-deliver up tx blink s.sent,
  )

  stop-Once :
      (exclude : Option ℕ) (s : Selector) → s.running ≡ true → Once s → Once (stop up exclude s)
  unfolding stop
  stop-Once exclude s r h = ground (arith, continues-cancel_all up s.tokens exclude s.sent)

  on_event-Once :
      (e : DeviceSelectorEvent) (s : Selector) → s.running ≡ true → Once s → Once (on_event up e s)
  unfolding on_event on_not_a_token
  on_event-Once timeout s r h = stop-Once none s r h
  on_event-Once cancel s r h = stop-Once none s r h
  on_event-Once (selected_token id) s r h = stop-Once (some id) s r h
  on_event-Once (devices_added ids) s r h = on_devices_added-Once ids s h
  on_event-Once (device_removed id) s r h = on_device_removed-Once id s r h
  on_event-Once (not_a_token id) s r h =
      settle-Once (record s { waiting = set_remove id s.waiting }) r h
  on_event-Once (im_a_token id tx) s r h = on_im_a_token-Once id tx s r h

  on_wakeup-Once : (w : Wakeup) (s : Selector) → s.running ≡ true → Once s → Once (on_wakeup up w s)
  unfolding on_wakeup
  on_wakeup-Once not_alive s r h = ground arith
  on_wakeup-Once disconnected s r h = ground arith
  on_wakeup-Once timed_out s r h = on_event-Once timeout s r h
  on_wakeup-Once (received e) s r h = on_event-Once e s r h

step-Once : (up : ℕ → Bool) (w : Wakeup) (s : Selector) → Once s → Once (step (up, w) s)
unfolding step
step-Once up w s h = ground (arith, on_wakeup-Once up w s)

run-Once : (ws : List ((ℕ → Bool) × Wakeup)) (s : Selector) → Once s → Once (run ws s)
unfolding run
run-Once [] s h = h
run-Once ((up, w) ∷ ws) s h = run-Once ws (step (up, w) s) (step-Once up w s h)

-- After any sequence of messages, timeouts and lost channels, the selector has told at most one
-- device thread to continue, and none as long as its loop runs.
pub run-start-Once : (ws : List ((ℕ → Bool) × Wakeup)) → Once (run ws start)
unfolding start
run-start-Once ws = run-Once ws start (omega arith)
