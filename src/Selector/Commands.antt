-- ===== src/Selector/Commands.antt =====
-- src/transport/device_selector.rs: whom the event loop tells what.
use mathlib.Core.Path.{subst}
use authenticator_rs.Common.{
  ℕ, ◌≡◌, ◌≢◌, refl, sym, ap, ◌∙◌, List, [], ◌∷◌, Bool, true, false, Option, some, arith,
  Bool-cases, inl, inr, ◌⊎◌, if◌then◌else◌,
}
use authenticator_rs.Selector.{
  DeviceCommand, cancel_command, selected_token, Wakeup, received, Selector, deliver, excludes,
  cancel_all, stop, on_event, on_wakeup, step,
}

-- A command has reached the device thread behind a channel.
abbrev pub Told : ℕ → DeviceCommand → List (ℕ × DeviceCommand) → Type 0
Told tx command [] = ⊥
Told tx command ((tx', command') ∷ sent) =
    ((tx ≡ tx') × (command ≡ command')) ⊎ Told tx command sent

Told-deliver :
    (up : ℕ → Bool) (tx tx' : ℕ) (command command' : DeviceCommand)
    (sent : List (ℕ × DeviceCommand))
    → Told tx command sent
    → Told tx command (deliver up tx' command' sent)
unfolding deliver
Told-deliver up tx tx' command command' sent h = elim (Bool-cases (up tx')) [
  | inl alive ↦ rw alive (inr h)
  | inr dead ↦ rw dead h
]

-- The map of the tokens has this id with this channel.
abbrev pub Held : ℕ → ℕ → List (ℕ × ℕ) → Type 0
Held id tx [] = ⊥
Held id tx ((id', tx') ∷ tokens) = ((id ≡ id') × (tx ≡ tx')) ⊎ Held id tx tokens

deliver-Told :
    (up : ℕ → Bool) (tx : ℕ) (command : DeviceCommand) (sent : List (ℕ × DeviceCommand))
    → up tx ≡ true
    → Told tx command (deliver up tx command sent)
unfolding deliver
deliver-Told up tx command sent h = rw h (inl (refl, refl))

module _ (up : ℕ → Bool) where
  Told-deliver_inv :
      (tx tx' : ℕ) (sent : List (ℕ × DeviceCommand))
      → Told tx cancel_command (deliver up tx' cancel_command sent)
      → (tx ≡ tx') ⊎ Told tx cancel_command sent
  unfolding deliver
  Told-deliver_inv tx tx' sent h = elim (Bool-cases (up tx')) [
    | inr dead ↦ inr (rw dead at h)
    | inl alive ↦
        elim (let h' : ((tx ≡ tx') × (cancel_command ≡ cancel_command))
              ⊎ Told tx cancel_command sent =
            rw alive at h in
          h') [ inl (q, _) ↦ inl q | inr old ↦ inr old ]
  ]

  Told-cancel_all :
      (tx : ℕ) (command : DeviceCommand) (tokens : List (ℕ × ℕ)) (exclude : Option ℕ)
      (sent : List (ℕ × DeviceCommand))
      → Told tx command sent
      → Told tx command (cancel_all up tokens exclude sent)
  unfolding cancel_all
  Told-cancel_all tx command [] exclude sent h = h
  Told-cancel_all tx command ((id, tx') ∷ tokens) exclude sent h =
      elim (Bool-cases (excludes up exclude id)) [
        | inl kept ↦ rw kept (Told-cancel_all tx command tokens exclude sent h)
        | inr told ↦ rw told (
            Told-cancel_all tx command tokens exclude _
              (Told-deliver up tx tx' command cancel_command sent h))
      ]

  -- Every token but the excluded one is told to cancel, if its thread is still there.
  cancel_all-Told :
      (id tx : ℕ) (tokens : List (ℕ × ℕ)) (exclude : Option ℕ) (sent : List (ℕ × DeviceCommand))
      → Held id tx tokens
      → up tx ≡ true
      → excludes up exclude id ≡ false
      → Told tx cancel_command (cancel_all up tokens exclude sent)
  unfolding cancel_all
  cancel_all-Told id tx [] exclude sent h alive other = absurd h
  cancel_all-Told id tx ((id', tx') ∷ tokens) exclude sent (inl (p, q)) alive other =
      let told : Told tx cancel_command (deliver up tx' cancel_command sent) =
        subst (λ t. Told tx cancel_command (deliver up t cancel_command sent)) q
          (deliver-Told up tx cancel_command sent alive) in
      rw (ap (excludes up exclude) (sym p) ∙ other)
        (Told-cancel_all tx cancel_command tokens exclude _ told)
  cancel_all-Told id tx ((id', tx') ∷ tokens) exclude sent (inr h) alive other =
      cancel_all-Told id tx tokens exclude _ h alive other

  -- Who is told to cancel was told before, or holds a token that is not excluded.
  Told-cancel_all_inv :
      (tx : ℕ) (tokens : List (ℕ × ℕ)) (exclude : Option ℕ) (sent : List (ℕ × DeviceCommand))
      → Told tx cancel_command (cancel_all up tokens exclude sent)
      → Told tx cancel_command sent
        ⊎ ((id : ℕ) × Held id tx tokens × (excludes up exclude id ≡ false))
  unfolding cancel_all
  Told-cancel_all_inv tx [] exclude sent h = inl h
  Told-cancel_all_inv tx ((id', tx') ∷ tokens) exclude sent h =
      elim (Told-cancel_all_inv tx tokens exclude _ h) [
        | inr (id, held, other) ↦ inr (id, inr held, other)
        | inl before ↦ elim (Bool-cases (excludes up exclude id')) [
          | inl kept ↦ inl (rw kept at before)
          | inr other ↦ elim (Told-deliver_inv tx tx' sent (rw other at before)) [
            | inl q ↦ inr (id', inl (refl, q), other)
            | inr old ↦ inl old
          ]
        ]
      ]

  pub step_running :
      (w : Wakeup) (s : Selector) → s.running ≡ true → step (up, w) s ≡ on_wakeup up w s
  unfolding step
  step_running w s r = ap (λ b. if b then on_wakeup up w s else s) r

  excludes_other : (id chosen : ℕ) → id ≢ chosen → excludes up (some chosen) id ≡ false
  unfolding excludes
  excludes_other id chosen h = ground arith

  excluded : (id chosen : ℕ) → excludes up (some chosen) id ≡ false → id ≢ chosen
  unfolding excludes
  excluded id chosen h = ground arith

  -- When a device thread reports that the user chose its token, the running loop stops and tells
  -- every other token whose thread is still there to cancel.
  pub selected_token_cancels :
      (chosen id tx : ℕ) (s : Selector)
      → s.running ≡ true
      → Held id tx s.tokens
      → up tx ≡ true
      → id ≢ chosen
      → let s' = step (up, received (selected_token chosen)) s in
        (s'.running ≡ false) × Told tx cancel_command s'.sent
  unfolding on_wakeup on_event stop
  selected_token_cancels chosen id tx s r held alive other =
      rw (step_running (received (selected_token chosen)) s r) (
        refl,
        cancel_all-Told id tx s.tokens (some chosen) s.sent held alive
            (excludes_other id chosen other),
      )

  -- When a device thread reports to the running loop that the user chose its token, nobody but the
  -- other tokens is told to cancel: a thread that has been told to after that step had been before,
  -- or is the thread of a token other than the chosen one.
  selected_token_spares :
      (chosen tx : ℕ) (s : Selector)
      → s.running ≡ true
      → Told tx cancel_command (step (up, received (selected_token chosen)) s).sent
      → Told tx cancel_command s.sent ⊎ ((id : ℕ) × Held id tx s.tokens × (id ≢ chosen))
  unfolding on_wakeup on_event stop
  selected_token_spares chosen tx s r told =
      elim (Told-cancel_all_inv tx s.tokens (some chosen) s.sent
        (rw (step_running (received (selected_token chosen)) s r) at told)) [
          | inl before ↦ inl before
          | inr (id, held, other) ↦ inr (id, held, excluded id chosen other)
        ]
