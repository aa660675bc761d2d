-- ===== src/Selector.antt =====
-- src/transport/device_selector.rs: the event loop of `DeviceSelector::run`, one step for each
-- message that it receives. A device id and a channel to a device thread are numbers.
mod Tests
pub mod Laws
pub mod Commands
pub mod FirstRound
use authenticator_rs.Common.{
  ℕ, suc, List, [], ◌∷◌, ◌++◌, Bool, true, false, not, ◌&&◌, Option, none, some, ◌==◌,
  if◌then◌else◌,
}

pub data DeviceCommand : Type 0 where
  blink cancel_command continue_command removed : DeviceCommand

pub data DeviceSelectorEvent : Type 0 where
  cancel timeout : DeviceSelectorEvent
  devices_added : List ℕ → DeviceSelectorEvent
  device_removed not_a_token : ℕ → DeviceSelectorEvent
  im_a_token : ℕ → ℕ → DeviceSelectorEvent
  selected_token : ℕ → DeviceSelectorEvent

-- What ends a wait: `alive()` is false, every sender is gone, 100 seconds have passed, or a message.
pub data Wakeup : Type 0 where
  not_alive disconnected timed_out : Wakeup
  received : DeviceSelectorEvent → Wakeup

-- `waiting` is the set `waiting_for_response`, `tokens` the map from ids to channels, each in the
-- order in which it would be iterated. `sent` holds the commands that reached a device thread with
-- their channels, the last one first. `running` is false after `break`.
pub record Selector : Type 0 where
  pub running : Bool
  pub blinking : Bool
  pub waiting : List ℕ
  pub tokens : List (ℕ × ℕ)
  pub sent : List (ℕ × DeviceCommand)

unfoldable pub start : Selector
start = record { running = true; blinking = false; waiting = []; tokens = []; sent = [] }

pub contains : ℕ → List ℕ → Bool
contains id [] = false
contains id (x ∷ xs) = if x == id then true else contains id xs

-- `HashSet::insert` and `HashSet::remove`
pub set_insert : ℕ → List ℕ → List ℕ
set_insert id xs = if contains id xs then xs else id ∷ xs

pub set_remove : ℕ → List ℕ → List ℕ
set_remove id [] = []
set_remove id (x ∷ xs) = if x == id then set_remove id xs else x ∷ set_remove id xs

-- `tokens.retain(|dev_id, _| dev_id != id)` and `HashMap::insert`
pub map_remove : ℕ → List (ℕ × ℕ) → List (ℕ × ℕ)
map_remove id [] = []
map_remove id ((x, tx) ∷ xs) = if x == id then map_remove id xs else (x, tx) ∷ map_remove id xs

pub map_insert : ℕ → ℕ → List (ℕ × ℕ) → List (ℕ × ℕ)
map_insert id tx tokens = (id, tx) ∷ map_remove id tokens

abbrev pub is_empty {ℓ} : {A : Type ℓ} → List A → Bool
is_empty [] = true
is_empty (x ∷ xs) = false

-- `up` tells of each channel whether its receiver is still there; a send fails if it is not.
module _ (up : ℕ → Bool) where
  pub deliver : ℕ → DeviceCommand → List (ℕ × DeviceCommand) → List (ℕ × DeviceCommand)
  deliver tx command sent = if up tx then (tx, command) ∷ sent else sent

  -- `tokens.iter().for_each(|(_dev, tx)| { let _ = tx.send(command); })`
  pub deliver_all :
      DeviceCommand → List (ℕ × ℕ) → List (ℕ × DeviceCommand) → List (ℕ × DeviceCommand)
  deliver_all command [] sent = sent
  deliver_all command ((id, tx) ∷ tokens) sent =
      deliver_all command tokens (deliver tx command sent)

  -- The loop of `DeviceRemoved` over the tokens.
  pub deliver_removed : ℕ → List (ℕ × ℕ) → List (ℕ × DeviceCommand) → List (ℕ × DeviceCommand)
  deliver_removed id [] sent = sent
  deliver_removed id ((x, tx) ∷ tokens) sent =
      deliver_removed id tokens (if x == id then deliver tx removed sent else sent)

  -- `Some(dev_id) != exclude`
  pub excludes : Option ℕ → ℕ → Bool
  excludes none id = false
  excludes (some x) id = x == id

  pub cancel_all : List (ℕ × ℕ) → Option ℕ → List (ℕ × DeviceCommand) → List (ℕ × DeviceCommand)
  cancel_all [] exclude sent = sent
  cancel_all ((id, tx) ∷ tokens) exclude sent =
      cancel_all tokens exclude
        (if excludes exclude id then sent else deliver tx cancel_command sent)

  -- The branches on `tokens.len()` at the end of the loop.
  pub choose : List (ℕ × ℕ) → Selector → Selector
  choose [] s = s
  choose ((id, tx) ∷ []) s =
      if up tx
      then record s {
        running = false;
        tokens = [];
        sent = cancel_all [] (some id) (deliver tx continue_command s.sent);
      }
      else record s { tokens = [] }
  choose (a ∷ b ∷ tokens) s = record s {
    blinking = true;
    sent = deliver_all blink (a ∷ b ∷ tokens) s.sent;
  }

  -- What follows the `match` in the loop.
  pub settle : Selector → Selector
  settle s = if is_empty s.waiting && not (is_empty s.tokens) then choose s.tokens s else s

  pub on_devices_added : List ℕ → Selector → Selector
  on_devices_added [] s = s
  on_devices_added (id ∷ ids) s =
      on_devices_added ids (record s { waiting = set_insert id s.waiting })

  -- The code after the removal: a blinking selector goes on waiting.
  pub settle_unless_blinking : Selector → Selector
  settle_unless_blinking s = if s.blinking then s else settle s

  pub on_device_removed : ℕ → Selector → Selector
  on_device_removed id s =
      if contains id s.waiting
      then settle_unless_blinking (record s { waiting = set_remove id s.waiting })
      else let s' = record s {
        tokens = map_remove id s.tokens;
        sent = deliver_removed id s.tokens s.sent;
      } in
        if is_empty s'.tokens then record s' { blinking = false } else settle_unless_blinking s'

  pub on_not_a_token : ℕ → Selector → Selector
  on_not_a_token id s = settle (record s { waiting = set_remove id s.waiting })

  pub on_im_a_token : ℕ → ℕ → Selector → Selector
  on_im_a_token id tx s =
      let s' = record s { waiting = set_remove id s.waiting } in
      if s.blinking
      then if up tx
        then record s' { tokens = map_insert id tx s.tokens; sent = deliver tx blink s.sent }
        else s'
      else settle (record s' { tokens = map_insert id tx s.tokens })

  -- `cancel_all` takes the map, so nothing is left of it after `break`.
  pub stop : Option ℕ → Selector → Selector
  stop exclude s = record s {
    running = false;
    tokens = [];
    sent = cancel_all s.tokens exclude s.sent;
  }

  pub on_event : DeviceSelectorEvent → Selector → Selector
  on_event timeout s = stop none s
  on_event cancel s = stop none s
  on_event (selected_token id) s = stop (some id) s
  on_event (devices_added ids) s = on_devices_added ids s
  on_event (device_removed id) s = on_device_removed id s
  on_event (not_a_token id) s = on_not_a_token id s
  on_event (im_a_token id tx) s = on_im_a_token id tx s

  pub on_wakeup : Wakeup → Selector → Selector
  on_wakeup not_alive s = record s { running = false; tokens = [] }
  on_wakeup disconnected s = record s { running = false; tokens = [] }
  on_wakeup timed_out s = on_event timeout s
  on_wakeup (received event) s = on_event event s

-- One round of the loop, and the loop over what wakes it, each with the channels that are up then.
pub step : (ℕ → Bool) × Wakeup → Selector → Selector
step (up, wakeup) s = if s.running then on_wakeup up wakeup s else s

pub run : List ((ℕ → Bool) × Wakeup) → Selector → Selector
run [] s = s
run (w ∷ ws) s = run ws (step w s)
