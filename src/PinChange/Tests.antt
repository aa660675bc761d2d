-- ===== src/PinChange/Tests.antt =====
-- A PIN that is changed: a current PIN that is wrong, then the right one.
use authenticator_rs.Common.{
  ◌-◌, ℕ, ◌≡◌, refl, List, [], ◌∷◌, Bool, true, false, Option, none, some, if◌then◌else◌, arith,
}
use authenticator_rs.ClientPin.{PinUvAuthProtocol, pin_uv_auth2, ClientPin, for_pin_token}
use authenticator_rs.Command.{SecretOperations}
use authenticator_rs.Dispatch.{loop}
use authenticator_rs.Errors.{HidResult, ok, done, failed}
use authenticator_rs.Hid.Device.{command}
use authenticator_rs.Info.{same_bytes}
use authenticator_rs.Puap.{Pin, PinDevice, Session, ask_pin_again}
use authenticator_rs.Puap.Honest.{honest, Tries, in_a_row, pin_info}
use authenticator_rs.Status.{StatusCode, status_code}
use authenticator_rs.PinChange.{set_or_change_pin}
use authenticator_rs.PinChange.Reports.{Reported, IsSetOn, set_or_change_pin-Reports}

abbrev right_pin : Pin
right_pin = 49 ∷ 50 ∷ 51 ∷ 52 ∷ []

abbrev wrong_pin : Pin
wrong_pin = 49 ∷ 49 ∷ 49 ∷ 49 ∷ []

abbrev new_pin : Pin
new_pin = 57 ∷ 56 ∷ 55 ∷ 54 ∷ []

-- The token knows the second protocol.
abbrev token : PinDevice Tries ℕ (Unit {0})
token = record (honest right_pin 7 8 true) {
  get_authenticator_info = λ n. some (record (pin_info true) { pin_protocols = some (2 ∷ []) });
}

abbrev accepts : Option (List ℕ) → Bool
accepts (some hash) = same_bytes hash right_pin
accepts none = false

abbrev send : ClientPin ℕ → Tries → HidResult (Unit {0}) × Tries
send request tries =
    if accepts request.pin_hash_enc
    then (done tt, (8, in_a_row))
    else (failed (command (status_code StatusCode.pin_invalid)), (tries.0 - 1, tries.1 - 1))

abbrev secrets : SecretOperations (Unit {0}) ℕ
secrets = record {
  encrypt = λ s bytes. some bytes;
  authenticate = λ s bytes. some bytes;
  client_input = λ s. 3;
}

abbrev protocol : Unit {0} → PinUvAuthProtocol
protocol s = pin_uv_auth2

abbrev hash_of : List ℕ → List ℕ
hash_of bytes = bytes

abbrev begun : Session Tries (Unit {0}) (Unit {0})
begun = record { dev = (8, 3); updates = []; answers = right_pin ∷ []; choices = []; called = [] }

-- The user is asked once, after the current PIN has failed.
changed :
    set_or_change_pin token send secrets protocol hash_of (some wrong_pin) new_pin 3 begun
    ≡ some (record begun {
      updates = ask_pin_again (some 7) ∷ [];
      dev = (8, 3);
      answers = [];
      called = ok tt ∷ [];
    })
unfolding set_or_change_pin loop for_pin_token
changed = refl

set_or_change_pin-Reports_example :
    Reported []
      (IsSetOn token send secrets protocol hash_of new_pin (8, 3))
      (set_or_change_pin token send secrets protocol hash_of (some wrong_pin) new_pin 3 begun)
set_or_change_pin-Reports_example =
    set_or_change_pin-Reports token send secrets protocol hash_of new_pin (some wrong_pin) 3 begun
      (omega arith)
