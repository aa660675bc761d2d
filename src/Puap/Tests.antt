-- ===== src/Puap/Tests.antt =====
-- Runs of the functions of the parent, and the theorems below it at concrete tokens.
use authenticator_rs.Common.{
  ℕ, ◌+◌, ◌≡◌, refl, List, [], ◌∷◌, true, false, Option, none, some, arith,
}
use authenticator_rs.Command.{GetAssertion, UserEntity, rp_from, get_assertion}
use authenticator_rs.Command.Setters.{get_assertion-Laws}
use authenticator_rs.Errors.{ok, err, pin_error, pin_blocked, pin_auth_blocked}
use authenticator_rs.Puap.{
  Pin, Session, PinDevice, preferred, pin_is_blocked, auth_is_blocked, ask_pin, ask_pin_again,
  success_using_pin, determine_puap_if_needed,
}
use authenticator_rs.Puap.Honest.{
  honest, Tries, in_a_row, determine_puap_if_needed-honest, complaints, by_pin,
}
use authenticator_rs.Puap.Laws.{AgreesIfOk}
use authenticator_rs.Puap.Method.{SparesUv, determine_puap_if_needed-SparesUv}
use authenticator_rs.Puap.Param.{determine_puap_if_needed-Agrees}
use authenticator_rs.Puap.Prompts.{
  Announced, Uses, determine_puap_if_needed-Announced, determine_puap_if_needed-Uses,
}

abbrev derive : ℕ → List ℕ → Option ℕ
derive token hash = some (token + 1)

abbrev Cmd : Type 0
Cmd = GetAssertion ℕ (Unit {0})

abbrev request : Cmd
request = record {
  client_data_hash = 9 ∷ [];
  rp = rp_from (1 ∷ []);
  allow_list = [];
  extensions = record { app_id = none; hmac_secret = none };
  options = record { user_verification = none; user_presence = some true };
  pin_uv_auth_param = none;
}

abbrev right : Pin
right = 1 ∷ 2 ∷ []

abbrev wrong : Pin
wrong = 3 ∷ []

abbrev token_number : ℕ
token_number = 7

abbrev tries : ℕ
tries = 8

abbrev fuel : ℕ
fuel = 5

abbrev permission : ℕ
permission = 2

abbrev token : PinDevice Tries ℕ (Unit {0})
token = honest right token_number tries true

abbrev asked_for : ℕ → List Pin → Session Tries UserEntity (Unit {0})
asked_for left answers = record {
  dev = (left, in_a_row);
  updates = [];
  answers = answers;
  choices = [];
  called = [];
}

abbrev wrong_then_right : List Pin
wrong_then_right = wrong ∷ right ∷ []

-- One wrong PIN, then the right one.
verified :
    let q =
      determine_puap_if_needed token
        (get_assertion derive)
        permission
        preferred
        fuel
        false
        request
        none
        (asked_for 3 wrong_then_right) in
    (q.result ≡ ok (success_using_pin token_number))
    × (q.session.updates ≡ ask_pin_again (some 2) ∷ ask_pin ∷ [])
    × (q.cmd.pin_uv_auth_param ≡ derive token_number [])
unfolding determine_puap_if_needed
verified = (refl, refl, refl)

-- The third wrong PIN in a row.
too_many :
    let q =
      determine_puap_if_needed token
        (get_assertion derive)
        permission
        preferred
        fuel
        false
        request
        none
        (asked_for 8 (wrong ∷ wrong ∷ wrong ∷ [])) in
    (q.result ≡ err (pin_error pin_auth_blocked))
    × (q.session.updates
        ≡ auth_is_blocked ∷ ask_pin_again (some 6) ∷ ask_pin_again (some 7) ∷ ask_pin ∷ [])
unfolding determine_puap_if_needed
too_many = (refl, refl)

-- No tries are left.
blocked :
    let q =
      determine_puap_if_needed token
        (get_assertion derive)
        permission
        preferred
        fuel
        false
        request
        none
        (asked_for 0 wrong_then_right) in
    (q.result ≡ err (pin_error pin_blocked)) × (q.session.updates ≡ pin_is_blocked ∷ ask_pin ∷ [])
unfolding determine_puap_if_needed
blocked = (refl, refl)

determine_puap_if_needed-Agrees_example :
    let q =
      determine_puap_if_needed token
        (get_assertion derive)
        permission
        preferred
        fuel
        false
        request
        none
        (asked_for 3 wrong_then_right) in
    let laws = get_assertion-Laws derive {Key = Unit {0}} in
    (laws.hash q.cmd ≡ laws.hash request) × AgreesIfOk laws q.result q.cmd
determine_puap_if_needed-Agrees_example =
    determine_puap_if_needed-Agrees token (get_assertion derive) (get_assertion-Laws derive)
      permission preferred fuel false request none (asked_for 3 wrong_then_right)

determine_puap_if_needed-Announced_example :
    let q =
      determine_puap_if_needed token
        (get_assertion derive)
        permission
        preferred
        fuel
        false
        request
        none
        (asked_for 0 wrong_then_right) in
    Announced q.result q.session.updates
determine_puap_if_needed-Announced_example =
    determine_puap_if_needed-Announced token (get_assertion derive) permission preferred fuel false
      request none (asked_for 0 wrong_then_right)

determine_puap_if_needed-Uses_example :
    (used : List Pin) × Uses token
      (get_assertion derive {Key = Unit {0}})
      permission
      preferred
      used
      none
      (asked_for 3 (wrong ∷ []))
      (determine_puap_if_needed token
        (get_assertion derive)
        permission
        preferred
        fuel
        false
        request
        none
        (asked_for 3 (wrong ∷ [])))
determine_puap_if_needed-Uses_example =
    determine_puap_if_needed-Uses token (get_assertion derive) permission preferred fuel false
      request none (asked_for 3 (wrong ∷ []))

determine_puap_if_needed-SparesUv_example :
    SparesUv
      (determine_puap_if_needed token
        (get_assertion derive)
        permission
        preferred
        fuel
        true
        request
        none
        (asked_for 3 wrong_then_right)).result
determine_puap_if_needed-SparesUv_example =
    determine_puap_if_needed-SparesUv token (get_assertion derive) permission preferred fuel request
      none (asked_for 3 wrong_then_right)

accepting :
    (c : Cmd) (t : Option ℕ)
    → (c' : Cmd) × ((get_assertion derive {Key = Unit {0}}).set_pin_uv_auth_param c t ≡ some c')
accepting c none = (record c { pin_uv_auth_param = none }, refl)
accepting c (some n) = (record c { pin_uv_auth_param = some (n + 1) }, refl)

determine_puap_if_needed-honest_example :
    let q =
      determine_puap_if_needed token
        (get_assertion derive)
        permission
        preferred
        fuel
        false
        request
        none
        (asked_for 3 (wrong ∷ right ∷ [])) in
    (q.result ≡ ok (by_pin true token_number))
    × (q.pin ≡ some right)
    × (q.session ≡ record {
      dev = (tries, in_a_row);
      updates = complaints 3 (wrong ∷ []) (ask_pin ∷ []);
      answers = [];
      choices = [];
      called = [];
    })
determine_puap_if_needed-honest_example =
    determine_puap_if_needed-honest (get_assertion derive) right token_number tries true permission
      preferred accepting (λ c. refl) [] [] (wrong ∷ []) 2 false request 3 3 [] [] (refl, tt)
      (omega arith) (omega arith)
