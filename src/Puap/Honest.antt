-- ===== src/Puap/Honest.antt =====
-- src/ctap2/mod.rs: `determine_puap_if_needed` with a token that verifies the user by a PIN, as its
-- protocol says, and a user who enters the PIN after some wrong ones.
use authenticator_rs.Common.{
  ℕ, zero, suc, ◌+◌, ◌<◌, List, [], ◌∷◌, ◌++◌, ◌≡◌, refl, Bool, true, false, Option, none, some,
  length, arith, if◌then◌else◌,
}
use authenticator_rs.Errors.{
  Result, HidResult, ok, err, done, failed, pin_error, pin_required, invalid_pin,
}
use authenticator_rs.Hid.Device.{ctap2, command}
use authenticator_rs.Info.{AuthenticatorInfo, default_info, default_options, same_bytes}
use authenticator_rs.Puap.{
  Pin, UserVerificationRequirement, PinUvAuthResult, StatusUpdate, Session, PinDevice,
  PinUvAuthCommand, ask_pin, ask_pin_again, success_get_pin_token, success_using_pin, adopt_token,
  choose_method, get_pin_uv_auth_param, repackage_pin_errors, ask_user_for_pin,
  determine_puap_if_needed, Puap,
}
use authenticator_rs.Status.{StatusCode, status_code}

-- A token with a PIN and no other verification, of CTAP 2.1 or 2.0.
abbrev pub pin_info : Bool → AuthenticatorInfo
pin_info two_one = record default_info {
  options = record default_options { client_pin = some true; pin_uv_auth_token = some two_one };
}

-- The tries that are left, and the wrong PINs in a row that are left until it wants to be plugged in
-- anew: a third one in a row is answered by PIN_AUTH_BLOCKED, and so is every PIN after it.
abbrev pub Tries : Type 0
Tries = ℕ × ℕ

abbrev pub in_a_row : ℕ
in_a_row = 3

abbrev pub refuse_pin : {Token : Type 0} → Tries → HidResult Token × Tries
refuse_pin (zero, row) = (failed (command (status_code StatusCode.pin_blocked)), (zero, row))
refuse_pin (suc left, zero) =
    (failed (command (status_code StatusCode.pin_auth_blocked)), (suc left, zero))
refuse_pin (suc left, suc row) =
    (failed (command (status_code StatusCode.pin_invalid)), (suc left, suc row))

module _ {Token : Type 0} (the_pin : Pin) (token : Token) (full : ℕ) where
  -- A PIN is asked for, a right one sets the tries back, the last wrong one blocks.
  abbrev pub try_pin : Option Pin → Tries → HidResult Token × Tries
  try_pin none tries = (failed (command (status_code StatusCode.pin_required)), tries)
  try_pin (some pin) (zero, row) =
      (failed (command (status_code StatusCode.pin_blocked)), (zero, row))
  try_pin (some pin) (suc left, zero) =
      (failed (command (status_code StatusCode.pin_auth_blocked)), (suc left, zero))
  try_pin (some pin) (suc left, suc row) =
      if same_bytes pin the_pin then (done token, (full, in_a_row)) else refuse_pin (left, row)

  abbrev pub honest : Bool → PinDevice Tries Token (Unit {0})
  honest two_one = record {
    get_protocol = λ tries. ctap2;
    get_authenticator_info = λ tries. some (pin_info two_one);
    get_shared_secret = λ tries. none;
    establish_shared_secret = λ tries. (done tt, tries);
    get_pin_token = try_pin;
    get_token_using_uv =
        λ permission rp tries. (failed (command (status_code StatusCode.not_allowed)), tries);
    get_token_using_pin = λ pin permission rp tries. try_pin pin tries;
    get_pin_retries = λ tries. (some tries.0, tries);
    get_uv_retries = λ tries. (none, tries);
    alive = λ tries. (true, tries);
  }

abbrev pub by_pin : {Token : Type 0} → Bool → Token → PinUvAuthResult Token
by_pin true = success_using_pin
by_pin false = success_get_pin_token

-- None of them is the PIN.
abbrev pub AllWrong : Pin → List Pin → Type 0
AllWrong the_pin [] = Unit {0}
AllWrong the_pin (w ∷ ws) = (same_bytes w the_pin ≡ false) × AllWrong the_pin ws

-- The updates after wrong PINs, when so many tries were left before them.
abbrev pub complaints :
    {User : Type 0} → ℕ → List Pin → List (StatusUpdate User) → List (StatusUpdate User)
complaints (suc left) (w ∷ ws) us = complaints left ws (ask_pin_again (some left) ∷ us)
complaints zero (w ∷ ws) us = us
complaints left [] us = us

module _ (the_pin : Pin) where
  abbrev first_of : List Pin → Pin
  first_of [] = the_pin
  first_of (w ∷ ws) = w

  abbrev rest_of : List Pin → List Pin → List Pin
  rest_of [] rest = rest
  rest_of (w ∷ ws) rest = ws ++ (the_pin ∷ rest)

  first_rest : (ws rest : List Pin) → ws ++ (the_pin ∷ rest) ≡ first_of ws ∷ rest_of ws rest
  first_rest [] rest = refl
  first_rest (w ∷ ws) rest = refl

  same_bytes_self : (p : List ℕ) → same_bytes p p ≡ true
  same_bytes_self [] = refl
  same_bytes_self (x ∷ p) = ground (arith, same_bytes_self p)

module _ {Token Cmd Param : Type 0} (trait : PinUvAuthCommand Cmd Token Param) (the_pin : Pin)
    (token : Token) (full : ℕ) (two_one : Bool) (permission : ℕ)
    (uv_req : UserVerificationRequirement)
    (accepts : (c : Cmd) (t : Option Token)
      → (c' : Cmd) × (trait.set_pin_uv_auth_param c t ≡ some c'))
    (needs : (c : Cmd) → trait.can_skip_user_verification c (pin_info two_one) uv_req ≡ false) where
  abbrev try_once : Bool → Option Pin → Cmd → Tries → Result (PinUvAuthResult Token) × Cmd × Tries
  try_once = get_pin_uv_auth_param (honest the_pin token full two_one) trait permission uv_req

  method :
      (k : Bool) (pin : Option Pin) (c : Cmd) (left : Tries)
      → choose_method
          (honest the_pin token full two_one)
          trait
          permission
          uv_req
          k
          pin
          (pin_info two_one)
          c
          left
        ≡ adopt_token
            (honest the_pin token full two_one)
            trait
            (by_pin two_one)
            (try_pin the_pin token full pin left)
            c
  unfolding choose_method
  method k pin c left = rw (choose_method, needs c) (ground arith)

  tried_once :
      (k : Bool) (pin : Option Pin) (c : Cmd) (left : Tries)
      → (c' : Cmd) × (try_once k pin c left
          ≡ adopt_token
              (honest the_pin token full two_one)
              trait
              (by_pin two_one)
              (try_pin the_pin token full pin left)
              c')
  unfolding get_pin_uv_auth_param
  tried_once k pin c left =
      let (c', e) = accepts c none in
      (
        trait.set_uv_option c' none,
        rw (get_pin_uv_auth_param, e) (method k pin (trait.set_uv_option c' none) left),
      )

  tried_right :
      (k : Bool) (c : Cmd) (left row : ℕ)
      → let t = try_once k (some the_pin) c (suc left, suc row) in
        (t.0 ≡ ok (by_pin two_one token)) × (t.2 ≡ (full, in_a_row))
  unfolding adopt_token
  tried_right k c left row =
      let (c', e) = tried_once k (some the_pin) c (suc left, suc row) in
      let (c'', e') = accepts c' (some token) in
      rw (e, same_bytes_self the_pin the_pin, adopt_token, e') (refl, refl)

  tried_wrong :
      (k : Bool) (c : Cmd) (left row : ℕ) (w : Pin)
      → same_bytes w the_pin ≡ false
      → let t = try_once k (some w) c (suc (suc left), suc (suc row)) in
        (t.0 ≡ err (pin_error (invalid_pin (some (suc left))))) × (t.2 ≡ (suc left, suc row))
  unfolding adopt_token repackage_pin_errors
  tried_wrong k c left row w h =
      let (c', e) = tried_once k (some w) c (suc (suc left), suc (suc row)) in
      rw (e, h, adopt_token, repackage_pin_errors) (refl, refl)

  tried_none :
      (k : Bool) (c : Cmd) (left : Tries)
      → let t = try_once k none c left in (t.0 ≡ err (pin_error pin_required)) × (t.2 ≡ left)
  unfolding adopt_token repackage_pin_errors
  tried_none k c left =
      let (c', e) = tried_once k none c left in
      rw (e, adopt_token, repackage_pin_errors) (refl, refl)

  module _ {User Out : Type 0} (choices : List (Option ℕ)) (called : List (Result Out)) where
    abbrev at : Tries → List (StatusUpdate User) → List Pin → Session Tries User Out
    at left us answers = record {
      dev = left;
      updates = us;
      answers = answers;
      choices = choices;
      called = called;
    }

    abbrev run :
        ℕ → Bool → Cmd → Option Pin → Session Tries User Out → Puap Cmd Tries Token User Out
    run = determine_puap_if_needed (honest the_pin token full two_one) trait permission uv_req

    abbrev Verified : Session Tries User Out → Puap Cmd Tries Token User Out → Type 0
    Verified s q = (q.result ≡ ok (by_pin two_one token)) × (q.pin ≡ some the_pin) × (q.session ≡ s)

    right_round :
        (fuel : ℕ) (k : Bool) (c : Cmd) (left row : ℕ) (us : List (StatusUpdate User))
        (rest : List Pin)
        → Verified
            (at (full, in_a_row) us rest)
            (run (suc fuel) k c (some the_pin) (at (suc left, suc row) us rest))
    unfolding determine_puap_if_needed
    right_round fuel k c left row us rest =
        let (e, d) = tried_right k c left row in
        rw (determine_puap_if_needed, e, d) (refl, refl, refl)

    wrong_round :
        (fuel : ℕ) (k : Bool) (c : Cmd) (left row : ℕ) (us : List (StatusUpdate User))
        (rest : List Pin) (w p : Pin)
        → same_bytes w the_pin ≡ false
        → run (suc fuel) k c (some w) (at (suc (suc left), suc (suc row)) us (p ∷ rest))
          ≡ run fuel k
              (try_once k (some w) c (suc (suc left), suc (suc row))).1
              (some p)
              (at (suc left, suc row) (ask_pin_again (some (suc left)) ∷ us) rest)
    unfolding determine_puap_if_needed ask_user_for_pin
    wrong_round fuel k c left row us rest w p h =
        let (e, d) = tried_wrong k c left row w h in
        rw (determine_puap_if_needed, e, d, ask_user_for_pin) refl

    first_round :
        (fuel : ℕ) (k : Bool) (c : Cmd) (left : Tries) (us : List (StatusUpdate User))
        (rest : List Pin) (p : Pin)
        → run (suc fuel) k c none (at left us (p ∷ rest))
          ≡ run fuel true (try_once k none c left).1 (some p) (at left (ask_pin ∷ us) rest)
    unfolding determine_puap_if_needed ask_user_for_pin
    first_round fuel k c left us rest p =
        let (e, d) = tried_none k c left in
        rw (determine_puap_if_needed, e, d, ask_user_for_pin) refl

    rounds :
        (ws : List Pin) (extra : ℕ) (k : Bool) (c : Cmd) (left row : ℕ)
        (us : List (StatusUpdate User)) (rest : List Pin)
        → AllWrong the_pin ws
        → length ws < left
        → length ws < row
        → Verified (at (full, in_a_row) (complaints left ws us) rest) (
            run
              (length ws + suc extra)
              k
              c
              (some (first_of the_pin ws))
              (at (left, row) us (rest_of the_pin ws rest)))
    rounds [] extra k c (suc left) (suc row) us rest wrong h g =
        let f : 0 + suc extra ≡ suc extra = omega arith in
        rw f (right_round extra k c left row us rest)
    rounds (w ∷ ws) extra k c (suc (suc left)) (suc (suc row)) us rest wrong h g =
        let f : length (w ∷ ws) + suc extra ≡ suc (length ws + suc extra) = omega arith in
        rw
          (
            f,
            first_rest the_pin ws rest,
            wrong_round (length ws + suc extra) k c left row us (rest_of the_pin ws rest) w
                (first_of the_pin ws) wrong.0,
          )
          (rounds ws extra k (try_once k (some w) c (suc (suc left), suc (suc row))).1 (suc left)
            (suc row) (ask_pin_again (some (suc left)) ∷ us) rest wrong.1 (omega arith)
            (omega arith))
    rounds ws extra k c zero row us rest wrong h g = absurd (omega arith)
    rounds ws extra k c (suc left) zero us rest wrong h g = absurd (omega arith)
    rounds (w ∷ ws) extra k c (suc zero) (suc row) us rest wrong h g = absurd (omega arith)
    rounds (w ∷ ws) extra k c (suc (suc left)) (suc zero) us rest wrong h g = absurd (omega arith)

    -- With a token that verifies the user by a PIN as CTAP2 says, blocking on a third wrong PIN in
    -- a row and on its last try, and a command that needs a verification and takes any parameter, a
    -- user who enters some wrong PINs, fewer than there are tries and fewer than the token takes in
    -- a row (three of a fresh one), and then the right one, is verified: `determine_puap_if_needed`
    -- returns the token's token, obtained by the newest method that the token has; it has asked for
    -- the PIN once and complained of each wrong PIN with the number of tries left, has taken no
    -- further answer, leaves the right PIN, and the token has all its tries again. As many rounds
    -- as there were questions, and one, are enough.
    pub determine_puap_if_needed-honest :
        (ws : List Pin) (extra : ℕ) (k : Bool) (c : Cmd) (left row : ℕ)
        (us : List (StatusUpdate User)) (rest : List Pin)
        → AllWrong the_pin ws
        → length ws < left
        → length ws < row
        → Verified (at (full, in_a_row) (complaints left ws (ask_pin ∷ us)) rest) (
            run (suc (length ws + suc extra)) k c none (at (left, row) us (ws ++ (the_pin ∷ rest))))
    determine_puap_if_needed-honest ws extra k c left row us rest wrong h g =
        rw
          (
            first_rest the_pin ws rest,
            first_round (length ws + suc extra) k c (left, row) us (rest_of the_pin ws rest)
                (first_of the_pin ws),
          )
          (rounds ws extra true (try_once k none c (left, row)).1 left row (ask_pin ∷ us) rest wrong
            h g)
