-- ===== src/Puap/Method.antt =====
-- src/ctap2/mod.rs: when `get_pin_uv_auth_param` and `determine_puap_if_needed` use which kind of
-- verification.
use authenticator_rs.Common.{
  ℕ, ◌≡◌, ◌≢◌, refl, ◌⊎◌, inl, inr, Bool, true, false, Option, none, some, arith, Option-cases,
}
use mathlib.Core.Path.{subst}
use authenticator_rs.Errors.{AuthenticatorError, Result, ok, err, stuck}
use authenticator_rs.Info.{AuthenticatorInfo}
use authenticator_rs.Puap.{
  Pin, UserVerificationRequirement, PinUvAuthResult, Session, PinDevice, PinUvAuthCommand,
  StatusUpdate, ask, again, reaction, request_is_ctap1, device_is_ctap1, no_auth_type_supported,
  no_auth_required, using_internal_uv, success_get_pin_token, success_using_uv, success_using_pin,
  adopt_token, use_internal_uv, choose_method, get_pin_uv_auth_param, determine_puap_if_needed,
  Puap, ctap2_info,
}
use authenticator_rs.Puap.Loop.{Rounds, tried, determine_puap_if_needed-Rounds}

-- The token itself verifies the user.
abbrev pub UsesUv : {Token : Type 0} → PinUvAuthResult Token → Type 0
UsesUv using_internal_uv = Unit {0}
UsesUv (success_using_uv t) = Unit {0}
UsesUv _ = ⊥

abbrev pub SparesUv : {Token : Type 0} → Result (PinUvAuthResult Token) → Type 0
SparesUv (ok kind) = ¬ UsesUv kind
SparesUv _ = Unit {0}

-- When a kind of verification may be used, by what the token says of itself (nothing, if it speaks
-- CTAP1), by whether the command may do without one on such a token, by whether the token's own
-- verification is passed over, and by the PIN that is there.
abbrev pub Allows :
    {Token : Type 0}
    → Option AuthenticatorInfo
    → (AuthenticatorInfo → Bool)
    → Bool
    → Option Pin
    → PinUvAuthResult Token
    → Type 0
Allows none may_skip skip_uv pin device_is_ctap1 = Unit {0}
Allows none may_skip skip_uv pin _ = ⊥
Allows (some info) may_skip skip_uv pin request_is_ctap1 = ⊥
Allows (some info) may_skip skip_uv pin device_is_ctap1 = ⊥
Allows (some info) may_skip skip_uv pin no_auth_required = may_skip info ≡ true
Allows (some info) may_skip skip_uv pin no_auth_type_supported =
    (may_skip info ≡ false)
    × (info.options.client_pin ≡ none)
    × ((skip_uv ≡ true) ⊎ (info.options.user_verification ≢ some true))
Allows (some info) may_skip skip_uv pin using_internal_uv =
    (may_skip info ≡ false)
    × (info.options.user_verification ≡ some true)
    × (info.options.pin_uv_auth_token ≢ some true)
    × (skip_uv ≡ false)
    × (pin ≡ none)
Allows (some info) may_skip skip_uv pin (success_get_pin_token t) =
    (may_skip info ≡ false) × (info.options.pin_uv_auth_token ≢ some true)
Allows (some info) may_skip skip_uv pin (success_using_uv t) =
    (may_skip info ≡ false)
    × (info.options.user_verification ≡ some true)
    × (info.options.pin_uv_auth_token ≡ some true)
    × (skip_uv ≡ false)
Allows (some info) may_skip skip_uv pin (success_using_pin t) =
    (may_skip info ≡ false)
    × (info.options.client_pin ≡ some true)
    × (info.options.pin_uv_auth_token ≡ some true)
    × ((skip_uv ≡ true) ⊎ (info.options.user_verification ≢ some true))

abbrev pub AllowsIfOk :
    {Token : Type 0}
    → Option AuthenticatorInfo
    → (AuthenticatorInfo → Bool)
    → Bool
    → Option Pin
    → Result (PinUvAuthResult Token)
    → Type 0
AllowsIfOk info may_skip skip_uv pin (ok kind) = Allows info may_skip skip_uv pin kind
AllowsIfOk info may_skip skip_uv pin (err e) = Unit {0}
AllowsIfOk info may_skip skip_uv pin stuck = Unit {0}

-- Whether the command, without a parameter and a `uv` option, may do without a verification.
abbrev pub may_skip_uv :
    {Cmd Token Param : Type 0}
    → PinUvAuthCommand Cmd Token Param
    → UserVerificationRequirement
    → Cmd
    → AuthenticatorInfo
    → Bool
may_skip_uv trait uv_req c info = elim (trait.set_pin_uv_auth_param c none) [
  | none ↦ false
  | some c' ↦ trait.can_skip_user_verification (trait.set_uv_option c' none) info uv_req
]

module _ {Dev Token Secret Cmd Param : Type 0} (device : PinDevice Dev Token Secret)
    (trait : PinUvAuthCommand Cmd Token Param) where
  choose_method-Allows :
      (permission : ℕ) (uv_req : UserVerificationRequirement) (skip_uv : Bool) (pin : Option Pin)
      (info : AuthenticatorInfo) (c : Cmd) (dev : Dev) (may_skip : AuthenticatorInfo → Bool)
      → may_skip info ≡ trait.can_skip_user_verification c info uv_req
      → AllowsIfOk
          (some info)
          may_skip
          skip_uv
          pin
          (choose_method device trait permission uv_req skip_uv pin info c dev).0
  unfolding choose_method adopt_token use_internal_uv
  choose_method-Allows permission uv_req skip_uv pin info c dev may_skip h = ground arith

  pub get_pin_uv_auth_param-Allows :
      (permission : ℕ) (uv_req : UserVerificationRequirement) (skip_uv : Bool) (pin : Option Pin)
      (c : Cmd) (dev : Dev)
      → AllowsIfOk
          (ctap2_info device dev)
          (may_skip_uv trait uv_req c)
          skip_uv
          pin
          (get_pin_uv_auth_param device trait permission uv_req skip_uv pin c dev).0
  unfolding get_pin_uv_auth_param
  get_pin_uv_auth_param-Allows permission uv_req skip_uv pin c dev =
      elim (Option-cases (trait.set_pin_uv_auth_param c none)) [
        | inl e ↦ rw (get_pin_uv_auth_param, e) tt
        | inr (c', e) ↦ elim (Option-cases (ctap2_info device dev)) [
          | inl i ↦ rw (get_pin_uv_auth_param, e, i) tt
          | inr (info, i) ↦
              rw (get_pin_uv_auth_param, e, i)
                (choose_method-Allows permission uv_req skip_uv pin info
                  (trait.set_uv_option c' none) dev (may_skip_uv trait uv_req c)
                  (rw (may_skip_uv, e) refl))
        ]
      ]

Allows-SparesUv :
    {Token : Type 0} (info : Option AuthenticatorInfo) (may_skip : AuthenticatorInfo → Bool)
    (pin : Option Pin) (r : Result (PinUvAuthResult Token))
    → AllowsIfOk info may_skip true pin r
    → SparesUv r
Allows-SparesUv info may_skip pin r h = ground arith

ask-keeps_skip :
    (User : Type 0) (e : AuthenticatorError) (w : Bool) (n : Option ℕ) (k' : Bool)
    → reaction {User = User} true e ≡ ask w n k'
    → k' ≡ true
ask-keeps_skip User e w n k' h = ground arith

again-keeps_skip :
    (User : Type 0) (e : AuthenticatorError) (u : StatusUpdate User) (k' : Bool)
    → reaction {User = User} true e ≡ again u k'
    → k' ≡ true
again-keeps_skip User e u k' h = ground arith

module _ {Dev Token Secret Cmd Param User Out : Type 0} (device : PinDevice Dev Token Secret)
    (trait : PinUvAuthCommand Cmd Token Param) (permission : ℕ)
    (uv_req : UserVerificationRequirement) where
  abbrev Spared :
      ℕ → Bool → Cmd → Option Pin → Session Dev User Out → Puap Cmd Dev Token User Out → Type 0
  Spared i k c p s q = k ≡ true → SparesUv q.result

  tried-SparesUv :
      (k : Bool) (c : Cmd) (p : Option Pin) (s : Session Dev User Out)
      (r : Result (PinUvAuthResult Token))
      → (tried device trait permission uv_req k c p s).0 ≡ r
      → k ≡ true
      → SparesUv r
  tried-SparesUv k c p s r e t =
      let h =
        get_pin_uv_auth_param-Allows device trait permission uv_req k p c (device.alive s.dev).1 in
      let info = ctap2_info device (device.alive s.dev).1 in
      let may_skip = may_skip_uv trait uv_req c in
      Allows-SparesUv info may_skip p r (
        subst (λ b. AllowsIfOk info may_skip b p r) t
          (subst (λ x. AllowsIfOk info may_skip k p x) e h))

  round-Spared : Rounds device trait permission uv_req Spared
  round-Spared = record {
    out_of_fuel = λ k c p s t. tt;
    stopped = λ i k c p s a t. tt;
    returned = λ i k c p s kind r t. tried-SparesUv k c p s (ok kind) r t;
    no_result = λ i k c p s r t. tt;
    gave_up = λ i k c p s e r g t. tt;
    reported = λ i k c p s e u r g t. tt;
    dropped = λ i k c p s e w n k' r g a t. tt;
    answered = λ i k c p s e w n k' pin rest q a r g x h t.
        h (ask-keeps_skip User e w n k' (subst (λ b. reaction {User = User} b e ≡ ask w n k') t g));
    retried = λ i k c p s e u k' q a r g h t.
        h (again-keeps_skip User e u k' (subst (λ b. reaction {User = User} b e ≡ again u k') t g));
  }

  -- Once the token's own verification is to be passed over, `determine_puap_if_needed` does not
  -- return with one, in whatever round it returns.
  pub determine_puap_if_needed-SparesUv :
      (fuel : ℕ) (c : Cmd) (pin : Option Pin) (s : Session Dev User Out)
      → SparesUv (determine_puap_if_needed device trait permission uv_req fuel true c pin s).result
  determine_puap_if_needed-SparesUv fuel c pin s =
      determine_puap_if_needed-Rounds device trait permission uv_req Spared round-Spared fuel true c
        pin s refl
