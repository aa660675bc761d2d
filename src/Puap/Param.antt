-- ===== src/Puap/Param.antt =====
-- src/ctap2/mod.rs: what a command carries after `get_pin_uv_auth_param` and
-- `determine_puap_if_needed`.
use authenticator_rs.Common.{
  ℕ, List, ◌≡◌, ◌∙◌, refl, sym, Bool, true, Option, none, some, inl, inr, arith, Option-cases,
}
use authenticator_rs.Errors.{Result, HidResult, ok, err, stuck, done, failed}
use authenticator_rs.Info.{AuthenticatorInfo}
use authenticator_rs.Puap.{
  Pin, UserVerificationRequirement, PinUvAuthResult, Session, PinDevice, PinUvAuthCommand,
  success_get_pin_token, success_using_uv, success_using_pin, adopt_token, use_internal_uv,
  choose_method, get_pin_uv_auth_param, determine_puap_if_needed, Puap, ctap2_info,
}
use authenticator_rs.Puap.Laws.{Laws, IsBare, Carries, Agrees, AgreesIfOk}
use authenticator_rs.Puap.Loop.{Rounds, tried, determine_puap_if_needed-Rounds}

module _ {Dev Token Secret Cmd Param : Type 0} (device : PinDevice Dev Token Secret)
    (trait : PinUvAuthCommand Cmd Token Param) {derive : Token → List ℕ → Option Param}
    (laws : Laws trait derive) where
  -- The outcome of one try that began with this command.
  abbrev Tried : Cmd → Result (PinUvAuthResult Token) × Cmd × Dev → Type 0
  Tried c (r, c', dev) = (laws.hash c' ≡ laws.hash c) × AgreesIfOk laws r c'

  adopt_token-Agrees :
      (success : Token → PinUvAuthResult Token)
      → ((t : Token) (c : Cmd) → Carries laws t c → Agrees laws (success t) c)
      → (r : HidResult Token × Dev) (c : Cmd) → IsBare laws c
      → Tried c (adopt_token device trait success r c)
  unfolding adopt_token
  adopt_token-Agrees success h (failed e, dev) c bare = (refl, tt)
  adopt_token-Agrees success h (done t, dev) c bare =
      elim (Option-cases (trait.set_pin_uv_auth_param c (some t))) [
        | inl e ↦ rw (adopt_token, e) (refl, tt)
        | inr (c', e) ↦
            let l = laws.set_param-some c c' t e in
            rw (adopt_token, e) (l.3, h t c' (rw l.3 l.0, rw l.0 l.1, l.2 ∙ bare.1))
      ]

  use_internal_uv-Agrees :
      (info : AuthenticatorInfo) (c : Cmd) (dev : Dev)
      → IsBare laws c
      → Tried c (use_internal_uv device trait info c dev)
  unfolding use_internal_uv
  use_internal_uv-Agrees info c dev bare = ground (arith, laws.set_uv_option-lem c (some true))

  module _ (permission : ℕ) (uv_req : UserVerificationRequirement) where
    choose_method-Agrees :
        (skip_uv : Bool) (pin : Option Pin) (info : AuthenticatorInfo) (c : Cmd) (dev : Dev)
        → IsBare laws c
        → Tried c (choose_method device trait permission uv_req skip_uv pin info c dev)
    unfolding choose_method
    choose_method-Agrees skip_uv pin info c dev bare = ground (
      arith,
      laws.set_uv_option-lem c (some true),
      use_internal_uv-Agrees info c dev bare,
      adopt_token-Agrees success_using_uv (λ t c' h. h)
          (device.get_token_using_uv permission (trait.get_rp_id c) dev) c bare,
      adopt_token-Agrees success_using_pin (λ t c' h. h)
          (device.get_token_using_pin pin permission (trait.get_rp_id c) dev) c bare,
      adopt_token-Agrees success_get_pin_token (λ t c' h. h) (device.get_pin_token pin dev) c bare,
    )

    -- One try.
    get_pin_uv_auth_param-Agrees :
        (skip_uv : Bool) (pin : Option Pin) (c : Cmd) (dev : Dev)
        → Tried c (get_pin_uv_auth_param device trait permission uv_req skip_uv pin c dev)
    unfolding get_pin_uv_auth_param
    get_pin_uv_auth_param-Agrees skip_uv pin c dev =
        elim (Option-cases (trait.set_pin_uv_auth_param c none)) [
          | inl e ↦ rw (get_pin_uv_auth_param, e) (refl, tt)
          | inr (c', e) ↦
              let l = laws.set_param-none c c' e in
              let u = laws.set_uv_option-lem c' none in
              let bare : IsBare laws (trait.set_uv_option c' none) = (u.0 ∙ l.0, u.1) in
              let kept = u.2 ∙ l.2 in
              elim (Option-cases (ctap2_info device dev)) [
                | inl i ↦ rw (get_pin_uv_auth_param, e, i) (kept, bare)
                | inr (info, i) ↦
                    let h =
                      choose_method-Agrees skip_uv pin info (trait.set_uv_option c' none) dev
                        bare in
                    rw (get_pin_uv_auth_param, e, i) (h.0 ∙ kept, h.1)
              ]
        ]

    module _ {User Out : Type 0} where
      abbrev Kept :
          ℕ → Bool → Cmd → Option Pin → Session Dev User Out → Puap Cmd Dev Token User Out → Type 0
      Kept i k c p s q = (laws.hash q.cmd ≡ laws.hash c) × AgreesIfOk laws q.result q.cmd

      tried-Kept :
          (k : Bool) (c : Cmd) (p : Option Pin) (s : Session Dev User Out)
          (r : Result (PinUvAuthResult Token))
          → let t = tried device trait permission uv_req k c p s in
            t.0 ≡ r → (laws.hash t.1 ≡ laws.hash c) × AgreesIfOk laws r t.1
      tried-Kept k c p s r e =
          let h = get_pin_uv_auth_param-Agrees k p c (device.alive s.dev).1 in rw (sym e) h

      round-Kept : Rounds device trait permission uv_req Kept
      round-Kept = record {
        out_of_fuel = λ k c p s. (refl, tt);
        stopped = λ i k c p s a. (refl, tt);
        returned = λ i k c p s kind r. tried-Kept k c p s (ok kind) r;
        no_result = λ i k c p s r. tried-Kept k c p s stuck r;
        gave_up = λ i k c p s e r g. tried-Kept k c p s (err e) r;
        reported = λ i k c p s e u r g. tried-Kept k c p s (err e) r;
        dropped = λ i k c p s e w n k' r g a. ((tried-Kept k c p s (err e) r).0, tt);
        answered = λ i k c p s e w n k' pin rest q t r g a h.
            (h.0 ∙ (tried-Kept k c p s (err e) r).0, h.1);
        retried = λ i k c p s e u k' q t r g h. (h.0 ∙ (tried-Kept k c p s (err e) r).0, h.1);
      }

      -- When `determine_puap_if_needed` succeeds, the command is for the same client data, and it
      -- carries what fits the kind of verification that is returned: with a token, the parameter that
      -- this token derives for the client data and no `uv` option; with the token's own
      -- verification, `uv` set to true and no parameter; if there is nothing to verify by, no
      -- parameter and no `uv` set to false; else neither. So it never carries both.
      pub determine_puap_if_needed-Agrees :
          (fuel : ℕ) (skip_uv : Bool) (c : Cmd) (pin : Option Pin) (s : Session Dev User Out)
          → let q = determine_puap_if_needed device trait permission uv_req fuel skip_uv c pin s in
            (laws.hash q.cmd ≡ laws.hash c) × AgreesIfOk laws q.result q.cmd
      determine_puap_if_needed-Agrees =
          determine_puap_if_needed-Rounds device trait permission uv_req Kept round-Kept
