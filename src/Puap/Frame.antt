-- ===== src/Puap/Frame.antt =====
-- src/ctap2/mod.rs: what `determine_puap_if_needed` leaves alone: the callback, the selections, and
-- whatever of the command the two setters leave alone.
use authenticator_rs.Common.{
  ℕ, ◌≡◌, refl, Bool, true, Option, none, some, inl, inr, arith, Option-cases,
}
use authenticator_rs.Errors.{HidResult, done, failed}
use authenticator_rs.Info.{AuthenticatorInfo}
use authenticator_rs.Puap.{
  Pin, UserVerificationRequirement, PinUvAuthResult, Session, PinDevice, PinUvAuthCommand,
  adopt_token, use_internal_uv, choose_method, get_pin_uv_auth_param, determine_puap_if_needed,
  Puap, ctap2_info, success_get_pin_token, success_using_uv, success_using_pin,
}
use authenticator_rs.Puap.Loop.{Rounds, tried, determine_puap_if_needed-Rounds}

module _ {Dev Token Secret Cmd Param : Type 0} (device : PinDevice Dev Token Secret)
    (trait : PinUvAuthCommand Cmd Token Param) (F : Cmd → Type 0)
    (set_param : (c c' : Cmd) (t : Option Token)
      → trait.set_pin_uv_auth_param c t ≡ some c'
      → F c
      → F c')
    (set_uv : (c : Cmd) (u : Option Bool) → F c → F (trait.set_uv_option c u)) where
  adopt_token-F :
      (success : Token → PinUvAuthResult Token) (r : HidResult Token × Dev) (c : Cmd)
      → F c
      → F (adopt_token device trait success r c).1
  unfolding adopt_token
  adopt_token-F success (failed e, d) c f = f
  adopt_token-F success (done t, d) c f =
      elim (Option-cases (trait.set_pin_uv_auth_param c (some t))) [
        | inl e ↦ rw (adopt_token, e) f
        | inr (c', e) ↦ rw (adopt_token, e) (set_param c c' (some t) e f)
      ]

  module _ (permission : ℕ) (uv_req : UserVerificationRequirement) where
    choose_method-F :
        (skip_uv : Bool) (pin : Option Pin) (info : AuthenticatorInfo) (c : Cmd) (dev : Dev)
        → F c
        → F (choose_method device trait permission uv_req skip_uv pin info c dev).1
    unfolding choose_method use_internal_uv
    choose_method-F skip_uv pin info c dev f =
        let rp = trait.get_rp_id c in
        let with_uv = set_uv c (some true) f in
        let by_uv =
          adopt_token-F success_using_uv (device.get_token_using_uv permission rp dev) c f in
        let by_pin =
          adopt_token-F success_using_pin (device.get_token_using_pin pin permission rp dev) c f in
        let by_old = adopt_token-F success_get_pin_token (device.get_pin_token pin dev) c f in
        ground (arith, with_uv, by_uv, by_pin, by_old)

    get_pin_uv_auth_param-F :
        (skip_uv : Bool) (pin : Option Pin) (c : Cmd) (dev : Dev)
        → F c
        → F (get_pin_uv_auth_param device trait permission uv_req skip_uv pin c dev).1
    unfolding get_pin_uv_auth_param
    get_pin_uv_auth_param-F skip_uv pin c dev f =
        elim (Option-cases (trait.set_pin_uv_auth_param c none)) [
          | inl e ↦ rw (get_pin_uv_auth_param, e) f
          | inr (c', e) ↦
              let g = set_uv c' none (set_param c c' none e f) in
              elim (Option-cases (ctap2_info device dev)) [
                | inl i ↦ rw (get_pin_uv_auth_param, e, i) g
                | inr (info, i) ↦
                    rw (get_pin_uv_auth_param, e, i)
                      (choose_method-F skip_uv pin info (trait.set_uv_option c' none) dev g)
              ]
        ]

    module _ {User Out : Type 0} where
      abbrev Framed :
          ℕ → Bool → Cmd → Option Pin → Session Dev User Out → Puap Cmd Dev Token User Out → Type 0
      Framed i k c p s q =
          F c → F q.cmd × (q.session.called ≡ s.called) × (q.session.choices ≡ s.choices)

      tried-F :
          (k : Bool) (c : Cmd) (p : Option Pin) (s : Session Dev User Out)
          → F c
          → F (tried device trait permission uv_req k c p s).1
      tried-F k c p s = get_pin_uv_auth_param-F k p c (device.alive s.dev).1

      round-Framed : Rounds device trait permission uv_req Framed
      round-Framed = record {
        out_of_fuel = λ k c p s f. (f, refl, refl);
        stopped = λ i k c p s a f. (f, refl, refl);
        returned = λ i k c p s kind r f. (tried-F k c p s f, refl, refl);
        no_result = λ i k c p s r f. (tried-F k c p s f, refl, refl);
        gave_up = λ i k c p s e r g f. (tried-F k c p s f, refl, refl);
        reported = λ i k c p s e u r g f. (tried-F k c p s f, refl, refl);
        dropped = λ i k c p s e w n k' r g a f. (tried-F k c p s f, refl, refl);
        answered = λ i k c p s e w n k' pin rest q t r g a h f. h (tried-F k c p s f);
        retried = λ i k c p s e u k' q t r g h f. h (tried-F k c p s f);
      }

      -- Any property of the command that the setters keep, is kept; the callback is not called, and
      -- no selection is taken.
      pub determine_puap_if_needed-F :
          (fuel : ℕ) (skip_uv : Bool) (c : Cmd) (pin : Option Pin) (s : Session Dev User Out)
          → F c
          → let q = determine_puap_if_needed device trait permission uv_req fuel skip_uv c pin s in
            F q.cmd × (q.session.called ≡ s.called) × (q.session.choices ≡ s.choices)
      determine_puap_if_needed-F =
          determine_puap_if_needed-Rounds device trait permission uv_req Framed round-Framed
