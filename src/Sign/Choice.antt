-- ===== src/Sign/Choice.antt =====
-- src/ctap2/mod.rs: what `sign` may report, and the selection among several results.
use authenticator_rs.Common.{
  ℕ, List, [], ◌∷◌, ◌≡◌, ◌≢◌, ◌∙◌, refl, ap, ◌⊎◌, inl, inr, Bool, true, false, Option, none, some,
  arith, Option-cases, length, get_elem?,
}
use authenticator_rs.Command.{GetAssertion, get_assertion}
use authenticator_rs.Command.Setters.{assertion_core, get_assertion-Laws}
use authenticator_rs.Dispatch.{Authenticator, Exit}
use authenticator_rs.Errors.{AuthenticatorError, Result, cancelled_by_user, ok, err, done}
use authenticator_rs.Puap.{
  Pin, UserVerificationRequirement, determine_puap_if_needed, PinUvAuthResult, Session, send_status,
  select_result_notice, select_result_notice, send_status,
}
use authenticator_rs.Puap.Laws.{Agrees}
use authenticator_rs.Sign.{
  sign_permissions, chosen, recv_choice, user_entities, report_choice, select_result,
  report_results,
}

chosen-elem :
    {A : Type 0} (index : ℕ) (results : List A) {r : A}
    → chosen (some (some index)) results ≡ some r
    → get_elem? results index ≡ some r
chosen-elem index results e = ground arith

recv_choice-called :
    {Dev User Out : Type 0} (s : Session Dev User Out) → (recv_choice s).1.called ≡ s.called
recv_choice-called s = ground arith

module _ {Dev Token Secret Param Key Made Assertion : Type 0}
    (a : Authenticator Dev Token Secret Param Key Made Assertion)
    (derive : Token → List ℕ → Option Param) where
  -- The command carries what `determine_puap_if_needed` put there for these arguments when it
  -- returned this kind of verification.
  abbrev pub IsDecided :
      Type 0
      → UserVerificationRequirement
      → GetAssertion Param Key
      → PinUvAuthResult Token
      → GetAssertion Param Key
      → Type 0
  IsDecided User uv_req request kind m =
      (fuel : ℕ) × (skip_uv : Bool) × (c : GetAssertion Param Key) × (pin : Option Pin)
      × (s : Session Dev User Assertion) × (assertion_core c ≡ assertion_core request)
      × (let q =
            determine_puap_if_needed a.pins (get_assertion derive) sign_permissions uv_req fuel
              skip_uv c pin s in
          (q.result ≡ ok kind)
          × (m.pin_uv_auth_param ≡ q.cmd.pin_uv_auth_param)
          × (m.options.user_verification ≡ q.cmd.options.user_verification))

  -- That, and what it carries fits the kind of verification.
  abbrev pub Fits :
      Type 0
      → UserVerificationRequirement
      → GetAssertion Param Key
      → PinUvAuthResult Token
      → GetAssertion Param Key
      → Type 0
  Fits User uv_req request kind m =
      Agrees (get_assertion-Laws derive {Key = Key}) kind m × IsDecided User uv_req request kind m

  -- The token's answer to a request that is this one but for the allow list and the hmac-secret
  -- extension, and that carries the verification that was decided.
  abbrev pub Answers :
      Type 0 → UserVerificationRequirement → GetAssertion Param Key → List Assertion → Type 0
  Answers User uv_req request results =
      (m : GetAssertion Param Key) × (d : Dev) × (kind : PinUvAuthResult Token) × (assertion_core m
        ≡ assertion_core request)
      × Fits User uv_req request kind m
      × ((a.send_get_assertion m d).0 ≡ done results)

  -- One of the results is reported; or, if there is not just one, that the user cancelled.
  abbrev pub Reported : List (Result Assertion) → List Assertion → List (Result Assertion) → Type 0
  Reported before results called =
      ((r : Assertion) × (i : ℕ) × (get_elem? results i ≡ some r) × (called ≡ ok r ∷ before))
      ⊎ ((length results ≢ 1) × (called ≡ err cancelled_by_user ∷ before))

  -- The closure has just said that it is enough.
  abbrev pub Stopped : Dev → Type 0
  Stopped dev = (d : Dev) × ((a.pins.alive d).0 ≡ false) × (dev ≡ (a.pins.alive d).1)

  pub Agrees-other :
      (kind : PinUvAuthResult Token) (m m' : GetAssertion Param Key)
      → m'.pin_uv_auth_param ≡ m.pin_uv_auth_param
      → m'.options.user_verification ≡ m.options.user_verification
      → m'.client_data_hash ≡ m.client_data_hash
      → Agrees (get_assertion-Laws derive {Key = Key}) kind m
      → Agrees (get_assertion-Laws derive {Key = Key}) kind m'
  Agrees-other kind m m' p u c h = ground arith

  module _ {User : Type 0} where
    abbrev pub Reports :
        UserVerificationRequirement
        → List (Result Assertion)
        → GetAssertion Param Key
        → Exit Dev User Assertion
        → Type 0
    Reports uv_req before request exit = elim exit.returned [
      | true ↦
          (results : List Assertion) × Answers User uv_req request results
          × Reported before results exit.session.called
      | false ↦
          ((e : AuthenticatorError) × (exit.session.called ≡ err e ∷ before))
          ⊎ ((exit.session.called ≡ before) × Stopped exit.session.dev)
    ]

    pub failure-Reports :
        (uv_req : UserVerificationRequirement) (before : List (Result Assertion))
        (request : GetAssertion Param Key) (exit : Exit Dev User Assertion) (e : AuthenticatorError)
        → exit.returned ≡ false
        → exit.session.called ≡ err e ∷ before
        → Reports uv_req before request exit
    failure-Reports uv_req before request exit e r c = rw r (inl (e, c))

    pub success-Reports :
        (uv_req : UserVerificationRequirement) (before : List (Result Assertion))
        (request : GetAssertion Param Key) (exit : Exit Dev User Assertion)
        (results : List Assertion)
        → exit.returned ≡ true
        → Answers User uv_req request results
        → Reported before results exit.session.called
        → Reports uv_req before request exit
    success-Reports uv_req before request exit results r answers q = rw r (results, answers, q)

    report_choice-Reported :
        (before : List (Result Assertion)) (results : List Assertion) (choice : Option (Option ℕ))
        (s : Session Dev User Assertion)
        → length results ≢ 1
        → s.called ≡ before
        → ((report_choice (chosen choice results) s).returned ≡ true)
          × Reported before results (report_choice (chosen choice results) s).session.called
    report_choice-Reported before results none s n c =
        (refl, inr (n, ap (λ l. err cancelled_by_user ∷ l) c))
    report_choice-Reported before results (some none) s n c =
        (refl, inr (n, ap (λ l. err cancelled_by_user ∷ l) c))
    report_choice-Reported before results (some (some index)) s n c =
        elim (Option-cases (chosen (some (some index)) results)) [
          | inl e ↦ rw e (refl, inr (n, ap (λ l. err cancelled_by_user ∷ l) c))
          | inr (r, e) ↦
              rw e (refl, inl (r, index, chosen-elem index results e, ap (λ l. ok r ∷ l) c))
        ]

    pub report_results-Reported :
        (user : Assertion → Option User) (before : List (Result Assertion))
        (results : List Assertion) (s : Session Dev User Assertion)
        → s.called ≡ before
        → ((report_results user results s).returned ≡ true)
          × Reported before results (report_results user results s).session.called
    unfolding report_results select_result
    report_results-Reported user before (r ∷ []) s c =
        (refl, inl (r, 0, refl, ap (λ l. ok r ∷ l) c))
    report_results-Reported user before [] s c =
        let asked = send_status (select_result_notice []) s in
        report_choice-Reported before [] (recv_choice asked).0 (recv_choice asked).1 (omega arith)
          (recv_choice-called asked ∙ c)
    report_results-Reported user before (r ∷ r' ∷ rs) s c =
        let asked = send_status (select_result_notice (user_entities user (r ∷ r' ∷ rs))) s in
        report_choice-Reported before (r ∷ r' ∷ rs) (recv_choice asked).0 (recv_choice asked).1
          (omega arith) (recv_choice-called asked ∙ c)
