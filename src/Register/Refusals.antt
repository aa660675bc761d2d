-- ===== src/Register/Refusals.antt =====
-- src/ctap2/mod.rs: the registrations that `register` refuses before it asks the token anything.
use authenticator_rs.Common.{
  ℕ, List, [], ◌∷◌, ◌≡◌, ◌≢◌, refl, ◌⊎◌, inl, inr, true, false, Option, none, some, arith,
  Bool-cases,
}
use authenticator_rs.Command.{user_verification_optional}
use authenticator_rs.Cose.{CoseAlgorithm, es256}
use authenticator_rs.Dispatch.{Authenticator}
use authenticator_rs.Dispatch.Handling.{sum-cases}
use authenticator_rs.Errors.{
  AuthenticatorError, UnsupportedOption, err, hid_error, unsupported_option,
}
use authenticator_rs.Hid.Device.{HidError, FidoProtocol, ctap1, ctap2}
use authenticator_rs.Info.{AuthenticatorInfo, supports_cred_protect}
use authenticator_rs.Puap.{Session, is_required, UserVerificationRequirement}
use authenticator_rs.Register.{
  RegisterArgs, required, any_es256, check_ctap1, needs_resident_key, choose_options,
  lacks_cred_protect, register,
}

-- None of the algorithms is ES256.
abbrev pub LacksEs256 : List CoseAlgorithm → Type 0
LacksEs256 [] = Unit {0}
LacksEs256 (alg ∷ algs) = (alg ≢ es256) × LacksEs256 algs

abbrev pub LacksCredProtect : Option AuthenticatorInfo → Type 0
LacksCredProtect none = Unit {0}
LacksCredProtect (some info) = supports_cred_protect info ≡ false

-- What a token cannot do: a CTAP1 token keeps no resident key, does not verify the user and knows
-- ES256 only; a CTAP2 token must have told of itself; and a protection of the credential that is to
-- be enforced must be supported, unless it is the weakest.
pub data Impossible (args : RegisterArgs) : FidoProtocol → Option AuthenticatorInfo → Type 0 where
  resident_key :
      {info : Option AuthenticatorInfo}
      → args.resident_key_req ≡ required
      → Impossible args ctap1 info
  user_verification :
      {info : Option AuthenticatorInfo}
      → args.user_verification_req ≡ UserVerificationRequirement.required
      → Impossible args ctap1 info
  algorithms :
      {info : Option AuthenticatorInfo}
      → LacksEs256 args.pub_cred_params
      → Impossible args ctap1 info
  silent : Impossible args ctap2 none
  protection :
      {p : FidoProtocol} {info : Option AuthenticatorInfo}
      → args.extensions.enforce_credential_protection_policy ≡ some true
      → args.extensions.credential_protection_policy ≢ some user_verification_optional
      → LacksCredProtect info
      → Impossible args p info

LacksEs256-any_es256 : (algs : List CoseAlgorithm) → LacksEs256 algs → any_es256 algs ≡ false
LacksEs256-any_es256 [] h = refl
LacksEs256-any_es256 (alg ∷ algs) h = ground (arith, LacksEs256-any_es256 algs h.1)

protection_lacks :
    (args : RegisterArgs) (info : Option AuthenticatorInfo)
    → args.extensions.enforce_credential_protection_policy ≡ some true
    → args.extensions.credential_protection_policy ≢ some user_verification_optional
    → LacksCredProtect info
    → lacks_cred_protect args info ≡ true
protection_lacks args info e h l = ground arith

check_ctap1-lacks :
    (args : RegisterArgs)
    → (needs_resident_key args.resident_key_req ≡ true)
      ⊎ ((is_required args.user_verification_req ≡ true) ⊎ (any_es256 args.pub_cred_params ≡ false))
    → (e : AuthenticatorError) × (check_ctap1 args ≡ inl e)
check_ctap1-lacks args h = elim (Bool-cases (needs_resident_key args.resident_key_req)) [
  | inl r ↦ (unsupported_option UnsupportedOption.resident_key, rw r refl)
  | inr r ↦ elim (Bool-cases (is_required args.user_verification_req)) [
    | inl u ↦ (unsupported_option UnsupportedOption.user_verification, rw (r, u) refl)
    | inr u ↦ elim (Bool-cases (any_es256 args.pub_cred_params)) [
      | inr x ↦ (unsupported_option UnsupportedOption.pub_cred_params, rw (r, u, x) refl)
      | inl x ↦ ground arith
    ]
  ]
]

-- An impossible request is not built, or stopped for want of the protection.
Impossible-choose_options :
    {args : RegisterArgs} {p : FidoProtocol} {info : Option AuthenticatorInfo}
    → Impossible args p info
    → ((e : AuthenticatorError) × (choose_options args p info ≡ inl e))
      ⊎ (lacks_cred_protect args info ≡ true)
unfolding choose_options
Impossible-choose_options {args = args} (resident_key h) =
    inl (check_ctap1-lacks args (inl (rw h refl)))
Impossible-choose_options {args = args} (user_verification h) =
    inl (check_ctap1-lacks args (inr (inl (rw h refl))))
Impossible-choose_options {args = args} (algorithms h) =
    inl (check_ctap1-lacks args (inr (inr (LacksEs256-any_es256 args.pub_cred_params h))))
Impossible-choose_options silent = inl (hid_error HidError.device_not_initialized, refl)
Impossible-choose_options {args = args} {info = info} (protection e h l) =
    inr (protection_lacks args info e h l)

module _ {Dev Token Secret Param Key Made Assertion User : Type 0}
    (a : Authenticator Dev Token Secret Param Key Made Assertion)
    (derive : Token → List ℕ → Option Param) (silent_hash : List ℕ) where
  -- `register` refuses a registration that the token cannot do by what it has told of itself: a
  -- resident key, a verification or other algorithms than ES256 of a CTAP1 token, anything of a
  -- CTAP2 token that has told nothing, or a protection of the credential that is to be enforced,
  -- unless it is the weakest. It returns false after one call of the callback with an error, before
  -- the token or the user is asked anything.
  pub register-Impossible :
      (args : RegisterArgs) (fuel : ℕ) (s : Session Dev User Made)
      → Impossible args (a.pins.get_protocol s.dev) (a.pins.get_authenticator_info s.dev)
      → (e : AuthenticatorError) × (register a derive silent_hash args fuel s
          ≡ some (record { returned = false; session = record s { called = err e ∷ s.called } }))
  unfolding register
  register-Impossible args fuel s h =
      let p = a.pins.get_protocol s.dev in
      let info = a.pins.get_authenticator_info s.dev in
      elim (Impossible-choose_options h) [
        | inl (e, r) ↦ (e, rw (register, r) refl)
        | inr l ↦ elim (sum-cases (choose_options args p info)) [
          | inl (e, r) ↦ (e, rw (register, r) refl)
          | inr (o, r) ↦
              (unsupported_option UnsupportedOption.cred_protect, rw (register, r, l) refl)
        ]
      ]
