-- ===== src/Puap/Laws.antt =====
-- src/ctap2/commands/mod.rs: what `PinUvAuthCommand` promises of the commands that carry a `uv`
-- option: MakeCredentials and GetAssertion.
use authenticator_rs.Common.{ℕ, List, ◌≡◌, ◌≢◌, Bool, true, false, Option, none, some}
use authenticator_rs.Errors.{Result, ok, err, stuck}
use authenticator_rs.Puap.{
  PinUvAuthCommand, PinUvAuthResult, request_is_ctap1, device_is_ctap1, no_auth_type_supported,
  no_auth_required, using_internal_uv, success_get_pin_token, success_using_uv, success_using_pin,
}

-- The parameter is the token's answer to the hash of the client data, and neither of the two setters
-- touches anything else that is read here.
pub record Laws {Cmd Token Param : Type 0} (trait : PinUvAuthCommand Cmd Token Param)
    (derive : Token → List ℕ → Option Param) : Type 0 where
  pub uv : Cmd → Option Bool
  pub hash : Cmd → List ℕ
  pub set_param-none :
      (c c' : Cmd)
      → trait.set_pin_uv_auth_param c none ≡ some c'
      → (trait.get_pin_uv_auth_param c' ≡ none) × (uv c' ≡ uv c) × (hash c' ≡ hash c)
  pub set_param-some :
      (c c' : Cmd) (t : Token)
      → trait.set_pin_uv_auth_param c (some t) ≡ some c'
      → (trait.get_pin_uv_auth_param c' ≡ derive t (hash c))
        × (derive t (hash c) ≢ none)
        × (uv c' ≡ uv c)
        × (hash c' ≡ hash c)
  pub set_uv_option-lem :
      (c : Cmd) (u : Option Bool)
      → (trait.get_pin_uv_auth_param (trait.set_uv_option c u) ≡ trait.get_pin_uv_auth_param c)
        × (uv (trait.set_uv_option c u) ≡ u)
        × (hash (trait.set_uv_option c u) ≡ hash c)

module _ {Cmd Token Param : Type 0} {trait : PinUvAuthCommand Cmd Token Param}
    {derive : Token → List ℕ → Option Param} (laws : Laws trait derive) where
  -- The command asks for no verification.
  abbrev pub IsBare : Cmd → Type 0
  IsBare c = (trait.get_pin_uv_auth_param c ≡ none) × (laws.uv c ≡ none)

  -- The command carries the parameter that this token derives for it, and no `uv` option.
  abbrev pub Carries : Token → Cmd → Type 0
  Carries t c =
      (trait.get_pin_uv_auth_param c ≡ derive t (laws.hash c))
      × (trait.get_pin_uv_auth_param c ≢ none)
      × (laws.uv c ≡ none)

  -- What the command carries, by the kind of verification that was decided on: a parameter of the
  -- token that was obtained, or the `uv` option, or neither.
  abbrev pub Agrees : PinUvAuthResult Token → Cmd → Type 0
  Agrees request_is_ctap1 c = IsBare c
  Agrees device_is_ctap1 c = IsBare c
  Agrees no_auth_required c = IsBare c
  Agrees no_auth_type_supported c =
      (trait.get_pin_uv_auth_param c ≡ none) × (laws.uv c ≢ some false)
  Agrees using_internal_uv c = (trait.get_pin_uv_auth_param c ≡ none) × (laws.uv c ≡ some true)
  Agrees (success_get_pin_token t) c = Carries t c
  Agrees (success_using_uv t) c = Carries t c
  Agrees (success_using_pin t) c = Carries t c

  abbrev pub AgreesIfOk : Result (PinUvAuthResult Token) → Cmd → Type 0
  AgreesIfOk (ok kind) c = Agrees kind c
  AgreesIfOk (err e) c = Unit {0}
  AgreesIfOk stuck c = Unit {0}
