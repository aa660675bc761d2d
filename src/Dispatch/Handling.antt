-- ===== src/Dispatch/Handling.antt =====
-- src/ctap2/mod.rs: `handle_errors!` in the loops of `register` and `sign`.
use authenticator_rs.Common.{List, ◌∷◌, ◌≡◌, refl, ◌⊎◌, inl, inr, false, arith}
use authenticator_rs.Dispatch.{Try, handle_in_loop}
use authenticator_rs.Dispatch.Loops.{Keeps}
use authenticator_rs.Errors.{AuthenticatorError, Result, HidResult, err, done, failed}
use authenticator_rs.Hid.Device.{HidError, FidoProtocol, ctap1, ctap2}
use authenticator_rs.Puap.{PinUvAuthResult}

pub HidResult-cases :
    {A : Type 0} (r : HidResult A) → ((x : A) × (r ≡ done x)) ⊎ ((e : HidError) × (r ≡ failed e))
HidResult-cases (done x) = inl (x, refl)
HidResult-cases (failed e) = inr (e, refl)

pub FidoProtocol-cases : (p : FidoProtocol) → (p ≡ ctap1) ⊎ (p ≡ ctap2)
FidoProtocol-cases ctap1 = inl refl
FidoProtocol-cases ctap2 = inr refl

pub sum-cases : {A B : Type 0} (x : A ⊎ B) → ((a : A) × (x ≡ inl a)) ⊎ ((b : B) × (x ≡ inr b))
sum-cases (inl a) = inl (a, refl)
sum-cases (inr b) = inr (b, refl)

module _ {Cmd Dev User Out Token : Type 0} where
  -- The macro goes on without calling the callback, or leaves after one call with an error.
  pub handle_in_loop-Keeps :
      (I : Cmd → Type 0) (before : List (Result Out)) (e : HidError) (kind : PinUvAuthResult Token)
      (t : Try Cmd Dev User Out)
      → I t.cmd
      → t.session.called ≡ before
      → Keeps
          (λ t'. I t'.cmd × (t'.session.called ≡ before))
          (λ exit.
            (exit.returned ≡ false)
            × (e' : AuthenticatorError) × (exit.session.called ≡ err e' ∷ before))
          (handle_in_loop e kind t)
  unfolding handle_in_loop
  handle_in_loop-Keeps I before e kind t i c = ground arith
