-- ===== src/Hid/Ends.antt =====
-- Outcomes that are no lack of fuel, with a postcondition on what is returned: the rules with which
-- the methods of src/u2ftypes.rs and src/transport/hid.rs are shown to end.
use mathlib.Core.Path.{subst}
use authenticator_rs.Common.{ℕ, ◌≡◌, ◌≢◌, arith, ◌∙◌}
use authenticator_rs.Hid.Device.{Device, Outcome, M, ok, err, panic, blocked, stuck, bind}
use authenticator_rs.Hid.Message.{next_sequence}

-- The model did not run out of fuel, and a value that is returned satisfies `P`.
abbrev pub Ends {ℓ} : {A : Type ℓ} → (A → Device → Type 0) → Outcome A → Type 0
Ends P (ok a d) = P a d
Ends P stuck = ⊥
Ends P _ = Unit {0}

pub Ends-bind {ℓ κ} :
    {A : Type ℓ} {B : Type κ} (P : A → Device → Type 0) (Q : B → Device → Type 0) (m : Outcome A)
    (f : A → M B)
    → Ends P m
    → ((a : A) (d : Device) → P a d → Ends Q (f a d))
    → Ends Q (bind m f)
Ends-bind P Q (ok a d) f h k = k a d h
Ends-bind P Q (err e d) f h k = tt
Ends-bind P Q panic f h k = tt
Ends-bind P Q blocked f h k = tt
Ends-bind P Q stuck f h k = absurd h

pub Ends-weaken {ℓ} :
    {A : Type ℓ} (P Q : A → Device → Type 0) (m : Outcome A)
    → Ends P m
    → ((a : A) (d : Device) → P a d → Q a d)
    → Ends Q m
Ends-weaken P Q (ok a d) h k = k a d h
Ends-weaken P Q (err e d) h k = tt
Ends-weaken P Q panic h k = tt
Ends-weaken P Q blocked h k = tt
Ends-weaken P Q stuck h k = h

pub Ends→ne-stuck {ℓ} :
    {A : Type ℓ} (P : A → Device → Type 0) (m : Outcome A) → Ends P m → m ≢ stuck
Ends→ne-stuck P m h e = subst (Ends P) e h

-- What a method leaves alone: the sizes of the reports.
pub record SameSizes (d d' : Device) : Type 0 where
  pub same_in : d'.in_rpt_size ≡ d.in_rpt_size
  pub same_out : d'.out_rpt_size ≡ d.out_rpt_size

pub SameSizes-trans : {a b c : Device} → SameSizes a b → SameSizes b c → SameSizes a c
SameSizes-trans h k = record { same_in = k.same_in ∙ h.same_in; same_out = k.same_out ∙ h.same_out }

pub next_sequence-Ends : (seq : ℕ) (d : Device) → Ends (λ n d'. d' ≡ d) (next_sequence seq d)
unfolding next_sequence
next_sequence-Ends seq d = ground arith
