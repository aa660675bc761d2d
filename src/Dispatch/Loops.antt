-- ===== src/Dispatch/Loops.antt =====
-- Loops of rounds: what holds of every way to leave them, and when they end.
use authenticator_rs.Common.{ℕ, zero, suc, ◌<◌, ◌≡◌, refl, Option, none, some, arith, inl, inr, ◌⊎◌}
use mathlib.Core.Path.{subst}
use authenticator_rs.Dispatch.{Next, continue_with, leave, starved, loop}

Next-cases :
    {S E : Type 0} (n : Next S E)
    → ((s : S) × (n ≡ continue_with s)) ⊎ (((e : E) × (n ≡ leave e)) ⊎ (n ≡ starved))
Next-cases (continue_with s) = inl (s, refl)
Next-cases (leave e) = inr (inl (e, refl))
Next-cases starved = inr (inr refl)

abbrev pub IfSome : {E : Type 0} → (E → Type 0) → Option E → Type 0
IfSome Q (some e) = Q e
IfSome Q none = Unit {0}

pub IfSome-map :
    {E : Type 0} (Q R : E → Type 0) (x : Option E) → ((e : E) → Q e → R e) → IfSome Q x → IfSome R x
IfSome-map Q R (some e) f h = f e h
IfSome-map Q R none f h = tt

module _ {S E : Type 0} where
  -- The round keeps an invariant or leaves with a property.
  abbrev pub Keeps : (S → Type 0) → (E → Type 0) → Next S E → Type 0
  Keeps I Q (continue_with s) = I s
  Keeps I Q (leave e) = Q e
  Keeps I Q starved = Unit {0}

  -- The round leaves or spends something.
  abbrev pub Spends : (S → ℕ) → ℕ → Next S E → Type 0
  Spends left n (continue_with s) = left s < n
  Spends left n (leave e) = Unit {0}
  Spends left n starved = ⊥

  pub Keeps-map :
      (I : S → Type 0) (Q R : E → Type 0) (n : Next S E)
      → ((e : E) → Q e → R e)
      → Keeps I Q n
      → Keeps I R n
  Keeps-map I Q R (continue_with s) f h = h
  Keeps-map I Q R (leave e) f h = f e h
  Keeps-map I Q R starved f h = tt

  pub loop-Keeps :
      (round : ℕ → S → Next S E) (I : S → Type 0) (Q : E → Type 0)
      → ((fuel : ℕ) (s : S) → I s → Keeps I Q (round fuel s))
      → (fuel : ℕ) (s : S) → I s
      → IfSome Q (loop round fuel s)
  unfolding loop
  loop-Keeps round I Q keeps zero s i = tt
  loop-Keeps round I Q keeps (suc fuel) s i = elim (Next-cases (round fuel s)) [
    | inl (s', e) ↦
        let i' : Keeps I Q (continue_with s') = subst (Keeps I Q) e (keeps fuel s i) in
        rw (loop, e) (loop-Keeps round I Q keeps fuel s' i')
    | inr (inl (x, e)) ↦
        let q : Keeps I Q (leave x) = subst (Keeps I Q) e (keeps fuel s i) in rw (loop, e) q
    | inr (inr e) ↦ rw (loop, e) tt
  ]

  pub loop_ends :
      (round : ℕ → S → Next S E) (left : S → ℕ)
      → ((fuel : ℕ) (s : S) → left s < suc fuel → Spends left fuel (round fuel s))
      → (fuel : ℕ) (s : S) → left s < fuel
      → (e : E) × (loop round fuel s ≡ some e)
  unfolding loop
  loop_ends round left spends zero s h = absurd (omega arith)
  loop_ends round left spends (suc fuel) s h = elim (Next-cases (round fuel s)) [
    | inl (s', e) ↦
        let l : Spends left fuel (continue_with s') =
          subst (Spends left fuel) e (spends fuel s h) in
        let (x, q) = (loop_ends round left spends fuel s' l) in (x, rw (loop, e) q)
    | inr (inl (x, e)) ↦ (x, rw (loop, e) refl)
    | inr (inr e) ↦
        let l : Spends left fuel starved = subst (Spends left fuel) e (spends fuel s h) in absurd l
  ]

  -- The round keeps an invariant and spends something, or leaves with a property.
  abbrev pub Moves : (S → Type 0) → (S → ℕ) → ℕ → (E → Type 0) → Next S E → Type 0
  Moves I left n Q (continue_with s) = I s × (left s < n)
  Moves I left n Q (leave e) = Q e
  Moves I left n Q starved = ⊥

  pub loop-Moves :
      (round : ℕ → S → Next S E) (I : S → Type 0) (left : S → ℕ) (Q : E → Type 0)
      → ((fuel : ℕ) (s : S) → I s → Moves I left (left s) Q (round fuel s))
      → (fuel : ℕ) (s : S) → I s
      → left s < fuel
      → (e : E) × (loop round fuel s ≡ some e) × Q e
  unfolding loop
  loop-Moves round I left Q moves zero s i h = absurd (omega arith)
  loop-Moves round I left Q moves (suc fuel) s i h = elim (Next-cases (round fuel s)) [
    | inl (s', e) ↦
        let m : Moves I left (left s) Q (continue_with s') =
          subst (Moves I left (left s) Q) e (moves fuel s i) in
        let l : left s' < left s = m.1 in
        let (x, q, r) = loop-Moves round I left Q moves fuel s' m.0 (omega arith) in
        (x, rw (loop, e) q, r)
    | inr (inl (x, e)) ↦
        let q : Q x = subst (Moves I left (left s) Q) e (moves fuel s i) in
        (x, rw (loop, e) refl, q)
    | inr (inr e) ↦ let q : ⊥ = subst (Moves I left (left s) Q) e (moves fuel s i) in absurd q
  ]
