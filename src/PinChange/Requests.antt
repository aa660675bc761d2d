-- ===== src/PinChange/Requests.antt =====
-- The requests that `set_or_change_pin_helper` sends.
use authenticator_rs.Common.{
  List, ℕ, ◌++◌, ◌≡◌, refl, sym, Option, none, some, ◌⊎◌, inl, inr, Option-cases, Bool-cases, ltb,
  length,
}
use authenticator_rs.ClientPin.{
  PinUvAuthProtocol, PinSubcommand, ClientPin, set_pin, change_pin, padded, for_pin_token,
  set_new_pin, change_existing_pin,
}
use authenticator_rs.Command.{SecretOperations}
use authenticator_rs.Puap.{Pin}
use authenticator_rs.Status.{CommandError}

abbrev pub IfBuilt : {A : Type 0} → (A → Type 0) → CommandError ⊎ A → Type 0
IfBuilt P (inl e) = Unit {0}
IfBuilt P (inr a) = P a

module _ {Secret Key : Type 0} (secrets : SecretOperations Secret Key)
    (protocol : Secret → PinUvAuthProtocol) (sha256 : List ℕ → List ℕ) (new_pin : Pin) where
  -- The request carries the new PIN, padded, under the secret, with the protocol and the key that
  -- belong to it, and nothing else but the hash of a current PIN.
  abbrev pub Carries : PinSubcommand → Option (List ℕ) → Secret → ClientPin Key → Type 0
  Carries subcommand pin_hash_enc secret request =
      (request.subcommand ≡ subcommand)
      × (request.pin_protocol ≡ some (protocol secret))
      × (request.key_agreement ≡ some (secrets.client_input secret))
      × (request.new_pin_enc ≡ secrets.encrypt secret (padded new_pin))
      × (request.pin_hash_enc ≡ pin_hash_enc)

  pub set_new_pin-Carries :
      (secret : Secret)
      → IfBuilt (Carries set_pin none secret) (set_new_pin secrets protocol sha256 secret new_pin)
  unfolding set_new_pin
  set_new_pin-Carries secret = elim (Bool-cases (ltb 63 (length new_pin))) [
    | inl l ↦ rw (set_new_pin, l) tt
    | inr l ↦ elim (Option-cases (secrets.encrypt secret (padded new_pin))) [
      | inl e ↦ rw (set_new_pin, l, e) tt
      | inr (enc, e) ↦ elim (Option-cases (secrets.authenticate secret enc)) [
        | inl a ↦ rw (set_new_pin, l, e, a) tt
        | inr (auth, a) ↦ rw (set_new_pin, l, e, a) (refl, refl, refl, sym e, refl)
      ]
    ]
  ]

  pub change_existing_pin-Carries :
      (secret : Secret) (current_pin : Pin)
      → IfBuilt
          (Carries change_pin (secrets.encrypt secret (for_pin_token sha256 current_pin)) secret)
          (change_existing_pin secrets protocol sha256 secret current_pin new_pin)
  unfolding change_existing_pin
  change_existing_pin-Carries secret current_pin = elim (Bool-cases (ltb 63 (length new_pin))) [
    | inl l ↦ rw (change_existing_pin, l) tt
    | inr l ↦ elim (Option-cases (secrets.encrypt secret (padded new_pin))) [
      | inl e ↦ rw (change_existing_pin, l, e) tt
      | inr (enc, e) ↦
          elim (Option-cases (secrets.encrypt secret (for_pin_token sha256 current_pin))) [
            | inl f ↦ rw (change_existing_pin, l, e, f) tt
            | inr (hash, f) ↦ elim (Option-cases (secrets.authenticate secret (enc ++ hash))) [
              | inl a ↦ rw (change_existing_pin, l, e, f, a) tt
              | inr (auth, a) ↦ rw (change_existing_pin, l, e, f, a) (refl, refl, refl, sym e, refl)
            ]
          ]
    ]
  ]
