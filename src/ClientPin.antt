-- ===== src/ClientPin.antt =====
-- src/ctap2/commands/client_pin.rs: the requests that set and change a PIN, as far as they are built
-- before they become CBOR, and PinUvAuthProtocol::try_from of src/crypto/mod.rs. The operations of a
-- shared secret and SHA-256 are arguments. A PIN is the list of its bytes.
use authenticator_rs.Common.{
  ℕ, ◌-◌, List, [], ◌∷◌, ◌++◌, Option, none, some, ◌⊎◌, inl, inr, ◌==◌, ltb, length, take,
  replicate, if◌then◌else◌,
}
use authenticator_rs.Command.{SecretOperations}
use authenticator_rs.Info.{
  AuthenticatorInfo, AuthenticatorVersion, u2f_v2, fido_2_0, fido_2_1_pre, fido_2_1,
  max_supported_version,
}
use authenticator_rs.Puap.{Pin}
use authenticator_rs.Status.{
  CommandError, status_code, crypto, unsupported_pin_protocol, pin_policy_violation,
}

-- `PinUvAuthProtocol`, which is a `PinUvAuth1` or a `PinUvAuth2`.
pub data PinUvAuthProtocol : Type 0 where
  pin_uv_auth1 pin_uv_auth2 : PinUvAuthProtocol

-- The loop over the protocols that the token lists.
abbrev pub first_known_protocol : List ℕ → CommandError ⊎ PinUvAuthProtocol
first_known_protocol [] = inl unsupported_pin_protocol
first_known_protocol (id ∷ ids) =
    let rest = first_known_protocol ids in
    if id == 1 then inr pin_uv_auth1 else if id == 2 then inr pin_uv_auth2 else rest

abbrev pub protocol_of_version : AuthenticatorVersion → CommandError ⊎ PinUvAuthProtocol
protocol_of_version u2f_v2 = inl unsupported_pin_protocol
protocol_of_version fido_2_0 = inr pin_uv_auth1
protocol_of_version fido_2_1_pre = inr pin_uv_auth2
protocol_of_version fido_2_1 = inr pin_uv_auth2

-- `TryFrom<&AuthenticatorInfo> for PinUvAuthProtocol`
unfoldable pub choose_protocol : AuthenticatorInfo → CommandError ⊎ PinUvAuthProtocol
choose_protocol info = elim info.pin_protocols [
  | some ids ↦ first_known_protocol ids
  | none ↦ protocol_of_version (max_supported_version info)
]

-- `PINSubcommand`
pub data PinSubcommand : Type 0 where
  get_pin_retries get_key_agreement set_pin change_pin get_pin_token : PinSubcommand
  get_pin_uv_auth_token_using_uv_with_permissions get_uv_retries : PinSubcommand
  get_pin_uv_auth_token_using_pin_with_permissions : PinSubcommand

-- `ClientPIN`
pub record ClientPin (Key : Type 0) : Type 0 where
  pub pin_protocol : Option PinUvAuthProtocol
  pub subcommand : PinSubcommand
  pub key_agreement : Option Key
  pub pin_auth : Option (List ℕ)
  pub new_pin_enc : Option (List ℕ)
  pub pin_hash_enc : Option (List ℕ)
  pub permissions : Option ℕ
  pub rp_id : Option (List ℕ)

-- `Default for ClientPIN`
abbrev pub default_client_pin : {Key : Type 0} → ClientPin Key
default_client_pin = record {
  pin_protocol = none;
  subcommand = get_pin_retries;
  key_agreement = none;
  pin_auth = none;
  new_pin_enc = none;
  pin_hash_enc = none;
  permissions = none;
  rp_id = none;
}

-- `Vec::resize`
abbrev pub resize : ℕ → ℕ → List ℕ → List ℕ
resize n byte bytes = take n bytes ++ replicate (n - length bytes) byte

-- `Pin::padded`
unfoldable pub padded : Pin → List ℕ
padded pin = resize 64 0x00 pin

-- `Pin::for_pin_token`, with SHA-256 as an argument.
unfoldable pub for_pin_token : (List ℕ → List ℕ) → Pin → List ℕ
for_pin_token sha256 pin = take 16 (sha256 pin)

abbrev pub or_crypto : Option (List ℕ) → CommandError ⊎ List ℕ
or_crypto (some bytes) = inr bytes
or_crypto none = inl crypto

-- `?`
infixl 5 ◌>>=◌
abbrev pub ◌>>=◌ : {A B : Type 0} → CommandError ⊎ A → (A → CommandError ⊎ B) → CommandError ⊎ B
inr a >>= f = f a
inl e >>= f = inl e

-- `len() > 63`
abbrev pub check_policy : Pin → CommandError ⊎ List ℕ
check_policy pin =
    if ltb 63 (length pin) then inl (status_code pin_policy_violation) else inr (padded pin)

module _ {Secret Key : Type 0} (secrets : SecretOperations Secret Key)
    (protocol : Secret → PinUvAuthProtocol) (sha256 : List ℕ → List ℕ) where
  -- `SetNewPin::as_client_pin`
  unfoldable pub set_new_pin : Secret → Pin → CommandError ⊎ ClientPin Key
  set_new_pin secret new_pin = do
    new_pin_padded ← check_policy new_pin
    new_pin_enc ← or_crypto (secrets.encrypt secret new_pin_padded)
    pin_auth ← or_crypto (secrets.authenticate secret new_pin_enc)
    inr (record default_client_pin {
      pin_protocol = some (protocol secret);
      subcommand = set_pin;
      key_agreement = some (secrets.client_input secret);
      new_pin_enc = some new_pin_enc;
      pin_auth = some pin_auth;
    })

  -- `ChangeExistingPin::as_client_pin`
  unfoldable pub change_existing_pin : Secret → Pin → Pin → CommandError ⊎ ClientPin Key
  change_existing_pin secret current_pin new_pin = do
    new_pin_padded ← check_policy new_pin
    new_pin_enc ← or_crypto (secrets.encrypt secret new_pin_padded)
    pin_hash_enc ← or_crypto (secrets.encrypt secret (for_pin_token sha256 current_pin))
    pin_auth ← or_crypto (secrets.authenticate secret (new_pin_enc ++ pin_hash_enc))
    inr (record default_client_pin {
      pin_protocol = some (protocol secret);
      subcommand = change_pin;
      key_agreement = some (secrets.client_input secret);
      new_pin_enc = some new_pin_enc;
      pin_hash_enc = some pin_hash_enc;
      pin_auth = some pin_auth;
    })
