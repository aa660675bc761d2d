-- ===== src/Command.antt =====
-- src/ctap2/commands/make_credentials.rs and get_assertion.rs: the two commands of a registration
-- and a signature, their options and extensions, and how they verify the user. What a token derives
-- from the hash of the client data, and the shared secret of the hmac-secret extension, are
-- cryptography and parameters.
pub mod Setters
use authenticator_rs.Common.{
  ℕ, List, [], ◌∷◌, ◌++◌, Bool, true, false, not, ◌&&◌, ◌||◌, Option, none, some, length, take, ltb,
  if◌then◌else◌,
}
use authenticator_rs.Cose.{CoseAlgorithm, es256}
use authenticator_rs.Errors.{Result, ok, err}
use authenticator_rs.Info.{AuthenticatorInfo, is_set, is_some, device_is_protected}
use authenticator_rs.Preflight.{Credential}
use authenticator_rs.Puap.{
  PinUvAuthCommand, UserVerificationRequirement, crypto_failed, discouraged,
}

-- `enum CredentialProtectionPolicy`
pub data CredentialProtectionPolicy : Type 0 where
  user_verification_optional user_verification_optional_with_credential_id_list
        user_verification_required :
      CredentialProtectionPolicy

-- `RelyingParty`
pub record RelyingParty : Type 0 where
  pub id : List ℕ
  pub name : Option (List ℕ)

-- `RelyingParty::from`
abbrev pub rp_from : List ℕ → RelyingParty
rp_from id = record { id = id; name = none }

-- `PublicKeyCredentialUserEntity`
pub record UserEntity : Type 0 where
  pub id : List ℕ
  pub name : Option (List ℕ)
  pub display_name : Option (List ℕ)

-- `AuthenticationExtensionsClientInputs`
pub record ClientInputs : Type 0 where
  pub app_id : Option (List ℕ)
  pub cred_props : Option Bool
  pub credential_protection_policy : Option CredentialProtectionPolicy
  pub enforce_credential_protection_policy : Option Bool
  pub hmac_create_secret : Option Bool
  pub min_pin_length : Option Bool

-- `MakeCredentialsOptions`
pub record MakeCredentialsOptions : Type 0 where
  pub resident_key : Option Bool
  pub user_verification : Option Bool

-- `MakeCredentialsExtensions`
pub record MakeCredentialsExtensions : Type 0 where
  pub cred_props : Option Bool
  pub cred_protect : Option CredentialProtectionPolicy
  pub hmac_secret : Option Bool
  pub min_pin_length : Option Bool

-- `From<AuthenticationExtensionsClientInputs> for MakeCredentialsExtensions`
abbrev pub registration_extensions : ClientInputs → MakeCredentialsExtensions
registration_extensions input = record {
  cred_props = input.cred_props;
  cred_protect = input.credential_protection_policy;
  hmac_secret = input.hmac_create_secret;
  min_pin_length = input.min_pin_length;
}

-- `MakeCredentials`
pub record MakeCredentials (Param : Type 0) : Type 0 where
  pub client_data_hash : List ℕ
  pub rp : RelyingParty
  pub user : Option UserEntity
  pub pub_cred_params : List CoseAlgorithm
  pub exclude_list : List Credential
  pub extensions : MakeCredentialsExtensions
  pub options : MakeCredentialsOptions
  pub pin_uv_auth_param : Option Param
  pub enterprise_attestation : Option ℕ

-- `CalculatedHmacSecretExtension`
pub record CalculatedHmac (Key : Type 0) : Type 0 where
  pub public_key : Key
  pub salt_enc : List ℕ
  pub salt_auth : List ℕ

-- `HmacSecretExtension`
pub record HmacSecretExtension (Key : Type 0) : Type 0 where
  pub salt1 : List ℕ
  pub salt2 : Option (List ℕ)
  pub calculated_hmac : Option (CalculatedHmac Key)

-- `GetAssertionOptions`
pub record GetAssertionOptions : Type 0 where
  pub user_verification : Option Bool
  pub user_presence : Option Bool

-- `GetAssertionExtensions`
pub record GetAssertionExtensions (Key : Type 0) : Type 0 where
  pub app_id : Option (List ℕ)
  pub hmac_secret : Option (HmacSecretExtension Key)

-- `From<AuthenticationExtensionsClientInputs> for GetAssertionExtensions`
abbrev pub assertion_extensions : {Key : Type 0} → ClientInputs → GetAssertionExtensions Key
assertion_extensions input = record { app_id = input.app_id; hmac_secret = none }

-- `GetAssertion`
pub record GetAssertion (Param Key : Type 0) : Type 0 where
  pub client_data_hash : List ℕ
  pub rp : RelyingParty
  pub allow_list : List Credential
  pub extensions : GetAssertionExtensions Key
  pub options : GetAssertionOptions
  pub pin_uv_auth_param : Option Param

-- `SharedSecret`, as far as the hmac-secret extension asks: `encrypt`, `authenticate` and
-- `client_input`.
pub record SecretOperations (Secret Key : Type 0) : Type 0 where
  pub encrypt : Secret → List ℕ → Option (List ℕ)
  pub authenticate : Secret → List ℕ → Option (List ℕ)
  pub client_input : Secret → Key

-- `?` on a call of the cryptography.
infixl 5 ◌>>=◌
abbrev ◌>>=◌ : {A B : Type 0} → Option A → (A → Option B) → Option B
some a >>= f = f a
none >>= f = none

module _ {Secret Key : Type 0} (secrets : SecretOperations Secret Key) where
  -- The salts that are encrypted, unless one is too short.
  abbrev pub salts : HmacSecretExtension Key → Option (List ℕ)
  salts hmac = if ltb (length hmac.salt1) 32 then none else elim hmac.salt2 [
    | none ↦ some (take 32 hmac.salt1)
    | some salt2 ↦
        if ltb (length salt2) 32 then none else some (take 32 hmac.salt1 ++ take 32 salt2)
  ]

  -- `HmacSecretExtension::calculate`; all its errors are the same to the caller.
  unfoldable pub calculate : Secret → HmacSecretExtension Key → Option (HmacSecretExtension Key)
  calculate secret hmac = do
    input ← salts hmac
    salt_enc ← secrets.encrypt secret input
    salt_auth ← secrets.authenticate secret salt_enc
    let calculated : CalculatedHmac Key = record {
      public_key = secrets.client_input secret;
      salt_enc = salt_enc;
      salt_auth = salt_auth;
    }
    some (record hmac { calculated_hmac = some calculated })

-- `uv_req == UserVerificationRequirement::Discouraged`
abbrev pub is_discouraged : UserVerificationRequirement → Bool
is_discouraged discouraged = true
is_discouraged _ = false

module _ {Token Param : Type 0} (derive : Token → List ℕ → Option Param) where
  module _ where
    -- `PinUvAuthCommand for MakeCredentials`
    abbrev pub make_credentials_set_param :
        MakeCredentials Param → Option Token → Option (MakeCredentials Param)
    make_credentials_set_param m none = some (record m { pin_uv_auth_param = none })
    make_credentials_set_param m (some token) = elim (derive token m.client_data_hash) [
      | some param ↦ some (record m { pin_uv_auth_param = some param })
      | none ↦ none
    ]

    abbrev pub make_credentials_set_uv : MakeCredentials Param → Option Bool → MakeCredentials Param
    make_credentials_set_uv m uv = record m {
      options = record m.options { user_verification = uv };
    }

    abbrev pub make_credentials_can_skip :
        MakeCredentials Param → AuthenticatorInfo → UserVerificationRequirement → Bool
    make_credentials_can_skip m info uv_req =
        let make_cred_uv_not_required =
          is_set info.options.make_cred_uv_not_rqd
          && not (is_set m.options.resident_key)
          && is_discouraged uv_req in
        let device_protected =
          is_set info.options.user_verification || is_set info.options.client_pin in
        not (is_set info.options.always_uv) && (not device_protected || make_cred_uv_not_required)

    abbrev pub make_credentials : PinUvAuthCommand (MakeCredentials Param) Token Param
    make_credentials = record {
      set_pin_uv_auth_param = make_credentials_set_param;
      get_pin_uv_auth_param = λ m. m.pin_uv_auth_param;
      set_uv_option = make_credentials_set_uv;
      get_rp_id = λ m. some m.rp.id;
      can_skip_user_verification = make_credentials_can_skip;
    }

  module _ {Key : Type 0} where
    -- `PinUvAuthCommand for GetAssertion`
    abbrev pub get_assertion_set_param :
        GetAssertion Param Key → Option Token → Option (GetAssertion Param Key)
    get_assertion_set_param m none = some (record m { pin_uv_auth_param = none })
    get_assertion_set_param m (some token) = elim (derive token m.client_data_hash) [
      | some param ↦ some (record m { pin_uv_auth_param = some param })
      | none ↦ none
    ]

    abbrev pub get_assertion_set_uv : GetAssertion Param Key → Option Bool → GetAssertion Param Key
    get_assertion_set_uv m uv = record m { options = record m.options { user_verification = uv } }

    abbrev pub get_assertion_can_skip :
        GetAssertion Param Key → AuthenticatorInfo → UserVerificationRequirement → Bool
    get_assertion_can_skip m info uv_req =
        let device_protected =
          is_set info.options.user_verification || is_set info.options.client_pin in
        not (is_set info.options.always_uv) && (not device_protected || is_discouraged uv_req)

    abbrev pub get_assertion : PinUvAuthCommand (GetAssertion Param Key) Token Param
    get_assertion = record {
      set_pin_uv_auth_param = get_assertion_set_param;
      get_pin_uv_auth_param = λ m. m.pin_uv_auth_param;
      set_uv_option = get_assertion_set_uv;
      get_rp_id = λ m. some m.rp.id;
      can_skip_user_verification = get_assertion_can_skip;
    }
