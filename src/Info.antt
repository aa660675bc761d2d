-- ===== src/Info.antt =====
-- src/ctap2/commands/get_info.rs: what a token says of itself, and the questions that are asked of
-- it. A string is the list of its bytes; vendored maps and key parameters that no code here reads
-- are left out.
mod Tests
use authenticator_rs.Common.{
  ℕ, List, [], ◌∷◌, Bool, true, false, ◌&&◌, ◌||◌, Option, none, some, ◌==◌, if◌then◌else◌,
}

-- `AuthenticatorOptions`
pub record AuthenticatorOptions : Type 0 where
  pub platform_device : Bool
  pub resident_key : Bool
  pub client_pin : Option Bool
  pub user_presence : Bool
  pub user_verification : Option Bool
  pub pin_uv_auth_token : Option Bool
  pub no_mc_ga_permissions_with_client_pin : Option Bool
  pub large_blobs : Option Bool
  pub ep : Option Bool
  pub bio_enroll : Option Bool
  pub user_verification_mgmt_preview : Option Bool
  pub uv_bio_enroll : Option Bool
  pub authnr_cfg : Option Bool
  pub uv_acfg : Option Bool
  pub cred_mgmt : Option Bool
  pub credential_mgmt_preview : Option Bool
  pub set_min_pin_length : Option Bool
  pub make_cred_uv_not_rqd : Option Bool
  pub always_uv : Option Bool

-- `Default for AuthenticatorOptions`
abbrev pub default_options : AuthenticatorOptions
default_options = record {
  platform_device = false;
  resident_key = false;
  client_pin = none;
  user_presence = true;
  user_verification = none;
  pin_uv_auth_token = none;
  no_mc_ga_permissions_with_client_pin = none;
  large_blobs = none;
  ep = none;
  bio_enroll = none;
  user_verification_mgmt_preview = none;
  uv_bio_enroll = none;
  authnr_cfg = none;
  uv_acfg = none;
  cred_mgmt = none;
  credential_mgmt_preview = none;
  set_min_pin_length = none;
  make_cred_uv_not_rqd = none;
  always_uv = none;
}

-- `AuthenticatorVersion`
pub data AuthenticatorVersion : Type 0 where
  u2f_v2 fido_2_0 fido_2_1_pre fido_2_1 : AuthenticatorVersion

-- `AuthenticatorInfo`
pub record AuthenticatorInfo : Type 0 where
  pub versions : List AuthenticatorVersion
  pub extensions : List (List ℕ)
  pub options : AuthenticatorOptions
  pub max_msg_size : Option ℕ
  pub pin_protocols : Option (List ℕ)
  pub max_credential_count_in_list : Option ℕ
  pub max_credential_id_length : Option ℕ
  pub force_pin_change : Option Bool
  pub min_pin_length : Option ℕ

-- `Default for AuthenticatorInfo`
abbrev pub default_info : AuthenticatorInfo
default_info = record {
  versions = [];
  extensions = [];
  options = default_options;
  max_msg_size = none;
  pin_protocols = none;
  max_credential_count_in_list = none;
  max_credential_id_length = none;
  force_pin_change = none;
  min_pin_length = none;
}

-- `== Some(true)`
abbrev pub is_set : Option Bool → Bool
is_set (some b) = b
is_set none = false

-- `is_some()`
abbrev pub is_some : {A : Type 0} → Option A → Bool
is_some (some a) = true
is_some none = false

-- Equality of two strings.
abbrev pub same_bytes : List ℕ → List ℕ → Bool
same_bytes [] [] = true
same_bytes [] (y ∷ ys) = false
same_bytes (x ∷ xs) [] = false
same_bytes (x ∷ xs) (y ∷ ys) = (x == y) && same_bytes xs ys

-- `contains` on a list of strings.
abbrev pub has_string : List ℕ → List (List ℕ) → Bool
has_string s [] = false
has_string s (x ∷ xs) = same_bytes x s || has_string s xs

-- "credProtect" and "hmac-secret"
abbrev pub cred_protect_name : List ℕ
cred_protect_name = 99 ∷ 114 ∷ 101 ∷ 100 ∷ 80 ∷ 114 ∷ 111 ∷ 116 ∷ 101 ∷ 99 ∷ 116 ∷ []

abbrev pub hmac_secret_name : List ℕ
hmac_secret_name = 104 ∷ 109 ∷ 97 ∷ 99 ∷ 45 ∷ 115 ∷ 101 ∷ 99 ∷ 114 ∷ 101 ∷ 116 ∷ []

unfoldable pub supports_cred_protect : AuthenticatorInfo → Bool
supports_cred_protect info = has_string cred_protect_name info.extensions

unfoldable pub supports_hmac_secret : AuthenticatorInfo → Bool
supports_hmac_secret info = has_string hmac_secret_name info.extensions

abbrev pub same_version : AuthenticatorVersion → AuthenticatorVersion → Bool
same_version u2f_v2 u2f_v2 = true
same_version fido_2_0 fido_2_0 = true
same_version fido_2_1_pre fido_2_1_pre = true
same_version fido_2_1 fido_2_1 = true
same_version _ _ = false

-- `self.versions.contains(&ver)`
abbrev pub has_version : AuthenticatorVersion → List AuthenticatorVersion → Bool
has_version v [] = false
has_version v (x ∷ xs) = same_version x v || has_version v xs

-- The loop of `max_supported_version`: the first of the wanted versions that is there.
abbrev pub first_supported :
    List AuthenticatorVersion → List AuthenticatorVersion → AuthenticatorVersion
first_supported versions [] = u2f_v2
first_supported versions (ver ∷ rest) =
    let later = first_supported versions rest in if has_version ver versions then ver else later

unfoldable pub max_supported_version : AuthenticatorInfo → AuthenticatorVersion
max_supported_version info =
    first_supported info.versions (fido_2_1 ∷ fido_2_1_pre ∷ fido_2_0 ∷ u2f_v2 ∷ [])

abbrev pub device_is_protected : AuthenticatorInfo → Bool
device_is_protected info = is_set info.options.client_pin || is_set info.options.user_verification
