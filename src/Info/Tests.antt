-- ===== src/Info/Tests.antt =====
-- Runs of the functions of the parent.
use authenticator_rs.Common.{◌≡◌, refl, [], ◌∷◌, true}
use authenticator_rs.Info.{
  AuthenticatorInfo, default_info, u2f_v2, fido_2_0, max_supported_version, hmac_secret_name,
  supports_hmac_secret,
}

abbrev versions_2_0 : AuthenticatorInfo
versions_2_0 = record default_info {
  versions = u2f_v2 ∷ fido_2_0 ∷ [];
  extensions = hmac_secret_name ∷ [];
}

newest : max_supported_version versions_2_0 ≡ fido_2_0
unfolding max_supported_version
newest = refl

hmac : supports_hmac_secret versions_2_0 ≡ true
unfolding supports_hmac_secret
hmac = refl
