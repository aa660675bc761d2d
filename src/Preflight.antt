-- ===== src/Preflight.antt =====
-- src/ctap2/preflight.rs: which credentials of a list a token knows. The token is an interface,
-- as `FidoDevice` is in the source, and so is the derivation of a PIN parameter.
mod Tests
pub mod Chunks
pub mod Requests
pub mod Honest
use authenticator_rs.Common.{
  ℕ, zero, suc, List, [], ◌∷◌, ◌++◌, Bool, true, false, ◌&&◌, Option, none, some, inl, inr, ◌⊎◌,
  length, take, drop, ltb, leb, ◌==◌, if◌then◌else◌,
}
use authenticator_rs.Hid.Device.{FidoProtocol, ctap1, ctap2}
use authenticator_rs.Info.{AuthenticatorInfo}

-- `enum Transport`
pub data Transport : Type 0 where
  usb nfc ble internal : Transport

-- `PublicKeyCredentialDescriptor`
pub record Credential : Type 0 where
  pub id : List ℕ
  pub transports : List Transport

-- The `GetAssertion` that is sent, as far as it varies: the client data hash and the extensions
-- are constants.
pub record SilentAssert (Rp Param : Type 0) : Type 0 where
  pub rp : Rp
  pub allow_list : List Credential
  pub user_verification : Option Bool
  pub user_presence : Option Bool
  pub pin_uv_auth_param : Option Param

-- `CheckKeyHandle`
pub record CheckKeyHandle (Rp : Type 0) : Type 0 where
  pub key_handle : List ℕ
  pub client_data_hash : List ℕ
  pub rp : Rp

-- What is asked of a token: whether a key handle is its own, and a silent assertion, whose answer
-- has a credential for each result, which may be left out.
pub record FidoDevice (Dev Rp Param : Type 0) : Type 0 where
  pub get_protocol : Dev → FidoProtocol
  pub get_authenticator_info : Dev → Option AuthenticatorInfo
  pub send_ctap1 : Dev → CheckKeyHandle Rp → Bool × Dev
  pub send_msg : Dev → SilentAssert Rp Param → Option (List (Option Credential)) × Dev

pub data FilterError : Type 0 where
  device_not_initialized crypto : FilterError

-- `[T]::chunks`: the chunks of `size` elements, the last one with the rest.
unfoldable pub chunks : ℕ → ℕ → List Credential → List (List Credential)
chunks fuel size [] = []
chunks zero size (c ∷ cs) = []
chunks (suc fuel) size (c ∷ cs) = take size (c ∷ cs) ∷ chunks fuel size (drop size (c ∷ cs))

-- Step 1.0 and the second arm of step 1.1.
abbrev pub count_limit : Option ℕ → ℕ
count_limit none = 1
count_limit (some zero) = 1
count_limit (some (suc n)) = suc n

abbrev pub size_limit : Option ℕ → Option ℕ → ℕ
size_limit count none = count_limit count
size_limit count (some zero) = 1
size_limit count (some (suc n)) = count_limit count

abbrev pub chunk_size : AuthenticatorInfo → ℕ
chunk_size info = size_limit info.max_credential_count_in_list info.max_credential_id_length

abbrev pub retain : ℕ → List Credential → List Credential
retain n [] = []
retain n (c ∷ cs) = let rest = retain n cs in if leb (length c.id) n then c ∷ rest else rest

-- Step 1.1
abbrev pub retain_known_lengths : Option ℕ → List Credential → List Credential
retain_known_lengths none cs = cs
retain_known_lengths (some zero) cs = cs
retain_known_lengths (some (suc n)) cs = retain (suc n) cs

-- The `filter_map` over the results of a response to `chunk`.
abbrev pub fill_in : List Credential → Option Credential → Option Credential
fill_in (c ∷ []) none = some c
fill_in chunk credentials = credentials

abbrev pub returned : List Credential → List (Option Credential) → List Credential
returned chunk [] = []
returned chunk (r ∷ rs) =
    let rest = returned chunk rs in elim (fill_in chunk r) [ some c ↦ c ∷ rest | none ↦ rest ]

module _ {Dev Rp Param Token : Type 0} (device : FidoDevice Dev Rp Param)
    (derive : Token → Option Param) where
  -- `set_pin_uv_auth_param` of a silent assertion.
  unfoldable pub set_pin_uv_auth_param :
      SilentAssert Rp Param → Option Token → Option (SilentAssert Rp Param)
  set_pin_uv_auth_param m none = some (record m { pin_uv_auth_param = none })
  set_pin_uv_auth_param m (some token) = elim (derive token) [
    | some param ↦ some (record m { pin_uv_auth_param = some param })
    | none ↦ none
  ]

  abbrev pub new_silent_assert : Rp → List Credential → SilentAssert Rp Param
  new_silent_assert rp chunk = record {
    rp = rp;
    allow_list = chunk;
    user_verification = none;
    user_presence = some false;
    pin_uv_auth_param = none;
  }

  -- Step 2: the loop over the chunks.
  unfoldable pub try_chunks :
      Rp → Option Token → List (List Credential) → Dev → (FilterError ⊎ List Credential) × Dev
  unfolding set_pin_uv_auth_param
  try_chunks rp token [] dev = (inr [], dev)
  try_chunks rp token (chunk ∷ rest) dev =
      elim (set_pin_uv_auth_param (new_silent_assert rp chunk) token) [
        | none ↦ (inl crypto, dev)
        | some m ↦
            let (response, dev') = device.send_msg dev m in
            elim response [
              | some results ↦ (inr (returned chunk results), dev')
              | none ↦ try_chunks rp token rest dev'
            ]
      ]

  unfoldable pub do_credential_list_filtering_ctap2 :
      List Credential → Rp → Option Token → Dev → (FilterError ⊎ List Credential) × Dev
  unfolding try_chunks chunks
  do_credential_list_filtering_ctap2 cred_list rp token dev =
      elim (device.get_authenticator_info dev) [
        | none ↦ (inl device_not_initialized, dev)
        | some info ↦
            let cs = retain_known_lengths info.max_credential_id_length cred_list in
            try_chunks rp token (chunks (length cs) (chunk_size info) cs) dev
      ]

  -- `find_map` over the key handles that are not too long.
  unfoldable pub do_credential_list_filtering_ctap1 :
      List Credential → Rp → List ℕ → Dev → Option Credential × Dev
  do_credential_list_filtering_ctap1 [] rp hash dev = (none, dev)
  do_credential_list_filtering_ctap1 (c ∷ cs) rp hash dev =
      let (known, dev') =
        device.send_ctap1 dev (record { key_handle = c.id; client_data_hash = hash; rp = rp }) in
      let longer = do_credential_list_filtering_ctap1 cs rp hash dev in
      let later = do_credential_list_filtering_ctap1 cs rp hash dev' in
      if ltb (length c.id) 256 then (if known then (some c, dev') else later) else longer

  abbrev pub or_empty : FilterError ⊎ List Credential → List Credential
  or_empty (inr cs) = cs
  or_empty (inl e) = []

  abbrev pub to_vec : Option Credential → List Credential
  to_vec (some c) = c ∷ []
  to_vec none = []

  unfoldable pub silently_discover_credentials :
      List Credential → Rp → List ℕ → Dev → List Credential × Dev
  unfolding do_credential_list_filtering_ctap2 do_credential_list_filtering_ctap1
  silently_discover_credentials cred_list rp hash dev = elim (device.get_protocol dev) [
    | ctap2 ↦
        let (found, dev') = do_credential_list_filtering_ctap2 cred_list rp none dev in
        (or_empty found, dev')
    | ctap1 ↦
        let (found, dev') = do_credential_list_filtering_ctap1 cred_list rp hash dev in
        (to_vec found, dev')
  ]
