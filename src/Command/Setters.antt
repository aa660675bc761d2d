-- ===== src/Command/Setters.antt =====
-- src/ctap2/commands/make_credentials.rs and get_assertion.rs: both commands keep the laws of
-- `PinUvAuthCommand`.
use authenticator_rs.Common.{ℕ, List, [], ◌≡◌, ◌≢◌, refl, Option, none, some, arith}
use authenticator_rs.Command.{
  MakeCredentials, GetAssertion, make_credentials, get_assertion, make_credentials_set_param,
  get_assertion_set_param,
}
use authenticator_rs.Puap.Laws.{Laws}

-- The commands but for their lists and their verification of the user.
abbrev pub core : {Param : Type 0} → MakeCredentials Param → MakeCredentials Param
core m = record m {
  exclude_list = [];
  options = record m.options { user_verification = none };
  pin_uv_auth_param = none;
}

abbrev pub assertion_core : {Param Key : Type 0} → GetAssertion Param Key → GetAssertion Param Key
assertion_core m = record m {
  allow_list = [];
  options = record m.options { user_verification = none };
  extensions = record m.extensions { hmac_secret = none };
  pin_uv_auth_param = none;
}

module _ {Token Param : Type 0} (derive : Token → List ℕ → Option Param) where
  pub assertion_core-set_param :
      {Key : Type 0} (m m' : GetAssertion Param Key) (t : Option Token)
      → get_assertion_set_param derive m t ≡ some m'
      → assertion_core m' ≡ assertion_core m
  assertion_core-set_param m m' none e = ground arith
  assertion_core-set_param m m' (some t) e = ground arith

  pub core-set_param :
      (m m' : MakeCredentials Param) (t : Option Token)
      → make_credentials_set_param derive m t ≡ some m'
      → core m' ≡ core m
  core-set_param m m' none e = ground arith
  core-set_param m m' (some t) e = ground arith

module _ {Token Param : Type 0} (derive : Token → List ℕ → Option Param) where
  pub make_credentials_clears :
      (c c' : MakeCredentials Param)
      → make_credentials_set_param derive c none ≡ some c'
      → (c'.pin_uv_auth_param ≡ none)
        × (c'.options.user_verification ≡ c.options.user_verification)
        × (c'.client_data_hash ≡ c.client_data_hash)
  make_credentials_clears c c' e = ground arith

  pub make_credentials_carries :
      (c c' : MakeCredentials Param) (t : Token)
      → make_credentials_set_param derive c (some t) ≡ some c'
      → (c'.pin_uv_auth_param ≡ derive t c.client_data_hash)
        × (derive t c.client_data_hash ≢ none)
        × (c'.options.user_verification ≡ c.options.user_verification)
        × (c'.client_data_hash ≡ c.client_data_hash)
  make_credentials_carries c c' t e = ground arith

  pub get_assertion_clears :
      {Key : Type 0} (c c' : GetAssertion Param Key)
      → get_assertion_set_param derive c none ≡ some c'
      → (c'.pin_uv_auth_param ≡ none)
        × (c'.options.user_verification ≡ c.options.user_verification)
        × (c'.client_data_hash ≡ c.client_data_hash)
  get_assertion_clears c c' e = ground arith

  pub get_assertion_carries :
      {Key : Type 0} (c c' : GetAssertion Param Key) (t : Token)
      → get_assertion_set_param derive c (some t) ≡ some c'
      → (c'.pin_uv_auth_param ≡ derive t c.client_data_hash)
        × (derive t c.client_data_hash ≢ none)
        × (c'.options.user_verification ≡ c.options.user_verification)
        × (c'.client_data_hash ≡ c.client_data_hash)
  get_assertion_carries c c' t e = ground arith

module _ {Token Param : Type 0} (derive : Token → List ℕ → Option Param) where
  abbrev pub make_credentials-Laws : Laws (make_credentials derive) derive
  make_credentials-Laws = record {
    uv = λ m. m.options.user_verification;
    hash = λ m. m.client_data_hash;
    set_param-none = λ c c'. make_credentials_clears derive c c';
    set_param-some = λ c c'. make_credentials_carries derive c c';
    set_uv_option-lem = λ c u. (refl, refl, refl);
  }

  abbrev pub get_assertion-Laws : {Key : Type 0} → Laws (get_assertion derive {Key = Key}) derive
  get_assertion-Laws = record {
    uv = λ m. m.options.user_verification;
    hash = λ m. m.client_data_hash;
    set_param-none = λ c c'. get_assertion_clears derive c c';
    set_param-some = λ c c'. get_assertion_carries derive c c';
    set_uv_option-lem = λ c u. (refl, refl, refl);
  }
