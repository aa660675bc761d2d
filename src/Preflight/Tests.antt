-- ===== src/Preflight/Tests.antt =====
-- The filtering of src/ctap2/preflight.rs on a small list.
use authenticator_rs.Common.{
  ℕ, ◌≤◌, ◌≡◌, ◌↔◌, refl, List, [], ◌∷◌, Bool, true, false, none, some, length, All, arith, ◌==◌,
}
use authenticator_rs.Hid.Device.{ctap2}
use authenticator_rs.Info.{AuthenticatorInfo, default_info}
use authenticator_rs.Preflight.{
  Credential, SilentAssert, FidoDevice, do_credential_list_filtering_ctap2,
  silently_discover_credentials,
}
use authenticator_rs.Preflight.Requests.{IsLegal, do_credential_list_filtering_ctap2-keeps}
use authenticator_rs.Preflight.Honest.{honest, Fits, silently_discover_credentials-honest}

abbrev credential : List ℕ → Credential
credential id = record { id = id; transports = [] }

abbrev three_credentials : List Credential
three_credentials = credential (1 ∷ []) ∷ credential (2 ∷ 3 ∷ 4 ∷ []) ∷ credential (5 ∷ []) ∷ []

-- A token with lists of two and ids of two bytes.
abbrev info : AuthenticatorInfo
info = record default_info {
  max_credential_count_in_list = some 2;
  max_credential_id_length = some 2;
}

abbrev knows_five : List ℕ → Bool
knows_five [] = false
knows_five (b ∷ id) = b == 5

silently_discover_credentials-honest_example :
    let found =
      (silently_discover_credentials
        (honest {Rp = ℕ} {Param = ℕ} ctap2 info knows_five true)
        (λ (n : ℕ). some n)
        three_credentials
        0
        []
        tt).0 in
    ((found ≡ []) ↔ All (λ c. Fits ctap2 info c → knows_five c.id ≡ false) three_credentials)
    × All (λ c. (knows_five c.id ≡ true) × (Fits ctap2 info c × (1 ≤ length c.id))) found
silently_discover_credentials-honest_example =
    silently_discover_credentials-honest ctap2 info knows_five true (λ (n : ℕ). some n) 0
      (λ c. 1 ≤ length c.id) three_credentials [] (omega arith, (omega arith, (omega arith, tt)))

-- A token whose state is the list of the requests that it got, and that refuses each.
abbrev recorder : FidoDevice (List (SilentAssert ℕ ℕ)) ℕ ℕ
recorder = record {
  get_protocol = λ _. ctap2;
  get_authenticator_info = λ _. some info;
  send_ctap1 = λ dev _. (false, dev);
  send_msg = λ dev m. (none, m ∷ dev);
}

abbrev LegalRequests : List (SilentAssert ℕ ℕ) → Type 0
LegalRequests dev = All (IsLegal info (λ c. 1 ≤ length c.id)) dev

do_credential_list_filtering_ctap2-keeps_example :
    LegalRequests
      (do_credential_list_filtering_ctap2 recorder
        (λ (n : ℕ). some n)
        three_credentials
        0
        (some 7)
        []).1
do_credential_list_filtering_ctap2-keeps_example =
    do_credential_list_filtering_ctap2-keeps recorder (λ (n : ℕ). some n) info LegalRequests
      (λ c. 1 ≤ length c.id) (λ dev m p legal. (legal, p)) three_credentials 0 (some 7) []
      (omega arith, (omega arith, (omega arith, tt))) refl tt
