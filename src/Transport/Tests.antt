-- ===== src/Transport/Tests.antt =====
-- A token of FIDO 2.0 that starts, and one that answers U2F only.
use authenticator_rs.Common.{ℕ, suc, ◌≡◌, refl, [], ◌∷◌, true, none, some}
use authenticator_rs.Errors.{HidResult, done, failed}
use authenticator_rs.Hid.Device.{ctap1, ctap2, unsupported_command}
use authenticator_rs.Info.{AuthenticatorInfo, default_info, fido_2_0, max_supported_version}
use authenticator_rs.Transport.{Requests, Token, init}
use authenticator_rs.Transport.Starting.{StartedIfDone, init-StartedIfDone}

abbrev info : AuthenticatorInfo
info = record default_info { versions = fido_2_0 ∷ [] }

-- The device below is the number of requests so far.
abbrev requests : HidResult AuthenticatorInfo → Requests ℕ
requests answer = record {
  pre_init = λ n. (done tt, suc n);
  should_try_ctap2 = λ n. true;
  get_info = λ n. (answer, suc n);
  get_version = λ n. (done tt, suc n);
  selection = λ n. (done tt, suc n);
  dummy_make_credentials = λ n. (done tt, suc n);
}

abbrev fresh : Token ℕ
fresh = record { protocol = ctap2; authenticator_info = none; io = 0 }

started :
    init (requests (done info)) fresh
    ≡ (done tt, record { protocol = ctap2; authenticator_info = some info; io = 2 })
unfolding init max_supported_version
started = refl

downgraded :
    init (requests (failed unsupported_command)) fresh
    ≡ (done tt, record { protocol = ctap1; authenticator_info = none; io = 3 })
unfolding init
downgraded = refl

init-StartedIfDone_example :
    StartedIfDone (requests (done info)) 0 (init (requests (done info)) fresh)
init-StartedIfDone_example = init-StartedIfDone (requests (done info)) fresh refl refl
