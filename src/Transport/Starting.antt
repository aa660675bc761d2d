-- ===== src/Transport/Starting.antt =====
-- What `init` of src/transport/mod.rs makes of a fresh token.
use authenticator_rs.Common.{◌≡◌, refl, true, false, none, some, ◌⊎◌, inl, inr, Bool-cases}
use authenticator_rs.Dispatch.Handling.{HidResult-cases}
use authenticator_rs.Errors.{HidResult, done, failed}
use authenticator_rs.Hid.Device.{FidoProtocol, ctap1, ctap2, HidError}
use authenticator_rs.Info.{AuthenticatorInfo, u2f_v2, same_version, max_supported_version}
use authenticator_rs.Transport.{Requests, Token, with_io, init, init_ctap1, init_ctap2}

module _ {Io : Type 0} (requests : Requests Io) where
  -- The protocol that fits what the token says of itself.
  abbrev pub protocol_for : AuthenticatorInfo → FidoProtocol
  protocol_for info = elim (same_version (max_supported_version info) u2f_v2) [
    | true ↦ ctap1
    | false ↦ ctap2
  ]

  module _ (io0 : Io) where
    abbrev io1 : Io
    io1 = (requests.pre_init io0).1

    -- CTAP2 is not tried, or the token does not tell about itself; `io` is the device below after that.
    abbrev pub Declines : Io → Type 0
    Declines io =
        ((requests.should_try_ctap2 io1 ≡ false) × (io ≡ io1))
        ⊎ ((requests.should_try_ctap2 io1 ≡ true)
            × (e : HidError) × ((requests.get_info io1).0 ≡ failed e)
            × (io ≡ (requests.get_info io1).1))

    -- CTAP2 is tried and the token has told about itself, or it declines and has answered the version
    -- command of CTAP1.
    abbrev pub Started : Token Io → Type 0
    Started t =
        ((info : AuthenticatorInfo) × (requests.should_try_ctap2 io1 ≡ true)
          × ((requests.get_info io1).0 ≡ done info)
          × (t.authenticator_info ≡ some info)
          × (t.protocol ≡ protocol_for info)
          × (t.io ≡ (requests.get_info io1).1))
        ⊎ ((io : Io) × Declines io
            × ((requests.get_version io).0 ≡ done tt)
            × (t.authenticator_info ≡ none)
            × (t.protocol ≡ ctap1)
            × (t.io ≡ (requests.get_version io).1))

    -- The start of the channel has failed, or the version command has.
    abbrev pub Failed : HidError → Token Io → Type 0
    Failed e t =
        (t.authenticator_info ≡ none)
        × (((requests.pre_init io0).0 ≡ failed e)
            ⊎ ((io : Io) × Declines io × ((requests.get_version io).0 ≡ failed e)))

    abbrev pub StartedIfDone : HidResult (Unit {0}) × Token Io → Type 0
    StartedIfDone (done u, t) = Started t
    StartedIfDone (failed e, t) = Failed e t

    init_ctap1-StartedIfDone :
        (t : Token Io)
        → t.authenticator_info ≡ none
        → Declines t.io
        → StartedIfDone (init_ctap1 requests t)
    unfolding init_ctap1
    init_ctap1-StartedIfDone t n l = elim (HidResult-cases (requests.get_version t.io).0) [
      | inl (u, q) ↦ rw (init_ctap1, q) (inr (t.io, l, q, n, refl, refl))
      | inr (e, q) ↦ rw (init_ctap1, q) (n, inr (t.io, l, q))
    ]

    init_ctap2-StartedIfDone :
        (t : Token Io)
        → t.authenticator_info ≡ none
        → t.protocol ≡ ctap2
        → requests.should_try_ctap2 io1 ≡ true
        → StartedIfDone (init_ctap2 requests (with_io io1 t))
    unfolding init_ctap2
    init_ctap2-StartedIfDone t n p s = elim (HidResult-cases (requests.get_info io1).0) [
      | inl (info, q) ↦ elim (Bool-cases (same_version (max_supported_version info) u2f_v2)) [
        | inl v ↦ rw (init_ctap2, q, v) (inl (info, s, q, refl, rw (protocol_for, v) refl, refl))
        | inr v ↦ rw (init_ctap2, q, v) (inl (info, s, q, refl, rw (protocol_for, v) p, refl))
      ]
      | inr (e, q) ↦
          rw (init_ctap2, q)
            (init_ctap1-StartedIfDone (with_io (requests.get_info io1).1 t) n (inr (s, e, q, refl)))
    ]

  -- A token that counts as a CTAP2 token before it is started, and has said nothing of itself, is
  -- started thus: after `pre_init`, and if CTAP2 is to be tried on it, it is asked about itself. If it
  -- tells, `init` succeeds with what it told, and its protocol is CTAP1 if the newest version that it
  -- names is U2F_V2 and else CTAP2. If CTAP2 is not to be tried, or it does not tell, `init` succeeds
  -- just when it then answers the version command, and its protocol is CTAP1. An `init` that fails has
  -- the error of `pre_init` or of the version command, and then the token has told nothing.
  pub init-StartedIfDone :
      (t : Token Io)
      → t.authenticator_info ≡ none
      → t.protocol ≡ ctap2
      → StartedIfDone t.io (init requests t)
  unfolding init
  init-StartedIfDone t n p = elim (HidResult-cases (requests.pre_init t.io).0) [
    | inr (e, q) ↦ rw (init, q) (n, inl q)
    | inl (u, q) ↦ elim (Bool-cases (requests.should_try_ctap2 (requests.pre_init t.io).1)) [
      | inl s ↦ rw (init, q, s) (init_ctap2-StartedIfDone t.io t n p s)
      | inr s ↦
          rw (init, q, s)
            (init_ctap1-StartedIfDone t.io (with_io (requests.pre_init t.io).1 t) n (inl (s, refl)))
    ]
  ]
