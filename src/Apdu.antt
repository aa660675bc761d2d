-- ===== src/Apdu.antt =====
-- CTAP1 requests and answers: src/u2ftypes.rs (`CTAP1RequestAPDU::serialize`),
-- src/transport/errors.rs (`ApduErrorStatus`) and the `CheckKeyHandle` request of
-- src/ctap2/preflight.rs.
mod Tests
pub mod Frames
use authenticator_rs.Common.{
  ℕ, ◌+◌, ◌/◌, ◌%◌, ◌^◌, List, [], ◌∷◌, ◌++◌, Bool, true, false, ◌&&◌, Option, none, some, inl, inr,
  ◌⊎◌, length, take, drop, replicate, ltb, ◌==◌, if◌then◌else◌,
}

-- `U2FAPDUHEADER_SIZE`
abbrev pub apdu_header_size : ℕ
apdu_header_size = 7

abbrev pub is_empty_data : List ℕ → Bool
is_empty_data [] = true
is_empty_data (b ∷ bytes) = false

-- `bytes[at..at + src.len()].copy_from_slice(src)`, inside the buffer.
abbrev pub overwrite : ℕ → List ℕ → List ℕ → List ℕ
overwrite at src bytes = take at bytes ++ (src ++ drop (at + length src) bytes)

-- `none` is the error for a payload that is too long.
unfoldable pub serialize : ℕ → ℕ → List ℕ → Option (List ℕ)
serialize ins p1 payload =
    let data_size = if is_empty_data payload then 0 else 2 + length payload in
    let bytes =
      overwrite 2 (p1 ∷ []) (overwrite 1 (ins ∷ []) (replicate (apdu_header_size + data_size) 0)) in
    if ltb 0xffff (length payload)
    then none
    else some (
        if is_empty_data payload
        then bytes
        else overwrite 7 payload (
            overwrite 6 (length payload % 2 ^ 8 ∷ [])
              (overwrite 5 (length payload / 2 ^ 8 % 2 ^ 8 ∷ []) bytes)))

-- `ApduErrorStatus`
pub data ApduErrorStatus : Type 0 where
  conditions_not_satisfied wrong_data wrong_length : ApduErrorStatus
  unknown : ℕ → ℕ → ApduErrorStatus

-- `ApduErrorStatus::from`; `none` is `Ok(())`.
unfoldable pub apdu_status : ℕ → ℕ → Option ApduErrorStatus
apdu_status s0 s1 =
    if s0 == 0x90 && s1 == 0x00
    then none
    else if s0 == 0x69 && s1 == 0x85
    then some conditions_not_satisfied
    else if s0 == 0x6a && s1 == 0x80
    then some wrong_data
    else if s0 == 0x67 && s1 == 0x00
    then some wrong_length
    else some (unknown s0 s1)

-- `ctap1_format` of a `CheckKeyHandle`, with the hash of the relying party.
unfoldable pub check_format : List ℕ → List ℕ → List ℕ → Option (List ℕ)
unfolding serialize
check_format key_handle client_data_hash rp_hash =
    serialize 0x02 0x07 (client_data_hash ++ (rp_hash ++ (length key_handle % 2 ^ 8 ∷ key_handle)))

-- Its `handle_response_ctap1`: whether the key handle is the token's own.
unfoldable pub check_response : Option ApduErrorStatus → Option ApduErrorStatus
check_response none = none
check_response (some conditions_not_satisfied) = none
check_response (some e) = some e
