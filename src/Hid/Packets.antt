-- ===== src/Hid/Packets.antt =====
-- The packets of a message, described without the code: the wire format of CTAPHID.
use authenticator_rs.Common.{
  ℕ, zero, suc, ◌+◌, ◌-◌, ◌/◌, ◌%◌, ◌≤◌, ◌≡◌, List, [], ◌∷◌, ◌++◌, length, take, drop, replicate,
  arith, length-append, length-take, length-replicate,
}

-- `size` bytes: the front of the payload, and zeros if it is shorter.
abbrev pub pad : ℕ → List ℕ → List ℕ
pad size payload = take size payload ++ replicate (size - length payload) 0

pub length-pad : (size : ℕ) (payload : List ℕ) → length (pad size payload) ≡ size
length-pad size payload = omega (
  arith,
  length-append (take size payload) (replicate (size - length payload) 0),
  length-take size payload,
  length-replicate {A = ℕ} (size - length payload) 0,
)

-- A channel id, the command, the length of the whole message in two bytes, and its first bytes.
abbrev pub init_packet : ℕ → List ℕ → ℕ → List ℕ → List ℕ
init_packet size cid cmd payload =
    cid ++ (cmd ∷ (length payload / 256) ∷ (length payload % 256) ∷ pad (size - 7) payload)

-- A channel id, the sequence number, and the next bytes.
abbrev pub cont_packet : ℕ → List ℕ → ℕ → List ℕ → List ℕ
cont_packet size cid seq payload = cid ++ (seq ∷ pad (size - 5) payload)

-- The continuation packets of what is left of a message, `n` at most, numbered from `seq` on.
unfoldable pub cont_packets : ℕ → List ℕ → ℕ → ℕ → List ℕ → List (List ℕ)
cont_packets size cid zero seq payload = []
cont_packets size cid (suc n) seq [] = []
cont_packets size cid (suc n) seq (b ∷ bs) =
    cont_packet size cid seq (b ∷ bs) ∷ cont_packets size cid n (seq + 1) (drop (size - 5) (b ∷ bs))

abbrev pub packets : ℕ → List ℕ → ℕ → List ℕ → List (List ℕ)
packets size cid cmd payload =
    init_packet size cid cmd payload
    ∷ cont_packets size cid (length payload) 0 (drop (size - 7) payload)

pub length-init_packet :
    (size : ℕ) (cid : List ℕ) (cmd : ℕ) (payload : List ℕ)
    → length cid ≡ 4
    → 7 ≤ size
    → length (init_packet size cid cmd payload) ≡ size
length-init_packet size cid cmd payload hc hs = omega (
  arith,
  length-append cid
      (cmd ∷ (length payload / 256) ∷ (length payload % 256) ∷ pad (size - 7) payload),
  length-pad (size - 7) payload,
)

pub length-cont_packet :
    (size : ℕ) (cid : List ℕ) (seq : ℕ) (payload : List ℕ)
    → length cid ≡ 4
    → 5 ≤ size
    → length (cont_packet size cid seq payload) ≡ size
length-cont_packet size cid seq payload hc hs =
    omega (arith, length-append cid (seq ∷ pad (size - 5) payload), length-pad (size - 5) payload)
