-- ===== src/Hid/Frames.antt =====
-- The frames that `U2FHIDInit::write` and `U2FHIDCont::write` build and send (src/u2ftypes.rs).
use authenticator_rs.Common.{
  ℕ, zero, suc, ◌+◌, ◌-◌, ◌/◌, ◌%◌, ◌^◌, ◌≤◌, ◌≡◌, refl, ap, ◌∙◌, List, [], ◌∷◌, ◌++◌, min, length,
  take, drop, replicate, arith, length-append, length-take, length-replicate, take-append, take-min,
  drop-append, append_assoc, le→ltb, true, some, leb, if◌then◌else◌, map,
}
use authenticator_rs.Hid.Device.{Device, ok}
use authenticator_rs.Hid.Frame.{
  copy_into, init_frame, init_write, cont_frame, cont_write, write_frame,
}
use authenticator_rs.Hid.Packets.{pad, init_packet, cont_packet}

-- The device node takes every frame whole.
abbrev pub Accepts : Device → Type 0
Accepts d = (sent : List (List ℕ)) (frame : List ℕ) → d.sink sent frame ≡ some (length frame)

-- A copy that replaces the middle of a buffer.
copy_into_lem :
    (at : ℕ) (src pre mid post : List ℕ) (d : Device)
    → at ≡ length pre
    → length src ≡ length mid
    → copy_into at src (pre ++ (mid ++ post)) d ≡ ok (pre ++ (src ++ post)) d
unfolding copy_into
copy_into_lem at src pre mid post d h k =
    let fits : leb (at + length src) (length (pre ++ (mid ++ post))) ≡ true =
      ground (arith, length-append pre (mid ++ post), length-append mid post) in
    let back : drop (at + length src) (pre ++ (mid ++ post)) ≡ post =
      rw (← append_assoc pre mid post)
        (drop-append (at + length src) (pre ++ mid) post (omega (arith, length-append pre mid))) in
    rw (fits, back, take-append at pre (mid ++ post) h)

zeros : ℕ → List ℕ
zeros n = replicate n 0

replicate_six :
    (n : ℕ) → zeros (suc (suc (suc (suc (suc n)))) + 1) ≡ 0 ∷ 0 ∷ 0 ∷ 0 ∷ 0 ∷ 0 ∷ zeros n
unfolding zeros
replicate_six n =
    let e : suc (suc (suc (suc (suc n)))) + 1 ≡ suc (suc (suc (suc (suc (suc n))))) = omega arith in
    ap (λ (t : ℕ). replicate {A = ℕ} t 0) e

zeros-add : (m n : ℕ) → zeros (m + n) ≡ zeros m ++ zeros n
unfolding zeros
zeros-add zero n = let e : 0 + n ≡ n = omega arith in ap zeros e
zeros-add (suc m) n =
    let e : suc m + n ≡ suc (m + n) = omega arith in ap zeros e ∙ ap (λ l. 0 ∷ l) (zeros-add m n)

-- The payload goes to the front of the `k` zeros behind the header.
copy_payload :
    (at k count : ℕ) (payload head : List ℕ) (d : Device)
    → at ≡ length head
    → count ≡ min (length payload) k
    → copy_into at (take count payload) (head ++ zeros k) d ≡ ok (head ++ pad k payload) d
unfolding zeros
copy_payload at k count payload head d h e =
    let split : zeros k ≡ zeros count ++ zeros (k - count) =
      ap zeros (let e' : k ≡ count + (k - count) = omega arith in e')
      ∙ zeros-add count (k - count) in
    let taken : take count payload ≡ take k payload =
      ap (λ (t : ℕ). take t payload) e ∙ take-min k payload in
    let left : k - count ≡ k - length payload = omega arith in
    rw split (
      copy_into_lem at (take count payload) head (zeros count) (zeros (k - count)) d h
        (omega (arith, length-take count payload, length-replicate {A = ℕ} count 0))
      ∙ rw (taken, left))

-- `init_frame` fills in the frame that the wire format describes, behind the report number 0.
init_frame-init_packet :
    (k cmd c0 c1 c2 c3 : ℕ) (payload : List ℕ) (d : Device)
    → length payload ≤ 0xffff
    → let size = suc (suc (suc (suc (suc (suc (suc k)))))) in
      init_frame size (c0 ∷ c1 ∷ c2 ∷ c3 ∷ []) cmd payload d
      ≡ ok
          (
            min (length payload) (size - 7),
            0 ∷ init_packet size (c0 ∷ c1 ∷ c2 ∷ c3 ∷ []) cmd payload,
          )
          d
unfolding init_frame zeros
init_frame-init_packet k cmd c0 c1 c2 c3 payload d h =
    let n : ℕ = length payload in
    let room : suc (suc (suc (suc (suc (suc (suc k)))))) - 7 ≡ k = omega arith in
    let count : (if leb 7 (suc (suc (suc (suc (suc (suc (suc k)))))))
          then min n (suc (suc (suc (suc (suc (suc (suc k)))))) - 7)
          else n)
        ≡ min n k =
      ground arith in
    let high : n / 2 ^ 8 % 2 ^ 8 ≡ n / 256 = omega arith in
    let front : List ℕ = 0 ∷ c0 ∷ c1 ∷ c2 ∷ c3 ∷ cmd ∷ [] in
    rw (
      replicate_six (suc (suc k)),
      copy_into_lem 1 (c0 ∷ c1 ∷ c2 ∷ c3 ∷ []) (0 ∷ []) (0 ∷ 0 ∷ 0 ∷ 0 ∷ []) (0 ∷ 0 ∷ 0 ∷ zeros k) d
          refl refl,
      copy_into_lem 5 (cmd ∷ []) (0 ∷ c0 ∷ c1 ∷ c2 ∷ c3 ∷ []) (0 ∷ []) (0 ∷ 0 ∷ zeros k) d refl
          refl,
      count,
      high,
      room,
      copy_into_lem 6 ((n / 256) ∷ []) front (0 ∷ []) (0 ∷ zeros k) d refl refl,
      copy_into_lem 7 ((n % 256) ∷ []) (front ++ (n / 256) ∷ []) (0 ∷ []) (zeros k) d refl refl,
      copy_payload 8 k (min n k) payload (front ++ (n / 256) ∷ (n % 256) ∷ []) d refl refl,
    )

-- So does `cont_frame`.
cont_frame-cont_packet :
    (k seq c0 c1 c2 c3 : ℕ) (payload : List ℕ) (d : Device)
    → let size = suc (suc (suc (suc (suc k)))) in
      cont_frame size (c0 ∷ c1 ∷ c2 ∷ c3 ∷ []) seq payload d
      ≡ ok
          (
            min (length payload) (size - 5),
            0 ∷ cont_packet size (c0 ∷ c1 ∷ c2 ∷ c3 ∷ []) seq payload,
          )
          d
unfolding cont_frame zeros
cont_frame-cont_packet k seq c0 c1 c2 c3 payload d =
    let n : ℕ = length payload in
    let room : suc (suc (suc (suc (suc k)))) - 5 ≡ k = omega arith in
    let count : (if leb 5 (suc (suc (suc (suc (suc k)))))
          then min n (suc (suc (suc (suc (suc k)))) - 5)
          else n)
        ≡ min n k =
      ground arith in
    let front : List ℕ = 0 ∷ c0 ∷ c1 ∷ c2 ∷ c3 ∷ [] in
    rw (
      replicate_six k,
      copy_into_lem 1 (c0 ∷ c1 ∷ c2 ∷ c3 ∷ []) (0 ∷ []) (0 ∷ 0 ∷ 0 ∷ 0 ∷ []) (0 ∷ zeros k) d refl
          refl,
      copy_into_lem 5 (seq ∷ []) front (0 ∷ []) (zeros k) d refl refl,
      count,
      room,
      copy_payload 6 k (min n k) payload (front ++ seq ∷ []) d refl refl,
    )

-- A list of four is four elements.
pub four : (xs : List ℕ) → length xs ≡ 4 → (a b c e : ℕ) × (xs ≡ a ∷ b ∷ c ∷ e ∷ [])
four [] h = absurd (omega arith)
four (a ∷ []) h = absurd (omega arith)
four (a ∷ b ∷ []) h = absurd (omega arith)
four (a ∷ b ∷ c ∷ []) h = absurd (omega arith)
four (a ∷ b ∷ c ∷ e ∷ []) h = (a, b, c, e, refl)
four (a ∷ b ∷ c ∷ e ∷ f ∷ l) h = absurd (omega arith)

init_frame_lem :
    (size cmd : ℕ) (cid payload : List ℕ) (d : Device)
    → length cid ≡ 4
    → 7 ≤ size
    → length payload ≤ 0xffff
    → init_frame size cid cmd payload d
      ≡ ok (min (length payload) (size - 7), 0 ∷ init_packet size cid cmd payload) d
init_frame_lem size cmd cid payload d hc hs hl =
    let (a, b, c, e, hcid) = four cid hc in
    let hsize : size ≡ suc (suc (suc (suc (suc (suc (suc (size - 7))))))) = omega arith in
    rw (hcid, hsize) (init_frame-init_packet (size - 7) cmd a b c e payload d hl)

cont_frame_lem :
    (size seq : ℕ) (cid payload : List ℕ) (d : Device)
    → length cid ≡ 4
    → 5 ≤ size
    → cont_frame size cid seq payload d
      ≡ ok (min (length payload) (size - 5), 0 ∷ cont_packet size cid seq payload) d
cont_frame_lem size seq cid payload d hc hs =
    let (a, b, c, e, hcid) = four cid hc in
    let hsize : size ≡ suc (suc (suc (suc (suc (size - 5))))) = omega arith in
    rw (hcid, hsize) (cont_frame-cont_packet (size - 5) seq a b c e payload d)

-- What a device that takes every frame has sent after some packets more.
abbrev pub sent_more : Device → List (List ℕ) → Device
sent_more d more = record d { outgoing = d.outgoing ++ map (λ p. 0 ∷ p) more }

write_frame_lem :
    (count : ℕ) (packet : List ℕ) (d : Device)
    → Accepts d
    → write_frame (count, 0 ∷ packet) d ≡ ok count (sent_more d (packet ∷ []))
unfolding write_frame
write_frame_lem count packet d h = ground (arith, h d.outgoing (0 ∷ packet))

pub init_write_lem :
    (cmd : ℕ) (payload : List ℕ) (d : Device)
    → length d.cid ≡ 4
    → 7 ≤ d.out_rpt_size
    → length payload ≤ 0xffff
    → Accepts d
    → init_write cmd payload d
      ≡ ok
          (min (length payload) (d.out_rpt_size - 7))
          (sent_more d (init_packet d.out_rpt_size d.cid cmd payload ∷ []))
unfolding init_write
init_write_lem cmd payload d hc hs hl hw =
    rw
      (
        init_write,
        le→ltb 0xffff (length payload) hl,
        init_frame_lem d.out_rpt_size cmd d.cid payload d hc hs hl,
      )
      (write_frame_lem _ _ d hw)

pub cont_write_lem :
    (seq : ℕ) (payload : List ℕ) (d : Device)
    → length d.cid ≡ 4
    → 5 ≤ d.out_rpt_size
    → Accepts d
    → cont_write seq payload d
      ≡ ok
          (min (length payload) (d.out_rpt_size - 5))
          (sent_more d (cont_packet d.out_rpt_size d.cid seq payload ∷ []))
unfolding cont_write
cont_write_lem seq payload d hc hs hw =
    rw (cont_write, cont_frame_lem d.out_rpt_size seq d.cid payload d hc hs)
      (write_frame_lem _ _ d hw)
