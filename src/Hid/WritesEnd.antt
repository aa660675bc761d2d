-- ===== src/Hid/WritesEnd.antt =====
-- src/u2ftypes.rs and src/transport/hid.rs: the loop of `u2f_write` ends on every device.
use mathlib.Core.Path.{subst}
use authenticator_rs.Common.{
  ℕ, zero, suc, ◌+◌, ◌-◌, ◌≤◌, ◌≡◌, ◌≢◌, refl, sym, List, [], ◌∷◌, ◌++◌, min, length, take, drop,
  replicate, arith, length-append, length-take, length-drop, length-replicate, if◌then◌else◌, ◌/◌,
  ◌%◌, ◌^◌, Bool-cases, inl, inr, ltb, ltb→lt, leb,
}
use authenticator_rs.Hid.Device.{Device, stuck, write}
use authenticator_rs.Hid.Frame.{
  copy_into, init_frame, cont_frame, write_frame, init_write, cont_write,
}
use authenticator_rs.Hid.Ends.{
  Ends, Ends-bind, Ends-weaken, Ends→ne-stuck, SameSizes, SameSizes-trans, next_sequence-Ends,
}
use authenticator_rs.Hid.Message.{write_rest, u2f_write}

abbrev Copied : ℕ → List ℕ → List ℕ → Device → List ℕ → Device → Type 0
Copied at src frame d f d' =
    (at + length src ≤ length frame) × (length f ≡ length frame) × SameSizes d d'

copy_into-Ends :
    (at : ℕ) (src frame : List ℕ) (d : Device)
    → Ends (Copied at src frame d) (copy_into at src frame d)
unfolding copy_into
copy_into-Ends at src frame d = ground (
  arith,
  length-append (take at frame) (src ++ drop (at + length src) frame),
  length-append src (drop (at + length src) frame),
  length-take at frame,
  length-drop (at + length src) frame,
)

abbrev Written : ℕ → Device → ℕ → Device → Type 0
Written count d n d' = (n ≡ count) × SameSizes d d' × (d'.incoming ≡ d.incoming)

write_frame-Ends :
    (count : ℕ) (frame : List ℕ) (d : Device)
    → Ends (Written count d) (write_frame (count, frame) d)
unfolding write_frame write
write_frame-Ends count frame d = ground arith

abbrev FrameOf : ℕ → ℕ → ℕ → Device → ℕ × List ℕ → Device → Type 0
FrameOf least size count d (n, frame) d' = (least ≤ size) × (n ≡ count) × SameSizes d d'

-- A frame is built only if the report has room for the header.
init_frame-Ends :
    (size cmd : ℕ) (cid payload : List ℕ) (d : Device)
    → Ends
        (FrameOf 7 size (if leb 7 size then min (length payload) (size - 7) else length payload) d)
        (init_frame size cid cmd payload d)
unfolding init_frame
init_frame-Ends size cmd cid payload d =
    let buffer : List ℕ = replicate (size + 1) 0 in
    let high : List ℕ = (length payload / 2 ^ 8 % 2 ^ 8) ∷ [] in
    let count : ℕ = if leb 7 size then min (length payload) (size - 7) else length payload in
    Ends-bind (Copied 1 cid buffer d) _ _ _ (copy_into-Ends 1 cid buffer d) λ a da ha.
      Ends-bind (Copied 5 (cmd ∷ []) a da) _ _ _ (copy_into-Ends 5 (cmd ∷ []) a da) λ b db hb.
        Ends-bind (Copied 6 high b db) _ _ _ (copy_into-Ends 6 high b db) λ c dc hc.
          Ends-bind (Copied 7 ((length payload % 2 ^ 8) ∷ []) c dc) _ _ _
            (copy_into-Ends 7 ((length payload % 2 ^ 8) ∷ []) c dc)
            λ e de he.
              Ends-bind (Copied 8 (take count payload) e de) _ _ _
                (copy_into-Ends 8 (take count payload) e de)
                λ f df hf. (
                  omega (arith, length-replicate {A = ℕ} (size + 1) 0),
                  refl,
                  SameSizes-trans
                      (SameSizes-trans (SameSizes-trans (SameSizes-trans ha.2 hb.2) hc.2) he.2)
                      hf.2,
                )

cont_frame-Ends :
    (size seq : ℕ) (cid payload : List ℕ) (d : Device)
    → Ends
        (FrameOf 5 size (if leb 5 size then min (length payload) (size - 5) else length payload) d)
        (cont_frame size cid seq payload d)
unfolding cont_frame
cont_frame-Ends size seq cid payload d =
    let buffer : List ℕ = replicate (size + 1) 0 in
    let count : ℕ = if leb 5 size then min (length payload) (size - 5) else length payload in
    Ends-bind (Copied 1 cid buffer d) _ _ _ (copy_into-Ends 1 cid buffer d) λ a da ha.
      Ends-bind (Copied 5 (seq ∷ []) a da) _ _ _ (copy_into-Ends 5 (seq ∷ []) a da) λ b db hb.
        Ends-bind (Copied 6 (take count payload) b db) _ _ _
          (copy_into-Ends 6 (take count payload) b db)
          λ c dc hc. (
            omega (arith, length-replicate {A = ℕ} (size + 1) 0),
            refl,
            SameSizes-trans (SameSizes-trans ha.2 hb.2) hc.2,
          )

-- `U2FHIDInit::write` succeeds only if the report has room for its header.
init_write-Ends :
    (cmd : ℕ) (payload : List ℕ) (d : Device)
    → Ends (λ n d'. (7 ≤ d.out_rpt_size) × SameSizes d d') (init_write cmd payload d)
unfolding init_write
init_write-Ends cmd payload d = elim (Bool-cases (ltb 0xffff (length payload))) [
  | inl large ↦ rw large tt
  | inr fits ↦ rw fits (
      Ends-bind
        (FrameOf 7 d.out_rpt_size
          (if leb 7 d.out_rpt_size
            then min (length payload) (d.out_rpt_size - 7)
            else length payload)
          d)
        _ _ _ (init_frame-Ends d.out_rpt_size cmd d.cid payload d)
        λ p d1 h.
          Ends-weaken (Written p.0 d1) (λ n d'. (7 ≤ d.out_rpt_size) × SameSizes d d') _
            (write_frame-Ends p.0 p.1 d1) λ n d2 k. (h.0, SameSizes-trans h.2 k.1))
]

cont_write-Ends :
    (seq : ℕ) (payload : List ℕ) (d : Device)
    → 5 ≤ d.out_rpt_size
    → Ends
        (λ n d'. (n ≡ min (length payload) (d.out_rpt_size - 5)) × SameSizes d d')
        (cont_write seq payload d)
unfolding cont_write
cont_write-Ends seq payload d h5 =
    Ends-bind
      (FrameOf 5 d.out_rpt_size
        (if leb 5 d.out_rpt_size then min (length payload) (d.out_rpt_size - 5) else length payload)
        d)
      _ _ _ (cont_frame-Ends d.out_rpt_size seq d.cid payload d)
      λ p d1 h.
        Ends-weaken (Written p.0 d1)
          (λ n d'. (n ≡ min (length payload) (d.out_rpt_size - 5)) × SameSizes d d') _
          (write_frame-Ends p.0 p.1 d1) λ n d2 k. (ground arith, SameSizes-trans h.2 k.1)

write_rest-Ends :
    (fuel count seq : ℕ) (send : List ℕ) (d : Device)
    → 6 ≤ d.out_rpt_size
    → length send ≤ count + fuel
    → Ends (λ u d'. SameSizes d d') (write_rest fuel count seq send d)
unfolding write_rest
write_rest-Ends zero count seq send d hs hf = ground arith
write_rest-Ends (suc fuel) count seq send d hs hf = elim (Bool-cases (ltb count (length send))) [
  | inl more ↦ rw more (
      Ends-bind (λ n d'. (n ≡ min (length (drop count send)) (d.out_rpt_size - 5)) × SameSizes d d')
        _ _ _ (cont_write-Ends seq (drop count send) d (omega arith))
        λ n d1 h.
          Ends-bind (λ s d'. d' ≡ d1) _ _ _ (next_sequence-Ends seq d1)
            λ s d2 e.
              let sizes : SameSizes d d2 = subst (SameSizes d) (sym e) h.1 in
              Ends-weaken (λ u d'. SameSizes d2 d') (λ u d'. SameSizes d d') _
                (write_rest-Ends fuel (count + n) s send d2 (omega (arith, sizes.same_out))
                  (omega (arith, ltb→lt count (length send) more, length-drop count send)))
                λ u d3 k. SameSizes-trans sizes k)
  | inr done ↦ rw done (record { same_in = refl; same_out = refl })
]

pub u2f_write-Ends :
    (cmd : ℕ) (send : List ℕ) (d : Device) → Ends (λ u d'. SameSizes d d') (u2f_write cmd send d)
unfolding u2f_write
u2f_write-Ends cmd send d =
    Ends-bind (λ n d'. (7 ≤ d.out_rpt_size) × SameSizes d d') _ _ _ (init_write-Ends cmd send d)
      λ n d1 h.
        Ends-weaken (λ u d'. SameSizes d1 d') (λ u d'. SameSizes d d') _
          (write_rest-Ends (length send) n 0 send d1 (omega (arith, h.1.same_out)) (omega arith))
          λ u d2 k. SameSizes-trans h.1 k

-- On every device, whatever its report sizes, its channel id and its answers to the writes are, and
-- for every command and message, `u2f_write` returns, fails or panics: its loop does not run on.
pub u2f_write-ne-stuck : (cmd : ℕ) (send : List ℕ) (d : Device) → u2f_write cmd send d ≢ stuck
u2f_write-ne-stuck cmd send d =
    Ends→ne-stuck (λ u d'. SameSizes d d') (u2f_write cmd send d) (u2f_write-Ends cmd send d)
