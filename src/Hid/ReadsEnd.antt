-- ===== src/Hid/ReadsEnd.antt =====
-- src/u2ftypes.rs and src/transport/hid.rs: the loop of `u2f_read` ends on every device, whatever
-- it delivers.
use mathlib.Core.Path.{subst}
use authenticator_rs.Common.{
  ℕ, zero, suc, ◌+◌, ◌-◌, ◌*◌, ◌≤◌, ◌<◌, ◌≡◌, ◌≢◌, refl, sym, List, [], ◌∷◌, ◌++◌, min, length,
  take, drop, replicate, arith, length-append, length-take, length-drop, length-replicate,
  if◌then◌else◌, ◌^◌, ◌∙◌, ◌==◌, bit_or, Bool-cases, inl, inr, ltb, ltb→lt, le→ltb, ltb→le, leb,
  slice_eq,
}
use authenticator_rs.Hid.Cmd.{HidCmd}
use authenticator_rs.Hid.Device.{Device, ReadEvent, report, read_error, stuck, fill, index}
use authenticator_rs.Hid.Frame.{
  Buffer, await_frame, read_frame, parse_init, parse_cont, slice, init_read, cont_read,
}
use authenticator_rs.Hid.Ends.{
  Ends, Ends-bind, Ends-weaken, Ends→ne-stuck, SameSizes, SameSizes-trans, next_sequence-Ends,
}
use authenticator_rs.Hid.Message.{read_rest, finish_read, u2f_read}

abbrev Awaited : List ℕ → List ReadEvent → Device → ℕ × List ℕ → Device → Type 0
Awaited frame es d (n, f) d' =
    (length f ≡ length frame) × SameSizes d d' × (length d'.incoming < length es)

length-fill : (bytes frame : List ℕ) → length (fill bytes frame) ≡ length frame
length-fill bytes frame = omega (
  arith,
  length-append (take (length frame) bytes) (drop (length bytes) frame),
  length-take (length frame) bytes,
  length-drop (length bytes) frame,
)

-- The read loop takes one report at least, and keeps the size of its buffer.
await_frame-Ends :
    (cid frame : List ℕ) (es : List ReadEvent) (d : Device)
    → Ends (Awaited frame es d) (await_frame cid frame es d)
unfolding await_frame
await_frame-Ends cid frame [] d = tt
await_frame-Ends cid frame (read_error ∷ es) d = tt
await_frame-Ends cid frame (report bytes ∷ es) d =
    let f : List ℕ = fill bytes frame in
    elim (Bool-cases (ltb (length f) 4)) [
      | inl short ↦ rw short tt
      | inr enough ↦ rw enough (elim (Bool-cases (slice_eq cid (take 4 f))) [
        | inl own ↦
            rw own
              (length-fill bytes frame, record { same_in = refl; same_out = refl }, omega arith)
        | inr other ↦ rw other (
            Ends-weaken (Awaited f es d) (Awaited frame (report bytes ∷ es) d) _
              (await_frame-Ends cid f es d)
              λ p d' h. (h.0 ∙ length-fill bytes frame, h.1, omega (arith, h.2)))
      ])
    ]

read_frame-Ends :
    (d : Device) → Ends (Awaited (replicate d.in_rpt_size 0) d.incoming d) (read_frame d)
unfolding read_frame
read_frame-Ends d = await_frame-Ends d.cid (replicate d.in_rpt_size 0) d.incoming d

index-Ends :
    (frame : List ℕ) (i : ℕ) (d : Device)
    → Ends (λ b d'. (i < length frame) × (d' ≡ d)) (index frame i d)
index-Ends [] i d = tt
index-Ends (x ∷ xs) zero d = (omega arith, refl)
index-Ends (x ∷ xs) (suc i) d =
    Ends-weaken (λ b d'. (i < length xs) × (d' ≡ d)) (λ b d'. (suc i < suc (length xs)) × (d' ≡ d))
      _ (index-Ends xs i d) λ b d' h. (omega (arith, h.0), h.1)

slice-Ends :
    (frame : List ℕ) (from len : ℕ) (d : Device)
    → Ends (λ bs d'. (length bs ≡ len) × (d' ≡ d)) (slice frame from (from + len) d)
slice-Ends frame from len d =
    ground (arith, length-take (from + len - from) (drop from frame), length-drop from frame)

abbrev Started : ℕ → Device → HidCmd × Buffer → Device → Type 0
Started size d (cmd, buffer) d' = (7 ≤ size) × (length buffer.bytes ≤ buffer.capacity) × (d' ≡ d)

parse_init-Ends :
    (size count : ℕ) (frame : List ℕ) (d : Device)
    → length frame ≡ size
    → Ends (Started size d) (parse_init size (count, frame) d)
unfolding parse_init
parse_init-Ends size count frame d hf = elim (Bool-cases (count == size)) [
  | inr partial ↦ rw partial tt
  | inl whole ↦ rw whole (
      Ends-bind (λ b d'. (4 < length frame) × (d' ≡ d)) _ _ _ (index-Ends frame 4 d)
        λ c d1 h1.
          Ends-bind (λ b d'. (5 < length frame) × (d' ≡ d1)) _ _ _ (index-Ends frame 5 d1)
            λ hi d2 h2.
              Ends-bind (λ b d'. (6 < length frame) × (d' ≡ d2)) _ _ _ (index-Ends frame 6 d2)
                λ lo d3 h3.
                  let cap : ℕ = bit_or (hi * 2 ^ 8) lo in
                  let len : ℕ = if leb 7 size then min cap (size - 7) else cap in
                  Ends-bind (λ bs d'. (length bs ≡ len) × (d' ≡ d3)) _ _ _
                    (slice-Ends frame 7 len d3)
                    λ bs d4 h4.
                      (omega (arith, h3.0), ground (arith, h4.0), h4.1 ∙ h3.1 ∙ h2.1 ∙ h1.1))
]

parse_cont-Ends :
    (size seq max count : ℕ) (frame : List ℕ) (d : Device)
    → 5 ≤ size
    → Ends
        (λ bs d'. (length bs ≡ min max (size - 5)) × (d' ≡ d))
        (parse_cont size seq max (count, frame) d)
unfolding parse_cont
parse_cont-Ends size seq max count frame d hs = elim (Bool-cases (count == size)) [
  | inr partial ↦ rw partial tt
  | inl whole ↦ rw whole (
      Ends-bind (λ b d'. (4 < length frame) × (d' ≡ d)) _ _ _ (index-Ends frame 4 d)
        λ n d1 h1.
          let len : ℕ = if leb 5 size then min max (size - 5) else max in
          elim (Bool-cases (seq == n)) [
            | inr wrong ↦ rw wrong tt
            | inl right ↦ rw right (
                Ends-weaken (λ bs d'. (length bs ≡ len) × (d' ≡ d1))
                  (λ bs d'. (length bs ≡ min max (size - 5)) × (d' ≡ d)) _
                  (slice-Ends frame 5 len d1) λ bs d2 h2. (ground arith, h2.1 ∙ h1.1))
          ])
]

abbrev pub Consumed : Device → Device → Type 0
Consumed d d' = SameSizes d d' × (length d'.incoming < length d.incoming)

init_read-Ends :
    (d : Device)
    → Ends
        (λ r d'. (7 ≤ d.in_rpt_size) × (length r.1.bytes ≤ r.1.capacity) × Consumed d d')
        (init_read d)
unfolding init_read
init_read-Ends d =
    let size : ℕ = d.in_rpt_size in
    Ends-bind (Awaited (replicate size 0) d.incoming d) _ _ _ (read_frame-Ends d) λ p d1 h.
      Ends-weaken (Started size d1)
        (λ r d'. (7 ≤ size) × (length r.1.bytes ≤ r.1.capacity) × Consumed d d') _
        (parse_init-Ends size p.0 p.1 d1 (h.0 ∙ length-replicate {A = ℕ} size 0))
        λ r d2 k. (k.0, k.1, subst (Consumed d) (sym k.2) (h.1, h.2))

cont_read-Ends :
    (seq max : ℕ) (d : Device)
    → 5 ≤ d.in_rpt_size
    → Ends
        (λ bs d'. (length bs ≡ min max (d.in_rpt_size - 5)) × Consumed d d')
        (cont_read seq max d)
unfolding cont_read
cont_read-Ends seq max d hs =
    let size : ℕ = d.in_rpt_size in
    Ends-bind (Awaited (replicate size 0) d.incoming d) _ _ _ (read_frame-Ends d) λ p d1 h.
      Ends-weaken (λ bs d'. (length bs ≡ min max (size - 5)) × (d' ≡ d1))
        (λ bs d'. (length bs ≡ min max (size - 5)) × Consumed d d') _
        (parse_cont-Ends size seq max p.0 p.1 d1 hs)
        λ r d2 k. (k.0, subst (Consumed d) (sym k.1) (h.1, h.2))

abbrev Followed : Device → Device → Type 0
Followed d d' = SameSizes d d' × (length d'.incoming ≤ length d.incoming)

read_rest-Ends :
    (fuel capacity seq : ℕ) (bytes : List ℕ) (d : Device)
    → 6 ≤ d.in_rpt_size
    → capacity ≤ length bytes + fuel
    → length bytes ≤ capacity
    → Ends (λ bs d'. (length bs ≡ capacity) × Followed d d') (read_rest fuel capacity seq bytes d)
unfolding read_rest
read_rest-Ends zero capacity seq bytes d hs hf hb =
    rw (le→ltb (length bytes) capacity (omega arith))
      (omega arith, (record { same_in = refl; same_out = refl }, omega arith))
read_rest-Ends (suc fuel) capacity seq bytes d hs hf hb =
    elim (Bool-cases (ltb (length bytes) capacity)) [
      | inr full ↦ rw full (
        omega (arith, ltb→le (length bytes) capacity full),
        (record { same_in = refl; same_out = refl }, omega arith),
      )
      | inl more ↦ rw more (
          let max : ℕ = capacity - length bytes in
          Ends-bind (λ bs d'. (length bs ≡ min max (d.in_rpt_size - 5)) × Consumed d d') _ _ _
            (cont_read-Ends seq max d (omega arith))
            λ bs d1 h.
              Ends-bind (λ s d'. d' ≡ d1) _ _ _ (next_sequence-Ends seq d1)
                λ s d2 e.
                  let k : Consumed d d2 = subst (Consumed d) (sym e) h.1 in
                  Ends-weaken (λ r d'. (length r ≡ capacity) × Followed d2 d')
                    (λ r d'. (length r ≡ capacity) × Followed d d') _
                    (read_rest-Ends fuel capacity s (bytes ++ bs) d2 (omega (arith, k.0.same_in))
                      (omega (arith, ltb→lt (length bytes) capacity more, length-append bytes bs))
                      (omega (arith, ltb→lt (length bytes) capacity more, length-append bytes bs)))
                    λ r d3 q. (q.0, (SameSizes-trans k.0 q.1.0, omega (arith, q.1.1, k.1))))
    ]

-- A message that is read takes one report at least from the device node.
pub u2f_read-Ends :
    (d : Device)
    → Ends (λ r d'. SameSizes d d' × (length d'.incoming < length d.incoming)) (u2f_read d)
unfolding u2f_read finish_read
u2f_read-Ends d =
    Ends-bind (λ r d'. (7 ≤ d.in_rpt_size) × (length r.1.bytes ≤ r.1.capacity) × Consumed d d') _ _
      _ (init_read-Ends d)
      λ r d1 h.
        Ends-bind (λ bs d'. (length bs ≡ r.1.capacity) × Followed d1 d') _ _ _
          (read_rest-Ends r.1.capacity r.1.capacity 0 r.1.bytes d1
            (omega (arith, h.0, h.2.0.same_in)) (omega arith) h.1)
          λ bs d2 k. (SameSizes-trans h.2.0 k.1.0, omega (arith, h.2.1, k.1.1))

-- On every device, whatever its report sizes are, whose node delivers finitely many reports and
-- errors and then nothing more, `u2f_read` returns, fails, panics or waits for a report: its loops do
-- not run on.
pub u2f_read-ne-stuck : (d : Device) → u2f_read d ≢ stuck
u2f_read-ne-stuck d =
    Ends→ne-stuck (λ r d'. SameSizes d d' × (length d'.incoming < length d.incoming)) (u2f_read d)
      (u2f_read-Ends d)
