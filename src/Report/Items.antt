-- ===== src/Report/Items.antt =====
-- src/transport/hidproto.rs: the iterator over a descriptor that is a sequence of short items, and
-- over one with a long item.
use authenticator_rs.Common.{
  ℕ, zero, suc, ◌+◌, ◌*◌, ◌%◌, ◌/◌, ◌^◌, ◌≤◌, ◌<◌, ◌≡◌, refl, ap, ◌∙◌, List, [], ◌∷◌, ◌++◌, true,
  false, Option, none, some, bit_and, bit_or, length, drop, ltb, leb, ◌==◌, ==_self, if◌then◌else◌,
  arith, bit_and_low_two, bit_and_high_four, bit_and_high_six, IsByte, All, take-append,
  drop-append, drop_all, length-append, le→ltb, inl, inr, ◌⊎◌, Option-cases, bit_or_bytes,
}
use mathlib.Core.Path.{ap₂}
use mathlib.Core.List.{reverse-cons, foldl-append}
use authenticator_rs.Report.{
  Item, usage_page, usage, input, output, report_count, get_hid_item, get_hid_long_item,
  short_item_size, take_item, classify, read_uint_le, next_item, next, items, iter,
}

-- A short item: its tag and type in the six high bits of the key, and 0, 1, 2 or 4 bytes of data.
pub record ShortItem : Type 0 where
  pub tag : ℕ
  pub bytes : List ℕ

abbrev pub IsShort : ShortItem → Type 0
IsShort it = (it.tag < 60) × All IsByte it.bytes × ((length it.bytes ≤ 2) ⊎ (length it.bytes ≡ 4))

abbrev pub size_code : ℕ → ℕ
size_code n = if leb n 2 then n else 3

-- The encoding of an item: key and data.
abbrev pub print_item : ShortItem → List ℕ
print_item it = (it.tag * 4 + size_code (length it.bytes)) ∷ it.bytes

abbrev pub print_items : List ShortItem → List ℕ
print_items [] = []
print_items (it ∷ its) = print_item it ++ print_items its

-- The little-endian value of some bytes.
abbrev pub value_le : List ℕ → ℕ
value_le [] = 0
value_le (b ∷ bs) = b + 256 * value_le bs

-- The item that a tag stands for, by the tables of the HID specification: the type is in the two low
-- bits of the six (0 main, 1 global, 2 local), the tag in the four high ones. Main items are Input
-- (tag 8) and Output (tag 9); global ones Usage Page (tag 0) and Report Count (tag 9); Usage (tag 0)
-- is a local one.
abbrev pub main_item : ℕ → Option Item
main_item tag = if tag == 8 then some input else if tag == 9 then some output else none

abbrev pub global_item : ℕ → ℕ → Option Item
global_item tag value =
    if tag == 0
    then some (usage_page value)
    else if tag == 9
    then some (report_count value)
    else none

abbrev pub local_item : ℕ → ℕ → Option Item
local_item tag value = if tag == 0 then some (usage value) else none

abbrev pub tabled : ℕ → ℕ → ℕ → Option Item
tabled type tag value =
    if type == 0
    then main_item tag
    else if type == 1
    then global_item tag value
    else if type == 2
    then local_item tag value
    else none

classify-tabled : (tag value : ℕ) → classify (tag * 4) value ≡ tabled (tag % 4) (tag / 4) value
unfolding classify
classify-tabled tag value = ground arith

abbrev pub keep : Option Item → List Item → List Item
keep (some d) ds = d ∷ ds
keep none ds = ds

-- The items among them that have one of these five kinds.
abbrev pub reported : List ShortItem → List Item
reported [] = []
reported (it ∷ its) = keep (tabled (it.tag % 4) (it.tag / 4) (value_le it.bytes)) (reported its)

-- What the iterator makes of them.
abbrev classified : List ShortItem → List Item
classified [] = []
classified (it ∷ its) = keep (classify (it.tag * 4) (value_le it.bytes)) (classified its)

classified-reported : (its : List ShortItem) → classified its ≡ reported its
classified-reported [] = refl
classified-reported (it ∷ its) =
    ap₂ keep (classify-tabled it.tag (value_le it.bytes)) (classified-reported its)

value_le_bound : (bs : List ℕ) → All IsByte bs → length bs ≤ 3 → value_le bs < 2 ^ 24
value_le_bound [] h p = omega arith
value_le_bound (a ∷ []) h p = omega (arith, h.0)
value_le_bound (a ∷ b ∷ []) h p = omega (arith, h.0, h.1.0)
value_le_bound (a ∷ b ∷ c ∷ []) h p = omega (arith, h.0, h.1.0, h.1.1.0)
value_le_bound (a ∷ b ∷ c ∷ d ∷ bs) h p = absurd (omega arith)

-- Up to four bytes are read as their little-endian value.
read_uint_le-value_le :
    (bs : List ℕ) → All IsByte bs → length bs ≤ 4 → read_uint_le bs ≡ value_le bs
unfolding read_uint_le
read_uint_le-value_le [] h p = refl
read_uint_le-value_le (b ∷ bs) h p =
    let ih = read_uint_le-value_le bs h.1 (omega arith) in
    let small : value_le bs < 2 ^ 24 = value_le_bound bs h.1 (omega arith) in
    let whole : value_le bs * 2 ^ 8 % 2 ^ 32 ≡ value_le bs * 256 = omega arith in
    let joined : bit_or (value_le bs * 2 ^ 8 % 2 ^ 32) b ≡ b + 256 * value_le bs =
      omega (arith, ap (λ (t : ℕ). bit_or t b) whole, bit_or_bytes (value_le bs) b h.0) in
    rw (reverse-cons, foldl-append, ih) joined

short_size :
    (it : ShortItem)
    → IsShort it
    → short_item_size (it.tag * 4 + size_code (length it.bytes)) ≡ length it.bytes
short_size it h = ground (arith, bit_and_low_two (it.tag * 4 + size_code (length it.bytes)))

get_hid_item-print_item :
    (it : ShortItem) (rest : List ℕ)
    → IsShort it
    → get_hid_item (it.tag * 4 + size_code (length it.bytes)) (it.bytes ++ rest)
      ≡ some (it.tag * 4, 1, it.bytes)
unfolding get_hid_item
get_hid_item-print_item it rest h =
    let key : ℕ = it.tag * 4 + size_code (length it.bytes) in
    let short : (bit_and key 0xf0 == 0xf0) ≡ false = ground (arith, bit_and_high_four key) in
    let tag : bit_and key 0xfc ≡ it.tag * 4 = ground (arith, bit_and_high_six key) in
    let fits : ltb (length (it.bytes ++ rest)) (length it.bytes) ≡ false =
      le→ltb _ _ (omega (arith, length-append it.bytes rest)) in
    rw (short, short_size it h, fits, tag, take-append (length it.bytes) it.bytes rest refl)

next_item-print_item :
    (it : ShortItem) (rest : List ℕ)
    → IsShort it
    → next_item (it.tag * 4 + size_code (length it.bytes)) (it.bytes ++ rest)
      ≡ (classify (it.tag * 4) (value_le it.bytes), rest)
unfolding next_item take_item
next_item-print_item it rest h =
    let few : length it.bytes ≤ 4 = ground (arith, h.2) in
    let value = read_uint_le-value_le it.bytes h.1 few in
    let skip : drop (1 + length it.bytes) (print_item it ++ rest) ≡ rest =
      drop-append (1 + length it.bytes) (print_item it) rest (omega arith) in
    rw (get_hid_item-print_item it rest h, value)
      (ap (λ l. (classify (it.tag * 4) (value_le it.bytes), l)) skip)

-- The first item that counts, and the bytes behind it.
abbrev first : List ShortItem → Option (Item × List ℕ)
first [] = none
first (it ∷ its) =
    let later = first its in
    elim (classify (it.tag * 4) (value_le it.bytes)) [
      | some d ↦ some (d, print_items its)
      | none ↦ later
    ]

next-print_items :
    (its : List ShortItem) (fuel : ℕ)
    → All IsShort its
    → length (print_items its) ≤ fuel
    → next fuel (print_items its) ≡ first its
unfolding next
next-print_items [] zero h f = refl
next-print_items [] (suc fuel) h f = refl
next-print_items (it ∷ its) zero h f = absurd (omega arith)
next-print_items (it ∷ its) (suc fuel) h f =
    let shorter : length (print_items its) ≤ fuel =
      omega (arith, length-append (print_item it) (print_items its)) in
    let ih = next-print_items its fuel h.1 shorter in
    elim (Option-cases (classify (it.tag * 4) (value_le it.bytes))) [
      | inl e ↦ ground (arith, next_item-print_item it (print_items its) h.0, e, ih)
      | inr (d, e) ↦ ground (arith, next_item-print_item it (print_items its) h.0, e)
    ]

items-print_items :
    (its : List ShortItem) (fuel : ℕ)
    → All IsShort its
    → length (print_items its) ≤ fuel
    → items fuel (print_items its) ≡ classified its
unfolding items next
items-print_items [] zero h f = refl
items-print_items [] (suc fuel) h f = refl
items-print_items (it ∷ its) zero h f = absurd (omega arith)
items-print_items (it ∷ its) (suc fuel) h f =
    let shorter : length (print_items its) ≤ fuel =
      omega (arith, length-append (print_item it) (print_items its)) in
    let here : next (length (print_items (it ∷ its))) (print_items (it ∷ its)) ≡ first (it ∷ its) =
      next-print_items (it ∷ its) (length (print_items (it ∷ its))) h (omega arith) in
    let there : next (length (print_items its)) (print_items its) ≡ first its =
      next-print_items its (length (print_items its)) h.1 (omega arith) in
    let fewer = items-print_items its fuel h.1 shorter in
    let same = items-print_items its (suc fuel) h.1 (omega arith) in
    elim (Option-cases (classify (it.tag * 4) (value_le it.bytes))) [
      | inl e ↦ ground (arith, here, there, e, same)
      | inr (d, e) ↦ ground (arith, here, e, fewer)
    ]

-- On the bytes of a sequence of short items, each with a tag and type of six bits below 60 (above
-- are the keys of long items) and 0, 1, 2 or 4 bytes of data, the iterator goes through exactly
-- those that the tables of HID name Input, Output, Usage Page, Report Count or Usage, in their order,
-- the last three each with the little-endian value of its data.
pub iter-print_items :
    (its : List ShortItem) → All IsShort its → iter (print_items its) ≡ reported its
unfolding iter
iter-print_items its h =
    items-print_items its (length (print_items its)) h (omega arith) ∙ classified-reported its

next_end : (fuel : ℕ) → next fuel [] ≡ none
unfolding next
next_end zero = refl
next_end (suc fuel) = refl

long_item_lem :
    (b0 len tag : ℕ) (rest : List ℕ)
    → bit_and b0 0xf0 ≡ 0xf0
    → len ≤ length rest
    → next_item b0 (len ∷ tag ∷ rest) ≡ (none, [])
unfolding next_item take_item get_hid_item get_hid_long_item
long_item_lem b0 len tag rest h fits =
    let key : (bit_and b0 0xf0 == 0xf0) ≡ true = ground (arith, ==_self 0xf0) in
    let room : ltb (length rest) len ≡ false = le→ltb _ _ fits in
    let gone : drop (3 + length rest) (b0 ∷ len ∷ tag ∷ rest) ≡ [] =
      drop_all (3 + length rest) (b0 ∷ len ∷ tag ∷ rest) (omega arith) in
    let nothing : Option Item = none in rw (key, room) (ap (λ (l : List ℕ). (nothing, l)) gone)

next_passes_over :
    (fuel b0 : ℕ) (rest left : List ℕ)
    → next_item b0 rest ≡ (none, left)
    → next (suc fuel) (b0 ∷ rest) ≡ next fuel left
unfolding next
next_passes_over fuel b0 rest left h = ground (arith, h)

items_stop :
    (fuel : ℕ) (buffer : List ℕ) → next (length buffer) buffer ≡ none → items fuel buffer ≡ []
unfolding items
items_stop zero buffer h = refl
items_stop (suc fuel) buffer h = ground (arith, h)

-- From a descriptor that starts with a long item, whose declared length is at most the number of
-- bytes behind its three-byte key, the iterator reports nothing at all, whatever items follow the
-- long one: the data of the long item is taken to be the whole rest of the descriptor.
iter_long_item :
    (b0 len tag : ℕ) (rest : List ℕ)
    → bit_and b0 0xf0 ≡ 0xf0
    → len ≤ length rest
    → iter (b0 ∷ len ∷ tag ∷ rest) ≡ []
unfolding iter
iter_long_item b0 len tag rest h fits =
    let found =
      next_passes_over (length (len ∷ tag ∷ rest)) b0 (len ∷ tag ∷ rest) []
        (long_item_lem b0 len tag rest h fits) in
    items_stop (length (b0 ∷ len ∷ tag ∷ rest)) (b0 ∷ len ∷ tag ∷ rest)
      (found ∙ next_end (length (len ∷ tag ∷ rest)))
