-- ===== src/Report.antt =====
-- src/transport/hidproto.rs: HID report descriptors. The state of the iterator is the rest of the
-- descriptor, `desc.value[pos..]`.
mod Tests
pub mod Items
pub mod Sizes
use authenticator_rs.Common.{
  ℕ, zero, suc, ◌+◌, ◌-◌, ◌*◌, ◌%◌, ◌^◌, List, [], ◌∷◌, ◌++◌, Bool, true, false, ◌&&◌, Option, none,
  some, bit_and, bit_or, length, take, drop, ltb, leb, ◌==◌, if◌then◌else◌,
}
use mathlib.Core.List.{reverse, foldl}

-- `enum Data`
pub data Item : Type 0 where
  usage_page usage : ℕ → Item
  input output : Item
  report_count : ℕ → Item

-- The tag and type of an item, the length of its key, and its data.
abbrev pub RawItem : Type 0
RawItem = ℕ × ℕ × List ℕ

-- `get_hid_long_item`; the head of the buffer is its first byte.
unfoldable pub get_hid_long_item : List ℕ → Option RawItem
get_hid_long_item [] = none
get_hid_long_item (b0 ∷ []) = none
get_hid_long_item (b0 ∷ b1 ∷ []) = none
get_hid_long_item (b0 ∷ b1 ∷ b2 ∷ rest) = if ltb (length rest) b1 then none else some (b2, 3, rest)

-- `match buf[0] & HID_MASK_SHORT_ITEM_SIZE { s @ 0..=2 => s, _ => 4 }`
abbrev pub short_item_size : ℕ → ℕ
short_item_size b0 = if leb (bit_and b0 0b0000_0011) 2 then bit_and b0 0b0000_0011 else 4

-- `get_hid_short_item` on a buffer with a first byte.
unfoldable pub get_hid_short_item : ℕ → List ℕ → Option RawItem
get_hid_short_item b0 rest =
    if ltb (length rest) (short_item_size b0)
    then none
    else some (bit_and b0 0b1111_1100, 1, take (short_item_size b0) rest)

-- `get_hid_item` on a buffer with a first byte.
unfoldable pub get_hid_item : ℕ → List ℕ → Option RawItem
unfolding get_hid_long_item get_hid_short_item
get_hid_item b0 rest =
    if bit_and b0 0b1111_0000 == 0b1111_0000
    then get_hid_long_item (b0 ∷ rest)
    else get_hid_short_item b0 rest

-- One step of the fold: `(num << 8) | u32::from(*b)` on 32 bits.
abbrev pub shift_in : ℕ → ℕ → ℕ
shift_in num b = bit_or (num * 2 ^ 8 % 2 ^ 32) b

unfoldable pub read_uint_le : List ℕ → ℕ
read_uint_le bytes = foldl shift_in 0 (reverse bytes)

-- The `match tag_type` of `next_item`.
unfoldable pub classify : ℕ → ℕ → Option Item
classify tag_type value =
    if tag_type == 0b0000_0100
    then some (usage_page value)
    else if tag_type == 0b0000_1000
    then some (usage value)
    else if tag_type == 0b1000_0000
    then some input
    else if tag_type == 0b1001_0000
    then some output
    else if tag_type == 0b1001_0100
    then some (report_count value)
    else none

-- The rest of `next_item`, given what `get_hid_item` found: an item that counts, and what is left.
unfoldable pub take_item : Option RawItem → List ℕ → Option Item × List ℕ
unfolding read_uint_le classify
take_item none buffer = (none, [])
take_item (some (tag_type, key_len, bytes)) buffer = (
  if ltb 1 key_len then none else classify tag_type (read_uint_le bytes),
  drop (key_len + length bytes) buffer,
)

unfoldable pub next_item : ℕ → List ℕ → Option Item × List ℕ
unfolding get_hid_item take_item
next_item b0 rest = take_item (get_hid_item b0 rest) (b0 ∷ rest)

-- `Iterator::next`, which passes over what does not count. Each item takes a byte at least.
unfoldable pub next : ℕ → List ℕ → Option (Item × List ℕ)
next fuel [] = none
next zero (b0 ∷ rest) = none
next (suc fuel) (b0 ∷ rest) =
    let (item, left) = next_item b0 rest in
    elim item [ some d ↦ some (d, left) | none ↦ next fuel left ]

-- What `for data in desc.iter()` goes through.
unfoldable pub items : ℕ → List ℕ → List Item
items zero buffer = []
items (suc fuel) buffer = elim (next (length buffer) buffer) [
  | none ↦ []
  | some (d, left) ↦ d ∷ items fuel left
]

unfoldable pub iter : List ℕ → List Item
unfolding items next next_item
iter desc = items (length desc) desc

abbrev pub fido_usage_page : ℕ
fido_usage_page = 0xf1d0

abbrev pub fido_usage_u2fhid : ℕ
fido_usage_u2fhid = 0x01

-- The first element of an item, for the two variables of `has_fido_usage`.
abbrev pub see_page : Item → Option ℕ → Option ℕ
see_page (usage_page value) page = some value
see_page _ page = page

abbrev pub see_usage : Item → Option ℕ → Option ℕ
see_usage (usage value) seen = some value
see_usage _ seen = seen

-- `if let (Some(usage_page), Some(usage)) = … { return …; }`
abbrev pub check_usage : Option ℕ → Option ℕ → Bool → Bool
check_usage (some page) (some seen) later = page == fido_usage_page && seen == fido_usage_u2fhid
check_usage (some page) none later = later
check_usage none seen later = later

unfoldable pub scan_usage : Option ℕ → Option ℕ → List Item → Bool
scan_usage page seen [] = false
scan_usage page seen (d ∷ ds) =
    let page' = see_page d page in
    let seen' = see_usage d seen in
    let later = scan_usage page' seen' ds in check_usage page' seen' later

unfoldable pub has_fido_usage : List ℕ → Bool
unfolding iter scan_usage
has_fido_usage desc = scan_usage none none (iter desc)
