-- ===== src/Report/Sizes.antt =====
-- src/transport/hidproto.rs: `read_hid_rpt_sizes`; src/transport/linux/hidraw.rs:
-- `read_hid_rpt_sizes_or_defaults`, with what `read_report_descriptor` returns as an argument; and
-- what `has_fido_usage` answers.
use authenticator_rs.Common.{
  ℕ, ◌≤◌, ◌≡◌, refl, List, [], ◌∷◌, ◌++◌, Bool, ◌&&◌, Option, none, some, ltb, leb, ◌==◌,
  if◌then◌else◌, arith, All, inl, inr, ◌⊎◌,
}
use authenticator_rs.Report.{
  Item, usage_page, usage, input, output, report_count, iter, has_fido_usage, scan_usage,
  fido_usage_page, fido_usage_u2fhid,
}
use authenticator_rs.Report.Items.{ShortItem, IsShort, print_items, reported, iter-print_items}
use authenticator_rs.Hid.Cmd.{init_header_size, max_hid_rpt_size}

-- The errors, each with its own message.
pub data SizeError : Type 0 where
  duplicate_report_count input_without_count output_without_count : SizeError
  bad_report_size no_report_sizes : SizeError

pub record Counts : Type 0 where
  pub in_rpt_count : Option ℕ
  pub out_rpt_count : Option ℕ
  pub last_rpt_count : Option ℕ

-- One turn of the loop.
unfoldable pub count_item : Item → Counts → SizeError ⊎ Counts
count_item (report_count n) c = elim c.last_rpt_count [
  | some last ↦ inl duplicate_report_count
  | none ↦ inr (record c { last_rpt_count = some n })
]
count_item input c = elim c.last_rpt_count [
  | none ↦ inl input_without_count
  | some last ↦ elim c.in_rpt_count [
    | some first ↦ inl duplicate_report_count
    | none ↦ inr (record c { in_rpt_count = some last; last_rpt_count = none })
  ]
]
count_item output c = elim c.last_rpt_count [
  | none ↦ inl output_without_count
  | some last ↦ elim c.out_rpt_count [
    | some first ↦ inl duplicate_report_count
    | none ↦ inr (record c { out_rpt_count = some last; last_rpt_count = none })
  ]
]
count_item (usage_page n) c = inr c
count_item (usage n) c = inr c

unfoldable pub count_items : List Item → Counts → SizeError ⊎ Counts
unfolding count_item
count_items [] c = inr c
count_items (d ∷ ds) c = elim (count_item d c) [ inl e ↦ inl e | inr c' ↦ count_items ds c' ]

abbrev pub is_report_size : ℕ → Bool
is_report_size n = ltb init_header_size n && leb n max_hid_rpt_size

-- The `match (in_rpt_count, out_rpt_count)` at the end.
unfoldable pub check_counts : Option ℕ → Option ℕ → SizeError ⊎ (ℕ × ℕ)
check_counts (some in_count) (some out_count) =
    if is_report_size in_count && is_report_size out_count
    then inr (in_count, out_count)
    else inl bad_report_size
check_counts (some in_count) none = inl no_report_sizes
check_counts none out_count = inl no_report_sizes

unfoldable pub check_all : SizeError ⊎ Counts → SizeError ⊎ (ℕ × ℕ)
unfolding check_counts
check_all (inl e) = inl e
check_all (inr c) = check_counts c.in_rpt_count c.out_rpt_count

abbrev pub no_counts : Counts
no_counts = record { in_rpt_count = none; out_rpt_count = none; last_rpt_count = none }

unfoldable pub read_hid_rpt_sizes : List ℕ → SizeError ⊎ (ℕ × ℕ)
unfolding iter count_items check_all
read_hid_rpt_sizes desc = check_all (count_items (iter desc) no_counts)

abbrev pub default_rpt_sizes : ℕ × ℕ
default_rpt_sizes = (max_hid_rpt_size, max_hid_rpt_size)

abbrev pub sizes_or_defaults : SizeError ⊎ (ℕ × ℕ) → ℕ × ℕ
sizes_or_defaults (inl e) = default_rpt_sizes
sizes_or_defaults (inr rpt_sizes) = rpt_sizes

unfoldable pub read_hid_rpt_sizes_or_defaults : Option (List ℕ) → ℕ × ℕ
unfolding read_hid_rpt_sizes
read_hid_rpt_sizes_or_defaults none = default_rpt_sizes
read_hid_rpt_sizes_or_defaults (some desc) = sizes_or_defaults (read_hid_rpt_sizes desc)

-- A report holds at least a byte behind an initialization header, and at most 64 bytes.
abbrev pub IsReportSize : ℕ → Type 0
IsReportSize n = (8 ≤ n) × (n ≤ 64)

checked :
    (in_count out_count : Option ℕ)
    → let sizes = sizes_or_defaults (check_counts in_count out_count) in
      IsReportSize sizes.0 × IsReportSize sizes.1
unfolding check_counts
checked (some i) (some o) = ground arith
checked (some i) none = ground arith
checked none o = ground arith

checked_all :
    (c : SizeError ⊎ Counts)
    → let sizes = sizes_or_defaults (check_all c) in IsReportSize sizes.0 × IsReportSize sizes.1
unfolding check_all
checked_all (inl e) = ground arith
checked_all (inr c) = checked c.in_rpt_count c.out_rpt_count

-- Whatever descriptor is read, well formed or not, or when none can be read, the two report sizes
-- that are used for the device lie between 8 and 64.
pub read_hid_rpt_sizes_or_defaults-IsReportSize :
    (desc : Option (List ℕ))
    → let sizes = read_hid_rpt_sizes_or_defaults desc in IsReportSize sizes.0 × IsReportSize sizes.1
unfolding read_hid_rpt_sizes_or_defaults read_hid_rpt_sizes
read_hid_rpt_sizes_or_defaults-IsReportSize none = ground arith
read_hid_rpt_sizes_or_defaults-IsReportSize (some desc) =
    checked_all (count_items (iter desc) no_counts)

-- The items that count for the sizes.
abbrev pub main_items : List Item → List Item
main_items [] = []
main_items (usage_page n ∷ ds) = main_items ds
main_items (usage n ∷ ds) = main_items ds
main_items (input ∷ ds) = input ∷ main_items ds
main_items (output ∷ ds) = output ∷ main_items ds
main_items (report_count n ∷ ds) = report_count n ∷ main_items ds

count_items-cons :
    (d : Item) (ds es : List Item) (c : Counts)
    → ((c' : Counts) → count_items ds c' ≡ count_items es c')
    → count_items (d ∷ ds) c ≡ count_items (d ∷ es) c
unfolding count_items
count_items-cons d ds es c h =
    elim (count_item d c)
      as (λ r.
        elim r as (λ _. SizeError ⊎ Counts) [ inl e ↦ inl e | inr c' ↦ count_items ds c' ]
        ≡ elim r as (λ _. SizeError ⊎ Counts) [ inl e ↦ inl e | inr c' ↦ count_items es c' ]) [
          | inl e ↦ refl
          | inr c' ↦ h c'
        ]

count_items-main_items :
    (ds : List Item) (c : Counts) → count_items ds c ≡ count_items (main_items ds) c
unfolding count_items count_item
count_items-main_items [] c = refl
count_items-main_items (usage_page n ∷ ds) c = count_items-main_items ds c
count_items-main_items (usage n ∷ ds) c = count_items-main_items ds c
count_items-main_items (input ∷ ds) c =
    count_items-cons input ds (main_items ds) c (count_items-main_items ds)
count_items-main_items (output ∷ ds) c =
    count_items-cons output ds (main_items ds) c (count_items-main_items ds)
count_items-main_items (report_count n ∷ ds) c =
    count_items-cons (report_count n) ds (main_items ds) c (count_items-main_items ds)

two_counts :
    (i o : ℕ)
    → IsReportSize i
    → IsReportSize o
    → check_all (count_items (report_count i ∷ input ∷ report_count o ∷ output ∷ []) no_counts)
      ≡ inr (i, o)
unfolding check_all check_counts count_items count_item
two_counts i o hi ho = ground arith

-- From the bytes of a sequence of short items that holds, besides items of other kinds, a count
-- and an input and then a count and an output, with both counts between 8 and 64, those
-- two counts are read.
pub read_hid_rpt_sizes-print_items :
    (its : List ShortItem) (in_count out_count : ℕ)
    → All IsShort its
    → main_items (reported its)
      ≡ report_count in_count ∷ input ∷ report_count out_count ∷ output ∷ []
    → IsReportSize in_count
    → IsReportSize out_count
    → read_hid_rpt_sizes (print_items its) ≡ inr (in_count, out_count)
unfolding read_hid_rpt_sizes
read_hid_rpt_sizes-print_items its i o h m hi ho =
    rw (iter-print_items its h, count_items-main_items (reported its) no_counts, m)
      (two_counts i o hi ho)

-- Neither a usage nor a usage page is among the items.
abbrev pub IsOther : Item → Type 0
IsOther (usage_page n) = ⊥
IsOther (usage n) = ⊥
IsOther input = Unit {0}
IsOther output = Unit {0}
IsOther (report_count n) = Unit {0}

-- No usage is.
abbrev pub IsBeforeUsage : Item → Type 0
IsBeforeUsage (usage n) = ⊥
IsBeforeUsage _ = Unit {0}

scan_usage-IsOther :
    (between after : List Item) (p u : ℕ)
    → All IsOther between
    → scan_usage (some p) none (between ++ (usage u ∷ after))
      ≡ (p == fido_usage_page && u == fido_usage_u2fhid)
unfolding scan_usage
scan_usage-IsOther [] after p u h = ground arith
scan_usage-IsOther (usage n ∷ between) after p u h = absurd h.0
scan_usage-IsOther (usage_page n ∷ between) after p u h = absurd h.0
scan_usage-IsOther (input ∷ between) after p u h =
    ground (arith, scan_usage-IsOther between after p u h.1)
scan_usage-IsOther (output ∷ between) after p u h =
    ground (arith, scan_usage-IsOther between after p u h.1)
scan_usage-IsOther (report_count n ∷ between) after p u h =
    ground (arith, scan_usage-IsOther between after p u h.1)

scan_usage-IsBeforeUsage :
    (before between after : List Item) (page : Option ℕ) (p u : ℕ)
    → All IsBeforeUsage before
    → All IsOther between
    → scan_usage page none (before ++ (usage_page p ∷ between ++ (usage u ∷ after)))
      ≡ (p == fido_usage_page && u == fido_usage_u2fhid)
unfolding scan_usage
scan_usage-IsBeforeUsage [] between after page p u h o =
    ground (arith, scan_usage-IsOther between after p u o)
scan_usage-IsBeforeUsage (usage n ∷ before) between after page p u h o = absurd h.0
scan_usage-IsBeforeUsage (usage_page n ∷ before) between after page p u h o =
    scan_usage-IsBeforeUsage before between after (some n) p u h.1 o
scan_usage-IsBeforeUsage (input ∷ before) between after page p u h o =
    ground (arith, scan_usage-IsBeforeUsage before between after page p u h.1 o)
scan_usage-IsBeforeUsage (output ∷ before) between after page p u h o =
    ground (arith, scan_usage-IsBeforeUsage before between after page p u h.1 o)
scan_usage-IsBeforeUsage (report_count n ∷ before) between after page p u h o =
    ground (arith, scan_usage-IsBeforeUsage before between after page p u h.1 o)

-- From the bytes of a sequence of short items in which a usage page p comes before the first usage u,
-- with no other usage page between the two, the descriptor counts as a security key's exactly when p
-- is the FIDO usage page and u the U2F usage, whatever follows and whatever pages come before.
pub has_fido_usage-print_items :
    (its : List ShortItem) (before between after : List Item) (p u : ℕ)
    → All IsShort its
    → reported its ≡ before ++ (usage_page p ∷ between ++ (usage u ∷ after))
    → All IsBeforeUsage before
    → All IsOther between
    → has_fido_usage (print_items its) ≡ (p == 0xf1d0 && u == 0x01)
unfolding has_fido_usage
has_fido_usage-print_items its before between after p u h r b o =
    rw (iter-print_items its h, r) (scan_usage-IsBeforeUsage before between after none p u b o)
