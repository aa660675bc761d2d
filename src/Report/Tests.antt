-- ===== src/Report/Tests.antt =====
-- Report descriptors of src/transport/hidproto.rs, byte for byte.
use authenticator_rs.Common.{ℕ, ◌≡◌, refl, List, [], ◌∷◌, true, some, inr, All, arith}
use authenticator_rs.Report.{usage_page, usage, input, output, report_count, iter, has_fido_usage}
use authenticator_rs.Report.Items.{ShortItem, IsShort, print_items, reported, iter-print_items}
use authenticator_rs.Report.Sizes.{
  read_hid_rpt_sizes, read_hid_rpt_sizes_or_defaults, read_hid_rpt_sizes_or_defaults-IsReportSize,
  read_hid_rpt_sizes-print_items, has_fido_usage-print_items, IsReportSize,
}

abbrev item : ℕ → List ℕ → ShortItem
item tag bytes = record { tag = tag; bytes = bytes }

-- The descriptor of a security key: usage page F1D0, usage 1, a collection, a report count 64, an
-- input, the same count and an output.
abbrev key_items : List ShortItem
key_items =
    item 1 (0xd0 ∷ 0xf1 ∷ [])
    ∷ item 2 (0x01 ∷ [])
    ∷ item 40 (0x01 ∷ [])
    ∷ item 37 (0x40 ∷ [])
    ∷ item 32 (0x02 ∷ [])
    ∷ item 37 (0x20 ∷ [])
    ∷ item 36 (0x02 ∷ [])
    ∷ item 48 []
    ∷ []

key_items-IsShort : All IsShort key_items
key_items-IsShort = ground arith

key_items-reported :
    reported key_items
    ≡ usage_page 0xf1d0 ∷ usage 1 ∷ report_count 64 ∷ input ∷ report_count 32 ∷ output ∷ []
key_items-reported = refl

iter-print_items_example : iter (print_items key_items) ≡ reported key_items
iter-print_items_example = iter-print_items key_items key_items-IsShort

has_fido_usage-print_items_example : has_fido_usage (print_items key_items) ≡ true
has_fido_usage-print_items_example =
    has_fido_usage-print_items key_items [] []
      (report_count 64 ∷ input ∷ report_count 32 ∷ output ∷ []) 0xf1d0 1 key_items-IsShort
      key_items-reported tt tt

read_hid_rpt_sizes-print_items_example : read_hid_rpt_sizes (print_items key_items) ≡ inr (64, 32)
read_hid_rpt_sizes-print_items_example =
    read_hid_rpt_sizes-print_items key_items 64 32 key_items-IsShort refl (omega arith, omega arith)
      (omega arith, omega arith)

read_hid_rpt_sizes_or_defaults-IsReportSize_example :
    let sizes = read_hid_rpt_sizes_or_defaults (some (print_items key_items)) in
    IsReportSize sizes.0 × IsReportSize sizes.1
read_hid_rpt_sizes_or_defaults-IsReportSize_example =
    read_hid_rpt_sizes_or_defaults-IsReportSize (some (print_items key_items))
