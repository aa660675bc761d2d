-- ===== src/Common/Bits.antt =====
-- Laws of the bit operations on bytes, and of two bytes that make a 16-bit number.
use Prim.Native.Nat.{
  ℕ, zero, suc, ◌+◌, ◌-◌, ◌*◌, ◌/◌, ◌%◌, ◌≤◌, ◌<◌, max, ◌^◌, bit_and, bit_or, digits,
  bit_or-bitwise,
}
use mathlib.Core.Path.{◌≡◌, refl, ap, ◌∙◌}
use mathlib.Core.Bool.{Bool, true, ◌&&◌}
use native.Mathlib.Omega.{arith}
use native.Mathlib.Nat.{pow-suc}
use authenticator_rs.Common.Tests.{◌==◌, ==_iff, ltb, if◌then◌else◌}

abbrev pub IsByte : ℕ → Type 0
IsByte b = b < 256

-- A test that succeeds on each number below a bound, for laws of bytes by evaluation.
unfoldable pub all_below : ℕ → (ℕ → Bool) → Bool
all_below zero test = true
all_below (suc bound) test = test bound && all_below bound test

pub all_below_sound :
    (bound : ℕ) (test : ℕ → Bool) (b : ℕ) → all_below bound test ≡ true → b < bound → test b ≡ true
unfolding all_below
all_below_sound zero test b passed below = absurd (omega arith)
all_below_sound (suc bound) test b passed below = ground (arith, all_below_sound bound test b)

top_bit_table : all_below 256 (λ x. bit_and x 0x80 == x / 128 * 128) ≡ true
unfolding all_below
top_bit_table = refl

pub bit_and_top : (x : ℕ) → IsByte x → bit_and x 0x80 ≡ x / 128 * 128
bit_and_top x h = (==_iff _ _).0 (all_below_sound 256 _ x top_bit_table h)

-- The digit recursion of `bit_or`.
abbrev or_digits : ℕ → ℕ → ℕ → ℕ
or_digits n a b = digits (λ b. b) max n a b

-- Once the fuel covers the left operand, one more does not change the digits.
or_digits_enough : (x y fuel : ℕ) → x ≤ fuel → or_digits (suc fuel) x y ≡ or_digits fuel x y
or_digits_enough zero y zero fits = refl
or_digits_enough zero y (suc fuel) fits = refl
or_digits_enough (suc x) y zero fits = absurd (omega arith)
or_digits_enough (suc x) y (suc fuel) fits =
    omega (arith, or_digits_enough (suc x / 2) (y / 2) fuel (omega arith))

or_digits_more : (extra x y fuel : ℕ) → fuel ≡ x + extra → or_digits fuel x y ≡ or_digits x x y
or_digits_more zero x y fuel e = let same : fuel ≡ x = omega arith in rw same refl
or_digits_more (suc extra) x y zero e = absurd (omega arith)
or_digits_more (suc extra) x y (suc fuel) e =
    or_digits_enough x y fuel (omega arith) ∙ or_digits_more extra x y fuel (omega arith)

pub zero-bit_or : (b : ℕ) → bit_or 0 b ≡ b
zero-bit_or b = bit_or-bitwise 0 b

pub bit_or_step : (a b : ℕ) → bit_or a b ≡ bit_or (a / 2) (b / 2) * 2 + max (a % 2) (b % 2)
bit_or_step zero b = omega (arith, zero-bit_or b, zero-bit_or (b / 2))
bit_or_step (suc a) b = omega (
  arith,
  bit_or-bitwise (suc a) b,
  bit_or-bitwise (suc a / 2) (b / 2),
  or_digits_more (a - suc a / 2) (suc a / 2) (b / 2) a (omega arith),
)

bit_or-zero_fuel : (n a : ℕ) → a ≤ n → bit_or a 0 ≡ a
bit_or-zero_fuel n zero h = refl
bit_or-zero_fuel zero (suc a) h = absurd (omega arith)
bit_or-zero_fuel (suc n) (suc a) h =
    omega (arith, bit_or_step (suc a) 0, bit_or-zero_fuel n (suc a / 2) (omega arith))

pub bit_or-zero : (a : ℕ) → bit_or a 0 ≡ a
bit_or-zero a = bit_or-zero_fuel a a (omega arith)

-- An even number takes its lowest digit from the other.
bit_or_even : (a b : ℕ) → bit_or (a * 2) b ≡ bit_or a (b / 2) * 2 + b % 2
bit_or_even a b =
    let e : a * 2 / 2 ≡ a = omega arith in
    omega (arith, ap (λ (t : ℕ). bit_or t (b / 2)) e, bit_or_step (a * 2) b)

-- `k` binary digits of room below `a` hold the `k` lowest digits of `b`.
bit_or_shift : (k a b : ℕ) → b < 2 ^ k → bit_or (a * 2 ^ k) b ≡ a * 2 ^ k + b
bit_or_shift zero a b h = let e : b ≡ 0 = omega arith in rw e (simp (bit_or-zero) (omega arith))
bit_or_shift (suc k) a b h =
    let e : a * 2 ^ suc k ≡ a * 2 ^ k * 2 = omega (arith, ap (λ (t : ℕ). a * t) (pow-suc 2 k)) in
    rw e (
      omega
        (arith, bit_or_even (a * 2 ^ k) b, bit_or_shift k a (b / 2) (omega (arith, pow-suc 2 k))))

-- The high and the low byte of a 16-bit number.
pub bit_or_bytes : (hi lo : ℕ) → IsByte lo → bit_or (hi * 256) lo ≡ hi * 256 + lo
bit_or_bytes hi lo h = bit_or_shift 8 hi lo h

top_set_table : all_below 256 (λ x. bit_or x 0x80 == (if ltb x 128 then x + 128 else x)) ≡ true
unfolding all_below
top_set_table = refl

-- Setting the top bit of a byte.
pub bit_or_top : (x : ℕ) → IsByte x → bit_or x 0x80 ≡ (if ltb x 128 then x + 128 else x)
bit_or_top x h = (==_iff _ _).0 (all_below_sound 256 _ x top_set_table h)

high_six_table : all_below 256 (λ x. bit_and x 0xfc == x / 4 * 4) ≡ true
unfolding all_below
high_six_table = refl

low_two_table : all_below 256 (λ x. bit_and x 0x03 == x % 4) ≡ true
unfolding all_below
low_two_table = refl

high_four_table : all_below 256 (λ x. bit_and x 0xf0 == x / 16 * 16) ≡ true
unfolding all_below
high_four_table = refl

-- Masks of the six and the four highest and the two lowest bits of a byte.
pub bit_and_high_six : (x : ℕ) → IsByte x → bit_and x 0xfc ≡ x / 4 * 4
bit_and_high_six x h = (==_iff _ _).0 (all_below_sound 256 _ x high_six_table h)

pub bit_and_low_two : (x : ℕ) → IsByte x → bit_and x 0x03 ≡ x % 4
bit_and_low_two x h = (==_iff _ _).0 (all_below_sound 256 _ x low_two_table h)

pub bit_and_high_four : (x : ℕ) → IsByte x → bit_and x 0xf0 ≡ x / 16 * 16
bit_and_high_four x h = (==_iff _ _).0 (all_below_sound 256 _ x high_four_table h)
