-- ===== src/Base/Bits.antt =====
-- `&` and `|` of the masks and shifts that the drivers use, as arithmetic.
use gml_vm.Base.Digit.{bit_and_digit, bit_or_digit}
use Prim.Native.Nat.{ℕ, zero, suc, ◌+◌, ◌-◌, ◌*◌, ◌/◌, ◌%◌, ◌^◌, ◌≤◌, ◌<◌, bit_and, bit_or}
use mathlib.Core.Path.{◌≡◌, refl, ap, ◌∙◌}
use native.Mathlib.Omega.{arith}
use native.Mathlib.Nat.{
  pow-suc, one-le-pow, div-add-mod, mod-lt, mod-eq_of_lt, mul-add-mod_self_left, div-div-eq-div-mul,
}

-- Both recursions are on a bound of the first number.
and_zero_below : (n a : ℕ) → a ≤ n → bit_and a 0 ≡ 0
and_zero_below n zero h = refl
and_zero_below zero (suc a) h = absurd (omega arith)
and_zero_below (suc n) (suc a) h =
    omega (arith, bit_and_digit (suc a) 0, and_zero_below n (suc a / 2) (omega arith))

or_zero_below : (n a : ℕ) → a ≤ n → bit_or a 0 ≡ a
or_zero_below n zero h = refl
or_zero_below zero (suc a) h = absurd (omega arith)
or_zero_below (suc n) (suc a) h =
    omega (arith, bit_or_digit (suc a) 0, or_zero_below n (suc a / 2) (omega arith))

pub bit_and-zero : (a : ℕ) → bit_and a 0 ≡ 0
bit_and-zero a = and_zero_below a a (omega arith)

pub bit_or-zero : (a : ℕ) → bit_or a 0 ≡ a
bit_or-zero a = or_zero_below a a (omega arith)

double_mod : (a m : ℕ) → 0 < m → a % (2 * m) ≡ a / 2 % m * 2 + a % 2
double_mod a m pos =
    let low : ℕ = a / 2 % m * 2 + a % 2 in
    let whole : a ≡ 2 * m * (a / 2 / m) + low = grind (arith, div-add-mod (a / 2) m) in
    let fits : low < 2 * m = omega (arith, mod-lt (a / 2) pos) in
    ap (λ (t : ℕ). t % (2 * m)) whole
    ∙ mul-add-mod_self_left (2 * m) (a / 2 / m) low
    ∙ mod-eq_of_lt fits

-- A mask of `k` low bits is the remainder by `2 ^ k`.
pub bit_and-low_bits : (k a : ℕ) → bit_and a (2 ^ k - 1) ≡ a % 2 ^ k
bit_and-low_bits zero a = omega (arith, bit_and-zero a)
bit_and-low_bits (suc k) a =
    let pos = one-le-pow k 2 (omega arith) in
    let two : 2 ^ suc k ≡ 2 * 2 ^ k = omega (arith, pow-suc 2 k) in
    let half : (2 ^ suc k - 1) / 2 ≡ 2 ^ k - 1 = omega arith in
    let last : (2 ^ suc k - 1) % 2 ≡ 1 = omega arith in
    bit_and_digit a (2 ^ suc k - 1)
    ∙ rw (half, last, two, bit_and-low_bits k (a / 2)) (omega (arith, double_mod a (2 ^ k) pos))

-- `(q << k) | r` is a sum when `r` fits `k` bits.
pub bit_or-field : (k q r : ℕ) → r < 2 ^ k → bit_or (q * 2 ^ k) r ≡ q * 2 ^ k + r
bit_or-field zero q r fits = let none : r ≡ 0 = omega arith in rw (none, bit_or-zero) (omega arith)
bit_or-field (suc k) q r fits =
    let two : 2 ^ suc k ≡ 2 * 2 ^ k = omega (arith, pow-suc 2 k) in
    let shift : q * 2 ^ suc k ≡ 2 * (q * 2 ^ k) = omega (arith, ap (λ (t : ℕ). q * t) two) in
    let half : q * 2 ^ suc k / 2 ≡ q * 2 ^ k = omega arith in
    let even : q * 2 ^ suc k % 2 ≡ 0 = omega arith in
    bit_or_digit (q * 2 ^ suc k) r
    ∙ rw (half, even, bit_or-field k q (r / 2) (omega arith)) (omega arith)

-- `r | (q << k)`, the other way round.
pub bit_or-high : (k q r : ℕ) → bit_or 0 q ≡ q → r < 2 ^ k → bit_or r (q * 2 ^ k) ≡ q * 2 ^ k + r
bit_or-high zero q r clean fits =
    let none : r ≡ 0 = omega arith in
    let one : q * 2 ^ 0 ≡ q = omega arith in rw (none, one, clean) (omega arith)
bit_or-high (suc k) q r clean fits =
    let two : 2 ^ suc k ≡ 2 * 2 ^ k = omega (arith, pow-suc 2 k) in
    let shift : q * 2 ^ suc k ≡ 2 * (q * 2 ^ k) = omega (arith, ap (λ (t : ℕ). q * t) two) in
    let half : q * 2 ^ suc k / 2 ≡ q * 2 ^ k = omega arith in
    let even : q * 2 ^ suc k % 2 ≡ 0 = omega arith in
    bit_or_digit r (q * 2 ^ suc k)
    ∙ rw (half, even, bit_or-high k q (r / 2) clean (omega arith)) (omega arith)

double_right : (x y : ℕ) → x * y * 2 ≡ x * (2 * y)
double_right x y = grind arith

-- A mask of `j` bits above the `k` lowest.
pub bit_and-middle : (k j a : ℕ) → bit_and a ((2 ^ j - 1) * 2 ^ k) ≡ a / 2 ^ k % 2 ^ j * 2 ^ k
bit_and-middle zero j a =
    let one : (2 ^ j - 1) * 2 ^ 0 ≡ 2 ^ j - 1 = omega arith in
    let whole : a / 2 ^ 0 ≡ a = omega arith in rw (one, whole, bit_and-low_bits j a) (omega arith)
bit_and-middle (suc k) j a =
    let q = 2 ^ j - 1 in
    let two : 2 ^ suc k ≡ 2 * 2 ^ k = omega (arith, pow-suc 2 k) in
    let shift : q * 2 ^ suc k ≡ 2 * (q * 2 ^ k) = omega (arith, ap (λ (t : ℕ). q * t) two) in
    let half : q * 2 ^ suc k / 2 ≡ q * 2 ^ k = omega arith in
    let even : q * 2 ^ suc k % 2 ≡ 0 = omega arith in
    bit_and_digit a (q * 2 ^ suc k)
    ∙ rw (half, even, bit_and-middle k j (a / 2), two, ← div-div-eq-div-mul a 2 (2 ^ k))
        (omega (arith, double_right (a / 2 / 2 ^ k % 2 ^ j) (2 ^ k)))

-- The mask of 32 bits without bit 1.
pub bit_and-without_one : (a : ℕ) → bit_and a 0xffff_fffd ≡ a / 4 % 2 ^ 30 * 4 + a % 2
bit_and-without_one a = omega (
  arith,
  bit_and_digit a 0xffff_fffd,
  bit_and_digit (a / 2) 0x7fff_fffe,
  bit_and-low_bits 30 (a / 2 / 2),
)
