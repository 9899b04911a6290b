-- ===== src/Net/ByteOrder.antt =====
-- include/net/in.h: `htons`, `htonl` and their inverses, which are the same functions, and the
-- layout of numbers in the memory of the little-endian target.
use gml_vm.Base.{
  ℕ, ◌+◌, ◌*◌, ◌/◌, ◌%◌, ◌^◌, ◌<◌, ◌≡◌, List, [], ◌∷◌, arith, bit_or, u16, shl, shr, ap₂,
}
use gml_vm.Base.Bits.{bit_or-field}

-- `xchg %ah,%al`
abbrev pub xchg : ℕ → ℕ
xchg eax = eax / 2 ^ 16 * 2 ^ 16 + eax % 256 * 256 + eax / 256 % 256

-- `shortSwap`: the result is read from `ax`.
unfoldable pub short_swap : ℕ → ℕ
short_swap num = u16 (xchg num)

-- `longSwap`
unfoldable pub long_swap : ℕ → ℕ
long_swap num =
    let eax = xchg num in let ebx = shl eax 16 in let eax' = xchg (shr eax 16) in bit_or ebx eax'

-- A `short` and an `int` as they stand in memory, and in the order of the network.
abbrev pub le16 : ℕ → List ℕ
le16 v = v % 256 ∷ v / 256 % 256 ∷ []

abbrev pub le32 : ℕ → List ℕ
le32 v = v % 256 ∷ v / 256 % 256 ∷ v / 65536 % 256 ∷ v / 16777216 % 256 ∷ []

abbrev pub be16 : ℕ → List ℕ
be16 v = v / 256 % 256 ∷ v % 256 ∷ []

abbrev pub be32 : ℕ → List ℕ
be32 v = v / 16777216 % 256 ∷ v / 65536 % 256 ∷ v / 256 % 256 ∷ v % 256 ∷ []

-- The number that stands at index `i`.
abbrev pub load16 : (ℕ → ℕ) → ℕ → ℕ
load16 m i = m i + 256 * m (i + 1)

abbrev pub load32 : (ℕ → ℕ) → ℕ → ℕ
load32 m i = m i + 256 * m (i + 1) + 65536 * m (i + 2) + 16777216 * m (i + 3)

long_swap_sum :
    (v : ℕ)
    → v < 2 ^ 32
    → long_swap v
      ≡ v % 256 * 16777216 + v / 256 % 256 * 65536 + v / 65536 % 256 * 256 + v / 16777216
unfolding long_swap
long_swap_sum v h =
    let low : xchg (shr (xchg v) 16) < 2 ^ 16 = omega arith in
    let high : shl (xchg v) 16 ≡ (v % 256 * 256 + v / 256 % 256) * 2 ^ 16 = omega arith in
    rw (high, bit_or-field 16 (v % 256 * 256 + v / 256 % 256) (xchg (shr (xchg v) 16)) low)
      (omega arith)

-- A swapped number stands in memory in network order.
pub le16-short_swap : (v : ℕ) → le16 (short_swap v) ≡ be16 v
unfolding short_swap
le16-short_swap v = ap₂ (λ a b. a ∷ b ∷ []) (omega arith) (omega arith)

pub le32-long_swap : (v : ℕ) → v < 2 ^ 32 → le32 (long_swap v) ≡ be32 v
le32-long_swap v h = rw (long_swap_sum v h) (ground arith)

pub short_swap-short_swap : (v : ℕ) → v < 2 ^ 16 → short_swap (short_swap v) ≡ v
unfolding short_swap
short_swap-short_swap v h = omega arith

-- `ntohl` undoes `htonl`, and `ntohs` undoes `htons`, on numbers of their widths.
pub swap_involutive :
    (v w : ℕ)
    → v < 2 ^ 32
    → w < 2 ^ 16
    → (long_swap (long_swap v) ≡ v) × (short_swap (short_swap w) ≡ w)
swap_involutive v w h k =
    let once = long_swap_sum v h in
    let fits : long_swap v < 2 ^ 32 = omega arith in
    (omega (arith, once, long_swap_sum (long_swap v) fits), short_swap-short_swap w k)
