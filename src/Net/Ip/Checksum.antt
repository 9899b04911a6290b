-- ===== src/Net/Ip/Checksum.antt =====
-- The checksum: a header that carries it sums to zero.
use gml_vm.Base.{
  ℕ, ◌+◌, ◌-◌, ◌*◌, ◌/◌, ◌%◌, ◌^◌, ◌≤◌, ◌<◌, ◌≡◌, ◌∙◌, List, [], ◌∷◌, ◌++◌, arith, All, length, u32,
}
use gml_vm.Base.Bits.{bit_and-low_bits}
use gml_vm.Net.Ip.{sum_words, fold_sum, check_sum}

-- The sum of the words as a number.
abbrev pub total : List ℕ → ℕ
total [] = 0
total (w ∷ ws) = w + total ws

abbrev pub IsWords : List ℕ → Type 0
IsWords = All (λ w. w < 2 ^ 16)

total-append : (xs ys : List ℕ) → total (xs ++ ys) ≡ total xs + total ys
total-append [] ys = omega arith
total-append (x ∷ xs) ys = omega (arith, total-append xs ys)

total-le : (ws : List ℕ) → IsWords ws → total ws ≤ 65535 * length ws
total-le [] h = omega arith
total-le (w ∷ ws) h = omega (arith, total-le ws h.1, h.0)

-- Up to 2 ^ 16 words the 32-bit sum does not wrap.
sum_words-total :
    (ws : List ℕ) (sum : ℕ) → sum + total ws < 2 ^ 32 → sum_words ws sum ≡ sum + total ws
unfolding sum_words
sum_words-total [] sum h = omega arith
sum_words-total (w ∷ ws) sum h =
    let exact : u32 (sum + w) ≡ sum + w = omega arith in
    rw exact (sum_words-total ws (sum + w) (omega arith) ∙ omega arith)

-- The two folds leave the remainder by 0xffff, with 0xffff for a positive multiple of it.
fold_sum_lem :
    (n : ℕ)
    → n < 2 ^ 32
    → fold_sum n ≡ 65535 - (n % 65536 + n / 65536 + (n % 65536 + n / 65536) / 65536) % 65536
unfolding fold_sum
fold_sum_lem n h = rw (bit_and-low_bits 16 n) (omega arith)

pub check_sum-lt : (ws : List ℕ) → check_sum ws < 2 ^ 16
unfolding check_sum
check_sum-lt ws = omega arith

-- A header whose checksum field held 0 while the checksum was taken over it, and then got it,
-- gives 0 when it is summed again: what a receiver tests. Words of 16 bits, at most 2 ^ 16 of them.
pub check_sum-check_sum :
    (before behind : List ℕ)
    → IsWords before
    → IsWords behind
    → length before + length behind < 2 ^ 16
    → check_sum (before ++ (check_sum (before ++ (0 ∷ behind)) ∷ behind)) ≡ 0
unfolding check_sum
check_sum-check_sum before behind hb hf short =
    let n = total before + total behind in
    let small : n ≤ 4294836225 = omega (arith, total-le before hb, total-le behind hf) in
    let sum = total-append before (0 ∷ behind) in
    let first : sum_words (before ++ (0 ∷ behind)) 0 ≡ n =
      sum_words-total (before ++ (0 ∷ behind)) 0 (omega arith) ∙ omega arith in
    let c = fold_sum n in
    let value = fold_sum_lem n (omega arith) in
    let again = total-append before (c ∷ behind) in
    let second : sum_words (before ++ (c ∷ behind)) 0 ≡ n + c =
      sum_words-total (before ++ (c ∷ behind)) 0 (omega arith) ∙ omega arith in
    rw (first, second, fold_sum_lem (n + c) (omega arith)) (omega arith)
