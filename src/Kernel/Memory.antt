-- ===== src/Kernel/Memory.antt =====
-- c/string.c over memory: `memcpy` and `memset`.
use gml_vm.Base.{
  ℕ, zero, suc, ◌+◌, ◌-◌, ◌≤◌, ◌<◌, ◌≡◌, ◌≢◌, refl, ap, ◌⊎◌, arith, ltb, leb, ◌&&◌, ◌==◌,
  if◌then◌else◌, Option, some, none, true, false,
}
use gml_vm.Kernel.Machine.{update}

-- `cld; rep movsb`: one byte after the other, upwards.
unfoldable pub memcpy : (dest src n : ℕ) → (ℕ → ℕ) → ℕ → ℕ
memcpy dest src zero m = m
memcpy dest src (suc n) m = memcpy (dest + 1) (src + 1) n (update m dest (m src))

-- The loop of `memset`, for a count that is not 0.
unfoldable pub set_bytes : (dest ch n : ℕ) → (ℕ → ℕ) → ℕ → ℕ
set_bytes dest ch zero m = m
set_bytes dest ch (suc n) m = set_bytes (dest + 1) ch n (update m dest ch)

-- `memcpy` moves `n` bytes and leaves the others alone, also where the two areas overlap, when the
-- target does not lie above the source, or lies behind all of it.
pub memcpy_lem :
    (dest src n : ℕ) (m : ℕ → ℕ) (j : ℕ)
    → (dest ≤ src) ⊎ (src + n ≤ dest)
    → memcpy dest src n m j ≡ (if leb dest j && ltb j (dest + n) then m (src + (j - dest)) else m j)
unfolding memcpy
memcpy_lem dest src zero m j apart = ground arith
memcpy_lem dest src (suc n) m j apart =
    ground (arith, memcpy_lem (dest + 1) (src + 1) n (update m dest (m src)) j)

pub set_bytes_lem :
    (dest ch n : ℕ) (m : ℕ → ℕ) (j : ℕ)
    → set_bytes dest ch n m j ≡ (if leb dest j && ltb j (dest + n) then ch else m j)
unfolding set_bytes
set_bytes_lem dest ch zero m j = ground arith
set_bytes_lem dest ch (suc n) m j =
    ground (arith, set_bytes_lem (dest + 1) ch n (update m dest ch) j)

-- `strcpy`: bytes are moved up to a zero, which is moved too. Fuel bounds the bytes moved.
unfoldable pub strcpy : (fuel dest src : ℕ) → (ℕ → ℕ) → Option (ℕ → ℕ)
strcpy zero dest src m = none
strcpy (suc fuel) dest src m =
    let m' = update m dest (m src) in
    let rest = strcpy fuel (dest + 1) (src + 1) m' in if m src == 0 then some m' else rest

-- `strcpy` of a string of `n` bytes comes back, and does what `memcpy` does with the string and its
-- zero: the target lies in front of the source or behind all of it.
pub strcpy-memcpy :
    (fuel dest src n : ℕ) (m : ℕ → ℕ)
    → (dest ≤ src) ⊎ (src + n < dest)
    → ((i : ℕ) → i < n → m (src + i) ≢ 0)
    → m (src + n) ≡ 0
    → n < fuel
    → strcpy fuel dest src m ≡ some (memcpy dest src (suc n) m)
unfolding strcpy memcpy
strcpy-memcpy zero dest src n m apart text end enough = absurd (omega arith)
strcpy-memcpy (suc fuel) dest src zero m apart text end enough =
    let last : (m src == 0) ≡ true = ground (arith, end) in rw last refl
strcpy-memcpy (suc fuel) dest src (suc n) m apart text end enough =
    let more : (m src == 0) ≡ false = ground (arith, text 0) in
    let at : (i : ℕ) → src + 1 + i ≡ src + suc i = λ i. omega arith in
    rw more (
      strcpy-memcpy fuel (dest + 1) (src + 1) n (update m dest (m src)) (ground arith)
        (λ i p. ground (arith, text (suc i), ap m (at i))) (ground (arith, end, ap m (at n)))
        (omega arith))
