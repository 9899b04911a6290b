-- ===== src/Kernel/Machine.antt =====
-- The machine that the kernel works on: memory in bytes, the registers of paging, the interrupt
-- table, and the variables of kernel/mm.c. The array `mmap` is kept by itself: the pages that the
-- kernel hands out lie above it.
use gml_vm.Base.{
  ℕ, ◌+◌, ◌*◌, ◌/◌, ◌%◌, ◌^◌, ◌≤◌, ◌<◌, ◌≡◌, ◌⊎◌, Option, none, some, arith, ◌==◌, if◌then◌else◌,
}

-- `idtT`
pub record Gate : Type 0 where
  pub addr1 : ℕ
  pub section : ℕ
  pub attr : ℕ
  pub addr2 : ℕ

pub record Machine : Type 0 where
  -- HMEM, KMEM and mmap
  pub hmem : ℕ
  pub kmem : ℕ
  pub mmap : ℕ → ℕ
  pub mem : ℕ → ℕ
  pub cr0 : ℕ
  pub cr3 : ℕ
  pub idt : ℕ → Gate

abbrev pub update {ℓ} : {A : Type ℓ} → (ℕ → A) → ℕ → A → ℕ → A
update f a v j = if j == a then v else f j

-- An `unsigned long` at an address.
unfoldable pub load : (ℕ → ℕ) → ℕ → ℕ
load m a = m a + 256 * m (a + 1) + 65536 * m (a + 2) + 16777216 * m (a + 3)

unfoldable pub store : (ℕ → ℕ) → ℕ → ℕ → ℕ → ℕ
store m a v j =
    if j == a
    then v % 256
    else if j == a + 1
    then v / 256 % 256
    else if j == a + 2
    then v / 65536 % 256
    else if j == a + 3
    then v / 16777216 % 256
    else m j

pub load-store_self : (m : ℕ → ℕ) (a v : ℕ) → v < 2 ^ 32 → load (store m a v) a ≡ v
unfolding load store
load-store_self m a v h = ground arith

pub load-store_apart :
    (m : ℕ → ℕ) (a b v : ℕ) → (a + 4 ≤ b) ⊎ (b + 4 ≤ a) → load (store m a v) b ≡ load m b
unfolding load store
load-store_apart m a b v h = ground arith

-- A step of the kernel: `none` when it runs out of fuel, which only endless loops consume.
abbrev pub Step : Type 0 → Type 0
Step A = Machine → Option (A × Machine)

abbrev pub pure : {A : Type 0} → A → Step A
pure a m = some (a, m)

infixl 5 ◌>>=◌ ◌>>◌
abbrev pub ◌>>=◌ : {A B : Type 0} → Step A → (A → Step B) → Step B
(s >>= k) m = elim (s m) [ none ↦ none | some (a, m') ↦ k a m' ]

abbrev pub ◌>>◌ : {B : Type 0} → Step (Unit {0}) → Step B → Step B
(s >> k) m = elim (s m) [ none ↦ none | some (a, m') ↦ k m' ]

abbrev pub get : Step Machine
get m = some (m, m)

abbrev pub put : Machine → Step (Unit {0})
put m' m = some (tt, m')
