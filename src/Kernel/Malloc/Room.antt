-- ===== src/Kernel/Malloc/Room.antt =====
-- The free nodes as disjoint stretches of memory, sorted by size.
pub mod Keep
use gml_vm.Base.{
  ℕ, zero, suc, ◌+◌, ◌^◌, ◌≤◌, ◌<◌, ◌≡◌, ◌≢◌, refl, ◌∙◌, sym, subst, ◌⊎◌, inl, inr, List, [], ◌∷◌,
  ◌==◌, Bool, true, false, ◌||◌, not, ◌&&◌, leb, if◌then◌else◌, arith, Bool-cases, ltb→le, ap, ap₂,
}
use gml_vm.Kernel.Malloc.{Node, Nodes, free_state}
use gml_vm.Kernel.Malloc.Chain.{has, NoDup, Linked, insert, has-insert, Linked-frame}
use gml_vm.Kernel.Malloc.Add.{sizes}
use gml_vm.Kernel.Malloc.Del.{remove, has-remove}

-- The nodes at `a` and `b`, each with its header of 16 bytes, do not overlap.
abbrev pub Off : (ℕ → ℕ) → ℕ → ℕ → Type 0
Off k a b = (a + 16 + k a ≤ b) ⊎ (b + 16 + k b ≤ a)

abbrev pub Spread : (ℕ → ℕ) → List ℕ → Type 0
Spread k xs = (a b : ℕ) → has a xs ≡ true → has b xs ≡ true → a ≢ b → Off k a b

abbrev pub Sorted : (ℕ → ℕ) → List ℕ → Type 0
Sorted k [] = Unit
Sorted k (x ∷ xs) = ((y : ℕ) → has y xs ≡ true → k x ≤ k y) × Sorted k xs

-- The bytes of the nodes, headers included.
abbrev pub total : (ℕ → ℕ) → List ℕ → ℕ
total k [] = 0
total k (x ∷ xs) = 16 + k x + total k xs

pub Sorted-insert : (k : ℕ → ℕ) (m : ℕ) (xs : List ℕ) → Sorted k xs → Sorted k (insert k m xs)
Sorted-insert k m [] s = (λ y i. absurd (ground (arith, i)), tt)
Sorted-insert k m (x ∷ xs) s = elim (Bool-cases (leb (k m) (k x))) [
  | inl before ↦ rw before (λ y i. ground (arith, s.0 y), s)
  | inr behind ↦
      rw behind (λ y i. ground (arith, has-insert k m y xs, s.0 y), Sorted-insert k m xs s.1)
]

pub Sorted-remove :
    (k : ℕ → ℕ) (m : ℕ) (xs : List ℕ) → NoDup xs → Sorted k xs → Sorted k (remove m xs)
Sorted-remove k m [] d s = tt
Sorted-remove k m (x ∷ xs) d s = elim (Bool-cases (m == x)) [
  | inl here ↦ rw here s.1
  | inr other ↦
      rw other (λ y i. s.0 y (ground (arith, has-remove m y xs d.1)), Sorted-remove k m xs d.1 s.1)
]

pub Sorted-ext :
    (k k' : ℕ → ℕ) (xs : List ℕ)
    → ((a : ℕ) → has a xs ≡ true → k' a ≡ k a)
    → Sorted k xs
    → Sorted k' xs
Sorted-ext k k' [] same s = tt
Sorted-ext k k' (x ∷ xs) same s = (
  λ y i. ground (arith, same x, same y, s.0 y),
  Sorted-ext k k' xs (λ a i. same a (ground arith)) s.1,
)

pub total-insert :
    (k j : ℕ → ℕ) (m : ℕ) (xs : List ℕ) → total k (insert j m xs) ≡ 16 + k m + total k xs
total-insert k j m [] = refl
total-insert k j m (x ∷ xs) = elim (Bool-cases (leb (j m) (j x))) [
  | inl before ↦ rw before refl
  | inr behind ↦ rw behind (omega (arith, total-insert k j m xs))
]

pub total-remove :
    (k : ℕ → ℕ) (m : ℕ) (xs : List ℕ)
    → has m xs ≡ true
    → 16 + k m + total k (remove m xs) ≡ total k xs
total-remove k m [] i = absurd (ground (arith, i))
total-remove k m (x ∷ xs) i = ground (arith, total-remove k m xs)

pub Spread-ext :
    (k k' : ℕ → ℕ) (xs : List ℕ)
    → ((a : ℕ) → has a xs ≡ true → k' a ≡ k a)
    → Spread k xs
    → Spread k' xs
Spread-ext k k' xs same s a b i j ne = ground (arith, s a b i j ne, same a i, same b j)

pub total-ext :
    (k k' : ℕ → ℕ) (xs : List ℕ)
    → ((a : ℕ) → has a xs ≡ true → k' a ≡ k a)
    → total k' xs ≡ total k xs
total-ext k k' [] same = refl
total-ext k k' (x ∷ xs) same =
    omega (arith, same x (ground arith), total-ext k k' xs (λ a i. same a (ground arith)))

-- The free nodes are `xs`, behind the node `head` of size 0 that is not memory to give away.
pub record IsHeap (h : Nodes) (head : ℕ) (xs : List ℕ) : Type 0 where
  pub linked : Linked h (head ∷ xs)
  pub distinct : NoDup (head ∷ xs)
  pub spread : Spread (sizes h) (head ∷ xs)
  pub sorted : Sorted (sizes h) (head ∷ xs)
  pub empty : (h head).size ≡ 0
  pub pos : (a : ℕ) → has a xs ≡ true → 0 < (h a).size
  pub fits : (a : ℕ) → has a xs ≡ true → a + 16 + (h a).size ≤ 2 ^ 32
  pub state : (a : ℕ) → has a xs ≡ true → (h a).state ≡ free_state

-- A node at `m` that overlaps none of the heap's.
pub record IsApart (h : Nodes) (head m : ℕ) (xs : List ℕ) : Type 0 where
  pub outside : has m (head ∷ xs) ≡ false
  pub off : (a : ℕ) → has a (head ∷ xs) ≡ true → Off (sizes h) m a
