-- ===== src/Kernel/Malloc/Chain.antt =====
-- A doubly linked chain of nodes, as the list of their addresses.
use gml_vm.Base.{
  ℕ, ◌≡◌, ◌≢◌, refl, List, [], ◌∷◌, ◌==◌, Bool, true, false, ◌||◌, leb, if◌then◌else◌, arith,
  Bool-cases, inl, inr, subst, sym, ==→eq,
}
use gml_vm.Kernel.Malloc.{Nodes}

abbrev pub has : ℕ → List ℕ → Bool
has a [] = false
has a (x ∷ xs) = (a == x) || has a xs

pub has-cons_ne : (p m : ℕ) (xs : List ℕ) → has p (m ∷ xs) ≡ false → m ≢ p
has-cons_ne p m xs out = ground arith

abbrev pub NoDup : List ℕ → Type 0
NoDup [] = Unit
NoDup (x ∷ xs) = (has x xs ≡ false) × NoDup xs

-- The address of the first node, NULL without one.
abbrev pub first : List ℕ → ℕ
first [] = 0
first (x ∷ xs) = x

-- The first of `xs` points back to `p`.
abbrev pub Rooted : Nodes → ℕ → List ℕ → Type 0
Rooted h p [] = Unit
Rooted h p (x ∷ xs) = (h x).root ≡ p

-- From each node `next` leads to the one behind it, and `root` back. The first node's `root` is left
-- open.
abbrev pub Linked : Nodes → List ℕ → Type 0
Linked h [] = Unit
Linked h (x ∷ xs) = (x ≢ 0) × ((h x).next ≡ first xs) × Rooted h x xs × Linked h xs

-- `m` in front of the first element that is not smaller, by the key `k`.
abbrev pub insert : (ℕ → ℕ) → ℕ → List ℕ → List ℕ
insert k m [] = m ∷ []
insert k m (x ∷ xs) = let rest = insert k m xs in if leb (k m) (k x) then m ∷ x ∷ xs else x ∷ rest

pub has-insert :
    (k : ℕ → ℕ) (m a : ℕ) (xs : List ℕ) → has a (insert k m xs) ≡ ((a == m) || has a xs)
has-insert k m a [] = refl
has-insert k m a (x ∷ xs) = ground (arith, has-insert k m a xs)

-- What holds of `m` and of all elements holds of all that `insert` gives.
pub insert-each :
    (P : ℕ → Type 0) (k : ℕ → ℕ) (m : ℕ) (xs : List ℕ)
    → P m
    → ((a : ℕ) → has a xs ≡ true → P a)
    → (a : ℕ) → has a (insert k m xs) ≡ true
    → P a
insert-each P k m xs new old a i = elim (Bool-cases (a == m)) [
  | inl here ↦ subst P (sym (==→eq a m here)) new
  | inr other ↦ old a (ground (arith, has-insert k m a xs))
]

pub NoDup-insert :
    (k : ℕ → ℕ) (m : ℕ) (xs : List ℕ) → has m xs ≡ false → NoDup xs → NoDup (insert k m xs)
NoDup-insert k m [] out d = (refl, tt)
NoDup-insert k m (x ∷ xs) out d = elim (Bool-cases (leb (k m) (k x))) [
  | inl before ↦ rw before (out, d)
  | inr behind ↦
      rw behind (ground (arith, has-insert k m x xs), NoDup-insert k m xs (ground arith) d.1)
]

-- A chain survives any change that spares its nodes.
pub Rooted-frame :
    (h h' : Nodes) (p : ℕ) (xs : List ℕ)
    → ((a : ℕ) → has a xs ≡ true → h' a ≡ h a)
    → Rooted h p xs
    → Rooted h' p xs
Rooted-frame h h' p [] same r = tt
Rooted-frame h h' p (x ∷ xs) same r = rw (same x (ground arith)) r

pub Linked-frame :
    (h h' : Nodes) (xs : List ℕ)
    → ((a : ℕ) → has a xs ≡ true → h' a ≡ h a)
    → Linked h xs
    → Linked h' xs
Linked-frame h h' [] same l = tt
Linked-frame h h' (x ∷ xs) same l =
    let rest : (a : ℕ) → has a xs ≡ true → h' a ≡ h a = λ a i. same a (ground arith) in
    (
      l.0,
      rw (same x (ground arith)) l.1,
      Rooted-frame h h' x xs rest l.2,
      Linked-frame h h' xs rest l.3,
    )

-- Of the first node only `next` counts.
pub Linked-first :
    (h h' : Nodes) (x : ℕ) (xs : List ℕ)
    → (h' x).next ≡ (h x).next
    → ((a : ℕ) → has a xs ≡ true → h' a ≡ h a)
    → Linked h (x ∷ xs)
    → Linked h' (x ∷ xs)
Linked-first h h' x xs next same l =
    (l.0, rw next l.1, Rooted-frame h h' x xs same l.2, Linked-frame h h' xs same l.3)
