-- ===== src/Kernel/Malloc/Tile/Parts.antt =====
-- A list of nodes in two parts: those that `clean` has seen, and those in front of it.
use gml_vm.Base.{
  ℕ, ◌≤◌, ◌<◌, ◌≡◌, ◌≢◌, refl, ap, ◌∙◌, sym, subst, ◌⊎◌, inl, inr, List, [], ◌∷◌, ◌++◌, ◌==◌, Bool,
  true, false, ◌||◌, leb, arith, Bool-cases, ==→eq,
}
use gml_vm.Kernel.Malloc.{Nodes}
use gml_vm.Kernel.Malloc.Chain.{has, NoDup, first, Rooted, Linked, insert}
use gml_vm.Kernel.Malloc.Del.{remove}
use gml_vm.Kernel.Malloc.Room.{Sorted}
use gml_vm.Kernel.Malloc.Carve.{not-has}

-- The last element, `d` in front of the first.
abbrev pub last_of : ℕ → List ℕ → ℕ
last_of d [] = d
last_of d (x ∷ xs) = last_of x xs

pub has-append : (a : ℕ) (xs ys : List ℕ) → has a (xs ++ ys) ≡ (has a xs || has a ys)
has-append a [] ys = refl
has-append a (x ∷ xs) ys = ground (arith, has-append a xs ys)

pub has-last_of : (d : ℕ) (xs : List ℕ) → has (last_of d xs) (d ∷ xs) ≡ true
has-last_of d [] = ground arith
has-last_of d (x ∷ xs) = ground (arith, has-last_of x xs)

-- The last node of the first part leads to the first one of the second, and that one back.
pub Linked-parts :
    (h : Nodes) (d : ℕ) (xs ys : List ℕ)
    → Linked h (d ∷ xs ++ ys)
    → ((h (last_of d xs)).next ≡ first ys) × Rooted h (last_of d xs) ys
Linked-parts h d [] ys l = (l.1, l.2)
Linked-parts h d (x ∷ xs) ys l = Linked-parts h x xs ys l.3

pub remove-left :
    (m : ℕ) (xs ys : List ℕ) → has m xs ≡ true → remove m (xs ++ ys) ≡ remove m xs ++ ys
remove-left m [] ys i = absurd (ground (arith, i))
remove-left m (x ∷ xs) ys i = elim (Bool-cases (m == x)) [
  | inl here ↦ rw here refl
  | inr other ↦ rw other (ap (λ zs. x ∷ zs) (remove-left m xs ys (ground arith)))
]

pub remove-right :
    (m : ℕ) (xs ys : List ℕ) → has m xs ≡ false → remove m (xs ++ ys) ≡ xs ++ remove m ys
remove-right m [] ys out = refl
remove-right m (x ∷ xs) ys out =
    let other : (m == x) ≡ false = ground arith in
    rw other (ap (λ zs. x ∷ zs) (remove-right m xs ys (ground arith)))

pub remove_sub : (m a : ℕ) (xs : List ℕ) → has a (remove m xs) ≡ true → has a xs ≡ true
remove_sub m a [] i = i
remove_sub m a (x ∷ xs) i = ground (arith, remove_sub m a xs)

pub NoDup-left : (xs ys : List ℕ) → NoDup (xs ++ ys) → NoDup xs
NoDup-left [] ys u = tt
NoDup-left (x ∷ xs) ys u = (ground (arith, u.0, has-append x xs ys), NoDup-left xs ys u.1)

pub left_in : (a d : ℕ) (xs ys : List ℕ) → has a xs ≡ true → has a (d ∷ xs ++ ys) ≡ true
left_in a d xs ys i = ground (arith, has-append a xs ys)

-- The last element stays when another one is removed.
pub last_of-remove :
    (m d : ℕ) (xs : List ℕ)
    → NoDup xs
    → has m xs ≡ true
    → m ≢ last_of d xs
    → last_of d (remove m xs) ≡ last_of d xs
last_of-remove m d [] u i other = absurd (ground (arith, i))
last_of-remove m d (x ∷ []) u i other = absurd (ground (arith, i, other))
last_of-remove m d (x ∷ y ∷ ys) u i other = elim (Bool-cases (m == x)) [
  | inl here ↦ rw here refl
  | inr there ↦ rw there (last_of-remove m x (y ∷ ys) u.1 (ground arith) other)
]

-- Not smaller than the elements in front: `m` goes into the second part.
pub insert-right :
    (k : ℕ → ℕ) (m : ℕ) (xs ys : List ℕ)
    → ((a : ℕ) → has a xs ≡ true → k a < k m)
    → insert k m (xs ++ ys) ≡ xs ++ insert k m ys
insert-right k m [] ys less = refl
insert-right k m (x ∷ xs) ys less =
    let behind : leb (k m) (k x) ≡ false = ground (arith, less x) in
    rw behind (ap (λ zs. x ∷ zs) (insert-right k m xs ys (λ a i. less a (ground arith))))

-- Not larger than the second part's first: `m` goes into the first part.
pub insert-left :
    (k : ℕ → ℕ) (m : ℕ) (xs ys : List ℕ)
    → insert k m ys ≡ m ∷ ys
    → insert k m (xs ++ ys) ≡ insert k m xs ++ ys
insert-left k m [] ys at = at
insert-left k m (x ∷ xs) ys at = elim (Bool-cases (leb (k m) (k x))) [
  | inl before ↦ rw before refl
  | inr behind ↦ rw behind (ap (λ zs. x ∷ zs) (insert-left k m xs ys at))
]

-- An element that is put in becomes the last one, behind the one that was, or that one stays.
pub last_of-insert :
    (k : ℕ → ℕ) (m d : ℕ) (xs : List ℕ)
    → (insert k m xs ≡ xs ++ (m ∷ [])) ⊎ (last_of d (insert k m xs) ≡ last_of d xs)
last_of-insert k m d [] = inl refl
last_of-insert k m d (x ∷ xs) = elim (Bool-cases (leb (k m) (k x))) [
  | inl before ↦ rw before (inr refl)
  | inr behind ↦ rw behind (elim (last_of-insert k m x xs) [
    | inl last ↦ inl (ap (λ zs. x ∷ zs) last)
    | inr inner ↦ inr inner
  ])
]

behind_lem : (a b : ℕ) → leb a b ≡ false → b < a
behind_lem a b e = ground arith

among : (x : Bool) (y : ℕ) (ys : List ℕ) → (x || has y (y ∷ ys)) ≡ true
among x y ys = ground arith

Sorted-parts :
    (k : ℕ → ℕ) (a y : ℕ) (xs ys : List ℕ) → Sorted k (xs ++ y ∷ ys) → has a xs ≡ true → k a ≤ k y
Sorted-parts k a y [] ys s i = absurd (ground (arith, i))
Sorted-parts k a y (x ∷ xs) ys s i = elim (Bool-cases (a == x)) [
  | inl here ↦
      subst (λ b. k b ≤ k y) (sym (==→eq a x here))
        (s.0 y (has-append y xs (y ∷ ys) ∙ among (has y xs) y ys))
  | inr there ↦ Sorted-parts k a y xs ys s.1 (ground arith)
]

-- Where `m` goes in a sorted list of two parts.
pub insert-parts :
    (k : ℕ → ℕ) (m : ℕ) (xs ys : List ℕ)
    → Sorted k (xs ++ ys)
    → (insert k m (xs ++ ys) ≡ insert k m xs ++ ys)
      ⊎ (insert k m (xs ++ ys) ≡ xs ++ insert k m ys) × (first (insert k m ys) ≡ first ys)
insert-parts k m xs [] s = inl (insert-left k m xs [] refl)
insert-parts k m xs (y ∷ ys) s = elim (Bool-cases (leb (k m) (k y))) [
  | inl before ↦ inl (insert-left k m xs (y ∷ ys) (rw before refl))
  | inr behind ↦
      let less : (a : ℕ) → has a xs ≡ true → k a < k m =
        λ a i. omega (arith, Sorted-parts k a y xs ys s i, behind_lem (k m) (k y) behind) in
      inr (insert-right k m xs (y ∷ ys) less, rw behind refl)
]

pub removed_first : (c : ℕ) (xs : List ℕ) → remove c (c ∷ xs) ≡ xs
removed_first c xs = let at : (c == c) ≡ true = ground arith in rw at refl

pub middle-in : (c : ℕ) (xs ys : List ℕ) → has c (xs ++ c ∷ ys) ≡ true
middle-in c [] ys = ground arith
middle-in c (x ∷ xs) ys = ground (arith, middle-in c xs ys)

pub twice : (c : ℕ) (xs ys : List ℕ) → NoDup (xs ++ c ∷ ys) → has c xs ≢ true
twice c [] ys u i = ground (arith, i)
twice c (x ∷ xs) ys u i = elim (Bool-cases (c == x)) [
  | inl here ↦ not-has c x (xs ++ c ∷ ys) u.0 (middle-in c xs ys) (==→eq c x here)
  | inr there ↦ twice c xs ys u.1 (ground arith)
]

pub or_left : (x y : Bool) → x ≡ true → (x || y) ≡ true
or_left x y i = ground arith
