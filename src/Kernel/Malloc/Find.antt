-- ===== src/Kernel/Malloc/Find.antt =====
-- `find` gives the first node that is large enough.
use gml_vm.Base.{
  ℕ, zero, suc, ◌≤◌, ◌<◌, ◌≡◌, ◌≢◌, refl, List, [], ◌∷◌, ◌==◌, true, false, leb, if◌then◌else◌,
  arith, length, some, ne→==, Bool-cases, inl, inr, leb→le,
}
use gml_vm.Kernel.Malloc.{Nodes, find}
use gml_vm.Kernel.Malloc.Chain.{has, first, Linked}
use gml_vm.Kernel.Malloc.Add.{sizes}
use gml_vm.Kernel.Malloc.Room.{Sorted}

-- The first of `xs` with a key of `n` or more, NULL without one.
abbrev pub first_fit : (ℕ → ℕ) → ℕ → List ℕ → ℕ
first_fit k n [] = 0
first_fit k n (x ∷ xs) = let rest = first_fit k n xs in if leb n (k x) then x else rest

pub find-first_fit :
    (fuel n : ℕ) (h : Nodes) (xs : List ℕ)
    → Linked h xs
    → length xs < fuel
    → find fuel (first xs) n h ≡ some (first_fit (sizes h) n xs)
unfolding find
find-first_fit zero n h xs l enough = absurd (omega arith)
find-first_fit (suc fuel) n h [] l enough = refl
find-first_fit (suc fuel) n h (x ∷ xs) l enough =
    let here : (x == 0) ≡ false = ne→== x 0 l.0 in
    let rest = find-first_fit fuel n h xs l.3 (omega arith) in rw (here, l.1, rest) (ground arith)

pub Linked-pos : (h : Nodes) (m : ℕ) (xs : List ℕ) → Linked h xs → has m xs ≡ true → m ≢ 0
Linked-pos h m [] l i = absurd (ground (arith, i))
Linked-pos h m (x ∷ xs) l i = ground (arith, l.0, Linked-pos h m xs l.3)

-- `m` is the smallest node of `xs` that holds `n` bytes.
pub record IsBest (k : ℕ → ℕ) (n m : ℕ) (xs : List ℕ) : Type 0 where
  pub one : has m xs ≡ true
  pub fits : n ≤ k m
  pub least : (y : ℕ) → has y xs ≡ true → n ≤ k y → k m ≤ k y

-- In a sorted list the first node that fits is the smallest.
pub first_fit-IsBest :
    (k : ℕ → ℕ) (n y : ℕ) (xs : List ℕ)
    → Sorted k xs
    → has y xs ≡ true
    → n ≤ k y
    → IsBest k n (first_fit k n xs) xs
first_fit-IsBest k n y [] s i fits = absurd (ground (arith, i))
first_fit-IsBest k n y (x ∷ xs) s i fits = elim (Bool-cases (leb n (k x))) [
  | inl here ↦ rw here (record {
    one = ground arith;
    fits = leb→le n (k x) here;
    least = λ z j f. ground (arith, s.0 z);
  })
  | inr small ↦
      let r = first_fit-IsBest k n y xs s.1 (ground arith) fits in
      rw small (record {
        one = ground (arith, r.one);
        fits = r.fits;
        least = λ z j f. r.least z (ground arith) f;
      })
]
