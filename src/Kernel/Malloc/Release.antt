-- ===== src/Kernel/Malloc/Release.antt =====
-- `unite`: a node that goes back takes the free node behind it in its page.
pub mod Run
use gml_vm.Base.{
  ℕ, suc, ◌+◌, ◌-◌, ◌*◌, ◌/◌, ◌%◌, ◌^◌, ◌≤◌, ◌<◌, ◌≡◌, ◌≢◌, refl, ap, ◌∙◌, sym, subst, List, [],
  ◌∷◌, ◌==◌, Bool, true, false, ◌||◌, ◌&&◌, not, leb, if◌then◌else◌, arith, length, some, Option,
  ne→==, ==→eq, u32, sub32, Bool-cases, inl, inr, ◌⊎◌,
}
use gml_vm.Kernel.Machine.{update}
use gml_vm.Kernel.Malloc.{
  Node, Nodes, free_state, set_state, set_size, del, add, behind, page_of, join, unite,
}
use gml_vm.Kernel.Malloc.Chain.{has, insert, has-insert}
use gml_vm.Kernel.Malloc.Add.{sizes}
use gml_vm.Kernel.Malloc.Del.{remove, has-remove, length-remove, del-Unlinked}
use gml_vm.Kernel.Malloc.Pool.{Pool, free, ◌>>=◌, ◌>>◌}
use gml_vm.Kernel.Malloc.Room.{Off, IsHeap, IsApart, total, total-ext, total-insert}
use gml_vm.Kernel.Malloc.Room.Keep.{IsHeap-frame, IsSpare, Put, add-Put}
use gml_vm.Kernel.Malloc.Carve.Run.{changed_self}
use gml_vm.Kernel.Malloc.Carve.{IsTaken, del-IsTaken, Change-frame, not-has, Off-at}

-- A node that the caller may give back: it overlaps no free node, and if a node behind it in its page
-- is marked as free, that is one of the free nodes.
pub record IsHeld (h : Nodes) (head m : ℕ) (xs : List ℕ) : Type 0 where
  pub apart : IsApart h head m xs
  pub there : m ≢ 0
  pub pos : 0 < (h m).size
  pub fits : m + 16 + (h m).size < 2 ^ 32
  pub marked :
      (page_of (m + 16 + (h m).size) == page_of m) ≡ true
      → (h (m + 16 + (h m).size)).state ≡ free_state
      → has (m + 16 + (h m).size) xs ≡ true

-- The node behind `m` is in its page, and marked as free.
abbrev pub has_free_behind : Nodes → ℕ → Bool
has_free_behind h m =
    page_of (m + 16 + (h m).size) == page_of m && (h (m + 16 + (h m).size)).state == free_state

-- What `unite` leaves.
pub record IsUnited (h g : Nodes) (head m : ℕ) (xs ys : List ℕ) : Type 0 where
  pub heap : IsHeap g head ys
  pub apart : IsApart g head m ys
  pub size : (h m).size ≤ (g m).size
  pub joins :
      has_free_behind h m ≡ true → (g m).size ≡ (h m).size + 16 + (h (m + 16 + (h m).size)).size
  pub fits : m + 16 + (g m).size ≤ 2 ^ 32
  pub all : (g m).size + total (sizes g) ys ≡ (h m).size + total (sizes h) xs
  pub short : length ys ≤ length xs

out-remove :
    (m n head : ℕ) (xs : List ℕ)
    → has m (head ∷ xs) ≡ false
    → (has m (remove n xs) ≡ true → has m xs ≡ true)
    → has m (head ∷ remove n xs) ≡ false
out-remove m n head xs out old = ground arith

merged :
    (k : ℕ → ℕ) (m a v w : ℕ)
    → Off k m a
    → (m + 16 + k m + 16 + v ≤ a) ⊎ (a + 16 + w ≤ m + 16 + k m)
    → w ≡ k a
    → (m + 16 + (k m + v + 16) ≤ a) ⊎ (a + 16 + w ≤ m)
merged k m a v w off behind same = ground arith

-- The node behind `m` gone from the heap, `m` may cover its bytes.
grown-IsUnited :
    (h d : Nodes) (head m size : ℕ) (xs : List ℕ)
    → IsHeld h head m xs
    → IsTaken h d head (m + 16 + (h m).size) xs
    → m + 16 + (h m).size + 16 + (h (m + 16 + (h m).size)).size ≤ 2 ^ 32
    → size ≡ (h m).size + (h (m + 16 + (h m).size)).size + 16
    → ((a : ℕ) → has a (remove (m + 16 + (h m).size) xs) ≡ true → has a xs ≡ true)
    → IsUnited h (set_size m size d) head m xs (remove (m + 16 + (h m).size) xs)
grown-IsUnited h d head m size xs q t fits sum old =
    let nb = m + 16 + (h m).size in
    let ys = remove nb xs in
    let g = set_size m size d in
    let out : has m (head ∷ ys) ≡ false = out-remove m nb head xs q.apart.outside (old m) in
    let self = changed_self d m size in
    let same = Change-frame d m _ (head ∷ ys) out in
    let a_size : (a : ℕ) → has a (head ∷ ys) ≡ true → (g a).size ≡ (d a).size =
      λ a i. ap (λ (b : Node). b.size) (same a i) in
    let kept = total-ext (sizes d) (sizes g) ys (λ a i. a_size a (ground arith)) in
    record {
      heap = IsHeap-frame d g head ys same t.heap;
      apart = record {
        outside = out;
        off = λ a i. Off-at (sizes g) m a size (d a).size self (a_size a i) (
            subst (λ v. (m + 16 + v ≤ a) ⊎ (a + 16 + (d a).size ≤ m)) (sym sum)
              (merged (sizes h) m a (h nb).size (d a).size (q.apart.off a (ground (arith, old a)))
                (subst (λ v. (nb + 16 + v ≤ a) ⊎ (a + 16 + (d a).size ≤ nb)) (t.size nb)
                  (t.apart.off a i))
                (t.size a)));
      };
      size = omega (arith, self);
      joins = λ j. omega (arith, self);
      fits = omega (arith, self);
      all = omega (arith, self, kept, t.all, t.size nb);
      short = length-remove nb xs;
    }

pub join-IsUnited :
    (h : Nodes) (head m : ℕ) (xs : List ℕ)
    → IsHeap h head xs
    → IsHeld h head m xs
    → has (m + 16 + (h m).size) xs ≡ true
    → IsUnited h (join m (m + 16 + (h m).size) h) head m xs (remove (m + 16 + (h m).size) xs)
unfolding join
join-IsUnited h head m xs p q i =
    let nb = m + 16 + (h m).size in
    let t = del-IsTaken h head nb xs p i in
    let fits = p.fits nb i in
    let sum : u32 ((del nb h m).size + (del nb h nb).size + 16) ≡ (h m).size + (h nb).size + 16 =
      omega (arith, t.size m, t.size nb) in
    grown-IsUnited h (del nb h) head m _ xs q t fits sum
      (λ a j. ground (arith, has-remove nb a xs p.distinct.1))

pub kept-IsUnited :
    (h : Nodes) (head m : ℕ) (xs : List ℕ)
    → IsHeap h head xs
    → IsHeld h head m xs
    → has_free_behind h m ≡ false
    → IsUnited h h head m xs xs
kept-IsUnited h head m xs p q alone = record {
  heap = p;
  apart = q.apart;
  size = omega arith;
  joins = λ j. ground arith;
  fits = omega (arith, q.fits);
  all = refl;
  short = omega arith;
}

-- `unite` of a node that goes back.
pub record United (h g : Nodes) (head m : ℕ) (xs : List ℕ) : Type 0 where
  pub rest : List ℕ
  pub united : IsUnited h g head m xs rest

pub unite-United :
    (h : Nodes) (head m : ℕ) (xs : List ℕ)
    → IsHeap h head xs
    → IsHeld h head m xs
    → United h (unite m h) head m xs
unfolding unite
unite-United h head m xs p q =
    let nb = m + 16 + (h m).size in
    let at : behind m h ≡ nb = omega (arith, q.fits) in
    elim (Bool-cases (has_free_behind h m)) [
      | inl free ↦
          let i = q.marked (ground arith) (==→eq (h nb).state free_state (ground arith)) in
          rw (ne→== m 0 q.there, at, free)
            (record { rest = remove nb xs; united = join-IsUnited h head m xs p q i })
      | inr busy ↦
          rw (ne→== m 0 q.there, at, busy)
            (record { rest = xs; united = kept-IsUnited h head m xs p q busy })
    ]
