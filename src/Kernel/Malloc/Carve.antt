-- ===== src/Kernel/Malloc/Carve.antt =====
-- A node that is taken out of the heap, and the part of it that goes back.
pub mod Run
use gml_vm.Base.{
  ℕ, zero, suc, ◌+◌, ◌-◌, ◌*◌, ◌/◌, ◌%◌, ◌^◌, ◌≤◌, ◌<◌, ◌≡◌, ◌≢◌, refl, ap, ◌∙◌, sym, subst, ◌⊎◌,
  inl, inr, List, [], ◌∷◌, ◌==◌, Bool, true, false, ◌||◌, not, ◌&&◌, leb, if◌then◌else◌, arith,
  Bool-cases, some, none, Option, length, u32, sub32, ==→ne,
}
use gml_vm.Kernel.Machine.{update}
use gml_vm.Kernel.Malloc.{
  Node, Nodes, free_state, busy_state, del, add, set_root, set_size, set_state,
}
use gml_vm.Kernel.Malloc.Chain.{has, NoDup, first, insert, has-insert}
use gml_vm.Kernel.Malloc.Add.{sizes}
use gml_vm.Kernel.Malloc.Del.{remove, has-remove, del-Unlinked}
use gml_vm.Kernel.Malloc.Pool.{Pool, split, carve, ◌>>=◌, ◌>>◌, pool_add}
use gml_vm.Kernel.Malloc.Room.{Off, IsHeap, IsApart, total, total-insert, total-remove, total-ext}
use gml_vm.Kernel.Malloc.Room.Keep.{IsHeap-frame, IsHeap-del, IsSpare, Put, add-Put}

-- The node `m` is the caller's: it is busy, holds `size` bytes, and overlaps no free node; the heap
-- is in order, and its free nodes and `m` are the `bytes` bytes that there were.
pub record IsGiven (h : Nodes) (head m size bytes : ℕ) (xs : List ℕ) : Type 0 where
  pub heap : IsHeap h head xs
  pub apart : IsApart h head m xs
  pub enough : size ≤ (h m).size
  pub busy : (h m).state ≡ busy_state
  pub all : 16 + (h m).size + total (sizes h) xs ≡ bytes

-- A change of the node `m` alone.
pub Apart-change :
    (h : Nodes) (head m : ℕ) (n : Node) (xs : List ℕ)
    → n.size ≤ (h m).size
    → IsApart h head m xs
    → IsApart (update h m n) head m xs
Apart-change h head m n xs less p = record {
  outside = p.outside;
  off = λ a i. ground (arith, p.outside, p.off a i);
}

pub not-has : (a m : ℕ) (xs : List ℕ) → has m xs ≡ false → has a xs ≡ true → a ≢ m
not-has a m xs out i e = ground (arith, ap (λ b. has b xs) e)

pub Change-frame :
    (h : Nodes) (m : ℕ) (n : Node) (xs : List ℕ)
    → has m xs ≡ false
    → (a : ℕ) → has a xs ≡ true
    → update h m n a ≡ h a
Change-frame h m n xs out a i = ground (arith, not-has a m xs out i)

-- A node taken out, and marked.
pub marked-IsGiven :
    (h : Nodes) (head m size bytes : ℕ) (xs : List ℕ)
    → IsHeap h head xs
    → IsApart h head m xs
    → size ≤ (h m).size
    → 16 + (h m).size + total (sizes h) xs ≡ bytes
    → IsGiven (set_state m busy_state h) head m size bytes xs
marked-IsGiven h head m size bytes xs p q enough all =
    let g = set_state m busy_state h in
    record {
      heap = IsHeap-frame h g head xs (Change-frame h m _ (head ∷ xs) q.outside) p;
      apart = Apart-change h head m _ xs (omega arith) q;
      enough = ground arith;
      busy = ground arith;
      all =
          let same = total-ext (sizes h) (sizes g) xs (λ a i. ground arith) in ground (arith, same);
    }

-- What `del` of a free node leaves: the heap without it, and the node by itself.
pub record IsTaken (h g : Nodes) (head m : ℕ) (xs : List ℕ) : Type 0 where
  pub heap : IsHeap g head (remove m xs)
  pub apart : IsApart g head m (remove m xs)
  pub size : (a : ℕ) → (g a).size ≡ (h a).size
  pub all : 16 + (g m).size + total (sizes g) (remove m xs) ≡ total (sizes h) xs

pub del-IsTaken :
    (h : Nodes) (head m : ℕ) (xs : List ℕ)
    → IsHeap h head xs
    → has m xs ≡ true
    → IsTaken h (del m h) head m xs
del-IsTaken h head m xs p i =
    let u = (del-Unlinked h head m xs p.distinct p.linked i).relinked in
    let d = p.distinct.1 in
    let other : m ≢ head = not-has m head xs p.distinct.0 i in
    let same = total-ext (sizes h) (sizes (del m h)) (remove m xs) (λ a j. u.size a) in
    record {
      heap = IsHeap-del h head m xs p i;
      apart = record {
        outside = ground (arith, has-remove m m xs d);
        off = λ a j. ground (
          arith,
          u.size m,
          u.size a,
          has-remove m a xs d,
          p.spread m a (ground arith) (ground (arith, has-remove m a xs d)),
        );
      };
      size = u.size;
      all = omega (arith, same, u.size m, total-remove (sizes h) m xs i);
    }

-- A free node of `v` bytes, written at `n`.
abbrev pub written : (n v : ℕ) → Nodes → Nodes
written n v h = set_size n v (set_root n 0 (set_state n free_state h))

pub record IsCut (h g : Nodes) (head m n : ℕ) (xs : List ℕ) : Type 0 where
  pub heap : IsHeap g head xs
  pub spare : IsSpare g head n xs
  pub same : (a : ℕ) → a ≢ n → g a ≡ h a
  pub size : 16 + (g n).size + n ≡ m + 16 + (h m).size

-- What stood off the whole of `m` stands off its end.
Off-end :
    (h : Nodes) (m size v a : ℕ)
    → m ≤ a ⊎ a ≤ m
    → Off (sizes h) m a
    → v + 16 + size ≤ (h m).size
    → (a ≢ m + 16 + size) × ((m + 16 + size + 16 + v ≤ a) ⊎ (a + 16 + (h a).size ≤ m + 16 + size))
Off-end h m size v a e off fits = (λ e. ground (arith, off), ground (arith, off))

pub written-same : (n v a : ℕ) (h : Nodes) → a ≢ n → written n v h a ≡ h a
written-same n v a h other = ground arith

pub written-size : (n v : ℕ) (h : Nodes) → (written n v h n).size ≡ v
written-size n v h = ground arith

pub Off-at :
    (k : ℕ → ℕ) (n a v w : ℕ) → k n ≡ v → k a ≡ w → (n + 16 + v ≤ a) ⊎ (a + 16 + w ≤ n) → Off k n a
Off-at k n a v w e f off = ground arith

pub written-IsCut :
    (h : Nodes) (head m size v : ℕ) (xs : List ℕ)
    → IsHeap h head xs
    → IsApart h head m xs
    → v + 16 + size ≡ (h m).size
    → 0 < v
    → m + 16 + (h m).size ≤ 2 ^ 32
    → IsCut h (written (m + 16 + size) v h) head m (m + 16 + size) xs
written-IsCut h head m size v xs p q room pos fits =
    let n = m + 16 + size in
    let g = written n v h in
    let away : (a : ℕ)
        → has a (head ∷ xs) ≡ true
        → (a ≢ n) × ((n + 16 + v ≤ a) ⊎ (a + 16 + (h a).size ≤ n)) =
      λ a i. Off-end h m size v a (omega arith) (q.off a i) (omega arith) in
    let same : (a : ℕ) → has a (head ∷ xs) ≡ true → g a ≡ h a =
      λ a i. written-same n v a h (away a i).0 in
    record {
      heap = IsHeap-frame h g head xs same p;
      spare = record {
        apart = record {
          outside = elim (Bool-cases (has n (head ∷ xs))) [
            | inl i ↦ absurd ((away n i).0 refl)
            | inr out ↦ out
          ];
          off = λ a i.
              Off-at (sizes g) n a v (h a).size (written-size n v h)
                (ap (λ (b : Node). b.size) (same a i)) (away a i).1;
        };
        there = omega arith;
        pos = omega (arith, written-size n v h);
        fits = omega (arith, written-size n v h);
        state = ground arith;
      };
      same = λ a other. written-same n v a h other;
      size = omega (arith, written-size n v h);
    }
