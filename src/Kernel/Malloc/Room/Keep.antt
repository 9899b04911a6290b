-- ===== src/Kernel/Malloc/Room/Keep.antt =====
-- Steps that keep the heap in order: changes elsewhere, a node taken out, a node put in.
use gml_vm.Base.{
  ℕ, ◌+◌, ◌^◌, ◌≤◌, ◌<◌, ◌≡◌, ◌≢◌, refl, ap, ◌∙◌, subst, List, ◌∷◌, true, false, leb, arith, some,
  Option, length,
}
use gml_vm.Kernel.Malloc.{Node, Nodes, free_state, del, add}
use gml_vm.Kernel.Malloc.Chain.{
  has, NoDup, first, insert, has-insert, insert-each, NoDup-insert, Linked-frame,
}
use gml_vm.Kernel.Malloc.Add.{sizes, Relinked, add-Chained}
use gml_vm.Kernel.Malloc.Del.{remove, has-remove, NoDup-remove, del-Unlinked}
use gml_vm.Kernel.Malloc.Room.{
  Off, Spread, Sorted, IsHeap, IsApart, Sorted-insert, Sorted-remove, Sorted-ext, Spread-ext,
}

pub IsHeap-frame :
    (h g : Nodes) (head : ℕ) (xs : List ℕ)
    → ((a : ℕ) → has a (head ∷ xs) ≡ true → g a ≡ h a)
    → IsHeap h head xs
    → IsHeap g head xs
IsHeap-frame h g head xs same p = record {
  linked = Linked-frame h g (head ∷ xs) same p.linked;
  distinct = p.distinct;
  spread =
      Spread-ext (sizes h) (sizes g) (head ∷ xs) (λ a i. ap (λ (n : Node). n.size) (same a i))
        p.spread;
  sorted =
      Sorted-ext (sizes h) (sizes g) (head ∷ xs) (λ a i. ap (λ (n : Node). n.size) (same a i))
        p.sorted;
  empty = rw (same head (ground arith)) p.empty;
  pos = λ a i. rw (same a (ground arith)) (p.pos a i);
  fits = λ a i. rw (same a (ground arith)) (p.fits a i);
  state = λ a i. rw (same a (ground arith)) (p.state a i);
}

-- Only links have changed.
IsHeap-relinked :
    (h g : Nodes) (head : ℕ) (xs ys zs : List ℕ)
    → Relinked h g zs (head ∷ ys)
    → NoDup (head ∷ ys)
    → Sorted (sizes h) (head ∷ ys)
    → Spread (sizes h) (head ∷ ys)
    → (h head).size ≡ 0
    → ((a : ℕ) → has a ys ≡ true → 0 < (h a).size)
    → ((a : ℕ) → has a ys ≡ true → a + 16 + (h a).size ≤ 2 ^ 32)
    → ((a : ℕ) → has a ys ≡ true → (h a).state ≡ free_state)
    → IsHeap g head ys
IsHeap-relinked h g head xs ys zs r d s spread empty pos fits state = record {
  linked = r.linked;
  distinct = d;
  spread = Spread-ext (sizes h) (sizes g) (head ∷ ys) (λ a i. r.size a) spread;
  sorted = Sorted-ext (sizes h) (sizes g) (head ∷ ys) (λ a i. r.size a) s;
  empty = rw (r.size head) empty;
  pos = λ a i. rw (r.size a) (pos a i);
  fits = λ a i. rw (r.size a) (fits a i);
  state = λ a i. rw (r.state a) (state a i);
}

pub IsHeap-del :
    (h : Nodes) (head m : ℕ) (xs : List ℕ)
    → IsHeap h head xs
    → has m xs ≡ true
    → IsHeap (del m h) head (remove m xs)
IsHeap-del h head m xs p i =
    let u = del-Unlinked h head m xs p.distinct p.linked i in
    let old : (a : ℕ) → has a (remove m xs) ≡ true → has a xs ≡ true =
      λ a j. ground (arith, has-remove m a xs p.distinct.1) in
    IsHeap-relinked h (del m h) head xs (remove m xs) (head ∷ xs) u.relinked
      (
        ground (arith, has-remove m head xs p.distinct.1, p.distinct.0),
        NoDup-remove m xs p.distinct.1,
      )
      (λ y j. p.sorted.0 y (old y j), Sorted-remove (sizes h) m xs p.distinct.1 p.sorted.1)
      (λ a b j k ne. p.spread a b (ground (arith, old a)) (ground (arith, old b)) ne) p.empty
      (λ a j. p.pos a (old a j)) (λ a j. p.fits a (old a j)) (λ a j. p.state a (old a j))

-- A node that can be put in.
pub record IsSpare (h : Nodes) (head m : ℕ) (xs : List ℕ) : Type 0 where
  pub apart : IsApart h head m xs
  pub there : m ≢ 0
  pub pos : 0 < (h m).size
  pub fits : m + 16 + (h m).size ≤ 2 ^ 32
  pub state : (h m).state ≡ free_state

-- The run comes back with the heap in order, `m` among the free nodes, and nothing changed but
-- links of these.
pub record Put (h : Nodes) (head m : ℕ) (xs : List ℕ) (r : Option (ℕ × Nodes)) : Type 0 where
  pub nodes : Nodes
  pub returns : r ≡ some (head, nodes)
  pub heap : IsHeap nodes head (insert (sizes h) m xs)
  pub apart : (a : ℕ) → has a (m ∷ head ∷ xs) ≡ false → nodes a ≡ h a
  pub size : (a : ℕ) → (nodes a).size ≡ (h a).size
  pub state : (a : ℕ) → (nodes a).state ≡ (h a).state

Spread-insert :
    (k : ℕ → ℕ) (head m : ℕ) (xs : List ℕ)
    → ((a : ℕ) → has a (head ∷ xs) ≡ true → Off k m a)
    → Spread k (head ∷ xs)
    → Spread k (head ∷ insert k m xs)
Spread-insert k head m xs off s a b i j ne =
    ground (arith, has-insert k m a xs, has-insert k m b xs, off a, off b, s a b)

pub add-Put :
    (n : ℕ) (h : Nodes) (head m : ℕ) (xs : List ℕ)
    → IsHeap h head xs
    → IsSpare h head m xs
    → length (head ∷ xs) < n
    → Put h head m xs (add n head m h)
add-Put n h head m xs p spare enough =
    let c =
      add-Chained n m h (head ∷ xs) spare.there spare.apart.outside p.distinct p.linked enough in
    let big : leb (h m).size (h head).size ≡ false = ground (arith, spare.pos, p.empty) in
    let ys = insert (sizes h) m xs in
    let whole : insert (sizes h) m (head ∷ xs) ≡ head ∷ ys = rw big refl in
    let relinked = subst (λ zs. Relinked h c.nodes (m ∷ head ∷ xs) zs) whole c.relinked in
    record {
      nodes = c.nodes;
      returns = c.returns ∙ ap (λ zs. some (first zs, c.nodes)) whole;
      heap =
          IsHeap-relinked h c.nodes head xs ys (m ∷ head ∷ xs) relinked
            (subst NoDup whole
              (NoDup-insert (sizes h) m (head ∷ xs) spare.apart.outside p.distinct))
            (subst (Sorted (sizes h)) whole (Sorted-insert (sizes h) m (head ∷ xs) p.sorted))
            (Spread-insert (sizes h) head m xs spare.apart.off p.spread) p.empty
            (insert-each (λ a. 0 < (h a).size) (sizes h) m xs spare.pos p.pos)
            (insert-each (λ a. a + 16 + (h a).size ≤ 2 ^ 32) (sizes h) m xs spare.fits p.fits)
            (insert-each (λ a. (h a).state ≡ free_state) (sizes h) m xs spare.state p.state);
      apart = c.relinked.apart;
      size = c.relinked.size;
      state = c.relinked.state;
    }
