-- ===== src/Kernel/Malloc/Tile/State.antt =====
-- The heap in order, together with the nodes that are given out.
use gml_vm.Base.{
  ℕ, ◌+◌, ◌*◌, ◌/◌, ◌^◌, ◌≤◌, ◌<◌, ◌≡◌, ◌≢◌, refl, ap, ◌∙◌, sym, inl, inr, ◌==◌, Bool, true, false,
  ◌||◌, ◌&&◌, not, arith, Bool-cases, ==→eq, ne→==, List, [], ◌∷◌, Option,
}
use gml_vm.Base.Bits.{bit_and-middle}
use gml_vm.Kernel.Machine.{update}
use gml_vm.Kernel.Malloc.{Node, Nodes, free_state, busy_state, del, page_of}
use gml_vm.Kernel.Malloc.Pool.{mmlist}
use gml_vm.Kernel.Malloc.Chain.{has, NoDup, insert, has-insert}
use gml_vm.Kernel.Malloc.Add.{sizes}
use gml_vm.Kernel.Malloc.Del.{remove, has-remove, NoDup-remove, del-Unlinked}
use gml_vm.Kernel.Malloc.Room.{IsHeap, IsApart}
use gml_vm.Kernel.Malloc.Room.Keep.{IsHeap-frame, IsHeap-del, IsSpare, Put}
use gml_vm.Kernel.Malloc.Carve.{Change-frame, not-has}
use gml_vm.Kernel.Malloc.Release.{IsHeld}
use gml_vm.Kernel.Malloc.Tile.{end_of, Tiling, Tiling-ext}

-- The free nodes `xs`, behind the static node `head`, and the nodes `hs` that are not in the list.
pub record IsTiled (mmap : ℕ → ℕ) (h : Nodes) (head : ℕ) (xs hs : List ℕ) : Type 0 where
  pub heap : IsHeap h head xs
  pub static : head + 16 ≤ 0x400000
  pub tiling : Tiling mmap (sizes h) (λ a. has a xs || has a hs)
  pub apart : (a : ℕ) → has a hs ≡ true → has a xs ≡ false
  pub distinct : NoDup hs

free_busy : free_state ≢ busy_state
free_busy e = omega (arith, e)

-- Truth values of membership: `x` in the list, `p` the node in hand, `y` out of the list.
put_in : (x p y r : Bool) → r ≡ (p || x) → (r || y) ≡ (x || (p || y))
put_in x p y r e = ground arith

took_out : (x p y r : Bool) → (p ≡ true → x ≡ true) → r ≡ (not p && x) → (r || (p || y)) ≡ (x || y)
took_out x p y r i e = ground arith

in_hand : (x p y r : Bool) → (p ≡ true → y ≡ true) → r ≡ (not p && y) → (x || (p || r)) ≡ (x || y)
in_hand x p y r i e = ground arith

of_rest : (p y r : Bool) → (p ≡ true → y ≡ true) → r ≡ (not p && y) → (p || r) ≡ true → y ≡ true
of_rest p y r i e j = ground arith

in_list : (x p y : Bool) → (x || (p || y)) ≡ true → p ≡ false → (y ≡ true → x ≡ true) → x ≡ true
in_list x p y i e other = ground arith

pub not_in : (x p : Bool) → p ≡ false → x ≡ false → (p || x) ≡ false
not_in x p e f = ground arith

has-at : (a m : ℕ) (xs : List ℕ) → has m xs ≡ true → (a == m) ≡ true → has a xs ≡ true
has-at a m xs i e = ap (λ b. has b xs) (==→eq a m e) ∙ i

pub hand_in : (m : ℕ) (xs hs : List ℕ) → (has m xs || has m (m ∷ hs)) ≡ true
hand_in m xs hs = ground arith

pub held_in : (a m : ℕ) (xs hs : List ℕ) → has a hs ≡ true → (has a xs || has a (m ∷ hs)) ≡ true
held_in a m xs hs i = ground arith

abbrev pub AllBusy : Nodes → List ℕ → Type 0
AllBusy h hs = (a : ℕ) → has a hs ≡ true → (h a).state ≡ busy_state

pub page_lem : (a : ℕ) → a < 2 ^ 32 → page_of a ≡ a / 4096 * 4096
page_lem a small = omega (arith, bit_and-middle 12 20 a)

-- The nodes of one page.
pub page_eq :
    (a b : ℕ) → a < 2 ^ 32 → b < 2 ^ 32 → (page_of a == page_of b) ≡ true → a / 4096 ≡ b / 4096
page_eq a b p q e = omega (arith, page_lem a p, page_lem b q, ==→eq (page_of a) (page_of b) e)

module _ (mmap : ℕ → ℕ) (h : Nodes) (head m : ℕ) (xs hs : List ℕ)
    (t : IsTiled mmap h head xs (m ∷ hs)) where
  pub hand-IsApart : IsApart h head m xs
  hand-IsApart =
      let i = hand_in m xs hs in
      record {
        outside = ground (arith, t.apart m, t.tiling.high m i, t.static);
        off = λ a j. elim (Bool-cases (a == head)) [
          | inl here ↦ inr (
              omega (
                arith,
                ==→eq a head here,
                ap (sizes h) (==→eq a head here),
                t.heap.empty,
                t.static,
                t.tiling.high m i,
              ))
          | inr there ↦
              let j' : has a xs ≡ true = ground arith in
              t.tiling.off m a i (ground arith)
                (λ e. ground (arith, t.apart m, ap (λ b. has b xs) e))
        ];
      }

  pub hand-fits : m + 16 + (h m).size < 2 ^ 32
  hand-fits = let i = hand_in m xs hs in omega (arith, t.tiling.low m i, t.tiling.inside m i)

  -- The node in hand may go back when the other ones out of the list are busy.
  pub hand-IsHeld : AllBusy h hs → IsHeld h head m xs
  hand-IsHeld busy =
      let i = hand_in m xs hs in
      record {
        apart = hand-IsApart;
        there = omega (arith, t.tiling.high m i);
        pos = t.tiling.pos m i;
        fits = hand-fits;
        marked = λ page free.
            let e = page_eq (end_of (sizes h) m) m hand-fits (omega (arith, hand-fits)) page in
            let b = end_of (sizes h) m in
            in_list (has b xs) (b == m) (has b hs) (t.tiling.chain m i e) (ne→== b m (omega arith))
              (λ j. absurd (free_busy (sym free ∙ busy b j)));
      }

  pub hand-IsSpare : (h m).state ≡ free_state → IsSpare h head m xs
  hand-IsSpare free =
      let i = hand_in m xs hs in
      record {
        apart = hand-IsApart;
        there = omega (arith, t.tiling.high m i);
        pos = t.tiling.pos m i;
        fits = omega (arith, hand-fits);
        state = free;
      }

  -- The node in hand is put into the list.
  pub put-IsTiled :
      {r : Option (ℕ × Nodes)}
      → (put : Put h head m xs r) → IsTiled mmap put.nodes head (insert (sizes h) m xs) hs
  put-IsTiled put = record {
    heap = put.heap;
    static = t.static;
    tiling =
        Tiling-ext mmap (sizes h) (sizes put.nodes) _ _
          (λ a. put_in (has a xs) (a == m) (has a hs) _ (has-insert (sizes h) m a xs))
          (λ a i. put.size a) t.tiling;
    apart = λ a i.
        has-insert (sizes h) m a xs
        ∙ not_in (has a xs) (a == m) (ne→== a m (not-has a m hs t.distinct.0 i))
            (t.apart a (ground arith));
    distinct = t.distinct.1;
  }

  -- A change of the node in hand that keeps its size.
  pub change-IsTiled :
      (n : Node) → n.size ≡ (h m).size → IsTiled mmap (update h m n) head xs (m ∷ hs)
  change-IsTiled n same = record {
    heap =
        IsHeap-frame h (update h m n) head xs (Change-frame h m n (head ∷ xs) hand-IsApart.outside)
          t.heap;
    static = t.static;
    tiling =
        Tiling-ext mmap (sizes h) (sizes (update h m n)) _ _ (λ a. refl) (λ a i. ground arith)
          t.tiling;
    apart = t.apart;
    distinct = t.distinct;
  }

-- A free node is taken in hand.
pub take-IsTiled :
    (mmap : ℕ → ℕ) (h : Nodes) (head m : ℕ) (xs hs : List ℕ)
    → IsTiled mmap h head xs hs
    → has m xs ≡ true
    → IsTiled mmap (del m h) head (remove m xs) (m ∷ hs)
take-IsTiled mmap h head m xs hs t i =
    let d = t.heap.distinct.1 in
    let u = (del-Unlinked h head m xs t.heap.distinct t.heap.linked i).relinked in
    record {
      heap = IsHeap-del h head m xs t.heap i;
      static = t.static;
      tiling =
          Tiling-ext mmap (sizes h) (sizes (del m h)) _ _
            (λ a. took_out (has a xs) (a == m) (has a hs) _ (has-at a m xs i) (has-remove m a xs d))
            (λ a j. u.size a) t.tiling;
      apart = λ a j. ground (arith, has-remove m a xs d, t.apart a);
      distinct = (ground (arith, t.apart m), t.distinct);
    }

-- One of the nodes out of the list is taken in hand.
pub regroup-IsTiled :
    (mmap : ℕ → ℕ) (h : Nodes) (head m : ℕ) (xs hs : List ℕ)
    → IsTiled mmap h head xs hs
    → has m hs ≡ true
    → IsTiled mmap h head xs (m ∷ remove m hs)
regroup-IsTiled mmap h head m xs hs t i = record {
  heap = t.heap;
  static = t.static;
  tiling =
      Tiling-ext mmap (sizes h) (sizes h) _ _
        (λ a.
          in_hand (has a xs) (a == m) (has a hs) _ (has-at a m hs i) (has-remove m a hs t.distinct))
        (λ a j. refl) t.tiling;
  apart = λ a j.
      t.apart a (of_rest (a == m) (has a hs) _ (has-at a m hs i) (has-remove m a hs t.distinct) j);
  distinct = (ground (arith, has-remove m m hs t.distinct), NoDup-remove m hs t.distinct);
}

none_has : {P : Type 0} (a : ℕ) → has a [] ≡ true → P
none_has a i = absurd (ground (arith, i))

-- The heap before the first call: the static node alone, below the frames that are handed out.
pub start-IsTiled :
    (mmap : ℕ → ℕ) (h : Nodes) (head : ℕ)
    → h head ≡ mmlist
    → head ≢ 0
    → head + 16 ≤ 0x400000
    → IsTiled mmap h head [] []
start-IsTiled mmap h head at there static = record {
  heap = record {
    linked = (there, ap (λ (n : Node). n.next) at, tt, tt);
    distinct = (refl, tt);
    spread = λ a b i j ne. ground arith;
    sorted = (λ y i. none_has y i, tt);
    empty = ap (λ (n : Node). n.size) at;
    pos = λ a i. none_has a i;
    fits = λ a i. none_has a i;
    state = λ a i. none_has a i;
  };
  static = static;
  tiling = record {
    off = λ a b i j ne. none_has a i;
    high = λ a i. none_has a i;
    low = λ a i. none_has a i;
    pos = λ a i. none_has a i;
    inside = λ a i. none_has a i;
    chain = λ a i e. none_has a i;
    taken = λ a i. none_has a i;
  };
  apart = λ a i. none_has a i;
  distinct = tt;
}
