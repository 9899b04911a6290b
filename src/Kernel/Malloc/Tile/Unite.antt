-- ===== src/Kernel/Malloc/Tile/Unite.antt =====
-- `unite` of a node in hand, in the tiled heap.
use gml_vm.Base.{
  ℕ, ◌+◌, ◌/◌, ◌≡◌, ◌≢◌, refl, ap, ◌∙◌, sym, inl, inr, ◌==◌, Bool, true, false, ◌||◌, ◌&&◌, not,
  arith, Bool-cases, ==→eq, ne→==, List, ◌∷◌,
}
use gml_vm.Kernel.Malloc.{Nodes, free_state, set_size, del, behind, page_of, join, unite}
use gml_vm.Kernel.Malloc.Chain.{has}
use gml_vm.Kernel.Malloc.Add.{sizes}
use gml_vm.Kernel.Malloc.Del.{remove, has-remove, del-Unlinked}
use gml_vm.Kernel.Malloc.Room.{IsHeap}
use gml_vm.Kernel.Malloc.Carve.{del-IsTaken}
use gml_vm.Kernel.Malloc.Carve.Run.{changed_self, changed-size}
use gml_vm.Kernel.Malloc.Release.{has_free_behind, IsUnited, join-IsUnited, kept-IsUnited}
use gml_vm.Kernel.Malloc.Tile.{Tiling-join}
use gml_vm.Kernel.Malloc.Tile.State.{IsTiled, AllBusy, page_eq, hand-IsHeld}

pub join-size :
    (h : Nodes) (head m : ℕ) (xs : List ℕ)
    → IsHeap h head xs
    → has (m + 16 + (h m).size) xs ≡ true
    → (join m (m + 16 + (h m).size) h m).size ≡ (h m).size + (h (m + 16 + (h m).size)).size + 16
unfolding join
join-size h head m xs p i =
    let nb = m + 16 + (h m).size in
    let t = del-IsTaken h head nb xs p i in
    changed_self (del nb h) m _ ∙ omega (arith, t.size m, t.size nb, p.fits nb i)

pub join-others :
    (h : Nodes) (head m nb a : ℕ) (xs : List ℕ)
    → IsHeap h head xs
    → has nb xs ≡ true
    → a ≢ m
    → (join m nb h a).size ≡ (h a).size
unfolding join
join-others h head m nb a xs p i other =
    changed-size (del nb h) m _ a other ∙ (del-IsTaken h head nb xs p i).size a

resized-state : (h : Nodes) (m v a : ℕ) → (set_size m v h a).state ≡ (h a).state
resized-state h m v a = ground arith

pub join-state :
    (h : Nodes) (head m nb a : ℕ) (xs : List ℕ)
    → IsHeap h head xs
    → has nb xs ≡ true
    → (join m nb h a).state ≡ (h a).state
unfolding join
join-state h head m nb a xs p i =
    resized-state (del nb h) m _ a
    ∙ (del-Unlinked h head nb xs p.distinct p.linked i).relinked.state a

-- Truth values of membership: `x` in the list, `n` the node that is joined, `y` out of the list.
joined_in :
    (x n y r : Bool) → r ≡ (not n && x) → (n ≡ true → y ≡ false) → (r || y) ≡ (not n && (x || y))
joined_in x n y r e out = ground arith

-- What `unite` of the node `m` in hand leaves: the free nodes `ys`.
pub record Unites (mmap : ℕ → ℕ) (h g : Nodes) (head m : ℕ) (xs ys hs : List ℕ) : Type 0 where
  pub tiled : IsTiled mmap g head ys (m ∷ hs)
  pub united : IsUnited h g head m xs ys
  pub others : (a : ℕ) → a ≢ m → (g a).size ≡ (h a).size
  pub state : (a : ℕ) → (g a).state ≡ (h a).state

pub join-Unites :
    (mmap : ℕ → ℕ) (h : Nodes) (head m : ℕ) (xs hs : List ℕ)
    → IsTiled mmap h head xs (m ∷ hs)
    → AllBusy h hs
    → has (m + 16 + (h m).size) xs ≡ true
    → (m + 16 + (h m).size) / 4096 ≡ m / 4096
    → Unites mmap h (join m (m + 16 + (h m).size) h) head m xs (remove (m + 16 + (h m).size) xs) hs
join-Unites mmap h head m xs hs t busy i page =
    let nb = m + 16 + (h m).size in
    let g = join m nb h in
    let u = join-IsUnited h head m xs t.heap (hand-IsHeld mmap h head m xs hs t busy) i in
    let d = t.heap.distinct.1 in
    let others : (a : ℕ) → a ≢ m → (g a).size ≡ (h a).size =
      λ a other. join-others h head m nb a xs t.heap i other in
    let out : (a : ℕ) → (a == nb) ≡ true → has a (m ∷ hs) ≡ false = λ a e.
      elim (Bool-cases (has a (m ∷ hs))) [
        | inl j ↦ absurd (ground (arith, sym (t.apart a j) ∙ ap (λ b. has b xs) (==→eq a nb e) ∙ i))
        | inr j ↦ j
      ] in
    record {
      tiled = record {
        heap = u.heap;
        static = t.static;
        tiling =
            Tiling-join mmap (sizes h) (sizes g) _ _ m nb refl (ground arith) (ground (arith, i))
              page (join-size h head m xs t.heap i) others
              (λ a.
                joined_in (has a xs) (a == nb) (has a (m ∷ hs)) _ (has-remove nb a xs d) (out a))
              t.tiling;
        apart = λ a j. ground (arith, has-remove nb a xs d, t.apart a j);
        distinct = t.distinct;
      };
      united = u;
      others = others;
      state = λ a. join-state h head m nb a xs t.heap i;
    }

-- `unite` of a node in hand, when the other nodes out of the list are busy.
pub record United (mmap : ℕ → ℕ) (h g : Nodes) (head m : ℕ) (xs hs : List ℕ) : Type 0 where
  pub rest : List ℕ
  pub unites : Unites mmap h g head m xs rest hs

pub unite-Unites :
    (mmap : ℕ → ℕ) (h : Nodes) (head m : ℕ) (xs hs : List ℕ)
    → IsTiled mmap h head xs (m ∷ hs)
    → AllBusy h hs
    → United mmap h (unite m h) head m xs hs
unfolding unite
unite-Unites mmap h head m xs hs t busy =
    let nb = m + 16 + (h m).size in
    let q = hand-IsHeld mmap h head m xs hs t busy in
    let at : behind m h ≡ nb = omega (arith, q.fits) in
    elim (Bool-cases (has_free_behind h m)) [
      | inl free ↦
          let page : (page_of nb == page_of m) ≡ true = ground arith in
          let i = q.marked page (==→eq (h nb).state free_state (ground arith)) in
          rw (ne→== m 0 q.there, at, free)
            (record {
              rest = remove nb xs;
              unites =
                  join-Unites mmap h head m xs hs t busy i
                    (page_eq nb m q.fits (omega (arith, q.fits)) page);
            })
      | inr alone ↦
          rw (ne→== m 0 q.there, at, alone)
            (record {
              rest = xs;
              unites = record {
                tiled = t;
                united = kept-IsUnited h head m xs t.heap q alone;
                others = λ a other. refl;
                state = λ a. refl;
              };
            })
    ]
