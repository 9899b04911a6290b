-- ===== src/Kernel/Malloc/Tile/Take.antt =====
-- The last part of `malloc`, from the node that was found, in the tiled heap.
use gml_vm.Base.{
  ℕ, ◌+◌, ◌-◌, ◌^◌, ◌≤◌, ◌<◌, ◌≡◌, ◌≢◌, refl, ap, ◌∙◌, sym, subst, List, ◌∷◌, ◌==◌, Bool, true,
  false, ◌||◌, leb, leb→le, arith, length, some, Option, inl, inr, Bool-cases, ==→eq, ne→==, u32,
}
use gml_vm.Kernel.Malloc.{Node, Nodes, busy_state, set_state, set_size, del}
use gml_vm.Kernel.Malloc.Chain.{has, insert, has-insert}
use gml_vm.Kernel.Malloc.Add.{sizes}
use gml_vm.Kernel.Malloc.Del.{remove, length-remove, length-removed, del-Unlinked}
use gml_vm.Kernel.Malloc.Pool.{Pool, carve}
use gml_vm.Kernel.Malloc.Room.{Off, total, total-ext}
use gml_vm.Kernel.Malloc.Room.Keep.{Put, add-Put}
use gml_vm.Kernel.Malloc.Carve.{
  IsGiven, marked-IsGiven, IsCut, written, written-IsCut, written-size, written-same, del-IsTaken,
  not-has,
}
use gml_vm.Kernel.Malloc.Carve.Run.{cut-IsGiven, split-Put, carve-split}
use gml_vm.Kernel.Malloc.Page.{length-insert}
use gml_vm.Kernel.Malloc.Tile.{Tiling-split}
use gml_vm.Kernel.Malloc.Tile.State.{
  IsTiled, AllBusy, not_in, hand_in, held_in, take-IsTiled, change-IsTiled, hand-IsApart, hand-fits,
}
use gml_vm.Kernel.Malloc.Tile.Free.{IsSound, bytes, marked-other}

-- The nodes after the cut: `m` with `size` bytes, and busy.
abbrev cut_off : (m size : ℕ) → Nodes → Nodes
cut_off m size h = set_state m busy_state (set_size m size h)

cut_self :
    (m size : ℕ) (h : Nodes)
    → ((cut_off m size h m).size ≡ size) × ((cut_off m size h m).state ≡ busy_state)
cut_self m size h = (ground arith, ground arith)

cut_other :
    (m size a : ℕ) (h : Nodes)
    → a ≢ m
    → ((cut_off m size h a).size ≡ (h a).size) × ((cut_off m size h a).state ≡ (h a).state)
cut_other m size a h other = (ground arith, ground arith)

given_size : (h : Nodes) (m a : ℕ) → (set_state m busy_state h a).size ≡ (h a).size
given_size h m a = ground arith

-- Truth values of membership: `x` in the list, `n` the node behind the cut, `y` out of the list.
cut_in : (x n y r : Bool) → r ≡ (n || x) → (r || y) ≡ (n || (x || y))
cut_in x n y r e = ground arith

-- `m` is cut to `size` bytes, once the node behind it is in the list.
cut-IsTiled :
    (mmap : ℕ → ℕ) (d : Nodes) (head m size v : ℕ) (ys hs : List ℕ)
    → IsTiled mmap d head ys (m ∷ hs)
    → v + 16 + size ≡ (d m).size
    → 0 < v
    → 0 < size
    → (c : IsCut d (written (m + 16 + size) v d) head m (m + 16 + size) ys)
    → {r : Option (ℕ × Nodes)} → (put : Put (written (m + 16 + size) v d) head (m + 16 + size) ys r)
    → IsTiled mmap
        (cut_off m size put.nodes)
        head
        (insert (sizes (written (m + 16 + size) v d)) (m + 16 + size) ys)
        (m ∷ hs)
cut-IsTiled mmap d head m size v ys hs t room pos least c put =
    let n = m + 16 + size in
    let g = written n v d in
    let f = cut_off m size put.nodes in
    let given =
      cut-IsGiven d g head m size v ys (hand-IsApart mmap d head m ys hs t) room c
        (written-size n v d) put in
    let other : (a : ℕ) → a ≢ m → a ≢ n → (f a).size ≡ (d a).size = λ a am an.
      (cut_other m size a put.nodes am).0
      ∙ put.size a
      ∙ ap (λ (b : Node). b.size) (written-same n v a d an) in
    let out : has n (m ∷ hs) ≡ false = elim (Bool-cases (has n (m ∷ hs))) [
      | inl i ↦
          absurd (ground (arith, t.tiling.off m n (ground arith) (ground arith) (omega arith)))
      | inr j ↦ j
    ] in
    record {
      heap = given.heap;
      static = t.static;
      tiling =
          Tiling-split mmap (sizes d) (sizes f) _ _ m n size v refl (ground arith) room pos least
            (cut_self m size put.nodes).0
            ((cut_other m size n put.nodes (omega arith)).0 ∙ put.size n ∙ written-size n v d) other
            (λ a. cut_in (has a ys) (a == n) (has a (m ∷ hs)) _ (has-insert (sizes g) n a ys))
            t.tiling;
      apart = λ a i.
          has-insert (sizes g) n a ys
          ∙ not_in (has a ys) (a == n) (ne→== a n (not-has a n (m ∷ hs) out i)) (t.apart a i);
      distinct = t.distinct;
    }

-- The run comes back with the bytes behind the header of `m`, one more busy node; the heap is in order,
-- the other busy nodes are as they were, and no byte is gained or lost.
pub record Given (s : Pool) (size m : ℕ) (xs hs : List ℕ) (r : Option (ℕ × Pool)) : Type 0 where
  pub pool : Pool
  pub rest : List ℕ
  pub returns : r ≡ some (m + 16, pool)
  pub list : pool.list ≡ s.list
  pub machine : pool.machine ≡ s.machine
  pub sound : IsSound pool rest (m ∷ hs)
  pub enough : size ≤ (pool.nodes m).size
  pub kept : (a : ℕ) → has a hs ≡ true → (pool.nodes a).size ≡ (s.nodes a).size
  pub all : bytes pool rest (m ∷ hs) ≡ bytes s xs hs
  pub short : length rest ≤ length xs

-- What is the same whether the node is cut or not: `f` are the nodes in the end.
given_lem :
    (s : Pool) (size m : ℕ) (xs zs hs : List ℕ) (f : Nodes) (r : Option (ℕ × Pool))
    → AllBusy s.nodes hs
    → r ≡ some (m + 16, record s { nodes = f })
    → IsTiled s.machine.mmap f s.list zs (m ∷ hs)
    → IsGiven f s.list m size (total (sizes s.nodes) xs) zs
    → ((a : ℕ)
        → has a hs ≡ true
        → ((f a).size ≡ (s.nodes a).size) × ((f a).state ≡ (s.nodes a).state))
    → length zs ≤ length xs
    → Given s size m xs hs r
given_lem s size m xs zs hs f r busy run t given same short = record {
  pool = record s { nodes = f };
  rest = zs;
  returns = run;
  list = refl;
  machine = refl;
  sound = record {
    tiled = t;
    busy = λ a i. elim (Bool-cases (a == m)) [
      | inl here ↦ subst (λ b. (f b).state ≡ busy_state) (sym (==→eq a m here)) given.busy
      | inr other ↦ let j : has a hs ≡ true = ground arith in (same a j).1 ∙ busy a j
    ];
  };
  enough = given.enough;
  kept = λ a i. (same a i).0;
  all = omega (arith, given.all, total-ext (sizes s.nodes) (sizes f) hs (λ a i. (same a i).0));
  short = short;
}

-- Where `m` is cut, no other node begins.
within_ne : (d : Nodes) (m size a : ℕ) → size < (d m).size → Off (sizes d) m a → a ≢ m + 16 + size
within_ne d m size a less off e = ground (arith, off)

-- `carve` of a free node that is large enough, in the heap in order.
pub carve-Given :
    (n size m : ℕ) (s : Pool) (xs hs : List ℕ)
    → IsSound s xs hs
    → has m xs ≡ true
    → 0 < size
    → size ≤ (s.nodes m).size
    → size + 20 < 2 ^ 32
    → length (s.list ∷ xs) < n
    → Given s size m xs hs (carve n size m s)
unfolding carve
carve-Given n size m s xs hs sound i least enough small fuel =
    let mmap = s.machine.mmap in
    let head = s.list in
    let d = del m s.nodes in
    let ys = remove m xs in
    let p = sound.tiled.heap in
    let t = take-IsTiled mmap s.nodes head m xs hs sound.tiled i in
    let taken = del-IsTaken s.nodes head m xs p i in
    let u = (del-Unlinked s.nodes head m xs p.distinct p.linked i).relinked in
    let fits = hand-fits mmap d head m ys hs t in
    let at : u32 (m + 16) ≡ m + 16 = omega arith in
    let plus : u32 (size + 4 + 16) ≡ size + 20 = omega arith in
    let out : (a : ℕ) → has a hs ≡ true → a ≢ m = λ a j. not-has a m hs t.distinct.0 j in
    elim (Bool-cases (leb (size + 20) (d m).size)) [
      | inl cut ↦
          let v = (d m).size - size - 16 in
          let larger = leb→le (size + 20) (d m).size cut in
          let room : v + 16 + size ≡ (d m).size = omega arith in
          let pos : 0 < v = omega arith in
          let b = m + 16 + size in
          let g = written b v d in
          let c =
            written-IsCut d head m size v ys taken.heap taken.apart room pos
              (omega (arith, fits)) in
          let put = add-Put n g head b ys c.heap c.spare (omega (arith, length-remove m xs)) in
          let f = cut_off m size put.nodes in
          let run =
            split-Put n size m v (record s { nodes = d }) ys room (omega (arith, fits)) pos put in
          let apart : (a : ℕ) → has a hs ≡ true → a ≢ b = λ a j e.
            within_ne d m size a (omega arith)
              (t.tiling.off m a (hand_in m ys hs) (held_in a m ys hs j) (λ e'. out a j (sym e')))
              e in
          given_lem s size m xs (insert (sizes g) b ys) hs f _ sound.busy
            (carve-split n size m s (set_size m size put.nodes) plus cut at run)
            (cut-IsTiled mmap d head m size v ys hs t room pos least c put)
            (subst (λ w. IsGiven f head m size w (insert (sizes g) b ys)) taken.all
              (cut-IsGiven d g head m size v ys taken.apart room c (written-size b v d) put))
            (λ a j.
              let new = cut_other m size a put.nodes (out a j) in
              let old = written-same b v a d (apart a j) in
              (
                new.0 ∙ put.size a ∙ ap (λ (x : Node). x.size) old ∙ u.size a,
                new.1 ∙ put.state a ∙ ap (λ (x : Node). x.state) old ∙ u.state a,
              ))
            (omega (arith, length-insert (sizes g) b ys, length-removed m xs i))
      | inr whole ↦
          let f = set_state m busy_state d in
          given_lem s size m xs ys hs f _ sound.busy (rw (plus, whole, at) refl)
            (change-IsTiled mmap d head m ys hs t _ refl)
            (subst (λ w. IsGiven f head m size w ys) taken.all
              (marked-IsGiven d head m size _ ys taken.heap taken.apart
                (omega (arith, taken.size m)) refl))
            (λ a j.
              (given_size d m a ∙ u.size a, marked-other d m busy_state a (out a j) ∙ u.state a))
            (length-remove m xs)
    ]
