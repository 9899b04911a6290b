-- ===== src/Kernel/Malloc/Tile/Free.antt =====
-- `free` of a node that was given out, in the tiled heap.
use gml_vm.Base.{
  ℕ, ◌+◌, ◌^◌, ◌≤◌, ◌<◌, ◌≡◌, ◌≢◌, refl, ap, ◌∙◌, List, ◌∷◌, true, arith, length, some, Option, ap₂,
}
use gml_vm.Kernel.Malloc.{Nodes, free_state, set_state, unite}
use gml_vm.Kernel.Malloc.Chain.{has, NoDup, insert, has-insert}
use gml_vm.Kernel.Malloc.Add.{sizes}
use gml_vm.Kernel.Malloc.Del.{remove, has-remove}
use gml_vm.Kernel.Malloc.Pool.{Pool, free}
use gml_vm.Kernel.Malloc.Room.{total, total-ext, total-remove}
use gml_vm.Kernel.Malloc.Room.Keep.{add-Put}
use gml_vm.Kernel.Malloc.Page.{length-insert}
use gml_vm.Kernel.Malloc.Release.{has_free_behind}
use gml_vm.Kernel.Malloc.Release.Run.{free-run, marked-size, total-Put}
use gml_vm.Kernel.Malloc.Tile.State.{
  IsTiled, AllBusy, hand-IsSpare, put-IsTiled, change-IsTiled, regroup-IsTiled, hand-IsHeld,
}
use gml_vm.Kernel.Malloc.Tile.Unite.{Unites, unite-Unites}

-- The heap in order, with the free nodes `xs` and the busy nodes `hs`.
pub record IsSound (s : Pool) (xs hs : List ℕ) : Type 0 where
  pub tiled : IsTiled s.machine.mmap s.nodes s.list xs hs
  pub busy : AllBusy s.nodes hs

-- The bytes of all nodes, headers included.
abbrev pub bytes : Pool → List ℕ → List ℕ → ℕ
bytes s xs hs = total (sizes s.nodes) xs + total (sizes s.nodes) hs

pub marked-other : (g : Nodes) (m v a : ℕ) → a ≢ m → (set_state m v g a).state ≡ (g a).state
marked-other g m v a other = ground arith

-- The run comes back with the heap in order and `m` among the free nodes, joined with the node behind
-- it if that one is free; the other busy nodes keep their sizes, and no byte is gained or lost.
pub record Freed (s : Pool) (m : ℕ) (xs hs : List ℕ) (r : Option (Unit {0} × Pool)) : Type 0 where
  pub pool : Pool
  pub rest : List ℕ
  pub returns : r ≡ some (tt, pool)
  pub list : pool.list ≡ s.list
  pub machine : pool.machine ≡ s.machine
  pub sound : IsSound pool rest (remove m hs)
  pub kept : (a : ℕ) → a ≢ m → (pool.nodes a).size ≡ (s.nodes a).size
  pub among : has m rest ≡ true
  pub joins :
      has_free_behind s.nodes m ≡ true
      → (pool.nodes m).size ≡ (s.nodes m).size + 16 + (s.nodes (m + 16 + (s.nodes m).size)).size
  pub all : bytes pool rest (remove m hs) ≡ bytes s xs hs
  pub short : length rest ≤ 1 + length xs

total_all : (x y a b h g f : ℕ) → f ≡ 16 + g + y → g + y ≡ a + x → 16 + a + b ≡ h → f + b ≡ x + h
total_all x y a b h g f put joins whole = omega (arith, put, joins, whole)

-- The node `m` in hand, joined with what is free behind it, is marked and put in.
put-Freed :
    (n m : ℕ) (s : Pool) (xs ys hs : List ℕ)
    → m + 16 < 2 ^ 32
    → m ≢ 0
    → AllBusy s.nodes hs
    → has m hs ≡ true
    → NoDup hs
    → Unites s.machine.mmap s.nodes (unite m s.nodes) s.list m xs ys (remove m hs)
    → length (s.list ∷ xs) < n
    → Freed s m xs hs (free n (m + 16) s)
put-Freed n m s xs ys hs fits there busy i d u fuel =
    let mmap = s.machine.mmap in
    let head = s.list in
    let g = unite m s.nodes in
    let f = set_state m free_state g in
    let t =
      change-IsTiled mmap g head m ys (remove m hs) u.tiled (record (g m) { state = free_state })
        refl in
    let put =
      add-Put n f head m ys t.heap (hand-IsSpare mmap f head m ys (remove m hs) t (ground arith))
        (omega (arith, u.united.short)) in
    let size : (a : ℕ) → (put.nodes a).size ≡ (g a).size = λ a. put.size a ∙ marked-size g m a in
    let kept : (a : ℕ) → a ≢ m → (put.nodes a).size ≡ (s.nodes a).size =
      λ a other. size a ∙ u.others a other in
    let old : (a : ℕ) → has a (remove m hs) ≡ true → (a ≢ m) × (has a hs ≡ true) =
      λ a j. (ground (arith, has-remove m a hs d), ground (arith, has-remove m a hs d)) in
    record {
      pool = record s { nodes = put.nodes };
      rest = insert (sizes f) m ys;
      returns = free-run n m s put.nodes there fits put.returns;
      list = refl;
      machine = refl;
      sound = record {
        tiled = put-IsTiled mmap f head m ys (remove m hs) t put;
        busy = λ a j.
            put.state a
            ∙ marked-other g m free_state a (old a j).0
            ∙ u.state a
            ∙ busy a (old a j).1;
      };
      kept = kept;
      among = ground (arith, has-insert (sizes f) m m ys);
      joins = λ j. size m ∙ u.united.joins j;
      all =
          total_all (total (sizes s.nodes) xs) (total (sizes g) ys) (s.nodes m).size _ _ (g m).size
            _
            (total-Put f head m ys put
              ∙ ap₂ (λ (v w : ℕ). 16 + v + w) (marked-size g m m)
                  (total-ext (sizes g) (sizes f) ys (λ a j. marked-size g m a)))
            u.united.all
            (ap (λ v. 16 + (s.nodes m).size + v)
                (total-ext (sizes s.nodes) (sizes put.nodes) (remove m hs)
                  (λ a j. kept a (old a j).0))
              ∙ total-remove (sizes s.nodes) m hs i);
      short = omega (arith, length-insert (sizes f) m ys, u.united.short);
    }

-- `free` of the bytes behind the header of the busy node `m`, when the heap is in order and the fuel is
-- more than the nodes of the list, the static one counted: it comes back with the heap in order, that
-- is, the free nodes sorted and linked both ways, and these and the busy ones apart from each other,
-- each in one page whose frame is taken, without a gap up to the page's end. The other busy nodes are
-- still busy and keep their sizes, and no byte is gained or lost.
pub free-Freed :
    (n m : ℕ) (s : Pool) (xs hs : List ℕ)
    → IsSound s xs hs
    → has m hs ≡ true
    → length (s.list ∷ xs) < n
    → Freed s m xs hs (free n (m + 16) s)
free-Freed n m s xs hs sound i fuel =
    let d = sound.tiled.distinct in
    let t = regroup-IsTiled s.machine.mmap s.nodes s.list m xs hs sound.tiled i in
    let busy : AllBusy s.nodes (remove m hs) =
      λ a j. sound.busy a (ground (arith, has-remove m a hs d)) in
    let q = hand-IsHeld s.machine.mmap s.nodes s.list m xs (remove m hs) t busy in
    let u = unite-Unites s.machine.mmap s.nodes s.list m xs (remove m hs) t busy in
    put-Freed n m s xs u.rest hs (omega (arith, q.fits)) q.there sound.busy i d u.unites fuel
