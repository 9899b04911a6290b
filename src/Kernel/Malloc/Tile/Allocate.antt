-- ===== src/Kernel/Malloc/Tile/Allocate.antt =====
-- `malloc` of what a page holds: the node that is found is carved.
use gml_vm.Base.{
  ℕ, ◌+◌, ◌≤◌, ◌<◌, ◌≡◌, ◌≢◌, refl, ◌∙◌, inl, inr, List, ◌∷◌, true, arith, length, Option, some,
  ne→==,
}
use gml_vm.Kernel.Frames.Laws.{FirstKernel}
use gml_vm.Kernel.Malloc.Chain.{has}
use gml_vm.Kernel.Malloc.Pool.{Pool, malloc, free, obtain, carve, rounded, ◌>>=◌}
use gml_vm.Kernel.Malloc.Best.{rounded_lem}
use gml_vm.Kernel.Malloc.Find.{Linked-pos}
use gml_vm.Kernel.Malloc.Tile.Free.{IsSound}
use gml_vm.Kernel.Malloc.Tile.Take.{Given, carve-Given}
use gml_vm.Kernel.Malloc.Tile.Obtain.{Paid, Obtained, obtain-Obtained}

-- The run comes back with the bytes behind the header of a node, one more busy node that holds `size`
-- bytes; the heap is in order, and the other busy nodes keep their sizes.
pub record Mallocs (s : Pool) (size i : ℕ) (xs hs : List ℕ) (r : Option (ℕ × Pool)) : Type 0 where
  pub node : ℕ
  pub pool : Pool
  pub rest : List ℕ
  pub returns : r ≡ some (node + 16, pool)
  pub list : pool.list ≡ s.list
  pub sound : IsSound pool rest (node ∷ hs)
  pub fits : size ≤ (pool.nodes node).size
  pub kept : (a : ℕ) → has a hs ≡ true → (pool.nodes a).size ≡ (s.nodes a).size
  pub paid : Paid s i xs hs pool rest (node ∷ hs)
  pub short : length rest ≤ 1 + length xs

malloc_run :
    (n size m : ℕ) (s t : Pool)
    → obtain n (rounded size) s ≡ some (m, t)
    → m ≢ 0
    → malloc n size s ≡ carve n (rounded size) m t
unfolding malloc
malloc_run n size m s t run there = rw (◌>>=◌, run, ne→== m 0 there) refl

-- The node that was found is carved.
carved :
    (s : Pool) (size least i : ℕ) (xs hs : List ℕ) {r r' r'' : Option (ℕ × Pool)}
    → (o : Obtained s size i xs hs r) → (c : Given o.pool size o.node o.rest hs r') → r'' ≡ r'
    → least ≤ size
    → Mallocs s least i xs hs r''
carved s size least i xs hs o c run le = record {
  node = o.node;
  pool = c.pool;
  rest = c.rest;
  returns = run ∙ c.returns;
  list = c.list ∙ o.list;
  sound = c.sound;
  fits = omega (arith, c.enough);
  kept = λ a j. c.kept a j ∙ o.kept a j;
  paid = elim o.paid [
    | inl (e, e') ↦ inl (c.machine ∙ e, c.all ∙ e')
    | inr (e, e') ↦ inr (c.machine ∙ e, c.all ∙ e')
  ];
  short = omega (arith, c.short, o.short);
}

-- `malloc` of 1 to 4080 bytes, when the heap is in order, `i` is the first free frame of the kernel, the
-- kernel's memory ends at 0xfffff000 or below, and the fuel is at least 3 more than twice the number of
-- the free nodes: whether a free node fits, or one that `clean` makes, or only a new page, it comes back
-- with one more busy node that holds the request and overlaps no other node, free or busy. The heap is
-- again in order, the other busy nodes keep their sizes, and the bytes of all nodes are as many as
-- before, or 4096 more when the frame `i` is now taken.
pub malloc-Mallocs :
    (n size i : ℕ) (s : Pool) (xs hs : List ℕ)
    → IsSound s xs hs
    → FirstKernel s.machine i
    → s.machine.kmem ≤ 0xffff_f000
    → 0 < size
    → size ≤ 4080
    → 2 + length xs + length xs < n
    → Mallocs s size i xs hs (malloc n size s)
malloc-Mallocs n size i s xs hs sound free bound pos fits enough =
    let rnd = rounded_lem size (omega arith) in
    let o =
      obtain-Obtained n (rounded size) i s xs hs sound free bound (omega (arith, rnd.0))
        (omega (arith, rnd.1, rnd.2)) enough in
    let there = Linked-pos o.pool.nodes o.node o.rest o.sound.tiled.heap.linked.3 o.among in
    let c =
      carve-Given n (rounded size) o.node o.pool o.rest hs o.sound o.among (omega (arith, rnd.0))
        o.fits (omega (arith, rnd.1)) (omega (arith, o.short)) in
    carved s (rounded size) size i xs hs o c (malloc_run n size o.node s o.pool o.returns there)
      rnd.0
