-- ===== src/Kernel/Malloc/Best.antt =====
-- `malloc` when the heap has a node that is large enough.
use gml_vm.Base.{
  ℕ, ◌+◌, ◌%◌, ◌^◌, ◌≤◌, ◌<◌, ◌≡◌, ◌≢◌, refl, ◌∙◌, List, ◌∷◌, ◌==◌, true, false, leb, arith, length,
  some, Option, ne→==,
}
use gml_vm.Kernel.Malloc.{find}
use gml_vm.Kernel.Malloc.Chain.{has}
use gml_vm.Kernel.Malloc.Add.{sizes}
use gml_vm.Kernel.Malloc.Find.{first_fit, find-first_fit, Linked-pos, IsBest, first_fit-IsBest}
use gml_vm.Kernel.Malloc.Pool.{Pool, obtain, rounded, malloc, ◌>>=◌}
use gml_vm.Kernel.Malloc.Room.{IsHeap, total}
use gml_vm.Kernel.Malloc.Carve.Run.{Allocated, carve-Allocated}

pub rounded_lem :
    (size : ℕ)
    → size + 23 < 2 ^ 32
    → (size ≤ rounded size) × (rounded size < size + 4) × (rounded size % 4 ≡ 0)
rounded_lem size h = (omega arith, omega arith, omega arith)

pub obtain-first_fit :
    (n size : ℕ) (s : Pool) (xs : List ℕ)
    → IsHeap s.nodes s.list xs
    → 0 < size
    → length (s.list ∷ xs) < n
    → first_fit (sizes s.nodes) size xs ≢ 0
    → obtain n size s ≡ some (first_fit (sizes s.nodes) size xs, s)
unfolding obtain
obtain-first_fit n size s xs p pos fuel there =
    let m = first_fit (sizes s.nodes) size xs in
    let skip : leb size (s.nodes s.list).size ≡ false = ground (arith, p.empty) in
    let run : find n s.list size s.nodes ≡ some m =
      find-first_fit n size s.nodes (s.list ∷ xs) p.linked fuel ∙ rw skip refl in
    let some_node : (m == 0) ≡ false = ne→== m 0 there in rw (◌>>=◌, run, some_node) refl

-- What `malloc` gives: the bytes behind the header of the smallest free node that holds the
-- request, rounded up to a multiple of 4.
pub record Served (s : Pool) (size : ℕ) (xs : List ℕ) (r : Option (ℕ × Pool)) : Type 0 where
  pub node : ℕ
  pub best : IsBest (sizes s.nodes) (rounded size) node xs
  pub allocated : Allocated s (rounded size) node (total (sizes s.nodes) xs) r
  pub enough : size ≤ rounded size

-- `malloc` of a positive size, when the free nodes are in order, one of them holds the rounded
-- size, the size is below 2 ^ 32 by 24 or more, and the fuel is more than the nodes of the list,
-- the static one counted: it comes back with the smallest node that fits. That node is busy,
-- holds the request and overlaps no free node; the free nodes are again in order (linked both
-- ways, sorted, disjoint), and no byte is lost.
pub malloc-Served :
    (n size y : ℕ) (s : Pool) (xs : List ℕ)
    → IsHeap s.nodes s.list xs
    → 0 < size
    → size + 23 < 2 ^ 32
    → has y xs ≡ true
    → rounded size ≤ (s.nodes y).size
    → length (s.list ∷ xs) < n
    → Served s size xs (malloc n size s)
unfolding malloc
malloc-Served n size y s xs p pos small i fits fuel =
    let rnd = rounded_lem size small in
    let m = first_fit (sizes s.nodes) (rounded size) xs in
    let best = first_fit-IsBest (sizes s.nodes) (rounded size) y xs p.sorted.1 i fits in
    let there = Linked-pos s.nodes m xs p.linked.3 best.one in
    let run = obtain-first_fit n (rounded size) s xs p (omega (arith, rnd.0)) fuel there in
    let some_node : (m == 0) ≡ false = ne→== m 0 there in
    record {
      node = m;
      best = best;
      allocated =
          rw (◌>>=◌, run, some_node)
            (carve-Allocated n (rounded size) m s xs p best.one best.fits (omega (arith, rnd.1))
              fuel);
      enough = rnd.0;
    }
