-- ===== src/Kernel/Malloc/First.antt =====
-- `malloc` without a free node, of what a page holds: the first call of all.
use gml_vm.Base.{
  ℕ, zero, suc, ◌*◌, ◌^◌, ◌≤◌, ◌<◌, ◌≡◌, refl, ◌∙◌, subst, List, [], ◌∷◌, true, false, leb, arith,
  length, some, ne→==,
}
use gml_vm.Kernel.Machine.{update}
use gml_vm.Kernel.Frames.{take_frame}
use gml_vm.Kernel.Frames.Laws.{FirstKernel}
use gml_vm.Kernel.Malloc.{Nodes, add, find}
use gml_vm.Kernel.Malloc.Chain.{has}
use gml_vm.Kernel.Malloc.Add.{sizes}
use gml_vm.Kernel.Malloc.Find.{first_fit, find-first_fit, Linked-pos, first_fit-IsBest}
use gml_vm.Kernel.Malloc.Pool.{Pool, page_node, grow, obtain, malloc, rounded, carve, ◌>>=◌}
use gml_vm.Kernel.Malloc.Room.{IsHeap}
use gml_vm.Kernel.Malloc.Carve.{IsGiven}
use gml_vm.Kernel.Malloc.Carve.Run.{Allocated, carve-Allocated}
use gml_vm.Kernel.Malloc.Best.{rounded_lem}
use gml_vm.Kernel.Malloc.Page.{Backed, Grown, add-Grown}
use gml_vm.Kernel.Malloc.Grow.{AllSmall, grow_page}
use gml_vm.Kernel.Malloc.Fresh.{obtain_empty}

-- With a node that fits, no page is taken.
pub grow_fits :
    (n fuel size m : ℕ) (s : Pool) (xs : List ℕ)
    → IsHeap s.nodes s.list xs
    → 0 < size
    → length (s.list ∷ xs) < n
    → has m xs ≡ true
    → first_fit (sizes s.nodes) size xs ≡ m
    → grow n (suc fuel) size s ≡ some (m, s)
unfolding grow
grow_fits n fuel size m s xs p pos enough i fit =
    let skip : leb size (s.nodes s.list).size ≡ false = ground (arith, p.empty) in
    let run : find n s.list size s.nodes ≡ some m =
      find-first_fit n size s.nodes (s.list ∷ xs) p.linked enough ∙ rw (skip, fit) refl in
    rw (◌>>=◌, run, ne→== m 0 (Linked-pos s.nodes m xs p.linked.3 i)) refl

-- The heap after one page, from none.
abbrev pub paged : (s : Pool) (i : ℕ) → Nodes → Pool
paged s i h = record { machine = take_frame s.machine i; nodes = h; list = s.list }

obtain_first :
    (n size i : ℕ) (s : Pool)
    → (p : IsHeap s.nodes s.list []) → FirstKernel s.machine i
    → s.machine.kmem ≤ 2 ^ 32
    → 0 < size
    → size ≤ 4080
    → 2 < n
    → (t : Grown s.machine s.nodes s.list i []
        (add n s.list (4096 * i) (update s.nodes (4096 * i) page_node)))
    → obtain n size s ≡ some (4096 * i, paged s i t.nodes)
obtain_first zero size i s p free bound pos fits fuel t = absurd (omega arith)
obtain_first (suc zero) size i s p free bound pos fits fuel t = absurd (omega arith)
obtain_first (suc (suc n)) size i s p free bound pos fits fuel t =
    let c = 4096 * i in
    let small : AllSmall (sizes s.nodes) size (s.list ∷ []) = λ a j. ground (arith, p.empty) in
    let there : has c t.rest ≡ true = ground (arith, t.holds c) in
    let best =
      first_fit-IsBest (sizes t.nodes) size c t.rest t.heap.sorted.1 there
        (omega (arith, t.page)) in
    let one : first_fit (sizes t.nodes) size t.rest ≡ c =
      ground (arith, t.holds (first_fit (sizes t.nodes) size t.rest), best.one) in
    obtain_empty (suc (suc n)) size s p pos (omega arith)
    ∙ grow_page (suc (suc n)) (suc n) size i s [] p small free bound (omega arith) t
    ∙ grow_fits (suc (suc n)) n size c (paged s i t.nodes) t.rest t.heap pos
        (omega (arith, t.longer)) there one

-- `malloc` of 1 to 4080 bytes, when no node is free and `i` is the first free frame of the
-- kernel, with a fuel of 3 or more: it comes back with the bytes behind the header of that page,
-- whose frame is marked as taken. The node is busy and holds the request; what is left of the
-- page is in the heap, which is again in order. The static node at the head of the list lies in
-- no frame that may be handed out, and the kernel's memory ends at 2 ^ 32 or below.
malloc-Allocated :
    (n size i : ℕ) (s : Pool)
    → IsHeap s.nodes s.list []
    → Backed s.machine.mmap s.nodes (s.list ∷ [])
    → FirstKernel s.machine i
    → s.machine.kmem ≤ 2 ^ 32
    → 0 < size
    → size ≤ 4080
    → 2 < n
    → Allocated
        (record s { machine = take_frame s.machine i })
        (rounded size)
        (4096 * i)
        4096
        (malloc n size s)
unfolding malloc
malloc-Allocated n size i s p on free bound pos fits fuel =
    let rnd = rounded_lem size (omega arith) in
    let le : rounded size ≤ 4080 = omega (arith, rnd.1, rnd.2) in
    let t = add-Grown n s.machine s.nodes s.list i [] p on free bound (omega arith) in
    let run = obtain_first n (rounded size) i s p free bound (omega (arith, rnd.0)) le fuel t in
    let c = 4096 * i in
    let carved =
      carve-Allocated n (rounded size) c (paged s i t.nodes) t.rest t.heap
        (ground (arith, t.holds c)) (omega (arith, t.page)) (omega arith)
        (omega (arith, t.longer)) in
    let got : malloc n size s ≡ carve n (rounded size) c (paged s i t.nodes) =
      rw (◌>>=◌, run, ne→== c 0 (omega (arith, free.from))) refl in
    record {
      pool = carved.pool;
      rest = carved.rest;
      returns = got ∙ carved.returns;
      list = carved.list;
      machine = carved.machine;
      given =
          subst (λ b. IsGiven carved.pool.nodes s.list c (rounded size) b carved.rest) t.all
            carved.given;
    }
