-- ===== src/Kernel/Malloc/Grow.antt =====
-- `malloc` when no free node is large enough: pages are added to the list.
use gml_vm.Base.{
  ℕ, zero, suc, ◌*◌, ◌^◌, ◌≤◌, ◌<◌, ◌≡◌, refl, ap, ◌∙◌, List, [], ◌∷◌, ◌==◌, true, false, leb,
  arith, length, some, none, ne→==, shl,
}
use gml_vm.Kernel.Machine.{update}
use gml_vm.Kernel.Frames.{take_frame}
use gml_vm.Kernel.Frames.Laws.{FirstKernel, get_free_page-first}
use gml_vm.Kernel.Malloc.{Nodes, add, find}
use gml_vm.Kernel.Malloc.Chain.{has, first, Linked}
use gml_vm.Kernel.Malloc.Add.{sizes}
use gml_vm.Kernel.Malloc.Find.{first_fit, find-first_fit}
use gml_vm.Kernel.Malloc.Pool.{Pool, page_node, grow, ◌>>=◌}
use gml_vm.Kernel.Malloc.Room.{IsHeap}
use gml_vm.Kernel.Malloc.Page.{Grown}

abbrev pub AllSmall : (ℕ → ℕ) → ℕ → List ℕ → Type 0
AllSmall k size xs = (a : ℕ) → has a xs ≡ true → k a < size

pub first_fit_none :
    (k : ℕ → ℕ) (size : ℕ) (xs : List ℕ) → AllSmall k size xs → first_fit k size xs ≡ 0
first_fit_none k size [] small = refl
first_fit_none k size (x ∷ xs) small =
    ground (arith, small x, first_fit_none k size xs (λ a i. small a (ground arith)))

pub find_none :
    (n size : ℕ) (h : Nodes) (head : ℕ) (xs : List ℕ)
    → Linked h (head ∷ xs)
    → AllSmall (sizes h) size (head ∷ xs)
    → length (head ∷ xs) < n
    → find n head size h ≡ some 0
find_none n size h head xs l small fuel =
    find-first_fit n size h (head ∷ xs) l fuel
    ∙ ap (λ a. some a) (first_fit_none (sizes h) size (head ∷ xs) small)

-- Too little fuel for the list.
pub find_short :
    (n size : ℕ) (h : Nodes) (xs : List ℕ)
    → Linked h xs
    → AllSmall (sizes h) size xs
    → n ≤ length xs
    → find n (first xs) size h ≡ none
unfolding find
find_short zero size h xs l small short = refl
find_short (suc n) size h [] l small short = absurd (omega arith)
find_short (suc n) size h (x ∷ xs) l small short =
    let big : leb size (h x).size ≡ false = ground (arith, small x) in
    rw (ne→== x 0 l.0, big, l.1)
      (find_short n size h xs l.3 (λ a i. small a (ground arith)) (omega arith))

-- One more page, for the frame `i`.
pub grow_page :
    (n fuel size i : ℕ) (s : Pool) (xs : List ℕ)
    → IsHeap s.nodes s.list xs
    → AllSmall (sizes s.nodes) size (s.list ∷ xs)
    → FirstKernel s.machine i
    → s.machine.kmem ≤ 2 ^ 32
    → length (s.list ∷ xs) < n
    → (t : Grown s.machine s.nodes s.list i xs
        (add n s.list (4096 * i) (update s.nodes (4096 * i) page_node)))
    → grow n (suc fuel) size s
      ≡ grow n fuel size
          (record { machine = take_frame s.machine i; nodes = t.nodes; list = s.list })
unfolding grow
grow_page zero fuel size i s xs p small first bound enough t = absurd (omega arith)
grow_page (suc n) fuel size i s xs p small first bound enough t =
    let none_fits = find_none (suc n) size s.nodes s.list xs p.linked small enough in
    let page : shl i 12 ≡ 4096 * i = omega (arith, first.below) in
    let got =
      get_free_page-first s.machine i n first ∙ ap (λ a. some (a, take_frame s.machine i)) page in
    let some_page : (4096 * i == 0) ≡ false = ne→== (4096 * i) 0 (omega (arith, first.from)) in
    rw (◌>>=◌, none_fits) (rw (◌>>=◌, got) (rw some_page (rw (◌>>=◌, t.returns) refl)))
