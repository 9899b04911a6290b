-- ===== src/Kernel/Malloc/Tile/Page.antt =====
-- A page from the frame allocator, in the tiled heap.
use gml_vm.Base.{
  ℕ, ◌+◌, ◌*◌, ◌/◌, ◌≤◌, ◌≡◌, ◌≢◌, refl, ap, ◌∙◌, sym, List, ◌∷◌, ◌==◌, Bool, true, ◌||◌, arith,
  inl, inr, Bool-cases, ==→eq, ne→==, Option,
}
use gml_vm.Kernel.Frames.Laws.{FirstKernel}
use gml_vm.Kernel.Malloc.{Nodes}
use gml_vm.Kernel.Malloc.Chain.{has}
use gml_vm.Kernel.Malloc.Add.{sizes}
use gml_vm.Kernel.Malloc.Pool.{Pool}
use gml_vm.Kernel.Malloc.Room.{total-ext}
use gml_vm.Kernel.Malloc.Page.{Backed, Grown}
use gml_vm.Kernel.Malloc.First.{paged}
use gml_vm.Kernel.Malloc.Tile.{Tiling-page}
use gml_vm.Kernel.Malloc.Tile.State.{IsTiled, not_in}
use gml_vm.Kernel.Malloc.Tile.Free.{IsSound, bytes}

-- Every byte of the free nodes lies in a frame that is taken.
pub IsTiled-Backed :
    (mmap : ℕ → ℕ) (h : Nodes) (head : ℕ) (xs hs : List ℕ)
    → IsTiled mmap h head xs hs
    → Backed mmap h (head ∷ xs)
IsTiled-Backed mmap h head xs hs t a i b from below = elim (Bool-cases (a == head)) [
  | inl here ↦ inr (
      omega
        (arith, below, t.static, t.heap.empty, ==→eq a head here, ap (sizes h) (==→eq a head here)))
  | inr there ↦
      let j : (has a xs || has a hs) ≡ true = ground arith in
      let at : b / 4096 ≡ a / 4096 = omega (arith, from, below, t.tiling.inside a j) in
      inl (λ e. t.tiling.taken a j (ap mmap (sym at) ∙ e))
]

-- Truth values of membership: `x` in the list, `c` the new page, `y` out of the list.
page_in : (x c y r : Bool) → r ≡ (c || x) → (r || y) ≡ (c || (x || y))
page_in x c y r e = ground arith

pub page-IsSound :
    (i : ℕ) (s : Pool) (xs hs : List ℕ) {r : Option (ℕ × Nodes)}
    → IsSound s xs hs
    → FirstKernel s.machine i
    → s.machine.kmem ≤ 0xffff_f000
    → (t : Grown s.machine s.nodes s.list i xs r)
    → IsSound (paged s i t.nodes) t.rest hs
      × (bytes (paged s i t.nodes) t.rest hs ≡ 4096 + bytes s xs hs)
page-IsSound i s xs hs sound free bound t =
    let c = 4096 * i in
    let old = sound.tiled in
    let new : (a : ℕ) → (has a xs || has a hs) ≡ true → a ≢ c =
      λ a j e. old.tiling.taken a j (ap s.machine.mmap (omega arith) ∙ free.free) in
    let held : (a : ℕ) → has a hs ≡ true → a ≢ c = λ a j. new a (ground arith) in
    let same = total-ext (sizes s.nodes) (sizes t.nodes) hs (λ a j. (t.others a (held a j)).0) in
    (
      record {
        tiled = record {
          heap = t.heap;
          static = old.static;
          tiling =
              Tiling-page s.machine.mmap (sizes s.nodes) (sizes t.nodes) _ _ i c refl free.from
                (omega (arith, free.below, bound)) free.free t.page
                (λ a j. (t.others a (new a j)).0)
                (λ a. page_in (has a xs) (a == c) (has a hs) _ (t.holds a)) old.tiling;
          apart =
              λ a j. t.holds a ∙ not_in (has a xs) (a == c) (ne→== a c (held a j)) (old.apart a j);
          distinct = old.distinct;
        };
        busy = λ a j. (t.others a (held a j)).1 ∙ sound.busy a j;
      },
      omega (arith, t.all, same),
    )
