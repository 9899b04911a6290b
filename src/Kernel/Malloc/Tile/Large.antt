-- ===== src/Kernel/Malloc/Tile/Large.antt =====
-- `malloc` of more than a page holds, on the tiled heap.
use gml_vm.Base.{
  ℕ, ◌+◌, ◌/◌, ◌^◌, ◌≤◌, ◌<◌, ◌≡◌, refl, ap, ◌∙◌, List, ◌∷◌, ◌||◌, ◌==◌, true, inl, inr, arith,
  length, none, Bool-cases, ==→eq,
}
use gml_vm.Kernel.Malloc.{Nodes}
use gml_vm.Kernel.Malloc.Chain.{has}
use gml_vm.Kernel.Malloc.Add.{sizes}
use gml_vm.Kernel.Malloc.Pool.{Pool, malloc, obtain, found, rounded, ◌>>=◌}
use gml_vm.Kernel.Malloc.Best.{rounded_lem}
use gml_vm.Kernel.Malloc.Grow.{AllSmall, find_none}
use gml_vm.Kernel.Malloc.Fresh.{grow_forever}
use gml_vm.Kernel.Malloc.Tile.State.{IsTiled}
use gml_vm.Kernel.Malloc.Tile.Free.{IsSound}
use gml_vm.Kernel.Malloc.Tile.Page.{IsTiled-Backed}
use gml_vm.Kernel.Malloc.Tile.Clean.{clean-Cleaned}
use gml_vm.Kernel.Malloc.Tile.Obtain.{obtain_cleaned}

small_lem : (a k size : ℕ) → (a + 15 + k) / 4096 ≡ a / 4096 → 4080 < size → k < size
small_lem a k size e large = omega arith

-- No node is larger than what a page holds.
IsTiled-AllSmall :
    (mmap : ℕ → ℕ) (h : Nodes) (head size : ℕ) (xs hs : List ℕ)
    → IsTiled mmap h head xs hs
    → 4080 < size
    → AllSmall (sizes h) size (head ∷ xs)
IsTiled-AllSmall mmap h head size xs hs t large a i = elim (Bool-cases (a == head)) [
  | inl here ↦ omega (arith, ap (sizes h) (==→eq a head here), t.heap.empty)
  | inr there ↦
      let j : (has a xs || has a hs) ≡ true = ground arith in
      small_lem a (h a).size size (t.tiling.inside a j) large
]

-- `malloc` of more than 4080 bytes, which no page holds, when the heap is in order, the size is below
-- 2 ^ 32 by 24 or more, the kernel's memory ends at 0xfffff000 or below, and the fuel is at least 2
-- more than twice the number of the free nodes, never comes back, whatever is free.
pub malloc-endless :
    (n size : ℕ) (s : Pool) (xs hs : List ℕ)
    → IsSound s xs hs
    → s.machine.kmem ≤ 0xffff_f000
    → 4080 < size
    → size + 23 < 2 ^ 32
    → 1 + length xs + length xs < n
    → malloc n size s ≡ none
unfolding malloc
malloc-endless n size s xs hs sound bound large fits enough =
    let rnd = rounded_lem size fits in
    let big : 4080 < rounded size = omega (arith, rnd.0) in
    let t = sound.tiled in
    let lost =
      find_none n (rounded size) s.nodes s.list xs t.heap.linked
        (IsTiled-AllSmall s.machine.mmap s.nodes s.list (rounded size) xs hs t big) (omega arith) in
    let c = clean-Cleaned n s xs hs sound enough in
    let t' = c.sound.tiled in
    let s' : Pool = record s { nodes = c.nodes } in
    let never =
      grow_forever n n (rounded size) s' c.rest t'.heap
        (IsTiled-Backed s.machine.mmap c.nodes s.list c.rest hs t') (omega (arith, bound)) big
        (IsTiled-AllSmall s.machine.mmap c.nodes s.list (rounded size) c.rest hs t' big) in
    let run : obtain n (rounded size) s ≡ none =
      obtain_cleaned n (rounded size) s s' (ap (found s) lost) c.returns ∙ never in
    rw (◌>>=◌, run) refl
