-- ===== src/Kernel/Malloc/Fresh.antt =====
-- `malloc` without a free node, of more than a page holds.
use gml_vm.Base.{
  ℕ, zero, suc, ◌+◌, ◌*◌, ◌^◌, ◌≤◌, ◌<◌, ◌≡◌, refl, ap, ◌∙◌, sym, subst, inl, inr, List, [], ◌∷◌,
  ◌==◌, true, leb, ltb, arith, length, some, none, Option, ==→eq, Bool-cases,
}
use gml_vm.Kernel.Machine.{Machine}
use gml_vm.Kernel.Frames.{take_frame}
use gml_vm.Kernel.Frames.Laws.{get_free_page_total}
use gml_vm.Kernel.Malloc.{Nodes}
use gml_vm.Kernel.Malloc.Chain.{has, first}
use gml_vm.Kernel.Malloc.Add.{sizes}
use gml_vm.Kernel.Malloc.Pool.{Pool, grow, clean, obtain, malloc, rounded, ◌>>=◌}
use gml_vm.Kernel.Malloc.Room.{IsHeap}
use gml_vm.Kernel.Malloc.Best.{rounded_lem}
use gml_vm.Kernel.Malloc.Page.{Backed, Grown, add-Grown}
use gml_vm.Kernel.Malloc.Grow.{AllSmall, find_none, find_short, grow_page}

all_small :
    (m : Machine) (h : Nodes) (head size i : ℕ) (xs : List ℕ) {r : Option (ℕ × Nodes)}
    → 4080 < size
    → AllSmall (sizes h) size (head ∷ xs)
    → (t : Grown m h head i xs r) → AllSmall (sizes t.nodes) size (head ∷ t.rest)
all_small m h head size i xs large small t a j = elim (Bool-cases (a == 4096 * i)) [
  | inl new ↦
      subst (λ b. (t.nodes b).size < size) (sym (==→eq a (4096 * i) new)) (omega (arith, t.page))
  | inr other ↦
      let j' : has a (head ∷ xs) ≡ true = ground (arith, t.holds a) in
      omega (arith, t.old a j', small a j')
]

-- No page is large enough.
pub grow_forever :
    (n fuel size : ℕ) (s : Pool) (xs : List ℕ)
    → IsHeap s.nodes s.list xs
    → Backed s.machine.mmap s.nodes (s.list ∷ xs)
    → s.machine.kmem ≤ 2 ^ 32
    → 4080 < size
    → AllSmall (sizes s.nodes) size (s.list ∷ xs)
    → grow n fuel size s ≡ none
unfolding grow
grow_forever n zero size s xs p on bound large small = refl
grow_forever n (suc fuel) size s xs p on bound large small =
    elim (Bool-cases (ltb (length (s.list ∷ xs)) n)) [
      | inr short ↦
          rw (◌>>=◌, find_short n size s.nodes (s.list ∷ xs) p.linked small (ground arith)) refl
      | inl enough ↦ elim (get_free_page_total s.machine) [
        | inl (i, first, back) ↦
            let t = add-Grown n s.machine s.nodes s.list i xs p on first bound (ground arith) in
            grow_page n fuel size i s xs p small first bound (ground arith) t
            ∙ grow_forever n fuel size
                (record { machine = take_frame s.machine i; nodes = t.nodes; list = s.list }) t.rest
                t.heap t.backed bound large
                (all_small s.machine s.nodes s.list size i xs large small t)
        | inr (all, back) ↦
            rw (◌>>=◌, find_none n size s.nodes s.list xs p.linked small (ground arith))
              (rw (◌>>=◌, back n) refl)
      ]
    ]

unfoldable pub after : Option (Unit {0} × Pool) → (Pool → Option (ℕ × Pool)) → Option (ℕ × Pool)
after r k = elim r [ none ↦ none | some (a, s) ↦ k s ]

pub obtain_empty :
    (n size : ℕ) (s : Pool)
    → IsHeap s.nodes s.list []
    → 0 < size
    → 1 < n
    → obtain n size s ≡ grow n n size s
unfolding obtain clean after
obtain_empty zero size s p pos fuel = absurd (omega arith)
obtain_empty (suc n) size s p pos fuel =
    let small : AllSmall (sizes s.nodes) size (s.list ∷ []) = λ a i. ground (arith, p.empty) in
    let lost = find_none (suc n) size s.nodes s.list [] p.linked small fuel in
    let cleaned : clean (suc n) (suc n) (s.nodes s.list).next s ≡ some (tt, s) =
      ap (λ a. clean (suc n) (suc n) a s) p.linked.1 in
    rw (◌>>=◌, lost) (ap (λ r. after r (grow (suc n) (suc n) size)) cleaned)

-- `malloc` of more than a page holds, when no node is free and the size is below 2 ^ 32 by 24 or
-- more, never comes back, whatever the fuel and whatever frames are free. The static node at the
-- head of the list lies in no frame that may be handed out, and the kernel's memory ends at 2 ^
-- 32 or below.
malloc_forever :
    (n size : ℕ) (s : Pool)
    → IsHeap s.nodes s.list []
    → Backed s.machine.mmap s.nodes (s.list ∷ [])
    → s.machine.kmem ≤ 2 ^ 32
    → 4080 < size
    → size + 23 < 2 ^ 32
    → malloc n size s ≡ none
unfolding malloc obtain
malloc_forever n size s p on bound large fits =
    let rnd = rounded_lem size fits in
    let small : AllSmall (sizes s.nodes) (rounded size) (s.list ∷ []) =
      λ a i. ground (arith, p.empty, rnd.0) in
    elim (Bool-cases (leb n 1)) [
      | inl short ↦
          rw
            (◌>>=◌, find_short n (rounded size) s.nodes (s.list ∷ []) p.linked small (ground arith))
            refl
      | inr enough ↦
          let never =
            grow_forever n n (rounded size) s [] p on bound (omega (arith, rnd.0)) small in
          let start = obtain_empty n (rounded size) s p (omega (arith, rnd.0)) (ground arith) in
          rw (◌>>=◌, start ∙ never) refl
    ]
