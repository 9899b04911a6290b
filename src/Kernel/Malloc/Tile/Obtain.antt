-- ===== src/Kernel/Malloc/Tile/Obtain.antt =====
-- `malloc` of what a page holds, on the tiled heap: a free node is found, if need be after `clean`, and
-- if need be after one more page.
use gml_vm.Base.{
  ℕ, zero, suc, ◌+◌, ◌*◌, ◌≤◌, ◌<◌, ◌≡◌, ◌≢◌, refl, ap, ◌∙◌, ◌⊎◌, inl, inr, List, [], ◌∷◌, ◌==◌,
  true, leb, arith, Bool-cases, length, Option, some, ==→eq, leb→le,
}
use gml_vm.Kernel.Frames.{take_frame}
use gml_vm.Kernel.Frames.Laws.{FirstKernel}
use gml_vm.Kernel.Malloc.{Nodes}
use gml_vm.Kernel.Malloc.Chain.{has}
use gml_vm.Kernel.Malloc.Add.{sizes}
use gml_vm.Kernel.Malloc.Find.{first_fit, Linked-pos, IsBest, first_fit-IsBest}
use gml_vm.Kernel.Malloc.Pool.{Pool, clean, grow, obtain, found, pool_find, ◌>>=◌}
use gml_vm.Kernel.Malloc.Room.{total-ext}
use gml_vm.Kernel.Malloc.Best.{obtain-first_fit}
use gml_vm.Kernel.Malloc.Page.{add-Grown}
use gml_vm.Kernel.Malloc.Grow.{AllSmall, find_none, grow_page}
use gml_vm.Kernel.Malloc.Fresh.{after}
use gml_vm.Kernel.Malloc.First.{grow_fits, paged}
use gml_vm.Kernel.Malloc.Tile.Free.{IsSound, bytes}
use gml_vm.Kernel.Malloc.Tile.Page.{IsTiled-Backed, page-IsSound}
use gml_vm.Kernel.Malloc.Tile.Clean.{Cleaned, clean-Cleaned}

-- The free nodes, the machine and the bytes are as before, or there is one page more, in the frame `i`.
abbrev pub Paid : (s : Pool) (i : ℕ) (xs hs : List ℕ) (pool : Pool) (rest hs' : List ℕ) → Type 0
Paid s i xs hs pool rest hs' =
    (pool.machine ≡ s.machine) × (bytes pool rest hs' ≡ bytes s xs hs)
    ⊎ (pool.machine ≡ take_frame s.machine i) × (bytes pool rest hs' ≡ 4096 + bytes s xs hs)

-- The run comes back with a free node that holds `size` bytes.
pub record Obtained (s : Pool) (size i : ℕ) (xs hs : List ℕ) (r : Option (ℕ × Pool)) : Type 0 where
  pub node : ℕ
  pub pool : Pool
  pub rest : List ℕ
  pub returns : r ≡ some (node, pool)
  pub list : pool.list ≡ s.list
  pub sound : IsSound pool rest hs
  pub among : has node rest ≡ true
  pub fits : size ≤ (pool.nodes node).size
  pub kept : (a : ℕ) → has a hs ≡ true → (pool.nodes a).size ≡ (s.nodes a).size
  pub paid : Paid s i xs hs pool rest hs
  pub short : length rest ≤ 1 + length xs

-- A node fits, or all are too small.
fit_cases :
    (k : ℕ → ℕ) (size : ℕ) (xs : List ℕ)
    → ((y : ℕ) × (has y xs ≡ true) × (size ≤ k y)) ⊎ AllSmall k size xs
fit_cases k size [] = inr (λ a i. absurd (ground (arith, i)))
fit_cases k size (x ∷ xs) = elim (Bool-cases (leb size (k x))) [
  | inl fits ↦ inl (x, ground arith, leb→le size (k x) fits)
  | inr small ↦ elim (fit_cases k size xs) [
    | inl (y, i, fits) ↦ inl (y, ground arith, fits)
    | inr rest ↦ inr (λ a i. elim (Bool-cases (a == x)) [
      | inl here ↦ ground (arith, ap k (==→eq a x here))
      | inr there ↦ rest a (ground arith)
    ])
  ]
]

all_small :
    (h : Nodes) (head size : ℕ) (xs : List ℕ)
    → (h head).size ≡ 0
    → 0 < size
    → AllSmall (sizes h) size xs
    → AllSmall (sizes h) size (head ∷ xs)
all_small h head size xs empty pos small a i = elim (Bool-cases (a == head)) [
  | inl here ↦ omega (arith, ap (sizes h) (==→eq a head here), empty, pos)
  | inr there ↦ small a (ground arith)
]

-- A busy node does not stand where the new page is.
new_ne :
    (s : Pool) (xs hs : List ℕ) (i a : ℕ)
    → IsSound s xs hs
    → FirstKernel s.machine i
    → has a hs ≡ true
    → a ≢ 4096 * i
new_ne s xs hs i a sound free j e =
    sound.tiled.tiling.taken a (ground arith) (ap s.machine.mmap (omega arith) ∙ free.free)

-- A node fits: nothing changes.
fit-Obtained :
    (size i m : ℕ) (s : Pool) (xs hs : List ℕ) {r : Option (ℕ × Pool)}
    → IsSound s xs hs
    → IsBest (sizes s.nodes) size m xs
    → r ≡ some (m, s)
    → Obtained s size i xs hs r
fit-Obtained size i m s xs hs sound best run = record {
  node = m;
  pool = s;
  rest = xs;
  returns = run;
  list = refl;
  sound = sound;
  among = best.one;
  fits = best.fits;
  kept = λ a j. refl;
  paid = inl (refl, refl);
  short = omega arith;
}

grow-Obtained :
    (n fuel size i : ℕ) (s : Pool) (xs hs : List ℕ)
    → IsSound s xs hs
    → FirstKernel s.machine i
    → s.machine.kmem ≤ 0xffff_f000
    → 0 < size
    → size ≤ 4080
    → 2 + length xs < n
    → Obtained s size i xs hs (grow n (suc (suc fuel)) size s)
grow-Obtained n fuel size i s xs hs sound free bound pos fits enough =
    elim (fit_cases (sizes s.nodes) size xs) [
      | inl (y, there, le) ↦
          let best =
            first_fit-IsBest (sizes s.nodes) size y xs sound.tiled.heap.sorted.1 there le in
          fit-Obtained size i (first_fit (sizes s.nodes) size xs) s xs hs sound best (
            grow_fits n (suc fuel) size (first_fit (sizes s.nodes) size xs) s xs sound.tiled.heap
              pos (omega arith) best.one refl)
      | inr small ↦
          let p = sound.tiled.heap in
          let small' = all_small s.nodes s.list size xs p.empty pos small in
          let t =
            add-Grown n s.machine s.nodes s.list i xs p
              (IsTiled-Backed s.machine.mmap s.nodes s.list xs hs sound.tiled) free
              (omega (arith, bound)) (omega arith) in
          let paged_sound = page-IsSound i s xs hs sound free bound t in
          let c = 4096 * i in
          let run =
            grow_page n (suc fuel) size i s xs p small' free (omega (arith, bound)) (omega arith)
              t in
          let best =
            first_fit-IsBest (sizes t.nodes) size c t.rest t.heap.sorted.1
              (ground (arith, t.holds c)) (omega (arith, t.page)) in
          record {
            node = first_fit (sizes t.nodes) size t.rest;
            pool = paged s i t.nodes;
            rest = t.rest;
            returns =
                run
                ∙ grow_fits n fuel size (first_fit (sizes t.nodes) size t.rest) (paged s i t.nodes)
                    t.rest t.heap pos (omega (arith, t.longer)) best.one refl;
            list = refl;
            sound = paged_sound.0;
            among = best.one;
            fits = best.fits;
            kept = λ a j. (t.others a (new_ne s xs hs i a sound free j)).0;
            paid = inr (refl, paged_sound.1);
            short = omega (arith, t.longer);
          }
    ]

pub obtain_cleaned :
    (n size : ℕ) (s t : Pool)
    → pool_find n size s ≡ some (0, s)
    → clean n n (s.nodes s.list).next s ≡ some (tt, t)
    → obtain n size s ≡ grow n n size t
unfolding obtain after
obtain_cleaned n size s t lost cleaned =
    rw (◌>>=◌, lost) (ap (λ r. after r (grow n n size)) cleaned)

-- After `clean`.
obtain_after :
    (size i : ℕ) (s : Pool) (xs hs : List ℕ) {r : Option (Unit {0} × Pool)}
    {r' r'' : Option (ℕ × Pool)}
    → r'' ≡ r'
    → (c : Cleaned s xs hs r) → Obtained (record s { nodes = c.nodes }) size i c.rest hs r'
    → Obtained s size i xs hs r''
obtain_after size i s xs hs run c o =
    let same = total-ext (sizes s.nodes) (sizes c.nodes) hs (λ a i. c.kept a i) in
    record {
      node = o.node;
      pool = o.pool;
      rest = o.rest;
      returns = run ∙ o.returns;
      list = o.list;
      sound = o.sound;
      among = o.among;
      fits = o.fits;
      kept = λ a j. o.kept a j ∙ c.kept a j;
      paid = elim o.paid [
        | inl (e, e') ↦ inl (e, omega (arith, e', c.all, same))
        | inr (e, e') ↦ inr (e, omega (arith, e', c.all, same))
      ];
      short = omega (arith, o.short, c.short);
    }

pub obtain-Obtained :
    (n size i : ℕ) (s : Pool) (xs hs : List ℕ)
    → IsSound s xs hs
    → FirstKernel s.machine i
    → s.machine.kmem ≤ 0xffff_f000
    → 0 < size
    → size ≤ 4080
    → 2 + length xs + length xs < n
    → Obtained s size i xs hs (obtain n size s)
obtain-Obtained zero size i s xs hs sound free bound pos fits enough = absurd (omega arith)
obtain-Obtained (suc zero) size i s xs hs sound free bound pos fits enough = absurd (omega arith)
obtain-Obtained (suc (suc k)) size i s xs hs sound free bound pos fits enough =
    let n = suc (suc k) in
    let p = sound.tiled.heap in
    elim (fit_cases (sizes s.nodes) size xs) [
      | inl (y, there, le) ↦
          let best = first_fit-IsBest (sizes s.nodes) size y xs p.sorted.1 there le in
          let m = first_fit (sizes s.nodes) size xs in
          fit-Obtained size i m s xs hs sound best (
            obtain-first_fit n size s xs p pos (omega arith)
              (Linked-pos s.nodes m xs p.linked.3 best.one))
      | inr small ↦
          let lost =
            find_none n size s.nodes s.list xs p.linked
              (all_small s.nodes s.list size xs p.empty pos small) (omega arith) in
          let c = clean-Cleaned n s xs hs sound (omega arith) in
          let o =
            grow-Obtained n k size i (record s { nodes = c.nodes }) c.rest hs c.sound free bound pos
              fits (omega (arith, c.short)) in
          let run =
            obtain_cleaned n size s (record s { nodes = c.nodes }) (ap (found s) lost) c.returns in
          obtain_after size i s xs hs run c o
    ]
