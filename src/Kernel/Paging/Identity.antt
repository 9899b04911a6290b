-- ===== src/Kernel/Paging/Identity.antt =====
-- `open_pagination`: one page table, and its entry in the page directory.
pub mod Build
use gml_vm.Base.{
  ℕ, zero, suc, ◌+◌, ◌-◌, ◌*◌, ◌/◌, ◌%◌, ◌^◌, ◌≤◌, ◌<◌, ◌≡◌, ◌≢◌, refl, ◌∙◌, ap, ◌⊎◌, inl, inr,
  ◌==◌, ltb, leb, if◌then◌else◌, shr, shl, arith, true, false, ◌&&◌, Bool-cases, ==→eq, bit_or,
  Option, some, none, lt→ltb, le→ltb, leb→le,
}
use gml_vm.Base.Bits.{bit_or-field}
use gml_vm.Kernel.Machine.{Machine, load, store, load-store_self, load-store_apart, ◌>>=◌, ◌>>◌}
use gml_vm.Kernel.Frames.{take_frame, get_free_page}
use gml_vm.Kernel.Frames.Laws.{FirstKernel, get_free_page-first}
use gml_vm.Kernel.Paging.{map_pages, map_table, store_entry}

-- The entry that leads to the frame `f`, present and writable.
abbrev pub to_frame : ℕ → ℕ
to_frame f = 4096 * f + 3

to_frame_lem : (f : ℕ) → bit_or (4096 * f) 3 ≡ to_frame f
to_frame_lem f =
    let q : 1024 * f * 2 ^ 2 ≡ 4096 * f = omega arith in
    rw (← q) (bit_or-field 2 (1024 * f) 3 (omega arith))

page_entry :
    (i j : ℕ)
    → i < 1024
    → j < 1024
    → bit_or (bit_or (shl i 22) (shl j 12)) 3 ≡ to_frame (1024 * i + j)
page_entry i j small low =
    let high : shl i 22 ≡ i * 2 ^ 22 = omega arith in
    let mid : shl j 12 ≡ j * 2 ^ 12 = omega arith in
    let sum : bit_or (i * 2 ^ 22) (j * 2 ^ 12) ≡ i * 2 ^ 22 + j * 2 ^ 12 =
      bit_or-field 22 i (j * 2 ^ 12) (omega arith) in
    let all : i * 2 ^ 22 + j * 2 ^ 12 ≡ 4096 * (1024 * i + j) = omega arith in
    rw (high, mid, sum, all) (to_frame_lem (1024 * i + j))

-- The page table `i` at `pte`, from entry `j` on: the entries of mapped memory are set, and nothing
-- else is changed.
pub record Pages (m : Machine) (j i pte : ℕ) (r : Option (Unit {0} × Machine)) : Type 0 where
  pub mem : ℕ → ℕ
  pub returns : r ≡ some (tt, record m { mem = mem })
  pub entry :
      (k : ℕ)
      → j ≤ k
      → k < 1024
      → 1024 * i + k < m.kmem / 4096
      → load mem (pte + 4 * k) ≡ to_frame (1024 * i + k)
  pub apart : (a : ℕ) → (a + 4 ≤ pte + 4 * j) ⊎ (pte + 4096 ≤ a) → load mem a ≡ load m.mem a

pub map_pages-Pages :
    (n j i pte : ℕ) (m : Machine)
    → i < 1024
    → n + j ≡ 1024
    → Pages m j i pte (map_pages n j i pte m)
unfolding map_pages
map_pages-Pages zero j i pte m small all = record {
  mem = m.mem;
  returns = refl;
  entry = λ k from below mapped. absurd (omega arith);
  apart = λ a off. refl;
}
map_pages-Pages (suc n) j i pte m small all =
    let v = page_entry i j small (omega arith) in
    let at : shl i 10 + j ≡ 1024 * i + j = omega arith in
    elim (Bool-cases (ltb (1024 * i + j) (shr m.kmem 12))) [
      | inl in_range ↦
          let mem1 = store m.mem (pte + 4 * j) (to_frame (1024 * i + j)) in
          let r = map_pages-Pages n (j + 1) i pte (record m { mem = mem1 }) small (omega arith) in
          rw (at, in_range, v)
            (record {
              mem = r.mem;
              returns = r.returns;
              entry = λ k from below mapped. elim (Bool-cases (k == j)) [
                | inl here ↦
                    let self =
                      load-store_self m.mem (pte + 4 * j) (to_frame (1024 * i + j)) (omega arith) in
                    let same = ==→eq k j here in
                    let one = ap (λ t. load r.mem (pte + 4 * t)) same in
                    omega (arith, one, same, self, r.apart (pte + 4 * j) (inl (omega arith)))
                | inr other ↦ r.entry k (ground arith) below mapped
              ];
              apart = λ a off.
                  r.apart a (ground arith)
                  ∙ load-store_apart m.mem (pte + 4 * j) a (to_frame (1024 * i + j))
                      (ground (arith, all));
            })
      | inr outside ↦
          rw (at, outside)
            (record {
              mem = m.mem;
              returns = refl;
              entry = λ k from below mapped. absurd (ground arith);
              apart = λ a off. refl;
            })
    ]

-- One round of the loop over the directory at `4096 * f`: the table `i` is the frame `f + 1 + i`.
pub record Turn (m : Machine) (f i : ℕ) (r : Option (Unit {0} × Machine)) : Type 0 where
  pub next : Machine
  pub returns : r ≡ some (tt, next)
  pub kmem : next.kmem ≡ m.kmem
  pub cr0 : next.cr0 ≡ m.cr0
  pub mmap :
      (j : ℕ) → next.mmap j ≡ (if leb i (m.kmem / 2 ^ 22) && j == f + 1 + i then 1 else m.mmap j)
  pub table : i ≤ m.kmem / 2 ^ 22 → load next.mem (4096 * f + 4 * i) ≡ to_frame (f + 1 + i)
  pub entry :
      (k : ℕ)
      → k < 1024
      → 1024 * i + k < m.kmem / 4096
      → load next.mem (4096 * (f + 1 + i) + 4 * k) ≡ to_frame (1024 * i + k)
  pub apart :
      (a : ℕ)
      → (a + 4 ≤ 4096 * f + 4 * i) ⊎ (4096 * f + 4 * i + 4 ≤ a)
      → (a + 4 ≤ 4096 * (f + 1 + i)) ⊎ (4096 * (f + 1 + i) + 4096 ≤ a)
      → load next.mem a ≡ load m.mem a

map_table_run :
    (fuel pde i p v : ℕ) (m m1 : Machine)
    → leb i (shr m.kmem 22) ≡ true
    → get_free_page fuel m ≡ some (p, m1)
    → bit_or p 3 ≡ v
    → map_table fuel pde i m
      ≡ map_pages 1024 0 i p (record m1 { mem = store m1.mem (pde + 4 * i) v })
unfolding map_table
map_table_run fuel pde i p v m m1 there got value =
    rw (there, ◌>>=◌, got)
      (ap (λ e. map_pages 1024 0 i p (record m1 { mem = store m1.mem (pde + 4 * i) e })) value)

map_table_none :
    (fuel pde i : ℕ) (m : Machine)
    → leb i (shr m.kmem 22) ≡ false
    → map_table fuel pde i m ≡ some (tt, record m { mem = store m.mem (pde + 4 * i) 0 })
unfolding map_table
map_table_none fuel pde i m beyond = rw beyond refl

pub map_table-Turn :
    (fuel f i : ℕ) (m : Machine)
    → i < 1024
    → m.kmem < 2 ^ 32
    → (i ≤ m.kmem / 2 ^ 22 → FirstKernel m (f + 1 + i))
    → Turn m f i (map_table (suc fuel) (4096 * f) i m)
map_table-Turn fuel f i m small bound free = elim (Bool-cases (leb i (shr m.kmem 22))) [
  | inl there ↦
      let first = free (leb→le i (shr m.kmem 22) there) in
      let t = 4096 * (f + 1 + i) in
      let page : shl (f + 1 + i) 12 ≡ t = omega (arith, first.below) in
      let got =
        get_free_page-first m (f + 1 + i) fuel first
        ∙ ap (λ a. some (a, take_frame m (f + 1 + i))) page in
      let m1 = take_frame m (f + 1 + i) in
      let mem1 = store m.mem (4096 * f + 4 * i) (to_frame (f + 1 + i)) in
      let p = map_pages-Pages 1024 0 i t (record m1 { mem = mem1 }) small refl in
      let self =
        load-store_self m.mem (4096 * f + 4 * i) (to_frame (f + 1 + i))
          (omega (arith, first.below)) in
      record {
        next = record m1 { mem = p.mem };
        returns =
            map_table_run (suc fuel) (4096 * f) i t (to_frame (f + 1 + i)) m m1 there got
              (to_frame_lem (f + 1 + i))
            ∙ p.returns;
        kmem = refl;
        cr0 = refl;
        mmap = λ j. ground (arith, there);
        table = λ h. p.apart (4096 * f + 4 * i) (inl (omega arith)) ∙ self;
        entry = λ k below mapped. p.entry k (omega arith) below mapped;
        apart = λ a off away.
            p.apart a (ground arith)
            ∙ load-store_apart m.mem (4096 * f + 4 * i) a (to_frame (f + 1 + i)) (ground arith);
      }
  | inr beyond ↦ record {
    next = record m { mem = store m.mem (4096 * f + 4 * i) 0 };
    returns = map_table_none (suc fuel) (4096 * f) i m beyond;
    kmem = refl;
    cr0 = refl;
    mmap = λ j. ground (arith, beyond);
    table = λ h. absurd (ground arith);
    entry = λ k below mapped. absurd (ground arith);
    apart = λ a off away. load-store_apart m.mem (4096 * f + 4 * i) a 0 (ground arith);
  }
]
