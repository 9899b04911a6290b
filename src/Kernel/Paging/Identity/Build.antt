-- ===== src/Kernel/Paging/Identity/Build.antt =====
-- `open_pagination`: all page tables, and the translation that they make.
use gml_vm.Base.{
  ℕ, zero, suc, ◌+◌, ◌*◌, ◌/◌, ◌%◌, ◌^◌, ◌≤◌, ◌<◌, ◌≡◌, ◌≢◌, refl, sym, subst, ◌∙◌, ap, inl, inr,
  ◌==◌, shl, arith, Bool-cases, ==→eq, bit_or, Option, some,
}
use gml_vm.Kernel.Machine.{Machine, load, ◌>>=◌, ◌>>◌}
use gml_vm.Kernel.Frames.{take_frame, get_free_page}
use gml_vm.Kernel.Frames.Laws.{FirstKernel, get_free_page-first}
use gml_vm.Kernel.Paging.{map_tables, load_tables, open_pagination}
use gml_vm.Kernel.Paging.Fault.Walk.{walk, frame}
use gml_vm.Kernel.Paging.Identity.{to_frame, Turn, map_table-Turn}

-- The frames from `f` on, as many as the directory and the tables need, lie in the kernel's part.
pub record HasRoom (m : Machine) (f : ℕ) : Type 0 where
  pub from : 0x400 ≤ f
  pub below : f + 1 + m.kmem / 2 ^ 22 < m.kmem / 4096
  pub bound : m.kmem < 2 ^ 32

-- The first `i` tables are built, and the frames for the others are free.
record Built (m : Machine) (f i : ℕ) : Type 0 where
  free : (j : ℕ) → f + 1 + i ≤ j → j ≤ f + 1 + m.kmem / 2 ^ 22 → m.mmap j ≡ 0
  taken : (j : ℕ) → 0x400 ≤ j → j < f + 1 + i → j ≤ f + 1 + m.kmem / 2 ^ 22 → m.mmap j ≢ 0
  table :
      (t : ℕ) → t < i → t ≤ m.kmem / 2 ^ 22 → load m.mem (4096 * f + 4 * t) ≡ to_frame (f + 1 + t)
  entry :
      (t k : ℕ)
      → t < i
      → k < 1024
      → 1024 * t + k < m.kmem / 4096
      → load m.mem (4096 * (f + 1 + t) + 4 * k) ≡ to_frame (1024 * t + k)

Built-first :
    (m : Machine) (f i : ℕ)
    → HasRoom m f
    → Built m f i
    → i ≤ m.kmem / 2 ^ 22
    → FirstKernel m (f + 1 + i)
Built-first m f i room b le = record {
  from = omega (arith, room.from);
  below = omega (arith, room.below);
  free = b.free (f + 1 + i) (omega arith) (omega arith);
  taken = λ j p q. b.taken j p q (omega arith);
}

Built-next :
    (m : Machine) (f i : ℕ) {r : Option (Unit {0} × Machine)}
    → i < 1024
    → Built m f i
    → (t : Turn m f i r) → Built t.next f (i + 1)
Built-next m f i small b t =
    let top : t.next.kmem / 2 ^ 22 ≡ m.kmem / 2 ^ 22 = omega (arith, t.kmem) in
    record {
      free = λ j p q. ground (arith, t.mmap j, b.free j, top);
      taken = λ j p q w. ground (arith, t.mmap j, b.taken j, top);
      table = λ u p q. elim (Bool-cases (u == i)) [
        | inl here ↦
            let same = ==→eq u i here in
            subst (λ e. load t.next.mem (4096 * f + 4 * e) ≡ to_frame (f + 1 + e)) (sym same)
              (t.table (omega (arith, same, top)))
        | inr other ↦
            t.apart (4096 * f + 4 * u) (ground arith) (omega arith)
            ∙ b.table u (ground arith) (omega (arith, top))
      ];
      entry = λ u k p q w. elim (Bool-cases (u == i)) [
        | inl here ↦
            let same = ==→eq u i here in
            subst (λ e. load t.next.mem (4096 * (f + 1 + e) + 4 * k) ≡ to_frame (1024 * e + k))
              (sym same) (t.entry k q (omega (arith, same, t.kmem)))
        | inr other ↦
            t.apart (4096 * (f + 1 + u) + 4 * k) (omega arith) (ground arith)
            ∙ b.entry u k (ground arith) q (omega (arith, t.kmem))
      ];
    }

-- The loop over the directory comes back with all tables built.
record AllBuilt (m : Machine) (f : ℕ) (r : Option (Unit {0} × Machine)) : Type 0 where
  last : Machine
  returns : r ≡ some (tt, last)
  kmem : last.kmem ≡ m.kmem
  cr0 : last.cr0 ≡ m.cr0
  built : Built last f 1024

map_tables-AllBuilt :
    (n fuel f i : ℕ) (m : Machine)
    → HasRoom m f
    → Built m f i
    → n + i ≡ 1024
    → AllBuilt m f (map_tables (suc fuel) n (4096 * f) i m)
unfolding map_tables
map_tables-AllBuilt zero fuel f i m room b all = record {
  last = m;
  returns = refl;
  kmem = refl;
  cr0 = refl;
  built = let e : i ≡ 1024 = omega arith in subst (λ t. Built m f t) e b;
}
map_tables-AllBuilt (suc n) fuel f i m room b all =
    let t = map_table-Turn fuel f i m (omega arith) room.bound (Built-first m f i room b) in
    let room' : HasRoom t.next f = record {
      from = room.from;
      below = omega (arith, room.below, t.kmem);
      bound = omega (arith, room.bound, t.kmem);
    } in
    let r =
      map_tables-AllBuilt n fuel f (i + 1) t.next room' (Built-next m f i (omega arith) b t)
        (omega arith) in
    record {
      last = r.last;
      returns = rw (◌>>◌, t.returns) r.returns;
      kmem = r.kmem ∙ t.kmem;
      cr0 = r.cr0 ∙ t.cr0;
      built = r.built;
    }

-- With all tables built and the directory in `cr3`, an address of mapped memory leads to itself.
Built-walk :
    (m : Machine) (f v : ℕ)
    → HasRoom m f
    → Built m f 1024
    → m.cr3 ≡ 4096 * f
    → v / 4096 < m.kmem / 4096
    → walk m v ≡ some v
Built-walk m f v room b at mapped =
    let i = v / 2 ^ 22 in
    let k = v / 4096 % 1024 in
    let d = b.table i (omega (arith, room.bound)) (omega arith) in
    let page : frame (to_frame (f + 1 + i)) ≡ 4096 * (f + 1 + i) =
      omega (arith, room.below, room.bound) in
    let e = b.entry i k (omega (arith, room.bound)) (omega arith) (omega arith) in
    let d_odd : to_frame (f + 1 + i) % 2 ≡ 1 = omega arith in
    let e_odd : to_frame (1024 * i + k) % 2 ≡ 1 = omega arith in
    let back : frame (to_frame (1024 * i + k)) + v % 4096 ≡ v = omega (arith, room.bound) in
    rw (at, d, d_odd, page, e, e_odd, back) refl

pub record IsIdentity (m : Machine) (f : ℕ) (r : Option (ℕ × Machine)) : Type 0 where
  pub last : Machine
  pub returns : r ≡ some (4096 * f, last)
  pub cr3 : last.cr3 ≡ 4096 * f
  pub cr0 : last.cr0 ≡ bit_or m.cr0 0x80010000
  pub identity : (v : ℕ) → v / 4096 < m.kmem / 4096 → walk last v ≡ some v

loaded-Built :
    (m : Machine) (f pde c : ℕ) → Built m f 1024 → Built (record m { cr3 = pde; cr0 = c }) f 1024
loaded-Built m f pde c b = record {
  free = b.free;
  taken = b.taken;
  table = b.table;
  entry = b.entry;
}

taken-Built :
    (m : Machine) (f : ℕ)
    → FirstKernel m f
    → ((j : ℕ) → f ≤ j → j ≤ f + 1 + m.kmem / 2 ^ 22 → m.mmap j ≡ 0)
    → Built (take_frame m f) f 0
taken-Built m f first free = record {
  free = λ j p q. ground (arith, free j);
  taken = λ j p q w. ground (arith, first.taken j);
  table = λ t p. absurd (omega arith);
  entry = λ t k p. absurd (omega arith);
}

-- `open_pagination`, with any fuel above 0, when the first free frame of the kernel and those
-- behind it, as many as the tables need, are free and lie in the kernel's part, which ends below
-- 2 ^ 32: it comes back with the directory in the first of them, turns paging on, and the
-- processor's translation then leads each address of the mapped memory, up to its last whole
-- page, to itself.
pub open_pagination-IsIdentity :
    (fuel f : ℕ) (m : Machine)
    → FirstKernel m f
    → HasRoom m f
    → ((j : ℕ) → f ≤ j → j ≤ f + 1 + m.kmem / 2 ^ 22 → m.mmap j ≡ 0)
    → IsIdentity m f (open_pagination (suc fuel) m)
unfolding open_pagination load_tables
open_pagination-IsIdentity fuel f m first room free =
    let page : shl f 12 ≡ 4096 * f = omega (arith, first.below, room.bound) in
    let got : get_free_page (suc fuel) m ≡ some (4096 * f, take_frame m f) =
      get_free_page-first m f fuel first ∙ ap (λ a. some (a, take_frame m f)) page in
    let room' : HasRoom (take_frame m f) f = record {
      from = room.from;
      below = room.below;
      bound = room.bound;
    } in
    let r =
      map_tables-AllBuilt 1024 fuel f 0 (take_frame m f) room' (taken-Built m f first free) refl in
    let g = record r.last { cr3 = 4096 * f; cr0 = bit_or r.last.cr0 0x80010000 } in
    let room'' : HasRoom g f = record {
      from = room.from;
      below = omega (arith, room.below, r.kmem);
      bound = omega (arith, room.bound, r.kmem);
    } in
    record {
      last = g;
      returns = rw (◌>>=◌, ◌>>◌, got, r.returns) refl;
      cr3 = refl;
      cr0 = ap (λ c. bit_or c 0x80010000) r.cr0;
      identity = λ v mapped.
          Built-walk g f v room'' (loaded-Built r.last f (4096 * f) _ r.built) refl
            (omega (arith, r.kmem));
    }
