-- ===== src/Kernel/Paging.antt =====
-- kernel/mm.c, the page tables: `open_pagination`, and the start of the memory, `mm_init`. The
-- functions that wait for a page take the fuel of `get_free_page`.
pub mod Fault
pub mod Share
pub mod Start
pub mod Map
pub mod Clone
pub mod Identity
use gml_vm.Base.{
  ℕ, zero, suc, ◌+◌, ◌-◌, ◌*◌, ◌^◌, ◌%◌, Option, some, none, ◌==◌, ltb, leb, if◌then◌else◌, bit_or,
  shl, shr, u32,
}
use gml_vm.Kernel.Machine.{Machine, Step, update, store, ◌>>=◌, ◌>>◌, pure, get, put}
use gml_vm.Kernel.Frames.{get_free_page}
use gml_vm.Kernel.Trap.{Handlers, install_int, ker_code_sec, tra_gate, idt_r0}

-- `for (i = lo; i < hi; i++) mmap[i] = v`, with `n` rounds.
unfoldable pub fill : (n i v : ℕ) → (ℕ → ℕ) → ℕ → ℕ
fill zero i v mmap = mmap
fill (suc n) i v mmap = fill n (i + 1) v (update mmap i v)

-- `table[index] = value`
abbrev pub store_entry : (table index value : ℕ) → Step (Unit {0})
store_entry table index value m =
    some (tt, record m { mem = store m.mem (table + 4 * index) value })

-- The entries of page table `i`, from `j` on with `n` rounds left.
unfoldable pub map_pages : (n j i pte : ℕ) → Step (Unit {0})
map_pages zero j i pte m = some (tt, m)
map_pages (suc n) j i pte m =
    let rest =
      map_pages n (j + 1) i pte
        (record m { mem = store m.mem (pte + 4 * j) (bit_or (bit_or (shl i 22) (shl j 12)) 3) }) in
    if ltb (shl i 10 + j) (shr m.kmem 12) then rest else some (tt, m)

-- One entry of the page directory: a table for the memory that is mapped, or nothing.
unfoldable pub map_table : (fuel pde i : ℕ) → Step (Unit {0})
map_table fuel pde i m =
    if leb i (shr m.kmem 22)
    then (do pte ← get_free_page fuel; store_entry pde i (bit_or pte 3); map_pages 1024 0 i pte) m
    else store_entry pde i 0 m

unfoldable pub map_tables : (fuel n pde i : ℕ) → Step (Unit {0})
map_tables fuel zero pde i = pure tt
map_tables fuel (suc n) pde i = do map_table fuel pde i; map_tables fuel n pde (i + 1)

-- `mov %0,%%cr3`, and the bits PG and WP of `cr0`
unfoldable pub load_tables : (pde : ℕ) → Step (Unit {0})
load_tables pde m = some (tt, record m { cr3 = pde; cr0 = bit_or m.cr0 0x80010000 })

unfoldable pub open_pagination : (fuel : ℕ) → Step ℕ
open_pagination fuel = do
  pde ← get_free_page fuel
  map_tables fuel 1024 pde 0
  load_tables pde
  pure pde

-- The part of `mm_init` and `mmap_init` behind the tables of frames.
unfoldable pub start_paging : Handlers → (fuel : ℕ) → Step ℕ
start_paging h fuel m =
    let small = if ltb m.hmem m.kmem then m.hmem else m.kmem in
    let m' =
      install_int 14 h.page_fault ker_code_sec (bit_or tra_gate idt_r0)
        (record m { kmem = small }) in
    open_pagination fuel m'

-- All frames are marked, and those from 0x10 on freed up to a quarter of `upper`.
unfoldable pub mm_frames : (upper : ℕ) → (ℕ → ℕ) → ℕ → ℕ
mm_frames upper mmap = fill (shr upper 2 - 0x10) 0x10 0 (fill 0x100000 0 100 mmap)

unfoldable pub mm_init : Handlers → (fuel lower upper : ℕ) → Step ℕ
mm_init h fuel lower upper m =
    start_paging h fuel (record m { mmap = mm_frames upper m.mmap; hmem = upper })
