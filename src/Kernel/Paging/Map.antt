-- ===== src/Kernel/Paging/Map.antt =====
-- kernel/mm.c: `mmap_init`, the start of the memory from the boot loader's map of areas
-- (include/multiboot.h). The areas stand one behind the other in memory, each with its size in front.
pub mod Areas
pub mod Boot
use gml_vm.Base.{
  ℕ, zero, suc, ◌+◌, ◌*◌, ◌^◌, ◌%◌, Option, some, none, ◌==◌, ltb, if◌then◌else◌, shr, u32,
}
use gml_vm.Kernel.Machine.{Machine, Step, load}
use gml_vm.Kernel.Trap.{Handlers}
use gml_vm.Kernel.Paging.{fill, start_paging}

-- `memory_map_t`
pub record MemoryMap : Type 0 where
  pub size : ℕ
  pub base_addr_low : ℕ
  pub base_addr_high : ℕ
  pub length_low : ℕ
  pub length_high : ℕ
  pub kind : ℕ

-- `mmap_p`, an area read at its address; the field `type` is `kind` here.
abbrev pub area_at : (ℕ → ℕ) → ℕ → MemoryMap
area_at mem addr = record {
  size = load mem addr;
  base_addr_low = load mem (addr + 4);
  base_addr_high = load mem (addr + 8);
  length_low = load mem (addr + 12);
  length_high = load mem (addr + 16);
  kind = load mem (addr + 20);
}

abbrev pub busy_of : MemoryMap → ℕ
busy_of a = if a.kind == 1 then 0 else 100

-- The body of the loop for one area.
unfoldable pub mark_area : MemoryMap → Machine → Machine
mark_area a m = record m {
  hmem = if a.kind == 1 then u32 (a.base_addr_low + a.length_low) else m.hmem;
  mmap = fill (shr a.length_low 12) 0 (busy_of a) m.mmap;
}

-- The loop over the areas up to the address `limit`. The array `mmap` does not overlap the areas.
unfoldable pub mark_areas : (fuel addr limit : ℕ) → Machine → Option Machine
mark_areas zero addr limit m = none
mark_areas (suc fuel) addr limit m =
    let a = area_at m.mem addr in
    let rest = mark_areas fuel (u32 (addr + u32 (a.size + 4))) limit (mark_area a m) in
    if ltb addr limit then rest else some m

-- The paging that follows, on what the loop leaves.
abbrev pub marked_then : (Machine → Option (ℕ × Machine)) → Option Machine → Option (ℕ × Machine)
marked_then k none = none
marked_then k (some m) = k m

unfoldable pub mmap_init : Handlers → (fuel addr length : ℕ) → Step ℕ
mmap_init h fuel addr length m =
    marked_then (start_paging h fuel)
      (mark_areas fuel addr (u32 (length + addr)) (record m { mmap = fill 0x100000 0 100 m.mmap }))
