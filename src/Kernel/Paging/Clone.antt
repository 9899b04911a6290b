-- ===== src/Kernel/Paging/Clone.antt =====
-- kernel/mm.c: `create_mm`, the tables of a new virtual machine. The pages above the kernel's are
-- shared: each is taken the right to write, and counts one holder more.
pub mod Protect
use gml_vm.Base.{
  ℕ, zero, suc, ◌+◌, ◌-◌, ◌*◌, ◌^◌, ◌%◌, Option, some, none, ◌==◌, if◌then◌else◌, bit_and, shr, u8,
}
use gml_vm.Kernel.Machine.{Machine, Step, update, store, ◌>>=◌, ◌>>◌, pure}
use gml_vm.Kernel.Memory.{memcpy}
use gml_vm.Kernel.Frames.{get_free_page}
use gml_vm.Kernel.Paging.{store_entry}
use gml_vm.Kernel.Paging.Fault.{entry}

-- `mmap[e>>12]++` of an unsigned char
abbrev pub add_holder : (e : ℕ) → Machine → Machine
add_holder e m = record m { mmap = update m.mmap (shr e 12) (u8 (m.mmap (shr e 12) + 1)) }

-- `table[i] &= 0xfffffffd; mmap[table[i]>>12]++;`
abbrev pub protect : (table i : ℕ) → Machine → Machine
protect table i m =
    let e = bit_and (entry table i m) 0xffff_fffd in
    add_holder e (record m { mem = store m.mem (table + 4 * i) e })

-- The entries of a page table, from `j` on with `n` rounds left.
unfoldable pub share_pages : (n j pte : ℕ) → Machine → Machine
unfolding entry
share_pages zero j pte m = m
share_pages (suc n) j pte m =
    share_pages n (j + 1) pte (if bit_and (entry pte j m) 1 == 0 then m else protect pte j m)

unfoldable pub share_table : (old_mm i : ℕ) → Machine → Machine
unfolding entry share_pages
share_table old_mm i m =
    if bit_and (entry old_mm i m) 1 == 0
    then m
    else protect old_mm i (share_pages 1024 0 (bit_and (entry old_mm i m) 0xffff_fc00) m)

unfoldable pub share_tables : (n i old_mm : ℕ) → Machine → Machine
share_tables zero i old_mm m = m
share_tables (suc n) i old_mm m = share_tables n (i + 1) old_mm (share_table old_mm i m)

unfoldable pub create_mm : (fuel : ℕ) → Step ℕ
create_mm fuel = do
  new_mm ← get_free_page fuel
  (λ m. some (tt, share_tables (1024 - shr m.kmem 22) (shr m.kmem 22) m.cr3 m))
  (λ m. some (tt, record m { mem = memcpy new_mm m.cr3 1024 m.mem }))
  pure new_mm
