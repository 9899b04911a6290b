-- ===== src/Kernel/Paging/Fault.antt =====
-- kernel/mm.c: `put_page` and the handler of a page that is not there, `do_no_page`. Addresses of
-- tables are physical: the kernel's memory is mapped onto itself.
pub mod Walk
use gml_vm.Base.{
  ℕ, ◌+◌, ◌*◌, ◌/◌, ◌%◌, ◌^◌, Option, some, none, not, ◌==◌, if◌then◌else◌, bit_and, bit_or, shr,
}
use gml_vm.Kernel.Machine.{Machine, Step, load, ◌>>=◌, ◌>>◌, pure, get}
use gml_vm.Kernel.Frames.{Status, success, failure, get_free_page, uget_free_page}
use gml_vm.Kernel.Paging.{store_entry}

-- `table[index]`
unfoldable pub entry : (table index : ℕ) → Machine → ℕ
entry table index m = load m.mem (table + 4 * index)

-- A page table for `vd`, made when the directory has none.
unfoldable pub ensure_table : (fuel vd : ℕ) → Step (Unit {0})
ensure_table fuel vd m =
    if bit_and (entry m.cr3 (shr vd 22) m) 1 == 0
    then (do p ← get_free_page fuel; store_entry m.cr3 (shr vd 22) (bit_or p 7)) m
    else some (tt, m)

unfoldable pub put_entry : (vd pd : ℕ) → Step (Unit {0})
put_entry vd pd m =
    store_entry (bit_and (entry m.cr3 (shr vd 22) m) 0xffff_f000) (bit_and (shr vd 12) 0x3ff)
      (bit_or pd 7) m

unfoldable pub put_page : (fuel vd pd : ℕ) → Step Status
put_page fuel vd pd m =
    if m.mmap (shr pd 12) == 0
    then some (failure, m)
    else (do ensure_table fuel vd; put_entry vd pd; pure success) m

unfoldable pub do_no_page : (fuel error addr : ℕ) → Step (Unit {0})
do_no_page fuel error addr = do pd ← uget_free_page fuel; status ← put_page fuel addr pd; pure tt
