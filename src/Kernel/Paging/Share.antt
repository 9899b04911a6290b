-- ===== src/Kernel/Paging/Share.antt =====
-- kernel/mm.c, copy on write: `un_wpte_page`, `un_wp_page` and the handler `do_wp_page`. The local
-- `new_page` is returned without a value when the page has one holder: `junk` is what stands in it, in
-- `do_wp_page` for the one of `un_wpte_page`, and `junk'` for that of `un_wp_page`.
pub mod Copy
use gml_vm.Base.{ℕ, some, ◌-◌, ◌==◌, ltb, if◌then◌else◌, bit_and, bit_or, shr}
use gml_vm.Kernel.Machine.{Machine, Step, update, ◌>>=◌, ◌>>◌, pure}
use gml_vm.Kernel.Memory.{memcpy}
use gml_vm.Kernel.Frames.{get_free_page, uget_free_page}
use gml_vm.Kernel.Paging.{store_entry}
use gml_vm.Kernel.Paging.Fault.{entry}

-- `mmap[(page)>>12]--`
abbrev pub drop_holder : (page : ℕ) → Machine → Machine
drop_holder page m = record m { mmap = update m.mmap (shr page 12) (m.mmap (shr page 12) - 1) }

abbrev pub copy_page : (new_page page : ℕ) → Step (Unit {0})
copy_page new_page page m = some (tt, record m { mem = memcpy new_page page 1024 m.mem })

unfoldable pub un_wpte_page : (fuel junk page : ℕ) → Step ℕ
un_wpte_page fuel junk page m =
    if ltb 1 (m.mmap (shr page 12))
    then (do new_page ← get_free_page fuel; copy_page new_page page; pure new_page)
        (drop_holder page m)
    else some (junk, m)

unfoldable pub un_wp_page : (fuel junk page : ℕ) → Step ℕ
un_wp_page fuel junk page m =
    if ltb 1 (m.mmap (shr page 12))
    then (do new_page ← uget_free_page fuel; copy_page new_page page; pure new_page)
        (drop_holder page m)
    else some (junk, m)

-- A page table that is shared is taken out of sharing.
unfoldable pub own_table : (fuel junk addr : ℕ) → Step (Unit {0})
own_table fuel junk addr m =
    if bit_and (entry m.cr3 (shr addr 22) m) 2 == 0
    then (do
      p ← un_wpte_page fuel junk (entry m.cr3 (shr addr 22) m)
      store_entry m.cr3 (shr addr 22) (bit_or p 7))
        m
    else some (tt, m)

unfoldable pub own_page : (fuel junk addr : ℕ) → Step (Unit {0})
own_page fuel junk addr m =
    let pte = bit_and (entry m.cr3 (shr addr 22) m) 0xffff_fc00 in
    let index = bit_and (shr addr 12) 0x3ff in
    (do p ← un_wp_page fuel junk (entry pte index m); store_entry pte index (bit_or p 7)) m

unfoldable pub do_wp_page : (fuel junk junk' error addr : ℕ) → Step (Unit {0})
do_wp_page fuel junk junk' error addr = do own_table fuel junk addr; own_page fuel junk' addr
