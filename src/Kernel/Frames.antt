-- ===== src/Kernel/Frames.antt =====
-- kernel/mm.c, the page frames: `get_free_page`, `uget_free_page` and `free_page`. A frame is free
-- when its byte in `mmap` is 0.
pub mod Scan
pub mod Laws
use gml_vm.Base.{
  ℕ, zero, suc, ◌+◌, ◌-◌, ◌^◌, ◌*◌, ◌%◌, Option, none, some, ◌==◌, ltb, if◌then◌else◌, shl, shr,
}
use gml_vm.Kernel.Machine.{Machine, Step, update}

abbrev pub kernel_space : ℕ
kernel_space = 0x400000

-- `for (i = lo; i < hi; i++) if (mmap[i] == 0) …`: the index found, with `n` rounds left.
unfoldable pub scan : (n i : ℕ) → (ℕ → ℕ) → Option ℕ
scan zero i mmap = none
scan (suc n) i mmap = let rest = scan n (i + 1) mmap in if mmap i == 0 then some i else rest

-- `mmap[i] = 1`
abbrev pub take_frame : Machine → ℕ → Machine
take_frame m i = record m { mmap = update m.mmap i 1 }

abbrev pub kernel_scan : Machine → Option ℕ
kernel_scan m = scan (shr m.kmem 12 - shr kernel_space 12) (shr kernel_space 12) m.mmap

-- `while(1)` over the scan: a round that finds no frame changes nothing.
unfoldable pub get_free_page : (fuel : ℕ) → Step ℕ
unfolding scan
get_free_page zero m = none
get_free_page (suc fuel) m = elim (kernel_scan m) [
  | some i ↦ some (shl i 12, take_frame m i)
  | none ↦ get_free_page fuel m
]

abbrev pub user_scan : Machine → Option ℕ
user_scan m = scan (shr m.hmem 12 - shr m.kmem 12) (shr m.kmem 12) m.mmap

-- The user's frames first, then the kernel's.
unfoldable pub uget_free_page : (fuel : ℕ) → Step ℕ
unfolding get_free_page
uget_free_page fuel m = elim (user_scan m) [
  | some i ↦ some (shl i 12, take_frame m i)
  | none ↦ get_free_page fuel m
]

-- The results 0 and -1.
pub data Status : Type 0 where
  success failure : Status

unfoldable pub free_page : ℕ → Machine → Status × Machine
free_page addr m =
    if ltb m.hmem addr
    then (failure, m)
    else if m.mmap (shr addr 12) == 0
    then (failure, m)
    else (success, record m { mmap = update m.mmap (shr addr 12) (m.mmap (shr addr 12) - 1) })
