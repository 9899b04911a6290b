-- ===== src/Kernel/Paging/Start.antt =====
-- `mm_init`: the start of the memory from the sizes that the boot loader gives in kilobytes.
use gml_vm.Base.{
  ℕ, zero, suc, ◌+◌, ◌-◌, ◌/◌, ◌≤◌, ◌<◌, ◌≡◌, inl, inr, none, arith, ltb, leb, if◌then◌else◌, true,
  shr, lt→ltb, ◌&&◌,
}
use gml_vm.Kernel.Machine.{Machine, Step, update, ◌>>=◌}
use gml_vm.Kernel.Frames.{get_free_page}
use gml_vm.Kernel.Frames.Laws.{get_free_page_total}
use gml_vm.Kernel.Trap.{Handlers, install_int}
use gml_vm.Kernel.Paging.{fill, open_pagination, start_paging, mm_frames, mm_init}

-- The loop over the frames writes its range and nothing else.
pub fill_lem :
    (n i v : ℕ) (mmap : ℕ → ℕ) (j : ℕ)
    → fill n i v mmap j ≡ (if leb i j then if ltb j (i + n) then v else mmap j else mmap j)
unfolding fill
fill_lem zero i v mmap j = ground arith
fill_lem (suc n) i v mmap j = ground (arith, fill_lem n (i + 1) v (update mmap i v) j)

-- The frames that `mm_init` frees: from 0x10 up to the number of 4-kilobyte frames in `upper`
-- kilobytes. All other frames are taken.
pub mm_frames_lem :
    (upper : ℕ) (mmap : ℕ → ℕ) (j : ℕ)
    → j < 0x100000
    → mm_frames upper mmap j ≡ (if leb 0x10 j && ltb j (upper / 4) then 0 else 100)
unfolding mm_frames
mm_frames_lem upper mmap j h =
    let all = fill_lem 0x100000 0 100 mmap j in
    let freed = fill_lem (shr upper 2 - 0x10) 0x10 0 (fill 0x100000 0 100 mmap) j in
    ground (arith, all, freed)

-- A step that does not come back stops what follows it.
bind-none :
    {A B : Type 0} (s : Step A) (k : A → Step B) (m : Machine) → s m ≡ none → (s >>= k) m ≡ none
bind-none s k m never = rw (never, ◌>>=◌)

open_pagination-none : (fuel : ℕ) (m : Machine) → m.kmem ≤ 0x400000 → open_pagination fuel m ≡ none
unfolding open_pagination
open_pagination-none fuel m bound = elim (get_free_page_total m) [
  | inl (i, first, back) ↦ absurd (omega (arith, first.from, first.below))
  | inr (all, never) ↦ bind-none (get_free_page fuel) _ m (never fuel)
]

-- `mm_init` takes the kilobytes of `upper` for the top of the memory in bytes. With the size of
-- mapped memory that the kernel starts with, any number of kilobytes that 32 bits of addresses
-- have room for is below the first page that the kernel may hand out, and `mm_init` never comes
-- back, whatever the fuel.
pub mm_init_hangs :
    (h : Handlers) (fuel lower upper : ℕ) (m : Machine)
    → m.kmem ≡ 0x40000000
    → upper ≤ 0x400000
    → mm_init h fuel lower upper m ≡ none
unfolding mm_init start_paging install_int
mm_init_hangs h fuel lower upper m kmem bound =
    let small : ltb upper m.kmem ≡ true = lt→ltb upper m.kmem (omega arith) in
    rw small (open_pagination-none fuel _ bound)
