-- ===== src/Examples/Allocating.antt =====
-- Runs of the frame allocator and of the start of the memory.
use gml_vm.Base.{ℕ, suc, ◌≡◌, refl, ◌⊎◌, arith, none, some, shl, shr, ◌==◌, if◌then◌else◌}
use gml_vm.Kernel.Machine.{Gate, Machine}
use gml_vm.Kernel.Frames.{take_frame, get_free_page, uget_free_page, free_page, success}
use gml_vm.Kernel.Frames.Scan.{AllTaken}
use gml_vm.Kernel.Frames.Laws.{
  FirstKernel, FirstUser, get_free_page_total, uget_free_page_total, free_page-get_free_page,
}
use gml_vm.Kernel.Trap.{Handlers}
use gml_vm.Kernel.Paging.{mm_init}
use gml_vm.Kernel.Paging.Start.{mm_init_hangs}
use gml_vm.Examples.Setup.{zeros}

-- Frame 0x400 is taken, all others are free.
abbrev first_taken : ℕ → ℕ
first_taken j = if j == 0x400 then 1 else 0

abbrev gate : Gate
gate = record { addr1 = 0; section = 0; attr = 0; addr2 = 0 }

abbrev pub machine : Machine
machine = record {
  hmem = 0x2000000;
  kmem = 0x1000000;
  mmap = first_taken;
  mem = zeros;
  cr0 = 0;
  cr3 = 0;
  idt = λ i. gate;
}

pub first_free : FirstKernel machine 0x401
first_free = record {
  from = omega arith;
  below = omega arith;
  free = refl;
  taken = λ j p q. ground arith;
}

get_free_page_total_example :
    ((i : ℕ) × FirstKernel machine i
      × ((fuel : ℕ) → get_free_page (suc fuel) machine ≡ some (shl i 12, take_frame machine i)))
    ⊎ (AllTaken first_taken 0x400 (shr 0x1000000 12)
        × ((fuel : ℕ) → get_free_page fuel machine ≡ none))
get_free_page_total_example = get_free_page_total machine

uget_free_page_total_example :
    ((i : ℕ) × FirstUser machine i
      × ((fuel : ℕ) → uget_free_page fuel machine ≡ some (shl i 12, take_frame machine i)))
    ⊎ (AllTaken first_taken (shr 0x1000000 12) (shr 0x2000000 12)
        × ((fuel : ℕ) → uget_free_page fuel machine ≡ get_free_page fuel machine))
uget_free_page_total_example = uget_free_page_total machine

free_page-get_free_page_example :
    free_page (shl 0x401 12) (take_frame machine 0x401) ≡ (success, machine)
free_page-get_free_page_example =
    free_page-get_free_page machine 0x401 first_free (omega arith) (omega arith)

abbrev pub handlers : Handlers
handlers = record { null_int = 0; ts_int = 0; nci_int = 0; page_fault = 0x1000; int = zeros }

mm_init_hangs_example : mm_init handlers 5 640 0x8000 (record machine { kmem = 0x40000000 }) ≡ none
mm_init_hangs_example =
    mm_init_hangs handlers 5 640 0x8000 (record machine { kmem = 0x40000000 }) refl (omega arith)
