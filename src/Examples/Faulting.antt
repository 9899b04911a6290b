-- ===== src/Examples/Faulting.antt =====
-- Runs of the interrupt table and of the handler of missing pages.
use gml_vm.Base.{
  ℕ, inl, ◌+◌, ◌≡◌, refl, inr, arith, some, u8, bit_and, ltb, ◌==◌, if◌then◌else◌, [], ◌∷◌,
}
use gml_vm.Port.{out8, in8, done}
use gml_vm.Kernel.Machine.{Gate, Machine, load}
use gml_vm.Kernel.Frames.{take_frame}
use gml_vm.Kernel.Frames.Laws.{FirstUser}
use gml_vm.Kernel.Trap.{Handlers, trap_init}
use gml_vm.Kernel.Trap.Vector.{GateTo, trap_init-GateTo}
use gml_vm.Kernel.Paging.Fault.{do_no_page}
use gml_vm.Kernel.Paging.Share.{drop_holder, un_wp_page}
use gml_vm.Kernel.Paging.Share.Copy.{un_wp_page_shared}
use gml_vm.Kernel.Paging.Fault.Walk.{HasTable, mapped, walk, do_no_page-walk}
use gml_vm.Examples.Setup.{zeros}

-- A directory at 0x400000 whose entry 64 names the table at 0x401000.
abbrev directory : ℕ → ℕ
directory j =
    if j == 0x400100
    then 0x07
    else if j == 0x400101
    then 0x10
    else if j == 0x400102
    then 0x40
    else 0

abbrev gate : Gate
gate = record { addr1 = 0; section = 0; attr = 0; addr2 = 0 }

abbrev machine : Machine
machine = record {
  hmem = 0x2000000;
  kmem = 0x1000000;
  mmap = λ i. if i == 0x1000 then 1 else 0;
  mem = directory;
  cr0 = 0;
  cr3 = 0x400000;
  idt = λ i. gate;
}

first_user : FirstUser machine 0x1001
first_user = record {
  from = omega arith;
  below = omega arith;
  free = refl;
  taken = λ j p q. ground arith;
}

has_table : HasTable machine 0x10000123
unfolding load
has_table = record { address = omega arith; present = refl; apart = inr (omega arith) }

do_no_page-walk_example :
    (do_no_page 0 2 0x10000123 machine
      ≡ some (tt, mapped (take_frame machine 0x1001) 0x10000123 0x1001000))
    × (walk (mapped (take_frame machine 0x1001) 0x10000123 0x1001000) 0x10000123 ≡ some 0x1001123)
do_no_page-walk_example =
    do_no_page-walk machine 0 2 0x10000123 0x1001 first_user (omega arith) has_table

abbrev handlers : Handlers
handlers = record {
  null_int = 0x100100;
  ts_int = 0x100200;
  nci_int = 0x123456;
  page_fault = 0x1000;
  int = zeros;
}

trap_init-GateTo_example :
    (m' : Machine) × (trap_init handlers machine (0xff ∷ [])
      ≡ done tt m'
          (out8 0x43 0x36
            ∷ out8 0x40 0xdc
            ∷ out8 0x40 0x34
            ∷ in8 0x21
            ∷ out8 0x21 (u8 (bit_and (u8 0xff) 0xffff_fff7))
            ∷ [])
          [])
    × GateTo 0x123456 (m'.idt 0x23)
trap_init-GateTo_example =
    trap_init-GateTo handlers machine 0x23 0xff [] (omega arith) (omega arith)

-- Frame 0x1000 has two holders.
abbrev shared_machine : Machine
shared_machine = record machine { mmap = λ i. if i == 0x1000 then 2 else 0 }

shared_user : FirstUser (drop_holder 0x1000000 shared_machine) 0x1001
shared_user = record {
  from = omega arith;
  below = omega arith;
  free = refl;
  taken = λ j p q. ground arith;
}

un_wp_page_shared_example :
    (m' : Machine) × (un_wp_page 0 7 0x1000000 shared_machine ≡ some (0x1001000, m'))
    × (m'.mmap 0x1000 + 1 ≡ 2)
    × (m'.mmap 0x1001 ≡ 1)
    × (m'.mem (0x1001000 + 5)
        ≡ (if ltb 5 1024 then directory (0x1000000 + 5) else directory (0x1001000 + 5)))
un_wp_page_shared_example =
    un_wp_page_shared shared_machine 0 7 0x1000000 0x1001 5 (omega arith) shared_user (omega arith)
      (inl (omega arith)) (omega arith)
