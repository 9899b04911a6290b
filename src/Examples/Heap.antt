-- ===== src/Examples/Heap.antt =====
-- A run of `malloc`.
use gml_vm.Base.{refl, [], ◌∷◌, ◌==◌, if◌then◌else◌, arith}
use gml_vm.Kernel.Malloc.{Nodes, free_state, busy_state}
use gml_vm.Kernel.Malloc.Pool.{Pool, malloc}
use gml_vm.Kernel.Malloc.Room.{IsHeap}
use gml_vm.Kernel.Malloc.Best.{Served, malloc-Served}
use gml_vm.Examples.Allocating.{machine}

-- 100 bytes at the start of a page are the caller's, the others are free.
abbrev pub nodes : Nodes
nodes a =
    if a == 0x3000
    then record { size = 0; next = 0x400074; root = 0; state = free_state }
    else if a == 0x400074
    then record { size = 3964; next = 0; root = 0x3000; state = free_state }
    else record { size = 100; next = 0; root = 0; state = busy_state }

abbrev pub pool : Pool
pool = record { machine = machine; nodes = nodes; list = 0x3000 }

pub nodes-IsHeap : IsHeap nodes 0x3000 (0x400074 ∷ [])
nodes-IsHeap = record {
  linked = (omega arith, refl, refl, (omega arith, refl, tt, tt));
  distinct = (refl, (refl, tt));
  spread = λ a b i j ne. ground arith;
  sorted = (λ y i. ground arith, (λ y i. absurd (ground (arith, i)), tt));
  empty = refl;
  pos = λ a i. ground arith;
  fits = λ a i. ground arith;
  state = λ a i. ground arith;
}

malloc-Served_example : Served pool 10 (0x400074 ∷ []) (malloc 3 10 pool)
malloc-Served_example =
    malloc-Served 3 10 0x400074 pool (0x400074 ∷ []) nodes-IsHeap (omega arith) (omega arith) refl
      (omega arith) (omega arith)
