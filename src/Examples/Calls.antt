-- ===== src/Examples/Calls.antt =====
-- Calls of `malloc` and `free`, one after the other.
use gml_vm.Base.{
  ℕ, ◌+◌, ◌/◌, ◌≡◌, ◌≢◌, refl, List, [], ◌∷◌, ◌==◌, ◌||◌, true, if◌then◌else◌, arith, none, Bool,
  Bool-cases, inl, inr, subst, sym, ==→eq,
}
use gml_vm.Kernel.Frames.Laws.{FirstKernel}
use gml_vm.Kernel.Malloc.{Nodes, free_state, busy_state}
use gml_vm.Kernel.Malloc.Add.{sizes}
use gml_vm.Kernel.Malloc.Pool.{Pool, mmlist, malloc, free, clean}
use gml_vm.Kernel.Malloc.Room.{IsHeap}
use gml_vm.Kernel.Malloc.Tile.{Tiling, Tiling-ext}
use gml_vm.Kernel.Malloc.Del.{remove}
use gml_vm.Kernel.Malloc.Tile.State.{start-IsTiled}
use gml_vm.Kernel.Malloc.Tile.Free.{IsSound, Freed, free-Freed}
use gml_vm.Kernel.Malloc.Tile.Clean.{Cleaned, clean-Cleaned}
use gml_vm.Kernel.Malloc.Tile.Allocate.{Mallocs, malloc-Mallocs}
use gml_vm.Kernel.Malloc.Tile.Session.{
  State, allocates, frees, Calls, none_yet, one_more, Session, Calls-Session, Calls-Mallocs,
  Calls-Freed,
}
use gml_vm.Kernel.Malloc.Tile.Large.{malloc-endless}
use gml_vm.Examples.Allocating.{machine, first_free}
use gml_vm.Examples.Heap.{pool, nodes, nodes-IsHeap}

-- The page 0x400 is in two nodes.
abbrev two_sizes : ℕ → ℕ
two_sizes a = if a == 0x400000 then 100 else 3964

abbrev two_nodes : ℕ → Bool
two_nodes a = (a == 0x400000) || (a == 0x400074)

two_cases : (P : ℕ → Type 0) → P 0x400000 → P 0x400074 → (a : ℕ) → two_nodes a ≡ true → P a
two_cases P p q a i = elim (Bool-cases (a == 0x400000)) [
  | inl here ↦ subst P (sym (==→eq a 0x400000 here)) p
  | inr there ↦ subst P (sym (==→eq a 0x400074 (ground arith))) q
]

two-Tiling : Tiling machine.mmap two_sizes two_nodes
two-Tiling = record {
  off = λ a b i j ne. ground arith;
  high = λ a i. ground arith;
  low = λ a i. ground arith;
  pos = λ a i. ground arith;
  inside = two_cases (λ a. (a + 15 + two_sizes a) / 4096 ≡ a / 4096) refl refl;
  chain = λ a i.
      two_cases
        (λ a. (a + 16 + two_sizes a) / 4096 ≡ a / 4096 → two_nodes (a + 16 + two_sizes a) ≡ true)
        (λ e. refl) (λ e. absurd (omega (arith, e))) a i;
  taken =
      two_cases (λ a. machine.mmap (a / 4096) ≢ 0) (λ e. omega (arith, e)) (λ e. omega (arith, e));
}

pool-IsSound : IsSound pool (0x400074 ∷ []) (0x400000 ∷ [])
pool-IsSound = record {
  tiled = record {
    heap = nodes-IsHeap;
    static = omega arith;
    tiling =
        Tiling-ext machine.mmap two_sizes (sizes nodes) two_nodes _ (λ a. ground arith)
          (λ a i. ground arith) two-Tiling;
    apart = λ a i. ground arith;
    distinct = (refl, tt);
  };
  busy = λ a i. ground arith;
}

-- Both nodes are free.
abbrev loose : Nodes
loose a =
    if a == 0x3000
    then record { size = 0; next = 0x400000; root = 0; state = free_state }
    else if a == 0x400000
    then record { size = 100; next = 0x400074; root = 0x3000; state = free_state }
    else if a == 0x400074
    then record { size = 3964; next = 0; root = 0x400000; state = free_state }
    else record { size = 0; next = 0; root = 0; state = busy_state }

abbrev loose_pool : Pool
loose_pool = record { machine = machine; nodes = loose; list = 0x3000 }

loose-IsHeap : IsHeap loose 0x3000 (0x400000 ∷ 0x400074 ∷ [])
loose-IsHeap = record {
  linked = (omega arith, refl, refl, (omega arith, refl, refl, (omega arith, refl, tt, tt)));
  distinct = (refl, (refl, (refl, tt)));
  spread = λ a b i j ne. ground arith;
  sorted = (λ y i. ground arith, (λ y i. ground arith, (λ y i. absurd (ground (arith, i)), tt)));
  empty = refl;
  pos = λ a i. ground arith;
  fits = λ a i. ground arith;
  state = λ a i. ground arith;
}

loose-IsSound : IsSound loose_pool (0x400000 ∷ 0x400074 ∷ []) []
loose-IsSound = record {
  tiled = record {
    heap = loose-IsHeap;
    static = omega arith;
    tiling =
        Tiling-ext machine.mmap two_sizes (sizes loose) two_nodes _ (λ a. ground arith)
          (λ a i. ground arith) two-Tiling;
    apart = λ a i. absurd (ground (arith, i));
    distinct = tt;
  };
  busy = λ a i. absurd (ground (arith, i));
}

clean-Cleaned_example :
    Cleaned loose_pool (0x400000 ∷ 0x400074 ∷ []) [] (clean 6 6 0x400000 loose_pool)
clean-Cleaned_example =
    clean-Cleaned 6 loose_pool (0x400000 ∷ 0x400074 ∷ []) [] loose-IsSound (omega arith)

malloc-endless_example : malloc 6 5000 loose_pool ≡ none
malloc-endless_example =
    malloc-endless 6 5000 loose_pool (0x400000 ∷ 0x400074 ∷ []) [] loose-IsSound (omega arith)
      (omega arith) (omega arith) (omega arith)

-- One call that frees the busy node.
abbrev before : State
before = record { pool = pool; held = 0x400000 ∷ [] }

abbrev freed : Freed pool 0x400000 (0x400074 ∷ []) (0x400000 ∷ []) (free 9 0x400010 pool)
freed = free-Freed 9 0x400000 pool (0x400074 ∷ []) (0x400000 ∷ []) pool-IsSound refl (omega arith)

abbrev after_free : State
after_free = record { pool = freed.pool; held = [] }

one_free : Calls 9 before 1 after_free
one_free = one_more none_yet (frees 0x400000 refl freed.returns)

-- The first two calls of all: ten bytes are taken, and given back.
abbrev start : Pool
start = record { machine = machine; nodes = λ a. mmlist; list = 0x3000 }

start-IsSound : IsSound start [] []
start-IsSound = record {
  tiled = start-IsTiled machine.mmap (λ a. mmlist) 0x3000 refl (omega arith) (omega arith);
  busy = λ a i. absurd (ground (arith, i));
}

abbrev taken : Mallocs start 10 0x401 [] [] (malloc 9 10 start)
taken =
    malloc-Mallocs 9 10 0x401 start [] [] start-IsSound first_free (omega arith) (omega arith)
      (omega arith) (omega arith)

given_back :
    Freed taken.pool taken.node taken.rest (taken.node ∷ []) (free 9 (taken.node + 16) taken.pool)
given_back =
    free-Freed 9 taken.node taken.pool taken.rest (taken.node ∷ []) taken.sound (ground arith)
      (omega (arith, taken.short))

both :
    Calls 9
      (record { pool = start; held = [] })
      2
      (record { pool = given_back.pool; held = remove taken.node (taken.node ∷ []) })
both =
    one_more
      (one_more none_yet
        (allocates 10 0x401 taken.node (omega arith) (omega arith) first_free taken.returns))
      (frees taken.node (ground arith) given_back.returns)

Calls-Session_example :
    Session
      (record { pool = start; held = [] })
      (record { pool = given_back.pool; held = remove taken.node (taken.node ∷ []) })
      []
      2
Calls-Session_example =
    Calls-Session 9 (record { pool = start; held = [] }) [] 2
      (record { pool = given_back.pool; held = remove taken.node (taken.node ∷ []) }) start-IsSound
      (omega arith) (omega arith) both

after_free_first : FirstKernel after_free.pool.machine 0x401
after_free_first = subst (λ m. FirstKernel m 0x401) (sym freed.machine) first_free

Calls-Mallocs_example :
    (rest : List ℕ) × IsSound after_free.pool rest []
    × Mallocs after_free.pool 4000 0x401 rest [] (malloc 9 4000 after_free.pool)
Calls-Mallocs_example =
    Calls-Mallocs 9 before (0x400074 ∷ []) 1 after_free 4000 0x401 pool-IsSound (omega arith)
      (omega arith) one_free (omega arith) (omega arith) after_free_first

-- One call that takes ten bytes.
abbrev granted : Mallocs pool 10 0x401 (0x400074 ∷ []) (0x400000 ∷ []) (malloc 9 10 pool)
granted =
    malloc-Mallocs 9 10 0x401 pool (0x400074 ∷ []) (0x400000 ∷ []) pool-IsSound first_free
      (omega arith) (omega arith) (omega arith) (omega arith)

abbrev two_held : State
two_held = record { pool = granted.pool; held = granted.node ∷ 0x400000 ∷ [] }

one_malloc : Calls 9 before 1 two_held
one_malloc =
    one_more none_yet
      (allocates 10 0x401 granted.node (omega arith) (omega arith) first_free granted.returns)

Calls-Freed_example :
    (rest : List ℕ) × IsSound granted.pool rest (granted.node ∷ 0x400000 ∷ [])
    × Freed granted.pool 0x400000 rest (granted.node ∷ 0x400000 ∷ []) (free 9 0x400010 granted.pool)
Calls-Freed_example =
    Calls-Freed 9 before (0x400074 ∷ []) 1 two_held 0x400000 pool-IsSound (omega arith)
      (omega arith) one_malloc (ground arith)
