-- ===== src/Kernel/Malloc/Release/Run.antt =====
-- The run of `free`.
use gml_vm.Base.{
  ℕ, ◌+◌, ◌^◌, ◌≤◌, ◌<◌, ◌≡◌, ◌≢◌, refl, List, ◌∷◌, true, arith, length, some, Option, ne→==, sub32,
}
use gml_vm.Kernel.Malloc.{Nodes, free_state, set_state, unite, add}
use gml_vm.Kernel.Malloc.Chain.{has, insert, has-insert}
use gml_vm.Kernel.Malloc.Add.{sizes}
use gml_vm.Kernel.Malloc.Pool.{Pool, free, ◌>>=◌}
use gml_vm.Kernel.Malloc.Room.{IsHeap, total, total-ext, total-insert}
use gml_vm.Kernel.Malloc.Room.Keep.{IsHeap-frame, IsSpare, Put, add-Put}
use gml_vm.Kernel.Malloc.Carve.{Change-frame, Apart-change}
use gml_vm.Kernel.Malloc.Release.{IsHeld, has_free_behind, IsUnited, unite-United}

-- The run comes back with the node `m` among the free nodes, and no smaller.
pub record Released (s : Pool) (m : ℕ) (xs : List ℕ) (r : Option (Unit {0} × Pool)) : Type 0 where
  pub pool : Pool
  pub rest : List ℕ
  pub returns : r ≡ some (tt, pool)
  pub list : pool.list ≡ s.list
  pub heap : IsHeap pool.nodes s.list rest
  pub among : has m rest ≡ true
  pub size : (s.nodes m).size ≤ (pool.nodes m).size
  pub joins :
      has_free_behind s.nodes m ≡ true
      → (pool.nodes m).size ≡ (s.nodes m).size + 16 + (s.nodes (m + 16 + (s.nodes m).size)).size
  pub all : total (sizes pool.nodes) rest ≡ 16 + (s.nodes m).size + total (sizes s.nodes) xs

marked-IsSpare :
    (h g : Nodes) (head m : ℕ) (xs ys : List ℕ)
    → IsHeld h head m xs
    → IsUnited h g head m xs ys
    → IsSpare (set_state m free_state g) head m ys
marked-IsSpare h g head m xs ys q u = record {
  apart = Apart-change g head m _ ys (omega arith) u.apart;
  there = q.there;
  pos = ground (arith, q.pos, u.size);
  fits = ground (arith, u.fits);
  state = ground arith;
}

pub total-Put :
    (g : Nodes) (head m : ℕ) (ys : List ℕ) {r : Option (ℕ × Nodes)}
    → (put : Put g head m ys r)
    → total (sizes put.nodes) (insert (sizes g) m ys) ≡ 16 + (g m).size + total (sizes g) ys
total-Put g head m ys put =
    let sum = total-insert (sizes put.nodes) (sizes g) m ys in
    let same = total-ext (sizes g) (sizes put.nodes) ys (λ a i. put.size a) in
    omega (arith, sum, same, put.size m)

pub marked-size : (g : Nodes) (m a : ℕ) → (set_state m free_state g a).size ≡ (g a).size
marked-size g m a = ground arith

pub free-run :
    (n m : ℕ) (s : Pool) (f : Nodes)
    → m ≢ 0
    → m + 16 < 2 ^ 32
    → add n s.list m (set_state m free_state (unite m s.nodes)) ≡ some (s.list, f)
    → free n (m + 16) s ≡ some (tt, record s { nodes = f })
unfolding free
free-run n m s f there fits run =
    let at : sub32 (m + 16) 16 ≡ m = omega arith in
    rw (ne→== (m + 16) 0 (omega arith), at) (rw (◌>>=◌, run) refl)

-- `free` of a node that the caller may give back, when the free nodes are in order and the fuel
-- is more than the nodes of the list, the static one counted: it comes back with the node free
-- and in its place, and if the node behind it is free and in its page, with the bytes of that one
-- too; the free nodes are again in order (linked both ways, sorted, disjoint), and hold just the
-- bytes that they and the node held before. The caller's node overlaps no free node, does not
-- stand at address 0, is not empty and ends below 2 ^ 32, and a node behind it in its page that
-- is marked as free is one of the free nodes.
free-Released :
    (n m : ℕ) (s : Pool) (xs : List ℕ)
    → IsHeap s.nodes s.list xs
    → IsHeld s.nodes s.list m xs
    → length (s.list ∷ xs) < n
    → Released s m xs (free n (m + 16) s)
free-Released n m s xs p q fuel =
    let u = unite-United s.nodes s.list m xs p q in
    let g = unite m s.nodes in
    let f = set_state m free_state g in
    let heap =
      IsHeap-frame g f s.list u.rest (Change-frame g m _ (s.list ∷ u.rest) u.united.apart.outside)
        u.united.heap in
    let put =
      add-Put n f s.list m u.rest heap (marked-IsSpare s.nodes g s.list m xs u.rest q u.united)
        (omega (arith, u.united.short)) in
    let same = total-ext (sizes g) (sizes f) u.rest (λ a i. marked-size g m a) in
    record {
      pool = record s { nodes = put.nodes };
      rest = insert (sizes f) m u.rest;
      returns = free-run n m s put.nodes q.there (omega (arith, q.fits)) put.returns;
      list = refl;
      heap = put.heap;
      among = ground (arith, has-insert (sizes f) m m u.rest);
      size = omega (arith, u.united.size, put.size m, marked-size g m m);
      joins = λ j. omega (arith, u.united.joins j, put.size m, marked-size g m m);
      all = omega (arith, total-Put f s.list m u.rest put, same, u.united.all, marked-size g m m);
    }
