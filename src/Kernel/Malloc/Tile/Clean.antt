-- ===== src/Kernel/Malloc/Tile/Clean.antt =====
-- The whole of `clean`, on the tiled heap.
use gml_vm.Base.{
  ℕ, zero, suc, ◌+◌, ◌≤◌, ◌<◌, ◌≡◌, refl, ap, ◌∙◌, List, [], ◌∷◌, ◌++◌, append-nil, arith, length,
  subst, sym, Option, some, true,
}
use gml_vm.Kernel.Malloc.{Nodes}
use gml_vm.Kernel.Malloc.Chain.{has, first}
use gml_vm.Kernel.Malloc.Add.{sizes}
use gml_vm.Kernel.Malloc.Pool.{Pool, clean}
use gml_vm.Kernel.Malloc.Room.{total}
use gml_vm.Kernel.Malloc.Tile.Free.{IsSound}
use gml_vm.Kernel.Malloc.Tile.Settled.{Settled}
use gml_vm.Kernel.Malloc.Tile.Stride.{stride}

-- The run comes back with the heap in order; no free node has a node marked as free behind it in its
-- page, the busy nodes keep their sizes, and no byte is gained or lost.
pub record Cleaned (s : Pool) (xs hs : List ℕ) (r : Option (Unit {0} × Pool)) : Type 0 where
  pub nodes : Nodes
  pub rest : List ℕ
  pub returns : r ≡ some (tt, record s { nodes = nodes })
  pub sound : IsSound (record s { nodes = nodes }) rest hs
  pub settled : Settled nodes rest
  pub kept : (a : ℕ) → has a hs ≡ true → (nodes a).size ≡ (s.nodes a).size
  pub all : total (sizes nodes) rest ≡ total (sizes s.nodes) xs
  pub short : length rest ≤ length xs

clean_end : (n fuel : ℕ) (s : Pool) → clean n (suc fuel) 0 s ≡ some (tt, s)
unfolding clean
clean_end n fuel s = refl

clean_from :
    (n fuel : ℕ) (s : Pool) (pre post hs : List ℕ)
    → IsSound s (pre ++ post) hs
    → Settled s.nodes pre
    → length (s.list ∷ pre ++ post) < n
    → length (pre ++ post) + length post < fuel
    → Cleaned s (pre ++ post) hs (clean n fuel (first post) s)
clean_from n zero s pre post hs sound settled enough steps = absurd (omega arith)
clean_from n (suc fuel) s pre [] hs sound settled enough steps = record {
  nodes = s.nodes;
  rest = pre;
  returns = clean_end n fuel s;
  sound = subst (λ zs. IsSound s zs hs) (append-nil pre) sound;
  settled = settled;
  kept = λ a i. refl;
  all = ap (λ zs. total (sizes s.nodes) zs) (sym (append-nil pre));
  short = omega (arith, ap length (append-nil pre));
}
clean_from n (suc fuel) s pre (c ∷ post) hs sound settled enough steps =
    let one = stride n fuel c s pre post hs sound settled enough in
    let rest =
      clean_from n fuel (record s { nodes = one.nodes }) one.pre' one.post' hs one.sound one.settled
        (omega (arith, one.short)) (omega (arith, one.nearer)) in
    record {
      nodes = rest.nodes;
      rest = rest.rest;
      returns = one.runs ∙ rest.returns;
      sound = rest.sound;
      settled = rest.settled;
      kept = λ a i. rest.kept a i ∙ one.kept a i;
      all = rest.all ∙ one.all;
      short = omega (arith, rest.short, one.short);
    }

-- `clean`, when the heap is in order and the fuel is at least 2 more than twice the number of the free
-- nodes: it comes back with the heap in order; no free node is left with a node marked as free
-- behind it in its page, the busy nodes keep their sizes, and no byte is gained or lost.
pub clean-Cleaned :
    (n : ℕ) (s : Pool) (xs hs : List ℕ)
    → IsSound s xs hs
    → 1 + length xs + length xs < n
    → Cleaned s xs hs (clean n n (s.nodes s.list).next s)
clean-Cleaned n s xs hs sound enough =
    let all =
      clean_from n n s [] xs hs sound (λ a i. absurd (ground (arith, i))) (omega arith)
        (omega arith) in
    subst (λ a. Cleaned s xs hs (clean n n a s)) (sym sound.tiled.heap.linked.1) all
