-- ===== src/Kernel/Malloc/Tile/Stride.antt =====
-- One round of `clean`: a node is taken out, joined with what is free behind it, and put back.
use gml_vm.Base.{
  ℕ, suc, ◌+◌, ◌≤◌, ◌<◌, ◌≡◌, ◌≢◌, refl, ap, ap₂, ◌∙◌, sym, subst, inl, inr, List, ◌∷◌, ◌++◌, true,
  false, arith, Bool-cases, ne→==, length, length-append, some,
}
use gml_vm.Kernel.Malloc.{Nodes, del, add, unite_all}
use gml_vm.Kernel.Malloc.Chain.{has, first, insert, insert-each}
use gml_vm.Kernel.Malloc.Add.{sizes}
use gml_vm.Kernel.Malloc.Del.{remove, del-Unlinked}
use gml_vm.Kernel.Malloc.Find.{Linked-pos}
use gml_vm.Kernel.Malloc.Pool.{Pool, clean, ◌>>=◌}
use gml_vm.Kernel.Malloc.Room.{total, total-ext, total-remove}
use gml_vm.Kernel.Malloc.Room.Keep.{Put, add-Put}
use gml_vm.Kernel.Malloc.Carve.{not-has}
use gml_vm.Kernel.Malloc.Page.{length-insert}
use gml_vm.Kernel.Malloc.Release.{has_free_behind}
use gml_vm.Kernel.Malloc.Release.Run.{total-Put}
use gml_vm.Kernel.Malloc.Tile.State.{IsTiled, take-IsTiled, put-IsTiled, hand-IsSpare}
use gml_vm.Kernel.Malloc.Tile.Free.{IsSound}
use gml_vm.Kernel.Malloc.Tile.Parts.{
  removed_first, middle-in, twice, or_left, last_of, has-append, Linked-parts, remove-right,
  insert-parts,
}
use gml_vm.Kernel.Malloc.Tile.Settled.{Settled, free_behind_same}
use gml_vm.Kernel.Malloc.Tile.Rounds.{Gathered, unite_all-Gathered}
use gml_vm.Kernel.Malloc.Tile.Onward.{Goes, goes_back, onward, onward-first}

clean_round :
    (n fuel c p : ℕ) (s : Pool) (g f : Nodes)
    → c ≢ 0
    → (s.nodes c).root ≡ p
    → unite_all n c (del c s.nodes) ≡ some g
    → add n s.list c g ≡ some (s.list, f)
    → clean n (suc fuel) c s ≡ clean n fuel (onward c p f) (record s { nodes = f })
unfolding clean
clean_round n fuel c p s g f there root gathered put =
    rw (ne→== c 0 there) (rw (◌>>=◌, gathered) (rw (◌>>=◌, put) (rw root refl)))

-- The rest of `clean` after one round: `pre'` are the nodes seen, `post'` those in front.
pub record Stride (n fuel c : ℕ) (s : Pool) (pre post hs : List ℕ) : Type 0 where
  pub nodes : Nodes
  pub pre' : List ℕ
  pub post' : List ℕ
  pub runs : clean n (suc fuel) c s ≡ clean n fuel (first post') (record s { nodes = nodes })
  pub sound : IsSound (record s { nodes = nodes }) (pre' ++ post') hs
  pub settled : Settled nodes pre'
  pub kept : (a : ℕ) → has a hs ≡ true → (nodes a).size ≡ (s.nodes a).size
  pub all : total (sizes nodes) (pre' ++ post') ≡ total (sizes s.nodes) (pre ++ c ∷ post)
  pub short : length (pre' ++ post') ≤ length (pre ++ c ∷ post)
  pub nearer : length (pre' ++ post') + length post' < length (pre ++ c ∷ post) + length (c ∷ post)

total_lem :
    (t u v w x y z b k : ℕ)
    → t ≡ 16 + u + v
    → u + v ≡ w + x
    → w ≡ k
    → x ≡ y
    → z ≡ y
    → 16 + k + z ≡ b
    → t ≡ b
total_lem t u v w x y z b k e e' e'' f f' f'' = omega (arith, e, e', e'', f, f', f'')

module _ (n fuel c : ℕ) (s : Pool) (pre post hs : List ℕ) (sound : IsSound s (pre ++ c ∷ post) hs)
    (settled : Settled s.nodes pre) (enough : length (s.list ∷ pre ++ c ∷ post) < n) where
  abbrev head : ℕ
  head = s.list

  abbrev p : ℕ
  p = last_of head pre

  abbrev d : Nodes
  d = del c s.nodes

  seen : has c pre ≡ false
  seen = elim (Bool-cases (has c pre)) [
    | inr out ↦ out
    | inl i ↦ absurd (twice c pre post sound.tiled.heap.distinct.1 i)
  ]

  removed : remove c (pre ++ c ∷ post) ≡ pre ++ post
  removed = remove-right c pre (c ∷ post) seen ∙ ap (λ zs. pre ++ zs) (removed_first c post)

  in-list : has c (pre ++ c ∷ post) ≡ true
  in-list = middle-in c pre post

  taken : IsTiled s.machine.mmap d head (pre ++ post) (c ∷ hs)
  taken =
      subst (λ zs. IsTiled s.machine.mmap d head zs (c ∷ hs)) removed
        (take-IsTiled s.machine.mmap s.nodes head c (pre ++ c ∷ post) hs sound.tiled in-list)

  d_lem : (a : ℕ) → ((d a).size ≡ (s.nodes a).size) × ((d a).state ≡ (s.nodes a).state)
  d_lem a =
      let u =
        (del-Unlinked s.nodes head c (pre ++ c ∷ post) sound.tiled.heap.distinct
          sound.tiled.heap.linked in-list).relinked in
      (u.size a, u.state a)

  gathered : Gathered s.machine.mmap head c p hs d pre post (unite_all n c d)
  gathered =
      unite_all-Gathered n s.machine.mmap head c p hs d pre post
        (record {
          tiled = taken;
          busy = λ a i. (d_lem a).1 ∙ sound.busy a i;
          next = (Linked-parts d head pre post taken.heap.linked).0;
          place = inl (
            refl,
            λ i. free_behind_same s.nodes d p (d_lem p).0 (λ b. (d_lem b).1) ∙ settled p i,
          );
        })
        (omega (arith, length-append pre post, length-append pre (c ∷ post)))

  abbrev g : Nodes
  g = gathered.nodes

  abbrev ys : List ℕ
  ys = gathered.pre' ++ gathered.post'

  tiled : IsTiled s.machine.mmap g head ys (c ∷ hs)
  tiled = gathered.gathering.tiled

  abbrev Grown : Type 0
  Grown = length ys < length (pre ++ post)

  no-longer : length ys ≤ length (pre ++ post)
  no-longer = elim gathered.changed [
    | inl (e, e', e'') ↦ omega (arith, ap₂ (λ (x y : List ℕ). length (x ++ y)) e' e'')
    | inr less ↦ omega arith
  ]

  put : Put g head c ys (add n head c g)
  put =
      add-Put n g head c ys tiled.heap
        (hand-IsSpare s.machine.mmap g head c ys hs tiled
          (gathered.gains.state c ∙ (d_lem c).1 ∙ sound.tiled.heap.state c in-list))
        (omega (arith, no-longer, length-append pre post, length-append pre (c ∷ post)))

  goes : Goes (sizes g) c gathered.pre' gathered.post' Grown
  goes = elim gathered.changed [
    | inl (e, e', e'') ↦
        let back : insert (sizes g) c (pre ++ post) ≡ insert (sizes g) c pre ++ post =
          goes_back (sizes s.nodes) (sizes g) c pre post sound.tiled.heap.sorted.1
            (λ a. ap (λ (h : Nodes). (h a).size) e ∙ (d_lem a).0) in
        inl (
          subst
            (λ zs.
              insert (sizes g) c (zs ++ gathered.post') ≡ insert (sizes g) c zs ++ gathered.post')
            (sym e')
            (subst (λ zs. insert (sizes g) c (pre ++ zs) ≡ insert (sizes g) c pre ++ zs) (sym e'')
              back))
    | inr less ↦ elim (insert-parts (sizes g) c gathered.pre' gathered.post' tiled.heap.sorted.1) [
      | inl left ↦ inl left
      | inr right ↦ inr (right, less)
    ]
  ]

  f_size : (a : ℕ) → a ≢ c → (put.nodes a).size ≡ (s.nodes a).size
  f_size a other = put.size a ∙ gathered.gains.others a other ∙ (d_lem a).0

  f_state : (a : ℕ) → (put.nodes a).state ≡ (s.nodes a).state
  f_state a = put.state a ∙ gathered.gains.state a ∙ (d_lem a).1

  f_all : total (sizes put.nodes) (insert (sizes g) c ys) ≡ total (sizes s.nodes) (pre ++ c ∷ post)
  f_all =
      let before = total-remove (sizes s.nodes) c (pre ++ c ∷ post) in-list in
      let same = total-ext (sizes s.nodes) (sizes d) (pre ++ post) (λ a i. (d_lem a).0) in
      let gone = ap (λ zs. total (sizes s.nodes) zs) removed in
      total_lem _ (g c).size (total (sizes g) ys) _ _ _ _ _ _ (total-Put g head c ys put)
        gathered.gains.all (d_lem c).0 same gone before

  seen-Settled : Settled put.nodes gathered.pre'
  seen-Settled a i =
      let other : a ≢ c =
        not-has a c ys (tiled.apart c (ground arith))
          (has-append a gathered.pre' gathered.post' ∙ or_left _ _ i) in
      free_behind_same s.nodes put.nodes a (f_size a other) f_state
      ∙ settled a (gathered.gains.sub a i)

  settled_self : has_free_behind put.nodes c ≡ false
  settled_self = free_behind_same g put.nodes c (put.size c) put.state ∙ gathered.settled

  put_back :
      (pre' post' : List ℕ)
      → insert (sizes g) c ys ≡ pre' ++ post'
      → first post' ≡ first gathered.post'
      → Settled put.nodes pre'
      → length (pre' ++ post') + length post' < length (pre ++ c ∷ post) + length (c ∷ post)
      → Stride n fuel c s pre post hs
  put_back pre' post' eq same set nearer =
      let there : c ≢ 0 =
        Linked-pos s.nodes c (pre ++ c ∷ post) sound.tiled.heap.linked.3 in-list in
      let root = (Linked-parts s.nodes head pre (c ∷ post) sound.tiled.heap.linked).1 in
      let next =
        onward-first s.machine.mmap head c p hs g gathered.pre' gathered.post' Grown
          gathered.gathering put there goes in
      record {
        nodes = put.nodes;
        pre' = pre';
        post' = post';
        runs =
            clean_round n fuel c p s g put.nodes there root gathered.returns put.returns
            ∙ ap (λ a. clean n fuel a (record s { nodes = put.nodes })) (next ∙ sym same);
        sound = record {
          tiled =
              subst (λ zs. IsTiled s.machine.mmap put.nodes head zs hs) eq
                (put-IsTiled s.machine.mmap g head c ys hs tiled put);
          busy = λ a i. f_state a ∙ sound.busy a i;
        };
        settled = set;
        kept = λ a i. f_size a (not-has a c hs tiled.distinct.0 i);
        all = ap (λ zs. total (sizes put.nodes) zs) (sym eq) ∙ f_all;
        short = omega (
          arith,
          ap length eq,
          length-insert (sizes g) c ys,
          no-longer,
          length-append pre post,
          length-append pre (c ∷ post),
        );
        nearer = nearer;
      }

  -- `c` is seen, and settled.
  insert-Settled : Settled put.nodes (insert (sizes g) c gathered.pre')
  insert-Settled =
      insert-each (λ a. has_free_behind put.nodes a ≡ false) (sizes g) c gathered.pre' settled_self
        seen-Settled

  pub stride : Stride n fuel c s pre post hs
  stride =
      let size = length-insert (sizes g) c ys in
      let old = length-append pre (c ∷ post) in
      let old' = length-append pre post in
      elim goes [
        | inl left ↦
            put_back (insert (sizes g) c gathered.pre') gathered.post' left refl insert-Settled
              (omega (arith, ap length left, size, old, old', no-longer, gathered.gains.short))
        | inr ((right, same), grown) ↦
            put_back gathered.pre' (insert (sizes g) c gathered.post') right same seen-Settled (
              omega (
                arith,
                ap length right,
                size,
                length-insert (sizes g) c gathered.post',
                old,
                old',
                grown,
                gathered.gains.short,
              ))
      ]
