-- ===== src/Kernel/Malloc/Carve/Run.antt =====
-- The run of the last part of `malloc`, from the node that was found.
use gml_vm.Base.{
  ℕ, ◌+◌, ◌-◌, ◌^◌, ◌≤◌, ◌<◌, ◌≡◌, ◌≢◌, refl, ap, ◌∙◌, subst, ◌⊎◌, inl, inr, List, ◌∷◌, ◌==◌, true,
  false, leb, arith, Bool-cases, some, Option, length, u32, sub32, ==→eq, leb→le,
}
use gml_vm.Kernel.Malloc.{
  Node, Nodes, free_state, busy_state, del, add, set_root, set_size, set_state,
}
use gml_vm.Kernel.Malloc.Chain.{has, insert, has-insert}
use gml_vm.Kernel.Malloc.Add.{sizes}
use gml_vm.Kernel.Malloc.Del.{remove, length-remove}
use gml_vm.Kernel.Malloc.Pool.{Pool, split, carve, ◌>>=◌, ◌>>◌, pool_add, write}
use gml_vm.Kernel.Malloc.Room.{Off, IsHeap, IsApart, total, total-insert, total-ext}
use gml_vm.Kernel.Malloc.Room.Keep.{IsHeap-frame, Put, add-Put}
use gml_vm.Kernel.Malloc.Carve.{
  IsGiven, IsCut, written, written-IsCut, written-size, marked-IsGiven, del-IsTaken, Off-at,
  not-has, Change-frame,
}

pub changed_self : (h : Nodes) (m size : ℕ) → (set_size m size h m).size ≡ size
changed_self h m size = ground arith

pub changed-size : (h : Nodes) (m size a : ℕ) → a ≢ m → (set_size m size h a).size ≡ (h a).size
changed-size h m size a other = ground arith

nearer :
    (k : ℕ → ℕ) (m a size w : ℕ)
    → Off k m a
    → size ≤ k m
    → w ≡ k a
    → (m + 16 + size ≤ a) ⊎ (a + 16 + w ≤ m)
nearer k m a size w off less same = ground arith

-- `m` cut to `size` bytes, once the node behind it is in the heap.
pub cut-IsGiven :
    (h g : Nodes) (head m size v : ℕ) (ys : List ℕ)
    → IsApart h head m ys
    → v + 16 + size ≡ (h m).size
    → (c : IsCut h g head m (m + 16 + size) ys) → (g (m + 16 + size)).size ≡ v
    → {r : Option (ℕ × Nodes)} → (put : Put g head (m + 16 + size) ys r)
    → IsGiven
        (set_state m busy_state (set_size m size put.nodes))
        head
        m
        size
        (16 + (h m).size + total (sizes h) ys)
        (insert (sizes g) (m + 16 + size) ys)
cut-IsGiven h g head m size v ys q room c end put =
    let n = m + 16 + size in
    let zs = insert (sizes g) n ys in
    let f = set_size m size put.nodes in
    let out : has m (head ∷ zs) ≡ false = ground (arith, has-insert (sizes g) n m ys, q.outside) in
    let old : (a : ℕ) → has a (head ∷ ys) ≡ true → (put.nodes a).size ≡ (h a).size = λ a i.
      put.size a
      ∙ ap (λ (b : Node). b.size) (c.same a (not-has a n (head ∷ ys) c.spare.apart.outside i)) in
    let tail : (put.nodes n).size ≡ v = put.size n ∙ end in
    let kept = total-ext (sizes h) (sizes put.nodes) ys (λ a i. old a (ground arith)) in
    let same =
      total-ext (sizes put.nodes) (sizes f) zs
        (λ a i. changed-size put.nodes m size a (not-has a m zs (ground arith) i)) in
    let sum = total-insert (sizes put.nodes) (sizes g) n ys in
    let self = changed_self put.nodes m size in
    let off : (a : ℕ) → has a (head ∷ zs) ≡ true → Off (sizes f) m a = λ a i.
      let a_size = changed-size put.nodes m size a (not-has a m (head ∷ zs) out i) in
      elim (Bool-cases (a == n)) [
        | inl new ↦
            Off-at (sizes f) m a size (put.nodes a).size self a_size
              (inl (omega (arith, ==→eq a n new)))
        | inr other ↦
            let i' : has a (head ∷ ys) ≡ true = ground (arith, has-insert (sizes g) n a ys) in
            Off-at (sizes f) m a size (put.nodes a).size self a_size
              (nearer (sizes h) m a size (put.nodes a).size (q.off a i') (omega arith) (old a i'))
      ] in
    marked-IsGiven f head m size (16 + (h m).size + total (sizes h) ys) zs
      (IsHeap-frame put.nodes f head zs (Change-frame put.nodes m _ (head ∷ zs) out) put.heap)
      (record { outside = out; off = off }) (omega (arith, self))
      (omega (arith, self, same, sum, tail, kept, room))

-- The run comes back with the bytes behind the header of `m`.
pub record Allocated (s : Pool) (size m bytes : ℕ) (r : Option (ℕ × Pool)) : Type 0 where
  pub pool : Pool
  pub rest : List ℕ
  pub returns : r ≡ some (m + 16, pool)
  pub list : pool.list ≡ s.list
  pub machine : pool.machine ≡ s.machine
  pub given : IsGiven pool.nodes s.list m size bytes rest

-- The writes of `split` in front of its call of `add`.
split-written :
    (n size m v : ℕ) (s : Pool)
    → v + 16 + size ≡ (s.nodes m).size
    → m + 16 + (s.nodes m).size ≤ 2 ^ 32
    → 0 < v
    → split n size m s
      ≡ (pool_add n (m + 16 + size) >> write (set_size m size))
          (record s { nodes = written (m + 16 + size) v s.nodes })
unfolding split
split-written n size m v s room fits pos =
    let nm : u32 (m + size + 16) ≡ m + 16 + size = omega arith in
    let kept : (set_root (m + 16 + size) 0 (set_state (m + 16 + size) free_state s.nodes) m).size
        ≡ (s.nodes m).size =
      ground arith in
    let less : sub32 (sub32 (s.nodes m).size size) 16 ≡ v = omega arith in rw (nm, kept, less) refl

pub split-Put :
    (n size m v : ℕ) (s : Pool) (ys : List ℕ)
    → v + 16 + size ≡ (s.nodes m).size
    → m + 16 + (s.nodes m).size ≤ 2 ^ 32
    → 0 < v
    → (put : Put
        (written (m + 16 + size) v s.nodes)
        s.list
        (m + 16 + size)
        ys
        (add n s.list (m + 16 + size) (written (m + 16 + size) v s.nodes)))
    → split n size m s ≡ some (tt, record s { nodes = set_size m size put.nodes })
split-Put n size m v s ys room fits pos put =
    split-written n size m v s room fits pos ∙ rw (◌>>=◌, put.returns) refl

pub carve-split :
    (n size m : ℕ) (s : Pool) (f : Nodes)
    → u32 (size + 4 + 16) ≡ size + 20
    → leb (size + 20) (del m s.nodes m).size ≡ true
    → u32 (m + 16) ≡ m + 16
    → split n size m (record s { nodes = del m s.nodes }) ≡ some (tt, record s { nodes = f })
    → carve n size m s ≡ some (m + 16, record s { nodes = set_state m busy_state f })
unfolding carve
carve-split n size m s f plus cut at run = rw (plus, cut, at) (rw (◌>>=◌, run) refl)

pub carve-Allocated :
    (n size m : ℕ) (s : Pool) (xs : List ℕ)
    → IsHeap s.nodes s.list xs
    → has m xs ≡ true
    → size ≤ (s.nodes m).size
    → size + 20 < 2 ^ 32
    → length (s.list ∷ xs) < n
    → Allocated s size m (total (sizes s.nodes) xs) (carve n size m s)
unfolding carve
carve-Allocated n size m s xs p i enough small fuel =
    let t = del-IsTaken s.nodes s.list m xs p i in
    let d = del m s.nodes in
    let ys = remove m xs in
    let fits = p.fits m i in
    let at : u32 (m + 16) ≡ m + 16 = omega (arith, p.pos m i) in
    let plus : u32 (size + 4 + 16) ≡ size + 20 = omega arith in
    elim (Bool-cases (leb (size + 20) (d m).size)) [
      | inl cut ↦
          let v = (d m).size - size - 16 in
          let larger = leb→le (size + 20) (d m).size cut in
          let room : v + 16 + size ≡ (d m).size = omega arith in
          let pos : 0 < v = omega arith in
          let ends : m + 16 + (d m).size ≤ 2 ^ 32 = omega (arith, t.size m) in
          let g = written (m + 16 + size) v d in
          let c = written-IsCut d s.list m size v ys t.heap t.apart room pos ends in
          let put =
            add-Put n g s.list (m + 16 + size) ys c.heap c.spare
              (omega (arith, length-remove m xs)) in
          let run = split-Put n size m v (record s { nodes = d }) ys room ends pos put in
          record {
            pool = record s { nodes = set_state m busy_state (set_size m size put.nodes) };
            rest = insert (sizes g) (m + 16 + size) ys;
            returns = carve-split n size m s (set_size m size put.nodes) plus cut at run;
            list = refl;
            machine = refl;
            given =
                subst
                  (λ b.
                    IsGiven (set_state m busy_state (set_size m size put.nodes)) s.list m size b
                      (insert (sizes g) (m + 16 + size) ys))
                  t.all
                  (cut-IsGiven d g s.list m size v ys t.apart room c
                    (written-size (m + 16 + size) v d) put);
          }
      | inr whole ↦ record {
        pool = record s { nodes = set_state m busy_state d };
        rest = ys;
        returns = rw (plus, whole, at) refl;
        list = refl;
        machine = refl;
        given =
            subst (λ b. IsGiven (set_state m busy_state d) s.list m size b ys) t.all
              (marked-IsGiven d s.list m size _ ys t.heap t.apart (omega (arith, t.size m)) refl);
      }
    ]
