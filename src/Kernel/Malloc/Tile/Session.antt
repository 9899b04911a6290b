-- ===== src/Kernel/Malloc/Tile/Session.antt =====
-- Any sequence of calls of `malloc` and `free`.
use gml_vm.Base.{
  ℕ, suc, ◌+◌, ◌*◌, ◌≤◌, ◌<◌, ◌≡◌, ap, ap₂, ◌∙◌, sym, subst, inl, inr, List, ◌∷◌, true, arith,
  length, Option, some, none,
}
use gml_vm.Kernel.Frames.Laws.{FirstKernel}
use gml_vm.Kernel.Malloc.Chain.{has}
use gml_vm.Kernel.Malloc.Del.{remove}
use gml_vm.Kernel.Malloc.Pool.{Pool, malloc, free}
use gml_vm.Kernel.Malloc.Tile.Free.{IsSound, bytes, Freed, free-Freed}
use gml_vm.Kernel.Malloc.Tile.Allocate.{Mallocs, malloc-Mallocs}

-- The kernel's pool and the busy nodes of its callers.
pub record State : Type 0 where
  pub pool : Pool
  pub held : List ℕ

-- A call that comes back: `malloc` of what a page holds while a frame is free, and `free` of what was
-- given out.
pub data Call (n : ℕ) : State → State → Type 0 where
  allocates :
      {s : State} {pool : Pool} (size i m : ℕ)
      → 0 < size
      → size ≤ 4080
      → FirstKernel s.pool.machine i
      → malloc n size s.pool ≡ some (m + 16, pool)
      → Call n s (record { pool = pool; held = m ∷ s.held })
  frees :
      {s : State} {pool : Pool} (m : ℕ)
      → has m s.held ≡ true
      → free n (m + 16) s.pool ≡ some (tt, pool)
      → Call n s (record { pool = pool; held = remove m s.held })

-- So many calls, one after the other.
pub data Calls (n : ℕ) (s : State) : ℕ → State → Type 0 where
  none_yet : Calls n s 0 s
  one_more : {k : ℕ} {t u : State} → Calls n s k t → Call n t u → Calls n s (suc k) u

-- The heap is in order after `k` calls: there are `pages` pages more.
pub record Session (s t : State) (xs : List ℕ) (k : ℕ) : Type 0 where
  pub rest : List ℕ
  pub pages : ℕ
  pub sound : IsSound t.pool rest t.held
  pub all : bytes t.pool rest t.held ≡ bytes s.pool xs s.held + 4096 * pages
  pub few : pages ≤ k
  pub short : length rest ≤ k + length xs
  pub bound : t.pool.machine.kmem ≤ 0xffff_f000

some_fst : {A : Type 0} (d : A) → Option A → A
some_fst d none = d
some_fst d (some a) = a

same_run : {A : Type 0} (a b : A) (r : Option A) → r ≡ some a → r ≡ some b → a ≡ b
unfolding some_fst
same_run a b r e e' = ap (some_fst a) (sym e ∙ e')

Session-malloc :
    (n size i m : ℕ) (s t : State) (pool : Pool) (xs : List ℕ) (k : ℕ)
    → (z : Session s t xs k) → FirstKernel t.pool.machine i
    → malloc n size t.pool ≡ some (m + 16, pool)
    → Mallocs t.pool size i z.rest t.held (malloc n size t.pool)
    → Session s (record { pool = pool; held = m ∷ t.held }) xs (suc k)
Session-malloc n size i m s t pool xs k z free run c =
    let same =
      same_run {A = ℕ × Pool} (c.node + 16, c.pool) (m + 16, pool) (malloc n size t.pool) c.returns
        run in
    let node : c.node ≡ m = omega (arith, ap (λ (x : ℕ × Pool). x.0) same) in
    let after : Session s (record { pool = c.pool; held = c.node ∷ t.held }) xs (suc k) =
      elim c.paid [
        | inl (e, e') ↦ record {
          rest = c.rest;
          pages = z.pages;
          sound = c.sound;
          all = e' ∙ z.all;
          few = omega (arith, z.few);
          short = omega (arith, c.short, z.short);
          bound = subst (λ x. x.kmem ≤ 0xffff_f000) (sym e) z.bound;
        }
        | inr (e, e') ↦ record {
          rest = c.rest;
          pages = suc z.pages;
          sound = c.sound;
          all = omega (arith, e', z.all);
          few = omega (arith, z.few);
          short = omega (arith, c.short, z.short);
          bound = subst (λ x. x.kmem ≤ 0xffff_f000) (sym e) z.bound;
        }
      ] in
    subst (λ (x : ℕ × Pool). Session s (record { pool = x.1; held = x.0 ∷ t.held }) xs (suc k))
      (ap₂ (λ (x : ℕ) (y : Pool). (x, y)) node (ap (λ (x : ℕ × Pool). x.1) same)) after

Session-free :
    (n m : ℕ) (s t : State) (pool : Pool) (xs : List ℕ) (k : ℕ)
    → (z : Session s t xs k) → free n (m + 16) t.pool ≡ some (tt, pool)
    → Freed t.pool m z.rest t.held (free n (m + 16) t.pool)
    → Session s (record { pool = pool; held = remove m t.held }) xs (suc k)
Session-free n m s t pool xs k z run c =
    let same = same_run (tt, c.pool) (tt, pool) (free n (m + 16) t.pool) c.returns run in
    let after : Session s (record { pool = c.pool; held = remove m t.held }) xs (suc k) = record {
      rest = c.rest;
      pages = z.pages;
      sound = c.sound;
      all = c.all ∙ z.all;
      few = omega (arith, z.few);
      short = omega (arith, c.short, z.short);
      bound = subst (λ x. x.kmem ≤ 0xffff_f000) (sym c.machine) z.bound;
    } in
    subst (λ (x : Pool). Session s (record { pool = x; held = remove m t.held }) xs (suc k))
      (ap (λ (x : Unit {0} × Pool). x.1) same) after

Session-Call :
    (n k : ℕ) (s t u : State) (xs : List ℕ)
    → Session s t xs k
    → Call n t u
    → 2 + (k + length xs) + (k + length xs) < n
    → Session s u xs (suc k)
Session-Call n k s t _ xs z (allocates {pool = pool} size i m pos fits free run) enough =
    Session-malloc n size i m s t pool xs k z free run (
      malloc-Mallocs n size i t.pool z.rest t.held z.sound free z.bound pos fits
        (omega (arith, z.short)))
Session-Call n k s t _ xs z (frees {pool = pool} m i run) enough =
    Session-free n m s t pool xs k z run
      (free-Freed n m t.pool z.rest t.held z.sound i (omega (arith, z.short)))

-- Any sequence of `k` calls that come back (`malloc` of 1 to 4080 bytes while a frame is free, and
-- `free` of a node that is held) from a heap in order, of which `xs` are the free nodes, with the
-- kernel's memory ending at 0xfffff000 or below and a fuel of more than 2 plus twice the sum of
-- `k` and the number of nodes in `xs`, leaves the heap in order: the free nodes are linked both
-- ways and sorted by size, and these and the busy ones, which are those the callers hold, lie
-- apart from each other, each in one page whose frame is taken, without a gap up to the page's
-- end. The bytes of all nodes are those of the start and of at most `k` pages that came to them.
pub Calls-Session :
    (n : ℕ) (s : State) (xs : List ℕ) (k : ℕ) (t : State)
    → IsSound s.pool xs s.held
    → s.pool.machine.kmem ≤ 0xffff_f000
    → 2 + (k + length xs) + (k + length xs) < n
    → Calls n s k t
    → Session s t xs k
Calls-Session n s xs _ _ sound bound enough none_yet = record {
  rest = xs;
  pages = 0;
  sound = sound;
  all = omega arith;
  few = omega arith;
  short = omega arith;
  bound = bound;
}
Calls-Session n s xs _ u sound bound enough (one_more {k = k} {t = t} calls call) =
    Session-Call n k s t u xs (Calls-Session n s xs k t sound bound (omega (arith, enough)) calls)
      call (omega (arith, enough))

-- After any sequence of `k` calls that came back (`malloc` of 1 to 4080 bytes while a frame is
-- free, and `free` of a node that is held) from a heap in order, of which `xs` are the free nodes,
-- with the kernel's memory ending at 0xfffff000 or below and a fuel of more than 2 plus twice the
-- sum of `k` and the number of nodes in `xs`, a call of `malloc` of 1 to 4080 bytes comes back
-- when `i` is the first free frame of the kernel: whether a free node fits, or one that `clean`
-- makes, or only a new page. There is one more busy node then, which holds the request and
-- overlaps no other node; the heap is in order, the other busy nodes keep their sizes, and the
-- bytes of all nodes are as many as before, or 4096 more when the frame `i` is now taken.
pub Calls-Mallocs :
    (n : ℕ) (s : State) (xs : List ℕ) (k : ℕ) (t : State) (size i : ℕ)
    → IsSound s.pool xs s.held
    → s.pool.machine.kmem ≤ 0xffff_f000
    → 2 + (k + length xs) + (k + length xs) < n
    → Calls n s k t
    → 0 < size
    → size ≤ 4080
    → FirstKernel t.pool.machine i
    → (rest : List ℕ) × IsSound t.pool rest t.held
      × Mallocs t.pool size i rest t.held (malloc n size t.pool)
Calls-Mallocs n s xs k t size i sound bound enough calls pos fits free =
    let z = Calls-Session n s xs k t sound bound enough calls in
    (
      z.rest,
      z.sound,
      malloc-Mallocs n size i t.pool z.rest t.held z.sound free z.bound pos fits
          (omega (arith, z.short)),
    )

-- After any sequence of `k` calls that came back (`malloc` of 1 to 4080 bytes while a frame is
-- free, and `free` of a node that is held) from a heap in order, of which `xs` are the free nodes,
-- with the kernel's memory ending at 0xfffff000 or below and a fuel of more than 2 plus twice the
-- sum of `k` and the number of nodes in `xs`, `free` of whatever node `m` is held comes back: the
-- node is free, with the bytes of the node behind it if that one is free and in its page; the heap
-- is in order, the other busy nodes keep their sizes, and no byte is gained or lost.
pub Calls-Freed :
    (n : ℕ) (s : State) (xs : List ℕ) (k : ℕ) (t : State) (m : ℕ)
    → IsSound s.pool xs s.held
    → s.pool.machine.kmem ≤ 0xffff_f000
    → 2 + (k + length xs) + (k + length xs) < n
    → Calls n s k t
    → has m t.held ≡ true
    → (rest : List ℕ) × IsSound t.pool rest t.held
      × Freed t.pool m rest t.held (free n (m + 16) t.pool)
Calls-Freed n s xs k t m sound bound enough calls i =
    let z = Calls-Session n s xs k t sound bound enough calls in
    (z.rest, z.sound, free-Freed n m t.pool z.rest t.held z.sound i (omega (arith, z.short)))
