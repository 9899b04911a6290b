-- ===== src/Kernel/Malloc/Del.antt =====
-- `del` takes a node out of its chain.
use gml_vm.Base.{
  ℕ, ◌+◌, ◌≤◌, ◌≡◌, ◌≢◌, refl, ◌∙◌, sym, subst, List, [], ◌∷◌, ◌==◌, true, not, ◌&&◌, if◌then◌else◌,
  arith, Bool-cases, inl, inr, length, ne→==, ==→eq,
}
use gml_vm.Kernel.Malloc.{Nodes, set_root, set_next, root_behind, del}
use gml_vm.Kernel.Malloc.Chain.{has, has-cons_ne, NoDup, Linked, Linked-first}
use gml_vm.Kernel.Malloc.Add.{Relinked}

abbrev pub remove : ℕ → List ℕ → List ℕ
remove m [] = []
remove m (x ∷ xs) = let rest = remove m xs in if m == x then xs else x ∷ rest

pub has-remove :
    (m a : ℕ) (xs : List ℕ) → NoDup xs → has a (remove m xs) ≡ (not (a == m) && has a xs)
has-remove m a [] d = ground arith
has-remove m a (x ∷ xs) d = ground (arith, has-remove m a xs d.1)

pub length-remove : (m : ℕ) (xs : List ℕ) → length (remove m xs) ≤ length xs
length-remove m [] = omega arith
length-remove m (x ∷ xs) = ground (arith, length-remove m xs)

pub length-removed : (m : ℕ) (xs : List ℕ) → has m xs ≡ true → 1 + length (remove m xs) ≡ length xs
length-removed m [] i = absurd (ground (arith, i))
length-removed m (x ∷ xs) i = ground (arith, length-removed m xs)

pub NoDup-remove : (m : ℕ) (xs : List ℕ) → NoDup xs → NoDup (remove m xs)
NoDup-remove m [] d = tt
NoDup-remove m (x ∷ xs) d = elim (Bool-cases (m == x)) [
  | inl here ↦ rw here d.1
  | inr other ↦ rw other (ground (arith, has-remove m x xs d.1), NoDup-remove m xs d.1)
]

-- The node `p` in front stays in front, with its `root`.
pub record Unlinked (h g : Nodes) (p : ℕ) (xs ys : List ℕ) : Type 0 where
  pub relinked : Relinked h g (p ∷ xs) (p ∷ ys)
  pub root : (g p).root ≡ (h p).root

root_behind_none : (m : ℕ) (h : Nodes) → (h m).next ≡ 0 → root_behind m h ≡ h
unfolding root_behind
root_behind_none m h last = rw last refl

root_behind_some :
    (m y p : ℕ) (h : Nodes)
    → (h m).next ≡ y
    → (h m).root ≡ p
    → y ≢ 0
    → root_behind m h ≡ set_root y p h
unfolding root_behind
root_behind_some m y p h next root pos = rw (next, root, ne→== y 0 pos) refl

del_lem :
    (m y p : ℕ) (h : Nodes)
    → (h m).next ≡ y
    → (h m).root ≡ p
    → m ≢ 0
    → del m h ≡ root_behind m (set_next p y h)
unfolding del
del_lem m y p h next root some = rw (ne→== m 0 some, next, root) refl

del_last :
    (m p : ℕ) (h : Nodes)
    → (h m).next ≡ 0
    → (h m).root ≡ p
    → m ≢ 0
    → m ≢ p
    → del m h ≡ set_next p 0 h
del_last m p h next root some other =
    del_lem m 0 p h next root some ∙ root_behind_none m (set_next p 0 h) (ground arith)

del_inner :
    (m y p : ℕ) (h : Nodes)
    → (h m).next ≡ y
    → (h m).root ≡ p
    → m ≢ 0
    → m ≢ p
    → y ≢ 0
    → del m h ≡ set_root y p (set_next p y h)
del_inner m y p h next root some other pos =
    del_lem m y p h next root some
    ∙ root_behind_some m y p (set_next p y h) (ground arith) (ground arith) pos

del-first :
    (h : Nodes) (p m : ℕ) (ys : List ℕ)
    → NoDup (p ∷ m ∷ ys)
    → Linked h (p ∷ m ∷ ys)
    → Unlinked h (del m h) p (m ∷ ys) ys
del-first h p m [] d l = rw (del_last m p h l.3.1 l.2 l.3.0 (ground arith)) (record {
  relinked = record {
    linked = (l.0, ground arith, tt, tt);
    apart = λ a i. ground arith;
    size = λ a. ground arith;
    state = λ a. ground arith;
  };
  root = ground arith;
})
del-first h p m (y ∷ ys) d l =
    let g = set_root y p (set_next p y h) in
    rw (del_inner m y p h l.3.1 l.2 l.3.0 (has-cons_ne p m (y ∷ ys) d.0) l.3.3.0) (record {
      relinked = record {
        linked = (
          l.0,
          ground arith,
          ground arith,
          Linked-first h g y ys (ground arith) (λ a i. ground arith) l.3.3,
        );
        apart = λ a i. ground arith;
        size = λ a. ground arith;
        state = λ a. ground arith;
      };
      root = ground arith;
    })

del-behind :
    (h g : Nodes) (p x : ℕ) (xs ys : List ℕ)
    → NoDup (p ∷ x ∷ xs)
    → Linked h (p ∷ x ∷ xs)
    → Unlinked h g x xs ys
    → Unlinked h g p (x ∷ xs) (x ∷ ys)
del-behind h g p x xs ys d l u =
    let same = u.relinked.apart p d.0 in
    record {
      relinked = record {
        linked = (l.0, rw same l.1, u.root ∙ l.2, u.relinked.linked);
        apart = λ a i. u.relinked.apart a (ground arith);
        size = λ a. u.relinked.size a;
        state = λ a. u.relinked.state a;
      };
      root = rw same refl;
    }

pub del-Unlinked :
    (h : Nodes) (p m : ℕ) (xs : List ℕ)
    → NoDup (p ∷ xs)
    → Linked h (p ∷ xs)
    → has m xs ≡ true
    → Unlinked h (del m h) p xs (remove m xs)
del-Unlinked h p m [] d l i = absurd (ground (arith, i))
del-Unlinked h p m (x ∷ xs) d l i = elim (Bool-cases (m == x)) [
  | inl here ↦
      let same : m ≡ x = ==→eq m x here in
      rw here (subst (λ a. Unlinked h (del a h) p (x ∷ xs) xs) (sym same) (del-first h p x xs d l))
  | inr other ↦ rw other (
      del-behind h (del m h) p x xs (remove m xs) d l
        (del-Unlinked h x m xs d.1 l.3 (ground arith)))
]
