-- ===== src/Kernel/Malloc/Add.antt =====
-- `add` puts a node into its place by size.
use gml_vm.Base.{
  ℕ, zero, suc, ◌<◌, ◌≡◌, ◌≢◌, refl, List, [], ◌∷◌, ◌==◌, false, ◌||◌, leb, arith, Bool-cases, inl,
  inr, length, Option, some, ne→==,
}
use gml_vm.Kernel.Malloc.{Nodes, set_root, set_next, link, link_result, add}
use gml_vm.Kernel.Malloc.Chain.{
  has, NoDup, first, Linked, insert, has-insert, NoDup-insert, Linked-first,
}

abbrev pub sizes : Nodes → ℕ → ℕ
sizes h a = (h a).size

-- `g` has the chain `ys`, differs from `h` at most at the addresses of `xs`, and there in the links
-- only.
pub record Relinked (h g : Nodes) (xs ys : List ℕ) : Type 0 where
  pub linked : Linked g ys
  pub apart : (a : ℕ) → has a xs ≡ false → g a ≡ h a
  pub size : (a : ℕ) → (g a).size ≡ (h a).size
  pub state : (a : ℕ) → (g a).state ≡ (h a).state

-- The list is empty: the node is all of it.
alone : (h : Nodes) (m : ℕ) → m ≢ 0 → Relinked h (set_next m 0 (set_root m 0 h)) (m ∷ []) (m ∷ [])
alone h m pos = record {
  linked = (pos, ground arith, tt, tt);
  apart = λ a out. ground arith;
  size = λ a. ground arith;
  state = λ a. ground arith;
}

in_front :
    (h : Nodes) (m x : ℕ) (xs : List ℕ)
    → m ≢ 0
    → has m (x ∷ xs) ≡ false
    → has x xs ≡ false
    → Linked h (x ∷ xs)
    → Relinked h (set_next m x (set_root x m (set_root m (h x).root h))) (m ∷ x ∷ xs) (m ∷ x ∷ xs)
in_front h m x xs pos out fresh l =
    let g = set_next m x (set_root x m (set_root m (h x).root h)) in
    record {
      linked = (
        pos,
        ground arith,
        ground arith,
        Linked-first h g x xs (ground arith) (λ a i. ground arith) l,
      );
      apart = λ a i. ground arith;
      size = λ a. ground arith;
      state = λ a. ground arith;
    }

behind :
    (h g : Nodes) (m x y : ℕ) (xs ys : List ℕ)
    → x ≢ 0
    → has x (y ∷ ys) ≡ false
    → has y ys ≡ false
    → ((a : ℕ) → has a (y ∷ ys) ≡ (a == m) || has a xs)
    → Relinked h g (m ∷ xs) (y ∷ ys)
    → Relinked h (link x y g) (m ∷ x ∷ xs) (x ∷ y ∷ ys)
behind h g m x y xs ys pos out fresh same r = record {
  linked = (
    pos,
    ground arith,
    ground arith,
    Linked-first g (link x y g) y ys (ground arith) (λ a i. ground arith) r.linked,
  );
  apart = λ a i. ground (arith, r.apart a, same a);
  size = λ a. ground (arith, r.size a);
  state = λ a. ground (arith, r.state a);
}

-- The run comes back with the chain `ys`, and has changed nothing but the links of `xs`.
pub record Chained (h : Nodes) (xs ys : List ℕ) (r : Option (ℕ × Nodes)) : Type 0 where
  pub nodes : Nodes
  pub returns : r ≡ some (first ys, nodes)
  pub relinked : Relinked h nodes xs ys

Chained-behind :
    (h : Nodes) (m x : ℕ) (xs zs : List ℕ) (r : Option (ℕ × Nodes))
    → x ≢ 0
    → has x zs ≡ false
    → NoDup zs
    → ((a : ℕ) → has a zs ≡ (a == m) || has a xs)
    → Chained h (m ∷ xs) zs r
    → Chained h (m ∷ x ∷ xs) (x ∷ zs) (link_result x r)
Chained-behind h m x xs [] r pos out d same c = absurd (ground (arith, same m))
Chained-behind h m x xs (y ∷ ys) r pos out d same c = record {
  nodes = link x y c.nodes;
  returns = rw c.returns refl;
  relinked = behind h c.nodes m x y xs ys pos out d.0 same c.relinked;
}

pub add-Chained :
    (fuel m : ℕ) (h : Nodes) (xs : List ℕ)
    → m ≢ 0
    → has m xs ≡ false
    → NoDup xs
    → Linked h xs
    → length xs < fuel
    → Chained h (m ∷ xs) (insert (sizes h) m xs) (add fuel (first xs) m h)
unfolding add
add-Chained zero m h xs pos out d l enough = absurd (omega arith)
add-Chained (suc fuel) m h [] pos out d l enough = record {
  nodes = set_next m 0 (set_root m 0 h);
  returns = refl;
  relinked = alone h m pos;
}
add-Chained (suc fuel) m h (x ∷ xs) pos out d l enough =
    let here : (x == 0) ≡ false = ne→== x 0 l.0 in
    elim (Bool-cases (leb (h m).size (h x).size)) [
      | inl before ↦ record {
        nodes = set_next m x (set_root x m (set_root m (h x).root h));
        returns = rw (here, before) refl;
        relinked = rw before (in_front h m x xs pos out d.0 l);
      }
      | inr after ↦
          let fresh : has m xs ≡ false = ground arith in
          let rest = add-Chained fuel m h xs pos fresh d.1 l.3 (omega arith) in
          let more =
            Chained-behind h m x xs (insert (sizes h) m xs) (add fuel (first xs) m h) l.0
              (ground (arith, has-insert (sizes h) m x xs)) (NoDup-insert (sizes h) m xs fresh d.1)
              (λ a. has-insert (sizes h) m a xs) rest in
          rw (here, after, l.1) more
    ]
