-- ===== src/Kernel/Malloc/Tile/Settled.antt =====
-- Nodes without a free node behind them, and what joining one leaves of its links.
use gml_vm.Base.{
  ℕ, ◌+◌, ◌≡◌, ◌≢◌, refl, ◌∙◌, sym, subst, inl, inr, List, [], ◌∷◌, ◌==◌, true, false, arith,
  Bool-cases, ==→eq,
}
use gml_vm.Kernel.Malloc.{Nodes, set_next, set_size, root_behind, del, page_of, join}
use gml_vm.Kernel.Malloc.Chain.{has, NoDup, Linked}
use gml_vm.Kernel.Malloc.Carve.{not-has}
use gml_vm.Kernel.Malloc.Release.{has_free_behind}

-- A node is settled when no node that is marked as free is behind it in its page.
abbrev pub Settled : Nodes → List ℕ → Type 0
Settled h xs = (a : ℕ) → has a xs ≡ true → has_free_behind h a ≡ false

pub free_behind_same :
    (h g : Nodes) (a : ℕ)
    → (g a).size ≡ (h a).size
    → ((b : ℕ) → (g b).state ≡ (h b).state)
    → has_free_behind g a ≡ has_free_behind h a
free_behind_same h g a size state = rw (size, state (a + 16 + (h a).size)) refl

-- A node that has joined the one behind it ends where that one ended.
pub free_behind-join :
    (h g : Nodes) (m : ℕ)
    → (g m).size ≡ (h m).size + (h (m + 16 + (h m).size)).size + 16
    → ((b : ℕ) → (g b).state ≡ (h b).state)
    → page_of (m + 16 + (h m).size) ≡ page_of m
    → has_free_behind g m ≡ has_free_behind h (m + 16 + (h m).size)
free_behind-join h g m size state page =
    let n = m + 16 + (h m).size in
    let ends : m + 16 + (g m).size ≡ n + 16 + (h n).size = omega (arith, size) in
    rw (ends, state (n + 16 + (h n).size), page) refl

pub root-ne :
    (h : Nodes) (d m : ℕ) (xs : List ℕ)
    → NoDup (d ∷ xs)
    → Linked h (d ∷ xs)
    → has m xs ≡ true
    → (h m).root ≢ m
root-ne h d m [] u l i = absurd (ground (arith, i))
root-ne h d m (x ∷ xs) u l i = elim (Bool-cases (m == x)) [
  | inl here ↦ λ e. not-has x d (x ∷ xs) u.0 (ground arith) (
      subst (λ b. b ≡ d) (==→eq m x here)
        (sym e ∙ subst (λ b. (h b).root ≡ d) (sym (==→eq m x here)) l.2))
  | inr there ↦ root-ne h x m xs u.1 l.3 (ground arith)
]

root_behind-next : (m a : ℕ) (h : Nodes) → (root_behind m h a).next ≡ (h a).next
unfolding root_behind
root_behind-next m a h = ground arith

-- A node that is taken out keeps what it holds.
del-next : (m : ℕ) (h : Nodes) → (h m).root ≢ m → (del m h m).next ≡ (h m).next
unfolding del
del-next m h other = ground (arith, root_behind-next m m (set_next (h m).root (h m).next h))

resized-next : (h : Nodes) (m v a : ℕ) → (set_size m v h a).next ≡ (h a).next
resized-next h m v a = ground arith

pub join-next : (c p : ℕ) (h : Nodes) → (h p).root ≢ p → (join c p h p).next ≡ (h p).next
unfolding join
join-next c p h other = resized-next (del p h) c _ p ∙ del-next p h other
