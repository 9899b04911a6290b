-- ===== src/Kernel/Malloc/Tile.antt =====
-- The nodes of the heap, free or given out, as stretches that tile the pages taken for it. Only the
-- nodes' sizes count here: `k` gives the size of the node at an address, `In` says where nodes stand.
pub mod State
pub mod Unite
pub mod Free
pub mod Take
pub mod Page
pub mod Parts
pub mod Settled
pub mod Gather
pub mod Rounds
pub mod Onward
pub mod Stride
pub mod Clean
pub mod Obtain
pub mod Allocate
pub mod Session
pub mod Large
use gml_vm.Base.{
  ℕ, zero, suc, ◌+◌, ◌-◌, ◌*◌, ◌/◌, ◌%◌, ◌^◌, ◌≤◌, ◌<◌, ◌≡◌, ◌≢◌, refl, ap, ◌∙◌, sym, subst, ◌⊎◌,
  inl, inr, ◌==◌, Bool, true, false, ◌||◌, ◌&&◌, not, arith, Bool-cases, ==→eq, ==→ne,
  if◌then◌else◌,
}
use gml_vm.Kernel.Machine.{update}
use gml_vm.Kernel.Malloc.Room.{Off}

-- Where the node at `a` ends.
abbrev pub end_of : (ℕ → ℕ) → ℕ → ℕ
end_of k a = a + 16 + k a

-- Nodes do not overlap, each lies in one page, whose frame is taken, and if it does not end with the page,
-- another one begins where it ends.
pub record Tiling (mmap k : ℕ → ℕ) (In : ℕ → Bool) : Type 0 where
  pub off : (a b : ℕ) → In a ≡ true → In b ≡ true → a ≢ b → Off k a b
  pub high : (a : ℕ) → In a ≡ true → 0x400000 ≤ a
  pub low : (a : ℕ) → In a ≡ true → a < 0xffff_f000
  pub pos : (a : ℕ) → In a ≡ true → 0 < k a
  pub inside : (a : ℕ) → In a ≡ true → (a + 15 + k a) / 4096 ≡ a / 4096
  pub chain : (a : ℕ) → In a ≡ true → end_of k a / 4096 ≡ a / 4096 → In (end_of k a) ≡ true
  pub taken : (a : ℕ) → In a ≡ true → mmap (a / 4096) ≢ 0

pub Tiling-ext :
    (mmap k k' : ℕ → ℕ) (In In' : ℕ → Bool)
    → ((a : ℕ) → In' a ≡ In a)
    → ((a : ℕ) → In a ≡ true → k' a ≡ k a)
    → Tiling mmap k In
    → Tiling mmap k' In'
Tiling-ext mmap k k' In In' same size t =
    let old : (a : ℕ) → In' a ≡ true → In a ≡ true = λ a i. sym (same a) ∙ i in
    record {
      off = λ a b i j ne.
          ground (arith, t.off a b (old a i) (old b j) ne, size a (old a i), size b (old b j));
      high = λ a i. t.high a (old a i);
      low = λ a i. t.low a (old a i);
      pos = λ a i. rw (size a (old a i)) (t.pos a (old a i));
      inside = λ a i. rw (size a (old a i)) (t.inside a (old a i));
      chain = λ a i e.
          let s = size a (old a i) in
          same (end_of k' a)
          ∙ subst (λ v. In (a + 16 + v) ≡ true) (sym s)
              (t.chain a (old a i) (subst (λ v. (a + 16 + v) / 4096 ≡ a / 4096) s e));
      taken = λ a i. t.taken a (old a i);
    }

-- Two nodes do not end at the same place.
end-ne :
    (mmap k : ℕ → ℕ) (In : ℕ → Bool) (a b : ℕ)
    → Tiling mmap k In
    → In a ≡ true
    → In b ≡ true
    → a ≢ b
    → end_of k a ≢ end_of k b
end-ne mmap k In a b t i j ne e = ground (arith, t.off a b i j ne, t.pos a i, t.pos b j)

-- The node `m` takes the bytes of the one behind it.
pub Tiling-join :
    (mmap k k' : ℕ → ℕ) (In In' : ℕ → Bool) (m n : ℕ)
    → n ≡ end_of k m
    → In m ≡ true
    → In n ≡ true
    → n / 4096 ≡ m / 4096
    → k' m ≡ k m + k n + 16
    → ((a : ℕ) → a ≢ m → k' a ≡ k a)
    → ((a : ℕ) → In' a ≡ (not (a == n) && In a))
    → Tiling mmap k In
    → Tiling mmap k' In'
Tiling-join mmap k k' In In' m n at i j page size same mem t =
    let old : (a : ℕ) → In' a ≡ true → In a ≡ true = λ a p. ground (arith, mem a) in
    let ne : (a : ℕ) → In' a ≡ true → a ≢ n = λ a p. ground (arith, mem a) in
    let new : (a : ℕ) → In a ≡ true → a ≢ n → In' a ≡ true = λ a p q. ground (arith, mem a) in
    let off_m : (a : ℕ) → In' a ≡ true → a ≢ m → Off k' m a = λ a p other.
      ground (arith, t.off m a i (old a p), t.off n a j (old a p), ne a p, size, same a other) in
    record {
      off = λ a b p q other. elim (Bool-cases (a == m)) [
        | inl here ↦
            subst (λ x. Off k' x b) (sym (==→eq a m here))
              (off_m b q (λ e. other (==→eq a m here ∙ sym e)))
        | inr there ↦ elim (Bool-cases (b == m)) [
          | inl here ↦ ground (arith, off_m a p (==→ne a m there), ==→eq b m here)
          | inr there' ↦ ground (
            arith,
            t.off a b (old a p) (old b q) other,
            same a (==→ne a m there),
            same b (==→ne b m there'),
          )
        ]
      ];
      high = λ a p. t.high a (old a p);
      low = λ a p. t.low a (old a p);
      pos = λ a p. elim (Bool-cases (a == m)) [
        | inl here ↦ subst (λ x. 0 < k' x) (sym (==→eq a m here)) (omega (arith, size))
        | inr there ↦ omega (arith, same a (==→ne a m there), t.pos a (old a p))
      ];
      inside = λ a p. elim (Bool-cases (a == m)) [
        | inl here ↦
            subst (λ x. (x + 15 + k' x) / 4096 ≡ x / 4096) (sym (==→eq a m here))
              (omega (arith, size, t.inside n j))
        | inr there ↦ omega (arith, same a (==→ne a m there), t.inside a (old a p))
      ];
      chain = λ a p e. elim (Bool-cases (a == m)) [
        | inl here ↦
            let whole : end_of k' a ≡ end_of k n =
              omega (arith, ==→eq a m here, ap k' (==→eq a m here), size) in
            let found = t.chain n j (omega (arith, e, whole, page, ==→eq a m here)) in
            subst (λ x. In' x ≡ true) (sym whole) (new (end_of k n) found (omega arith))
        | inr there ↦
            let other = ==→ne a m there in
            let whole : end_of k' a ≡ end_of k a = omega (arith, same a other) in
            let found = t.chain a (old a p) (omega (arith, e, whole)) in
            subst (λ x. In' x ≡ true) (sym whole)
              (new (end_of k a) found (λ e'. end-ne mmap k In a m t (old a p) i other (e' ∙ at)))
      ];
      taken = λ a p. t.taken a (old a p);
    }

-- The node `m` is cut to `size` bytes; the rest of it is the node `n`.
pub Tiling-split :
    (mmap k k' : ℕ → ℕ) (In In' : ℕ → Bool) (m n size v : ℕ)
    → n ≡ m + 16 + size
    → In m ≡ true
    → v + 16 + size ≡ k m
    → 0 < v
    → 0 < size
    → k' m ≡ size
    → k' n ≡ v
    → ((a : ℕ) → a ≢ m → a ≢ n → k' a ≡ k a)
    → ((a : ℕ) → In' a ≡ ((a == n) || In a))
    → Tiling mmap k In
    → Tiling mmap k' In'
Tiling-split mmap k k' In In' m n size v at i room pos less cut rest same mem t =
    let page : n / 4096 ≡ m / 4096 = omega (arith, t.inside m i) in
    -- the new node, the one that is cut, or another
    let cases : (P : ℕ → Type 0)
        → P m
        → P n
        → ((a : ℕ) → In a ≡ true → a ≢ m → a ≢ n → P a)
        → (a : ℕ) → In' a ≡ true
        → P a =
      λ P pm pn po a p. elim (Bool-cases (a == n)) [
        | inl new ↦ subst P (sym (==→eq a n new)) pn
        | inr old ↦ elim (Bool-cases (a == m)) [
          | inl here ↦ subst P (sym (==→eq a m here)) pm
          | inr there ↦ po a (ground (arith, mem a)) (==→ne a m there) (==→ne a n old)
        ]
      ] in
    let new : (a : ℕ) → In a ≡ true → In' a ≡ true = λ a j. ground (arith, mem a) in
    let off_m : (a : ℕ) → In' a ≡ true → a ≢ m → Off k' m a =
      cases (λ a. a ≢ m → Off k' m a) (λ e. absurd (e refl)) (λ e. ground arith)
        (λ a j ne ne' e. ground (arith, t.off m a i j, same a ne ne', e)) in
    let off_n : (a : ℕ) → In' a ≡ true → a ≢ n → Off k' n a =
      cases (λ a. a ≢ n → Off k' n a) (λ e. ground arith) (λ e. absurd (e refl))
        (λ a j ne ne' e. ground (arith, t.off m a i j, same a ne ne', e)) in
    record {
      off = λ a b p q ne.
          cases (λ x. x ≢ b → Off k' x b) (λ e. off_m b q (λ e'. e (sym e')))
            (λ e. off_n b q (λ e'. e (sym e')))
            (λ x j xm xn e.
              cases (λ y. x ≢ y → Off k' x y) (λ e'. ground (arith, off_m x (new x j) e'))
                (λ e'. ground (arith, off_n x (new x j) e'))
                (λ y l ym yn e'. ground (arith, t.off x y j l e', same x xm xn, same y ym yn)) b q
                e)
            a p ne;
      high =
          cases (λ a. 0x400000 ≤ a) (t.high m i) (omega (arith, t.high m i))
            (λ a j ne ne'. t.high a j);
      low =
          cases (λ a. a < 0xffff_f000) (t.low m i) (omega (arith, t.low m i, page))
            (λ a j ne ne'. t.low a j);
      pos =
          cases (λ a. 0 < k' a) (omega arith) (omega arith)
            (λ a j ne ne'. omega (arith, t.pos a j, same a ne ne'));
      inside =
          cases (λ a. (a + 15 + k' a) / 4096 ≡ a / 4096) (omega (arith, t.inside m i))
            (omega (arith, t.inside m i))
            (λ a j ne ne'. omega (arith, t.inside a j, same a ne ne'));
      chain =
          cases (λ a. end_of k' a / 4096 ≡ a / 4096 → In' (end_of k' a) ≡ true)
            (λ e.
              let here : end_of k' m ≡ n = omega (arith, cut) in
              subst (λ x. In' x ≡ true) (sym here) (ground (arith, mem n)))
            (λ e.
              let here : end_of k' n ≡ end_of k m = omega (arith, rest) in
              subst (λ x. In' x ≡ true) (sym here)
                (new (end_of k m) (t.chain m i (omega (arith, e, here, page)))))
            (λ a j ne ne' e.
              let here : end_of k' a ≡ end_of k a = omega (arith, same a ne ne') in
              subst (λ x. In' x ≡ true) (sym here)
                (new (end_of k a) (t.chain a j (omega (arith, e, here)))));
      taken =
          cases (λ a. mmap (a / 4096) ≢ 0) (t.taken m i)
            (subst (λ x. mmap x ≢ 0) (sym page) (t.taken m i)) (λ a j ne ne'. t.taken a j);
    }

-- A page in the free frame `i`, as one node, comes to the nodes.
pub Tiling-page :
    (mmap k k' : ℕ → ℕ) (In In' : ℕ → Bool) (i c : ℕ)
    → c ≡ 4096 * i
    → 0x400 ≤ i
    → i < 0xfffff
    → mmap i ≡ 0
    → k' c ≡ 4080
    → ((a : ℕ) → In a ≡ true → k' a ≡ k a)
    → ((a : ℕ) → In' a ≡ ((a == c) || In a))
    → Tiling mmap k In
    → Tiling (update mmap i 1) k' In'
Tiling-page mmap k k' In In' i c at from below free size same mem t =
    let page : c / 4096 ≡ i = omega arith in
    let cases : (P : ℕ → Type 0)
        → P c
        → ((a : ℕ) → In a ≡ true → P a)
        → (a : ℕ) → In' a ≡ true
        → P a =
      λ P pc po a p. elim (Bool-cases (a == c)) [
        | inl new ↦ subst P (sym (==→eq a c new)) pc
        | inr old ↦ po a (ground (arith, mem a))
      ] in
    let other : (a : ℕ) → In a ≡ true → a / 4096 ≢ i = λ a j e. t.taken a j (ap mmap e ∙ free) in
    let off_c : (a : ℕ) → In a ≡ true → Off k' c a =
      λ a j. ground (arith, other a j, t.inside a j, same a j) in
    let new : (a : ℕ) → In a ≡ true → In' a ≡ true = λ a j. ground (arith, mem a) in
    record {
      off = λ a b p q ne.
          cases (λ x. x ≢ b → Off k' x b)
            (λ e.
              cases (λ y. c ≢ y → Off k' c y) (λ e'. absurd (e' refl)) (λ y j e'. off_c y j) b q e)
            (λ x j e.
              cases (λ y. x ≢ y → Off k' x y) (λ e'. ground (arith, off_c x j))
                (λ y l e'. ground (arith, t.off x y j l e', same x j, same y l)) b q e)
            a p ne;
      high = cases (λ a. 0x400000 ≤ a) (omega arith) (λ a j. t.high a j);
      low = cases (λ a. a < 0xffff_f000) (omega arith) (λ a j. t.low a j);
      pos = cases (λ a. 0 < k' a) (omega arith) (λ a j. omega (arith, t.pos a j, same a j));
      inside =
          cases (λ a. (a + 15 + k' a) / 4096 ≡ a / 4096) (omega arith)
            (λ a j. omega (arith, t.inside a j, same a j));
      chain =
          cases (λ a. end_of k' a / 4096 ≡ a / 4096 → In' (end_of k' a) ≡ true)
            (λ e. absurd (omega arith))
            (λ a j e.
              let here : end_of k' a ≡ end_of k a = omega (arith, same a j) in
              subst (λ x. In' x ≡ true) (sym here)
                (new (end_of k a) (t.chain a j (omega (arith, e, here)))));
      taken =
          cases (λ a. update mmap i 1 (a / 4096) ≢ 0) (ground arith)
            (λ a j. ground (arith, t.taken a j));
    }
