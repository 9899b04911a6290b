-- ===== src/Kernel/Malloc/Tile/Gather.antt =====
-- `unite_all`: a node that `clean` has in hand takes all that is free behind it in its page.
use gml_vm.Base.{
  ℕ, ◌+◌, ◌≤◌, ◌<◌, ◌≡◌, ◌≢◌, refl, ap, ap₂, ◌∙◌, sym, subst, ◌⊎◌, inl, inr, List, ◌∷◌, ◌++◌, ◌==◌,
  true, false, arith, Bool-cases, ==→eq, ==→ne, length,
}
use gml_vm.Kernel.Malloc.{Nodes, free_state, page_of, join}
use gml_vm.Kernel.Malloc.Chain.{has, NoDup, first}
use gml_vm.Kernel.Malloc.Add.{sizes}
use gml_vm.Kernel.Malloc.Del.{remove, has-remove, length-remove, length-removed}
use gml_vm.Kernel.Malloc.Room.{total}
use gml_vm.Kernel.Malloc.Carve.{not-has}
use gml_vm.Kernel.Malloc.Release.{has_free_behind}
use gml_vm.Kernel.Malloc.Tile.State.{IsTiled, AllBusy, hand-IsApart, hand-IsHeld, page_eq}
use gml_vm.Kernel.Malloc.Tile.Unite.{Unites, join-Unites, join-size}
use gml_vm.Kernel.Malloc.Tile.Parts.{
  last_of, Linked-parts, remove-left, remove-right, last_of-remove, remove_sub, NoDup-left, left_in,
}
use gml_vm.Kernel.Malloc.Tile.Settled.{free_behind_same, free_behind-join, root-ne, join-next}

-- `clean` has the node `c` in hand; `pre` are the nodes it has seen, `post` those in front of it, and
-- `p` is where it goes on from: the last node seen, if `c` has not taken that one as well.
pub record Gathering (mmap : ℕ → ℕ) (head c p : ℕ) (hs : List ℕ) (h : Nodes) (pre post : List ℕ)
    : Type 0 where
  pub tiled : IsTiled mmap h head (pre ++ post) (c ∷ hs)
  pub busy : AllBusy h hs
  pub next : (h p).next ≡ first post
  pub place :
      (p ≡ last_of head pre) × (has p pre ≡ true → has_free_behind h p ≡ false)
      ⊎ (has_free_behind h c ≡ false) × (has p (c ∷ head ∷ pre ++ post) ≡ false)

-- What `c` has gained.
pub record Gains (c : ℕ) (h g : Nodes) (pre post pre' post' : List ℕ) : Type 0 where
  pub sub : (a : ℕ) → has a pre' ≡ true → has a pre ≡ true
  pub others : (a : ℕ) → a ≢ c → (g a).size ≡ (h a).size
  pub state : (a : ℕ) → (g a).state ≡ (h a).state
  pub all :
      (g c).size + total (sizes g) (pre' ++ post') ≡ (h c).size + total (sizes h) (pre ++ post)
  pub grows : (h c).size ≤ (g c).size
  pub short : length post' ≤ length post

-- One node has been joined.
pub record Step (mmap : ℕ → ℕ) (head c p : ℕ) (hs : List ℕ) (h g : Nodes) (pre post : List ℕ)
    : Type 0 where
  pub pre' : List ℕ
  pub post' : List ℕ
  pub gathering : Gathering mmap head c p hs g pre' post'
  pub gains : Gains c h g pre post pre' post'
  pub fewer : length (pre' ++ post') < length (pre ++ post)
  pub larger : (h c).size < (g c).size

gone_lem : (c d n : ℕ) (xs : List ℕ) → n ≢ c → n ≢ d → has n xs ≡ false → has n (c ∷ d ∷ xs) ≡ false
gone_lem c d n xs e e' out = ground arith

gone_self : (n : ℕ) (xs : List ℕ) → NoDup xs → has n (remove n xs) ≡ false
gone_self n xs u = ground (arith, has-remove n n xs u)

module _ (mmap : ℕ → ℕ) (head c p : ℕ) (hs : List ℕ) (h : Nodes) (pre post : List ℕ)
    (ga : Gathering mmap head c p hs h pre post) (f : has_free_behind h c ≡ true) where
  abbrev nb : ℕ
  nb = c + 16 + (h c).size

  abbrev g : Nodes
  g = join c nb h

  pub in_page : (page_of nb == page_of c) ≡ true
  in_page = ground arith

  nb-there : has nb (pre ++ post) ≡ true
  nb-there =
      (hand-IsHeld mmap h head c (pre ++ post) hs ga.tiled ga.busy).marked in_page
        (==→eq (h nb).state free_state (ground arith))

  nb-gone : has nb (c ∷ head ∷ remove nb (pre ++ post)) ≡ false
  nb-gone =
      let d = ga.tiled.heap.distinct in
      gone_lem c head nb (remove nb (pre ++ post)) (omega arith)
        (not-has nb head (pre ++ post) d.0 nb-there) (gone_self nb (pre ++ post) d.1)

  unites : Unites mmap h g head c (pre ++ post) (remove nb (pre ++ post)) hs
  unites =
      let q = hand-IsHeld mmap h head c (pre ++ post) hs ga.tiled ga.busy in
      join-Unites mmap h head c (pre ++ post) hs ga.tiled ga.busy nb-there
        (page_eq nb c q.fits (omega (arith, q.fits)) in_page)

  larger : (g c).size ≡ (h c).size + (h nb).size + 16
  larger = join-size h head c (pre ++ post) ga.tiled.heap nb-there

  -- `c` has not taken `p` before.
  placed : (p ≡ last_of head pre) × (has p pre ≡ true → has_free_behind h p ≡ false)
  placed = elim ga.place [ inl last ↦ last | inr gone ↦ absurd (ground (arith, gone.0)) ]

  step_of :
      (pre' post' : List ℕ)
      → remove nb (pre ++ post) ≡ pre' ++ post'
      → ((a : ℕ) → has a pre' ≡ true → has a pre ≡ true)
      → length post' ≤ length post
      → (g p).next ≡ first post'
      → (p ≡ last_of head pre') × (has p pre' ≡ true → has_free_behind g p ≡ false)
        ⊎ (has_free_behind g c ≡ false) × (has p (c ∷ head ∷ pre' ++ post') ≡ false)
      → Step mmap head c p hs h g pre post
  step_of pre' post' eq sub short next place = record {
    pre' = pre';
    post' = post';
    gathering = record {
      tiled = subst (λ zs. IsTiled mmap g head zs (c ∷ hs)) eq unites.tiled;
      busy = λ a i. unites.state a ∙ ga.busy a i;
      next = next;
      place = place;
    };
    gains = record {
      sub = sub;
      others = unites.others;
      state = unites.state;
      all = ap (λ zs. (g c).size + total (sizes g) zs) (sym eq) ∙ unites.united.all;
      grows = omega (arith, larger);
      short = short;
    };
    fewer = omega (arith, length-removed nb (pre ++ post) nb-there, ap length eq);
    larger = omega (arith, larger);
  }

  -- `p` is still the last node seen.
  step_still :
      (pre' post' : List ℕ)
      → remove nb (pre ++ post) ≡ pre' ++ post'
      → ((a : ℕ) → has a pre' ≡ true → has a pre ≡ true)
      → length post' ≤ length post
      → last_of head pre' ≡ last_of head pre
      → Step mmap head c p hs h g pre post
  step_still pre' post' eq sub short last =
      let t = subst (λ zs. IsTiled mmap g head zs (c ∷ hs)) eq unites.tiled in
      let at : p ≡ last_of head pre' = placed.0 ∙ sym last in
      step_of pre' post' eq sub short
        (ap (λ b. (g b).next) at ∙ (Linked-parts g head pre' post' t.heap.linked).0)
        (inl (
          at,
          λ i.
              let out : has c (head ∷ pre ++ post) ≡ false =
                (hand-IsApart mmap h head c (pre ++ post) hs ga.tiled).outside in
              free_behind_same h g p
                (unites.others p
                  (not-has p c (head ∷ pre ++ post) out (left_in p head pre post (sub p i))))
                unites.state
              ∙ placed.1 (sub p i),
        ))

  -- `c` takes `p`.
  step_taken : has nb pre ≡ true → nb ≡ p → Step mmap head c p hs h g pre post
  step_taken i same =
      let heap = ga.tiled.heap in
      step_of (remove nb pre) post (remove-left nb pre post i) (λ a j. remove_sub nb a pre j)
        (omega arith)
        (ap (λ b. (g b).next) (sym same)
          ∙ join-next c nb h (root-ne h head nb (pre ++ post) heap.distinct heap.linked nb-there)
          ∙ ap (λ b. (h b).next) same
          ∙ ga.next)
        (inr (
          free_behind-join h g c larger unites.state (==→eq (page_of nb) (page_of c) in_page)
              ∙ ap (has_free_behind h) same
              ∙ placed.1 (subst (λ b. has b pre ≡ true) same i),
          ap₂ (λ b zs. has b (c ∷ head ∷ zs)) (sym same) (sym (remove-left nb pre post i))
              ∙ nb-gone,
        ))

  pub step : Step mmap head c p hs h g pre post
  step = elim (Bool-cases (has nb pre)) [
    | inr out ↦
        step_still pre (remove nb post) (remove-right nb pre post out) (λ a i. i)
          (length-remove nb post) refl
    | inl i ↦ elim (Bool-cases (nb == p)) [
      | inl same ↦ step_taken i (==→eq nb p same)
      | inr other ↦
          step_still (remove nb pre) post (remove-left nb pre post i) (λ a j. remove_sub nb a pre j)
            (omega arith)
            (last_of-remove nb head pre (NoDup-left pre post ga.tiled.heap.distinct.1) i
              (λ e. ==→ne nb p other (e ∙ sym placed.0)))
    ]
  ]
