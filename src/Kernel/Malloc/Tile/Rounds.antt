-- ===== src/Kernel/Malloc/Tile/Rounds.antt =====
-- The rounds of `unite_all`.
use gml_vm.Base.{
  ℕ, zero, suc, ◌+◌, ◌^◌, ◌≤◌, ◌<◌, ◌≡◌, ◌≢◌, refl, ap, ap₂, ◌∙◌, ◌⊎◌, inl, inr, List, ◌++◌, ◌==◌,
  true, false, arith, Bool-cases, ne→==, length, Option, some,
}
use gml_vm.Kernel.Malloc.{Nodes, behind, join, unite, unite_all}
use gml_vm.Kernel.Malloc.Release.{has_free_behind}
use gml_vm.Kernel.Malloc.Tile.State.{hand-IsHeld}
use gml_vm.Kernel.Malloc.Tile.Gather.{Gathering, Gains, step}

unite-alone :
    (c : ℕ) (h : Nodes)
    → c ≢ 0
    → c + 16 + (h c).size < 2 ^ 32
    → has_free_behind h c ≡ false
    → unite c h ≡ h
unfolding unite
unite-alone c h there fits alone =
    let at : behind c h ≡ c + 16 + (h c).size = omega arith in rw (ne→== c 0 there, at, alone) refl

unite-join :
    (c : ℕ) (h : Nodes)
    → c ≢ 0
    → c + 16 + (h c).size < 2 ^ 32
    → has_free_behind h c ≡ true
    → unite c h ≡ join c (c + 16 + (h c).size) h
unfolding unite
unite-join c h there fits free =
    let at : behind c h ≡ c + 16 + (h c).size = omega arith in rw (ne→== c 0 there, at, free) refl

-- The run comes back, with nothing free behind `c`.
pub record Gathered (mmap : ℕ → ℕ) (head c p : ℕ) (hs : List ℕ) (h : Nodes) (pre post : List ℕ)
    (r : Option Nodes) : Type 0 where
  pub nodes : Nodes
  pub pre' : List ℕ
  pub post' : List ℕ
  pub returns : r ≡ some nodes
  pub gathering : Gathering mmap head c p hs nodes pre' post'
  pub gains : Gains c h nodes pre post pre' post'
  pub settled : has_free_behind nodes c ≡ false
  pub changed :
      (nodes ≡ h) × (pre' ≡ pre) × (post' ≡ post) ⊎ (length (pre' ++ post') < length (pre ++ post))

Gains-self : (c : ℕ) (h : Nodes) (pre post : List ℕ) → Gains c h h pre post pre post
Gains-self c h pre post = record {
  sub = λ a i. i;
  others = λ a other. refl;
  state = λ a. refl;
  all = refl;
  grows = omega arith;
  short = omega arith;
}

Gains-trans :
    (c : ℕ) (h g f : Nodes) (pre post pre' post' pre'' post'' : List ℕ)
    → Gains c h g pre post pre' post'
    → Gains c g f pre' post' pre'' post''
    → Gains c h f pre post pre'' post''
Gains-trans c h g f pre post pre' post' pre'' post'' x y = record {
  sub = λ a i. x.sub a (y.sub a i);
  others = λ a other. y.others a other ∙ x.others a other;
  state = λ a. y.state a ∙ x.state a;
  all = y.all ∙ x.all;
  grows = omega (arith, x.grows, y.grows);
  short = omega (arith, x.short, y.short);
}

eq_self : (n : ℕ) → (n == n) ≡ true
eq_self n = ground arith

fewer_lem : (a b c : ℕ) → b < a → c ≤ b → c < a
fewer_lem a b c less le = omega arith

-- With more fuel than there are nodes, `unite_all` comes back.
pub unite_all-Gathered :
    (fuel : ℕ) (mmap : ℕ → ℕ) (head c p : ℕ) (hs : List ℕ) (h : Nodes) (pre post : List ℕ)
    → Gathering mmap head c p hs h pre post
    → length (pre ++ post) < fuel
    → Gathered mmap head c p hs h pre post (unite_all fuel c h)
unfolding unite_all
unite_all-Gathered zero mmap head c p hs h pre post ga enough = absurd (omega arith)
unite_all-Gathered (suc fuel) mmap head c p hs h pre post ga enough =
    let q = hand-IsHeld mmap h head c (pre ++ post) hs ga.tiled ga.busy in
    elim (Bool-cases (has_free_behind h c)) [
      | inr alone ↦ record {
        nodes = h;
        pre' = pre;
        post' = post;
        returns = rw (unite-alone c h q.there q.fits alone) (rw (eq_self (h c).size) refl);
        gathering = ga;
        gains = Gains-self c h pre post;
        settled = alone;
        changed = inl (refl, refl, refl);
      }
      | inl free ↦
          let g = join c (c + 16 + (h c).size) h in
          let one = step mmap head c p hs h pre post ga free in
          let rest =
            unite_all-Gathered fuel mmap head c p hs g one.pre' one.post' one.gathering
              (omega (arith, one.fewer)) in
          record {
            nodes = rest.nodes;
            pre' = rest.pre';
            post' = rest.post';
            returns =
                rw (unite-join c h q.there q.fits free)
                  (rw (ne→== (h c).size (g c).size (omega (arith, one.larger))) rest.returns);
            gathering = rest.gathering;
            gains =
                Gains-trans c h g rest.nodes pre post one.pre' one.post' rest.pre' rest.post'
                  one.gains rest.gains;
            settled = rest.settled;
            changed = inr (
                fewer_lem (length (pre ++ post)) (length (one.pre' ++ one.post'))
                  (length (rest.pre' ++ rest.post')) one.fewer
                  (elim rest.changed [
                    | inl (e, e', e'') ↦
                        omega (arith, ap length (ap₂ (λ (x y : List ℕ). x ++ y) e' e''))
                    | inr less ↦ omega arith
                  ]));
          }
    ]
