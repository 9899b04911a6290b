-- ===== src/Kernel/Malloc/Tile/Onward.antt =====
-- Where `clean` goes on from: the node behind the last one it has seen.
use gml_vm.Base.{
  ℕ, ◌≤◌, ◌≡◌, ◌≢◌, refl, ap, ◌∙◌, sym, subst, ◌⊎◌, inl, inr, List, [], ◌∷◌, ◌++◌, append_assoc,
  ◌==◌, true, false, not, leb, if◌then◌else◌, arith, ne→==, Option,
}
use gml_vm.Kernel.Malloc.{Nodes}
use gml_vm.Kernel.Malloc.Chain.{has, first, Linked, insert}
use gml_vm.Kernel.Malloc.Add.{sizes}
use gml_vm.Kernel.Malloc.Room.{Sorted}
use gml_vm.Kernel.Malloc.Room.Keep.{Put}
use gml_vm.Kernel.Malloc.Tile.State.{hand-IsApart}
use gml_vm.Kernel.Malloc.Tile.Parts.{last_of, has-append, Linked-parts, last_of-insert, insert-left}
use gml_vm.Kernel.Malloc.Tile.Gather.{Gathering}

last_of-end : (c d : ℕ) (xs : List ℕ) → last_of d (xs ++ c ∷ []) ≡ c
last_of-end c d [] = refl
last_of-end c d (x ∷ xs) = last_of-end c x xs

first-ne : (c : ℕ) (xs ys : List ℕ) → c ≢ 0 → has c (xs ++ ys) ≡ false → c ≢ first ys
first-ne c xs [] there out = there
first-ne c xs (y ∷ ys) there out = ground (arith, has-append c xs (y ∷ ys))

Sorted-right : (k : ℕ → ℕ) (xs ys : List ℕ) → Sorted k (xs ++ ys) → Sorted k ys
Sorted-right k [] ys s = s
Sorted-right k (x ∷ xs) ys s = Sorted-right k xs ys s.1

insert-first :
    (k : ℕ → ℕ) (c : ℕ) (ys : List ℕ)
    → ((y : ℕ) → has y ys ≡ true → k c ≤ k y)
    → insert k c ys ≡ c ∷ ys
insert-first k c [] least = refl
insert-first k c (y ∷ ys) least =
    let before : leb (k c) (k y) ≡ true = ground (arith, least y) in rw before refl

-- Where the node goes that `clean` puts in: among those that it has seen, or, if it has grown, further on.
abbrev pub Goes : (k : ℕ → ℕ) (c : ℕ) (pre post : List ℕ) → Type 0 → Type 0
Goes k c pre post Grown =
    (insert k c (pre ++ post) ≡ insert k c pre ++ post)
    ⊎ ((insert k c (pre ++ post) ≡ pre ++ insert k c post) × (first (insert k c post) ≡ first post))
      × Grown

-- A node that stays as large as it was goes to where it was.
pub goes_back :
    (k k' : ℕ → ℕ) (c : ℕ) (pre post : List ℕ)
    → Sorted k (pre ++ c ∷ post)
    → ((a : ℕ) → k' a ≡ k a)
    → insert k' c (pre ++ post) ≡ insert k' c pre ++ post
goes_back k k' c pre post s same = insert-left k' c pre post (
    insert-first k' c post
      (λ y i. omega (arith, (Sorted-right k pre (c ∷ post) s).0 y i, same c, same y)))

-- `if(mm != nextm->next) mm = nextm->next; else mm = nextm->next->next;`
abbrev pub onward : (c p : ℕ) → Nodes → ℕ
onward c p h = if not (c == (h p).next) then (h p).next else (h (h p).next).next

onward_direct : (c p y : ℕ) (f : Nodes) → (f p).next ≡ y → c ≢ y → onward c p f ≡ y
onward_direct c p y f next other = rw (next, ne→== c y other) refl

onward_over : (c p y : ℕ) (f : Nodes) → (f p).next ≡ c → (f c).next ≡ y → onward c p f ≡ y
onward_over c p y f here next = let at : (c == c) ≡ true = ground arith in rw (here, at) next

-- Whatever `clean` has joined, it goes on with the first of the nodes in front of it.
pub onward-first :
    (mmap : ℕ → ℕ) (head c p : ℕ) (hs : List ℕ) (g : Nodes) (pre post : List ℕ) (Grown : Type 0)
    {r : Option (ℕ × Nodes)}
    → Gathering mmap head c p hs g pre post
    → (put : Put g head c (pre ++ post) r) → c ≢ 0
    → Goes (sizes g) c pre post Grown
    → onward c p put.nodes ≡ first post
onward-first mmap head c p hs g pre post Grown ga put there goes =
    let f = put.nodes in
    let k = sizes g in
    let out = (hand-IsApart mmap g head c (pre ++ post) hs ga.tiled).outside in
    let ne : c ≢ first post = first-ne c pre post there (ground arith) in
    let linked : (zs : List ℕ) → insert k c (pre ++ post) ≡ zs → Linked f (head ∷ zs) =
      λ zs e. subst (λ ws. Linked f (head ∷ ws)) e put.heap.linked in
    elim ga.place [
      | inr (alone, gone) ↦
          onward_direct c p (first post) f (ap (λ b. b.next) (put.apart p gone) ∙ ga.next) ne
      | inl (at, other) ↦ elim goes [
        | inr ((right, same), grown) ↦
            onward_direct c p (first post) f
              (ap (λ b. (f b).next) at
                ∙ (Linked-parts f head pre (insert k c post) (linked _ right)).0
                ∙ same)
              ne
        | inl left ↦ elim (last_of-insert k c head pre) [
          | inr inner ↦
              onward_direct c p (first post) f
                (ap (λ b. (f b).next) (at ∙ sym inner)
                  ∙ (Linked-parts f head (insert k c pre) post (linked _ left)).0)
                ne
          | inl last ↦
              let whole : insert k c (pre ++ post) ≡ (pre ++ c ∷ []) ++ post =
                left ∙ ap (λ zs. zs ++ post) last in
              let here =
                (Linked-parts f head pre (c ∷ post)
                  (linked _ (whole ∙ append_assoc pre (c ∷ []) post))).0 in
              let next = (Linked-parts f head (pre ++ c ∷ []) post (linked _ whole)).0 in
              onward_over c p (first post) f (ap (λ b. (f b).next) at ∙ here)
                (ap (λ b. (f b).next) (sym (last_of-end c head pre)) ∙ next)
        ]
      ]
    ]
