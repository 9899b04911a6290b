-- ===== src/Kernel/Malloc/Page.antt =====
-- A page from the frame allocator joins the free nodes.
use gml_vm.Base.{
  ℕ, suc, ◌+◌, ◌*◌, ◌/◌, ◌^◌, ◌≤◌, ◌<◌, ◌≡◌, ◌≢◌, refl, ap, ◌∙◌, sym, subst, ◌⊎◌, inl, inr, List,
  [], ◌∷◌, ◌==◌, true, false, ◌||◌, leb, arith, length, some, Option, ==→eq, Bool-cases,
}
use gml_vm.Kernel.Machine.{Machine, update}
use gml_vm.Kernel.Frames.{take_frame}
use gml_vm.Kernel.Frames.Laws.{FirstKernel}
use gml_vm.Kernel.Malloc.{Node, Nodes, add}
use gml_vm.Kernel.Malloc.Chain.{has, insert, has-insert}
use gml_vm.Kernel.Malloc.Add.{sizes}
use gml_vm.Kernel.Malloc.Pool.{page_node}
use gml_vm.Kernel.Malloc.Room.{IsHeap, total, total-ext, total-insert}
use gml_vm.Kernel.Malloc.Room.Keep.{IsHeap-frame, IsSpare, add-Put}
use gml_vm.Kernel.Malloc.Carve.{Change-frame, Off-at}

-- Each byte of the node at `a` lies in a frame that is taken, or below the frames that are handed out.
abbrev pub OnTaken : (ℕ → ℕ) → Nodes → ℕ → Type 0
OnTaken mmap h a =
    (b : ℕ) → a ≤ b → b < a + 16 + (h a).size → (mmap (b / 4096) ≢ 0) ⊎ (b < 0x400000)

abbrev pub Backed : (ℕ → ℕ) → Nodes → List ℕ → Type 0
Backed mmap h xs = (a : ℕ) → has a xs ≡ true → OnTaken mmap h a

-- A free frame overlaps no such node.
frame-off :
    (mmap : ℕ → ℕ) (h : Nodes) (i a : ℕ)
    → 0x400 ≤ i
    → mmap i ≡ 0
    → OnTaken mmap h a
    → (4096 * i + 16 + 4080 ≤ a) ⊎ (a + 16 + (h a).size ≤ 4096 * i)
frame-off mmap h i a from free on =
    let at : 4096 * i / 4096 ≡ i = omega arith in
    elim (Bool-cases (leb a (4096 * i))) [
      | inl below ↦ ground (arith, on (4096 * i), at)
      | inr above ↦ elim (Bool-cases (leb (4096 * i + 4096) a)) [
        | inl off ↦ ground arith
        | inr inside ↦
            let at' : a / 4096 ≡ i = ground arith in
            ground (arith, on a (omega arith) (omega arith), at')
      ]
    ]

frame-IsSpare :
    (mmap : ℕ → ℕ) (h : Nodes) (head i : ℕ) (xs : List ℕ)
    → 0x400 ≤ i
    → 4096 * i + 4096 ≤ 2 ^ 32
    → mmap i ≡ 0
    → Backed mmap h (head ∷ xs)
    → IsHeap h head xs
    → IsHeap (update h (4096 * i) page_node) head xs
      × IsSpare (update h (4096 * i) page_node) head (4096 * i) xs
frame-IsSpare mmap h head i xs from fits free on p =
    let c = 4096 * i in
    let g = update h c page_node in
    let self : g c ≡ page_node = ground arith in
    let off : (a : ℕ) → has a (head ∷ xs) ≡ true → (c + 16 + 4080 ≤ a) ⊎ (a + 16 + (h a).size ≤ c) =
      λ a j. frame-off mmap h i a from free (on a j) in
    let out : has c (head ∷ xs) ≡ false = elim (Bool-cases (has c (head ∷ xs))) [
      | inl j ↦ absurd (ground (arith, off c j))
      | inr out ↦ out
    ] in
    let same = Change-frame h c page_node (head ∷ xs) out in
    (
      IsHeap-frame h g head xs same p,
      record {
        apart = record {
          outside = out;
          off = λ a j.
              Off-at (sizes g) c a 4080 (h a).size (ap (λ (b : Node). b.size) self)
                (ap (λ (b : Node). b.size) (same a j)) (off a j);
        };
        there = omega arith;
        pos = rw self (omega arith);
        fits = rw self (omega arith);
        state = rw self refl;
      },
    )

-- The run comes back with the page of the frame `i` as one more free node.
pub record Grown (m : Machine) (h : Nodes) (head i : ℕ) (xs : List ℕ) (r : Option (ℕ × Nodes))
    : Type 0 where
  pub nodes : Nodes
  pub rest : List ℕ
  pub returns : r ≡ some (head, nodes)
  pub heap : IsHeap nodes head rest
  pub backed : Backed (take_frame m i).mmap nodes (head ∷ rest)
  pub holds : (a : ℕ) → has a rest ≡ (a == 4096 * i) || has a xs
  pub page : (nodes (4096 * i)).size ≡ 4080
  pub old : (a : ℕ) → has a (head ∷ xs) ≡ true → (nodes a).size ≡ (h a).size
  pub others :
      (a : ℕ) → a ≢ 4096 * i → ((nodes a).size ≡ (h a).size) × ((nodes a).state ≡ (h a).state)
  pub all : total (sizes nodes) rest ≡ 4096 + total (sizes h) xs
  pub longer : length rest ≡ suc (length xs)

pub length-insert : (k : ℕ → ℕ) (m : ℕ) (xs : List ℕ) → length (insert k m xs) ≡ suc (length xs)
length-insert k m [] = refl
length-insert k m (x ∷ xs) = ground (arith, length-insert k m xs)

OnTaken-page :
    (mmap : ℕ → ℕ) (g : Nodes) (i : ℕ)
    → (g (4096 * i)).size ≡ 4080
    → OnTaken (update mmap i 1) g (4096 * i)
OnTaken-page mmap g i size b from below = let at : b / 4096 ≡ i = omega arith in inl (ground arith)

OnTaken-old :
    (mmap : ℕ → ℕ) (h g : Nodes) (i a : ℕ)
    → (g a).size ≡ (h a).size
    → OnTaken mmap h a
    → OnTaken (update mmap i 1) g a
OnTaken-old mmap h g i a same on b from below = ground (arith, on b from (omega arith))

pub add-Grown :
    (n : ℕ) (m : Machine) (h : Nodes) (head i : ℕ) (xs : List ℕ)
    → IsHeap h head xs
    → Backed m.mmap h (head ∷ xs)
    → FirstKernel m i
    → m.kmem ≤ 2 ^ 32
    → length (head ∷ xs) < n
    → Grown m h head i xs (add n head (4096 * i) (update h (4096 * i) page_node))
add-Grown n m h head i xs p on first bound fuel =
    let c = 4096 * i in
    let g = update h c page_node in
    let spare =
      frame-IsSpare m.mmap h head i xs first.from (omega (arith, first.below)) first.free on p in
    let put = add-Put n g head c xs spare.0 spare.1 fuel in
    let ys = insert (sizes g) c xs in
    let out = spare.1.apart.outside in
    let old : (a : ℕ) → has a (head ∷ xs) ≡ true → (put.nodes a).size ≡ (h a).size = λ a j.
      put.size a ∙ ap (λ (b : Node). b.size) (Change-frame h c page_node (head ∷ xs) out a j) in
    let page : (put.nodes c).size ≡ 4080 = put.size c ∙ ground arith in
    let kept = total-ext (sizes h) (sizes put.nodes) xs (λ a j. old a (ground arith)) in
    record {
      nodes = put.nodes;
      rest = ys;
      returns = put.returns;
      heap = put.heap;
      backed = λ a j. elim (Bool-cases (a == c)) [
        | inl new ↦
            subst (λ b. OnTaken (update m.mmap i 1) put.nodes b) (sym (==→eq a c new))
              (OnTaken-page m.mmap put.nodes i page)
        | inr other ↦
            let j' : has a (head ∷ xs) ≡ true = ground (arith, has-insert (sizes g) c a xs) in
            OnTaken-old m.mmap h put.nodes i a (old a j') (on a j')
      ];
      holds = λ a. has-insert (sizes g) c a xs;
      page = page;
      old = old;
      others = λ a other.
          let same : g a ≡ h a = ground arith in
          (
            put.size a ∙ ap (λ (b : Node). b.size) same,
            put.state a ∙ ap (λ (b : Node). b.state) same,
          );
      all = omega (arith, total-insert (sizes put.nodes) (sizes g) c xs, page, kept);
      longer = length-insert (sizes g) c xs;
    }
