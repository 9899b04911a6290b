-- ===== src/Kernel/Frames/Laws.antt =====
-- The frame allocator: what it hands out, when it comes back, and what freeing does.
use gml_vm.Base.{
  ℕ, zero, suc, ◌+◌, ◌-◌, ◌*◌, ◌≤◌, ◌<◌, ◌≡◌, refl, ◌∙◌, ap, fun_ext, ◌⊎◌, inl, inr, none, some,
  arith, ◌==◌, ltb, if◌then◌else◌, shl, shr, true, false, le→ltb, eq→==,
}
use gml_vm.Kernel.Machine.{Machine}
use gml_vm.Kernel.Frames.{
  kernel_scan, take_frame, get_free_page, uget_free_page, free_page, success, failure,
}
use gml_vm.Kernel.Frames.Scan.{IsFirstFree, AllTaken, scan-cases, IsFirstFree-unique}

-- The frames that each function looks through, by number.
abbrev pub FirstKernel : Machine → ℕ → Type 0
FirstKernel m i = IsFirstFree m.mmap 0x400 (shr m.kmem 12) i

abbrev pub FirstUser : Machine → ℕ → Type 0
FirstUser m i = IsFirstFree m.mmap (shr m.kmem 12) (shr m.hmem 12) i

kernel_scan-cases :
    (m : Machine)
    → ((i : ℕ) × (kernel_scan m ≡ some i) × FirstKernel m i)
      ⊎ ((kernel_scan m ≡ none) × AllTaken m.mmap 0x400 (shr m.kmem 12))
kernel_scan-cases m = scan-cases (shr m.kmem 12 - 0x400) 0x400 (shr m.kmem 12) m.mmap refl

-- Without a free frame no number of rounds brings `get_free_page` back.
none_forever : (fuel : ℕ) (m : Machine) → kernel_scan m ≡ none → get_free_page fuel m ≡ none
unfolding get_free_page
none_forever zero m e = refl
none_forever (suc fuel) m e = rw (e, get_free_page) (none_forever fuel m e)

-- `get_free_page` either comes back at once, whatever the fuel, with the address of the first
-- free frame of the kernel, which it marks; or all frames of the kernel are taken, and then it
-- never comes back.
pub get_free_page_total :
    (m : Machine)
    → ((i : ℕ) × FirstKernel m i
        × ((fuel : ℕ) → get_free_page (suc fuel) m ≡ some (shl i 12, take_frame m i)))
      ⊎ (AllTaken m.mmap 0x400 (shr m.kmem 12) × ((fuel : ℕ) → get_free_page fuel m ≡ none))
unfolding get_free_page
get_free_page_total m = elim (kernel_scan-cases m) [
  | inl (i, found, first) ↦ inl (i, first, λ fuel. rw (found, get_free_page))
  | inr (lost, all) ↦ inr (all, λ fuel. none_forever fuel m lost)
]

kernel_scan-first : (m : Machine) (i : ℕ) → FirstKernel m i → kernel_scan m ≡ some i
kernel_scan-first m i first = elim (kernel_scan-cases m) [
  | inl (k, found, other) ↦ rw (IsFirstFree-unique _ _ _ i k first other) found
  | inr (lost, all) ↦ absurd (all i first.from first.below first.free)
]

pub get_free_page-first :
    (m : Machine) (i fuel : ℕ)
    → FirstKernel m i
    → get_free_page (suc fuel) m ≡ some (shl i 12, take_frame m i)
unfolding get_free_page
get_free_page-first m i fuel first = rw (kernel_scan-first m i first, get_free_page)

-- `uget_free_page` takes the first free frame of the user's part; when there is none it does what
-- `get_free_page` does, so that the user never gets less than the kernel.
pub uget_free_page_total :
    (m : Machine)
    → ((i : ℕ) × FirstUser m i
        × ((fuel : ℕ) → uget_free_page fuel m ≡ some (shl i 12, take_frame m i)))
      ⊎ (AllTaken m.mmap (shr m.kmem 12) (shr m.hmem 12)
          × ((fuel : ℕ) → uget_free_page fuel m ≡ get_free_page fuel m))
unfolding uget_free_page
uget_free_page_total m =
    elim (scan-cases (shr m.hmem 12 - shr m.kmem 12) (shr m.kmem 12) (shr m.hmem 12) m.mmap refl) [
      | inl (i, found, first) ↦ inl (i, first, λ fuel. rw (found, uget_free_page))
      | inr (lost, all) ↦ inr (all, λ fuel. rw (lost, uget_free_page))
    ]

pub uget_free_page-first :
    (m : Machine) (i fuel : ℕ)
    → FirstUser m i
    → uget_free_page fuel m ≡ some (shl i 12, take_frame m i)
unfolding uget_free_page
uget_free_page-first m i fuel first = elim (uget_free_page_total m) [
  | inl (k, other, back) ↦ rw (IsFirstFree-unique _ _ _ i k first other) (back fuel)
  | inr (all, back) ↦ absurd (all i first.from first.below first.free)
]

-- The pages that `get_free_page` hands out in two calls, when the kernel has a free frame at
-- each: the second lies above the first. The kernel's memory ends at 0x40000000 or below.
get_free_page_twice :
    (m : Machine) (i k fuel : ℕ)
    → m.kmem ≤ 0x40000000
    → FirstKernel m i
    → FirstKernel (take_frame m i) k
    → (get_free_page (suc fuel) m ≡ some (4096 * i, take_frame m i))
      × (get_free_page (suc fuel) (take_frame m i) ≡ some (4096 * k, take_frame (take_frame m i) k))
      × (i < k)
get_free_page_twice m i k fuel bound first second =
    let low : shl i 12 ≡ 4096 * i = omega (arith, first.below) in
    let high : shl k 12 ≡ 4096 * k = omega (arith, second.below) in
    (
      get_free_page-first m i fuel first ∙ ap (λ a. some (a, take_frame m i)) low,
      get_free_page-first (take_frame m i) k fuel second
          ∙ ap (λ a. some (a, take_frame (take_frame m i) k)) high,
      ground (arith, first.taken k, second.free, second.from, first.from),
    )

-- Freeing the page that was just handed out succeeds and gives back the state as it was. The
-- kernel's memory lies within the memory there is and ends at 0x40000000 or below.
pub free_page-get_free_page :
    (m : Machine) (i : ℕ)
    → FirstKernel m i
    → m.kmem ≤ m.hmem
    → m.kmem ≤ 0x40000000
    → free_page (shl i 12) (take_frame m i) ≡ (success, m)
unfolding free_page
free_page-get_free_page m i first within bound =
    let low : ltb m.hmem (shl i 12) ≡ false =
      le→ltb m.hmem (shl i 12) (omega (arith, first.below)) in
    let back : shr (shl i 12) 12 ≡ i = omega (arith, first.below) in
    let self : (i == i) ≡ true = eq→== i i refl in
    rw (low, back, self)
      (ap (λ t. (success, record m { mmap = t })) (fun_ext λ j. ground (arith, first.free)))

-- A page that is free, or lies above the memory there is, cannot be freed: the call fails and
-- changes nothing.
pub free_page_fails :
    (m : Machine) (addr : ℕ)
    → (m.hmem < addr) ⊎ (m.mmap (shr addr 12) ≡ 0)
    → free_page addr m ≡ (failure, m)
unfolding free_page
free_page_fails m addr bad = ground arith

-- Of a page that is held and lies within the memory, freeing takes one holder off, and the other
-- pages stay as they are.
pub free_page_counts :
    (m : Machine) (addr j : ℕ)
    → addr ≤ m.hmem
    → 0 < m.mmap (shr addr 12)
    → ((free_page addr m).0 ≡ success)
      × ((free_page addr m).1.mmap j + (if j == shr addr 12 then 1 else 0) ≡ m.mmap j)
unfolding free_page
free_page_counts m addr j within taken = (ground arith, ground arith)
