-- ===== src/Kernel/Paging/Share/Copy.antt =====
-- What a page holds once it has been taken out of sharing.
use gml_vm.Base.{
  ℕ, ◌+◌, ◌-◌, ◌*◌, ◌≤◌, ◌<◌, ◌^◌, ◌≡◌, ◌≢◌, refl, ◌∙◌, ◌⊎◌, arith, some, ltb, leb, if◌then◌else◌,
  true, shl, shr, lt→ltb,
}
use gml_vm.Kernel.Machine.{Machine, ◌>>=◌}
use gml_vm.Kernel.Memory.{memcpy, memcpy_lem}
use gml_vm.Kernel.Frames.{take_frame}
use gml_vm.Kernel.Frames.Laws.{FirstUser, uget_free_page-first}
use gml_vm.Kernel.Paging.Share.{drop_holder, un_wp_page}

copied :
    (dest page k : ℕ) (mem : ℕ → ℕ)
    → (dest ≤ page) ⊎ (page + 1024 ≤ dest)
    → memcpy dest page 1024 mem (dest + k) ≡ (if ltb k 1024 then mem (page + k) else mem (dest + k))
copied dest page k mem apart =
    let moved = memcpy_lem dest page 1024 mem (dest + k) apart in
    let from : leb dest (dest + k) ≡ true = ground arith in
    let size : ltb (dest + k) (dest + 1024) ≡ ltb k 1024 = ground arith in
    let offset : dest + k - dest ≡ k = omega arith in moved ∙ rw (from, size, offset) refl

-- A page with more than one holder, when the user's part has a free frame that the copied bytes do
-- not overlap, and the memory ends below 2 ^ 32: `un_wp_page` takes one holder off and gives the
-- address of the first free frame, marked as taken. A quarter of the frame is a copy: its first
-- 1024 bytes are those at `page`, and the others are left as they were.
pub un_wp_page_shared :
    (m : Machine) (fuel junk page i k : ℕ)
    → 1 < m.mmap (shr page 12)
    → FirstUser (drop_holder page m) i
    → m.hmem < 2 ^ 32
    → (page + 1024 ≤ 4096 * i) ⊎ (4096 * i + 4096 ≤ page)
    → k < 4096
    → (m' : Machine) × (un_wp_page fuel junk page m ≡ some (4096 * i, m'))
      × (m'.mmap (shr page 12) + 1 ≡ m.mmap (shr page 12))
      × (m'.mmap i ≡ 1)
      × (m'.mem (4096 * i + k) ≡ (if ltb k 1024 then m.mem (page + k) else m.mem (4096 * i + k)))
unfolding un_wp_page
un_wp_page_shared m fuel junk page i k shared first bound apart inside =
    let got = uget_free_page-first (drop_holder page m) i fuel first in
    let at : shl i 12 ≡ 4096 * i = omega (arith, first.below) in
    let several = lt→ltb 1 (m.mmap (shr page 12)) shared in
    let apart' : (4096 * i ≤ page) ⊎ (page + 1024 ≤ 4096 * i) = ground arith in
    let other : shr page 12 ≢ i = λ e. ground (arith, first.free) in
    (
      record (take_frame (drop_holder page m) i) { mem = memcpy (4096 * i) page 1024 m.mem },
      rw (several, ◌>>=◌, got, at) refl,
      ground arith,
      ground arith,
      copied (4096 * i) page k m.mem apart',
    )
