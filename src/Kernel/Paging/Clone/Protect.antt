-- ===== src/Kernel/Paging/Clone/Protect.antt =====
-- What `create_mm` does to the pages that are to be shared.
use gml_vm.Base.{
  ℕ, zero, suc, ◌+◌, ◌*◌, ◌/◌, ◌%◌, ◌^◌, ◌<◌, ◌≡◌, refl, ◌∙◌, ap, inl, inr, ◌==◌, ltb, leb,
  if◌then◌else◌, u8, arith, false, ◌&&◌, Bool-cases, ==→eq, bit_and,
}
use gml_vm.Base.Bits.{bit_and-low_bits, bit_and-without_one}
use gml_vm.Kernel.Machine.{Machine, load, store, load-store_self, load-store_apart}
use gml_vm.Kernel.Paging.Fault.{entry}
use gml_vm.Kernel.Paging.Clone.{protect, share_pages}

-- An entry without its bit 1, which allows writing.
abbrev pub read_only : ℕ → ℕ
read_only e = e / 4 % 2 ^ 30 * 4 + e % 2

-- The entries of the table at `pte`, from `j` on, `n` of them, that are present and lead to the frame `f`.
abbrev pub holders : (n j f pte : ℕ) → (ℕ → ℕ) → ℕ
holders zero j f pte mem = 0
holders (suc n) j f pte mem =
    let rest = holders n (j + 1) f pte mem in
    let e = load mem (pte + 4 * j) in
    if e % 2 == 0 then rest else if e / 4096 % 2 ^ 20 == f then suc rest else rest

holders-store :
    (n j k f pte v : ℕ) (mem : ℕ → ℕ)
    → k < j
    → holders n j f pte (store mem (pte + 4 * k) v) ≡ holders n j f pte mem
holders-store zero j k f pte v mem h = refl
holders-store (suc n) j k f pte v mem h =
    rw
      (
        load-store_apart mem (pte + 4 * k) (pte + 4 * j) v (inl (omega arith)),
        holders-store n (j + 1) k f pte v mem (omega arith),
      )
      refl

-- An entry and a frame, once the entries have been gone through.
pub record Shared (n j pte : ℕ) (m g : Machine) : Type 0 where
  pub entry :
      (k : ℕ)
      → load g.mem (pte + 4 * k) ≡ (
          if leb j k && ltb k (j + n) && load m.mem (pte + 4 * k) % 2 == 1
          then read_only (load m.mem (pte + 4 * k))
          else load m.mem (pte + 4 * k))
  pub count : (f : ℕ) → u8 (g.mmap f) ≡ u8 (m.mmap f + holders n j f pte m.mem)

-- One entry that is present.
record Protected (pte j : ℕ) (m g : Machine) : Type 0 where
  self : load g.mem (pte + 4 * j) ≡ read_only (load m.mem (pte + 4 * j))
  other : (k : ℕ) → (k == j) ≡ false → load g.mem (pte + 4 * k) ≡ load m.mem (pte + 4 * k)
  rest : (n f : ℕ) → holders n (j + 1) f pte g.mem ≡ holders n (j + 1) f pte m.mem
  count :
      (f : ℕ)
      → u8 (g.mmap f)
        ≡ u8 (m.mmap f + (if load m.mem (pte + 4 * j) / 4096 % 2 ^ 20 == f then 1 else 0))

protect-Protected : (pte j : ℕ) (m : Machine) → Protected pte j m (protect pte j m)
unfolding entry
protect-Protected pte j m =
    let e = load m.mem (pte + 4 * j) in
    let bits = bit_and-without_one e in
    rw bits (record {
      self = load-store_self m.mem (pte + 4 * j) (read_only e) (omega arith);
      other =
          λ k ne. load-store_apart m.mem (pte + 4 * j) (pte + 4 * k) (read_only e) (ground arith);
      rest = λ n f. holders-store n (j + 1) j f pte (read_only e) m.mem (omega arith);
      count = λ f. ground arith;
    })

-- The inner loop of `create_mm` over a page table: each entry in its range that is present loses the right to
-- write and keeps its frame, the others stay as they are; and each frame counts, in 8 bits, one holder more for
-- each of these entries that leads to it.
pub share_pages-Shared : (n j pte : ℕ) (m : Machine) → Shared n j pte m (share_pages n j pte m)
unfolding share_pages entry
share_pages-Shared zero j pte m = record { entry = λ k. ground arith; count = λ f. ground arith }
share_pages-Shared (suc n) j pte m =
    let e = load m.mem (pte + 4 * j) in
    elim (Bool-cases (bit_and e 1 == 0)) [
      | inl absent ↦
          let r = share_pages-Shared n (j + 1) pte m in
          let even : e % 2 ≡ 0 = ground (arith, bit_and-low_bits 1 e) in
          rw absent (record {
            entry = λ k. r.entry k ∙ ground (arith, even);
            count = λ f. ground (arith, r.count f, even);
          })
      | inr present ↦
          let p = protect-Protected pte j m in
          let r = share_pages-Shared n (j + 1) pte (protect pte j m) in
          let odd : e % 2 ≡ 1 = ground (arith, bit_and-low_bits 1 e) in
          rw present (record {
            entry = λ k. elim (Bool-cases (k == j)) [
              | inl here ↦
                  let same = ==→eq k j here in
                  let before = ap (λ i. load m.mem (pte + 4 * i)) same in
                  let behind =
                    ap (λ i. load (share_pages n (j + 1) pte (protect pte j m)).mem (pte + 4 * i))
                      same in
                  ground (arith, before, behind, r.entry j, p.self, odd)
              | inr there ↦ r.entry k ∙ rw (p.other k there) (ground arith)
            ];
            count = λ f. ground (arith, r.count f, p.rest n f, p.count f, odd);
          })
    ]
