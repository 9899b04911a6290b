-- ===== src/Kernel/Frames/Scan.antt =====
-- The loop over `mmap` finds the first free frame of its range.
use gml_vm.Base.{
  ℕ, zero, suc, ◌+◌, ◌-◌, ◌≤◌, ◌<◌, ◌≡◌, ◌≢◌, refl, ◌⊎◌, inl, inr, none, some, arith, ◌==◌, ==→ne,
  Bool-cases,
}
use gml_vm.Kernel.Frames.{scan}

-- `i` is the first free frame from `lo` on, and lies below `hi`.
pub record IsFirstFree (mmap : ℕ → ℕ) (lo hi i : ℕ) : Type 0 where
  pub from : lo ≤ i
  pub below : i < hi
  pub free : mmap i ≡ 0
  pub taken : (j : ℕ) → lo ≤ j → j < i → mmap j ≢ 0

abbrev pub AllTaken : (ℕ → ℕ) → ℕ → ℕ → Type 0
AllTaken mmap lo hi = (j : ℕ) → lo ≤ j → j < hi → mmap j ≢ 0

-- A busy frame in front of the range.
IsFirstFree-cons :
    (mmap : ℕ → ℕ) (lo hi i : ℕ)
    → mmap lo ≢ 0
    → IsFirstFree mmap (lo + 1) hi i
    → IsFirstFree mmap lo hi i
IsFirstFree-cons mmap lo hi i ne f = record {
  from = omega (arith, f.from);
  below = f.below;
  free = f.free;
  taken = λ j p q. ground (arith, f.taken j);
}

pub scan-cases :
    (n lo hi : ℕ) (mmap : ℕ → ℕ)
    → n ≡ hi - lo
    → ((i : ℕ) × (scan n lo mmap ≡ some i) × IsFirstFree mmap lo hi i)
      ⊎ ((scan n lo mmap ≡ none) × AllTaken mmap lo hi)
unfolding scan
scan-cases zero lo hi mmap e = inr (refl, λ j p q. absurd (omega arith))
scan-cases (suc n) lo hi mmap e = elim (Bool-cases (mmap lo == 0)) [
  | inl here ↦ inl (
    lo,
    rw here,
    record {
      from = omega arith;
      below = omega arith;
      free = ground arith;
      taken = λ j p q. absurd (omega arith);
    },
  )
  | inr more ↦ elim (scan-cases n (lo + 1) hi mmap (omega arith)) [
    | inl (i, found, first) ↦
        inl (i, rw (more, found), IsFirstFree-cons mmap lo hi i (==→ne (mmap lo) 0 more) first)
    | inr (lost, all) ↦ inr (rw (more, lost), λ j p q. ground (arith, all j))
  ]
]

-- The first free frame is unique.
pub IsFirstFree-unique :
    (mmap : ℕ → ℕ) (lo hi i k : ℕ) → IsFirstFree mmap lo hi i → IsFirstFree mmap lo hi k → i ≡ k
IsFirstFree-unique mmap lo hi i k f g =
    ground (arith, f.taken k, g.taken i, f.free, g.free, f.from, g.from)
