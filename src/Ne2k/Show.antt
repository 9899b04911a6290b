-- ===== src/Ne2k/Show.antt =====
-- `show` of net/ne2k/ne2k.c: the bytes of a message on the console, 16 in a row.
use gml_vm.Base.{
  ℕ, zero, suc, ◌+◌, ◌%◌, ◌≡◌, refl, List, [], ◌∷◌, Option, some, none, ◌==◌, not, ◌&&◌,
  if◌then◌else◌, Bool-cases, inl, inr,
}
use gml_vm.Net.Message.{Msg}
use gml_vm.Kernel.Console.{Console, put_byte, print_format}

-- "\n\e ", "--", " " and "\n\n---------NEXT---------"
abbrev pub row_format : List ℕ
row_format = 0x0a ∷ 0x1b ∷ 0x20 ∷ []

abbrev pub gap_format : List ℕ
gap_format = 0x2d ∷ 0x2d ∷ []

abbrev pub space_format : List ℕ
space_format = 0x20 ∷ []

abbrev pub next_format : List ℕ
next_format =
    0x0a ∷ 0x0a ∷ 0x2d ∷ 0x2d ∷ 0x2d ∷ 0x2d ∷ 0x2d ∷ 0x2d ∷ 0x2d ∷ 0x2d ∷ 0x2d ∷ 0x4e ∷ 0x45 ∷ 0x58
    ∷ 0x54 ∷ 0x2d ∷ 0x2d ∷ 0x2d ∷ 0x2d ∷ 0x2d ∷ 0x2d ∷ 0x2d ∷ 0x2d ∷ 0x2d ∷ []

abbrev pub and_show : Option Console → (Console → Option Console) → Option Console
and_show none k = none
and_show (some c) k = k c

-- In front of the byte `i`: the start of a row, and the gap or the space.
unfoldable pub show_row : (i : ℕ) → Console → Option Console
show_row i c = let row = print_format row_format (i ∷ []) c in if i % 16 == 0 then row else some c

unfoldable pub show_gap : (i : ℕ) → Console → Option Console
show_gap i c =
    if i % 8 == 0 && not (i % 16 == 0)
    then print_format gap_format [] c
    else print_format space_format [] c

-- The loop over the bytes from `i` on, with `n` rounds left.
unfoldable pub show_bytes : (n i : ℕ) → (ℕ → ℕ) → Console → Option Console
show_bytes zero i at c = some c
show_bytes (suc n) i at c =
    and_show (show_row i c)
      λ c'. and_show (show_gap i c') λ c''. show_bytes n (i + 1) at (put_byte (at i) c'')

unfoldable pub show : Msg → Console → Option Console
show [] c = some c
show (f ∷ []) c = show_bytes f.len 0 f.at c
show (f ∷ g ∷ msg) c =
    and_show (show_bytes f.len 0 f.at c)
      λ c'. and_show (print_format next_format [] c') λ c''. show (g ∷ msg) c''

-- A run that reads no argument that is not there.
abbrev pub Shown : Option Console → Type 0
Shown r = (c : Console) × (r ≡ some c)

and_show-Shown :
    (r : Option Console) (k : Console → Option Console)
    → Shown r
    → ((c : Console) → Shown (k c))
    → Shown (and_show r k)
and_show-Shown r k (c, e) rest = rw e (rest c)

show_row-Shown : (i : ℕ) (c : Console) → Shown (show_row i c)
unfolding show_row print_format
show_row-Shown i c = elim (Bool-cases (i % 16 == 0)) [
  | inl start ↦ rw start (_, refl)
  | inr inside ↦ rw inside (c, refl)
]

show_gap-Shown : (i : ℕ) (c : Console) → Shown (show_gap i c)
unfolding show_gap print_format
show_gap-Shown i c = elim (Bool-cases (i % 8 == 0 && not (i % 16 == 0))) [
  | inl gap ↦ rw gap (_, refl)
  | inr space ↦ rw space (_, refl)
]

show_bytes-Shown : (n i : ℕ) (at : ℕ → ℕ) (c : Console) → Shown (show_bytes n i at c)
unfolding show_bytes
show_bytes-Shown zero i at c = (c, refl)
show_bytes-Shown (suc n) i at c = and_show-Shown (show_row i c) _ (show_row-Shown i c) λ c'.
    and_show-Shown (show_gap i c') _ (show_gap-Shown i c')
      λ c''. show_bytes-Shown n (i + 1) at (put_byte (at i) c'')

next-Shown : (c : Console) → Shown (print_format next_format [] c)
unfolding print_format
next-Shown c = (_, refl)

-- `show` of any message comes back, and no format reads an argument that is not given.
pub show-Shown : (msg : Msg) (c : Console) → Shown (show msg c)
unfolding show
show-Shown [] c = (c, refl)
show-Shown (f ∷ []) c = show_bytes-Shown f.len 0 f.at c
show-Shown (f ∷ g ∷ msg) c =
    and_show-Shown (show_bytes f.len 0 f.at c) _ (show_bytes-Shown f.len 0 f.at c) λ c'.
      and_show-Shown (print_format next_format [] c') _ (next-Shown c')
        λ c''. show-Shown (g ∷ msg) c''
