-- ===== src/Kernel/Console/Cursor.antt =====
-- `write_ch`: where the cursor goes, what memory is touched, and where the character stands.
use gml_vm.Base.{
  ℕ, ◌+◌, ◌-◌, ◌*◌, ◌≤◌, ◌<◌, ◌≡◌, ◌≢◌, refl, ◌∙◌, ◌⊎◌, inl, inr, arith, ap, ltb, Bool-cases,
  ltb→lt, bit_or,
}
use gml_vm.Base.Bits.{bit_or-high}
use gml_vm.Kernel.Memory.{memcpy_lem}
use gml_vm.Kernel.Console.{Console, put_ch, wrap, scroll, write_ch}

-- The number of the cell that the cursor stands on.
abbrev pub cell : Console → ℕ
cell c = c.y * 80 + c.x

-- The cursor is on the screen, or on the first cell behind it.
pub record IsCursor (c : Console) : Type 0 where
  pub column : c.x < 80
  pub row : c.y * 80 + c.x ≤ 2000

put_ch-IsCursor :
    (ch : ℕ) (c : Console)
    → IsCursor c
    → ((wrap (put_ch ch c)).x < 80) × (cell (wrap (put_ch ch c)) ≤ 2080)
unfolding put_ch
put_ch-IsCursor ch c here = ground (arith, here.column, here.row)

scroll-IsCursor : (c : Console) → c.x < 80 → cell c ≤ 2080 → IsCursor (scroll c)
unfolding scroll
scroll-IsCursor c column row = record { column = ground arith; row = ground arith }

-- No memory but the screen and the cell behind it is touched.
put_ch-outside :
    (ch j : ℕ) (c : Console)
    → IsCursor c
    → (j < 0xb8000) ⊎ (0xb8000 + 4002 ≤ j)
    → (put_ch ch c).mem j ≡ c.mem j
unfolding put_ch
put_ch-outside ch j c here out = ground (arith, here.row)

scroll-outside :
    (j : ℕ) (c : Console) → (j < 0xb8000) ⊎ (0xb8000 + 4002 ≤ j) → (scroll c).mem j ≡ c.mem j
unfolding scroll
scroll-outside j c out =
    let moved = memcpy_lem 0xb8000 (0xb8000 + 160) (25 * 80 * 2) c.mem j (inl (omega arith)) in
    ground (arith, moved)

-- Scrolling keeps the byte `k` of the cell in front of the cursor in front of the cursor.
scroll-shown :
    (c : Console) (k : ℕ)
    → k < 2
    → c.x < 80
    → 0 < cell c
    → cell c ≤ 2001
    → (scroll c).mem (0xb8000 + 2 * (cell (scroll c) - 1) + k)
      ≡ c.mem (0xb8000 + 2 * (cell c - 1) + k)
unfolding scroll
scroll-shown c k small column pos fits =
    let here : ℕ = 0xb8000 + 2 * (cell c - 81) + k in
    let moved = memcpy_lem 0xb8000 (0xb8000 + 160) (25 * 80 * 2) c.mem here (inl (omega arith)) in
    elim (Bool-cases (ltb (80 * 25 * 2) (cell c * 2))) [
      | inl full ↦
          let behind = ltb→lt (80 * 25 * 2) (cell c * 2) full in
          let at : 0xb8000 + 2 * ((c.y - 1) * 80 + c.x - 1) + k ≡ here = omega (arith, behind) in
          rw (full, at, moved) (ground arith)
      | inr room ↦ rw room refl
    ]

put_ch-shown :
    (ch : ℕ) (c : Console)
    → IsCursor c
    → ch < 256
    → ch ≢ 10
    → (cell (wrap (put_ch ch c)) ≡ cell c + 1)
      × ((put_ch ch c).mem (0xb8000 + 2 * cell c) ≡ ch)
      × ((put_ch ch c).mem (0xb8000 + 2 * cell c + 1) ≡ 0x0f)
unfolding put_ch
put_ch-shown ch c here byte visible =
    let white : bit_or ch 0x0f00 ≡ 0x0f00 + ch = bit_or-high 8 15 ch refl byte in
    (ground (arith, here.column), ground (arith, white, here.row), ground (arith, white, here.row))

-- `write_ch` keeps the cursor on the screen or on the first cell behind it, and touches no memory
-- but the 4000 bytes of the screen and the 2 bytes of that cell.
write_ch-IsCursor :
    (ch j : ℕ) (c : Console)
    → IsCursor c
    → (j < 0xb8000) ⊎ (0xb8000 + 4002 ≤ j)
    → IsCursor (write_ch ch c) × ((write_ch ch c).mem j ≡ c.mem j)
unfolding write_ch
write_ch-IsCursor ch j c here out =
    let p = put_ch-IsCursor ch c here in
    (
      scroll-IsCursor (wrap (put_ch ch c)) p.0 p.1,
      scroll-outside j (wrap (put_ch ch c)) out ∙ put_ch-outside ch j c here out,
    )

-- A character of 8 bits other than the new line stands, white on black, on the cell in front of
-- the new cursor, when the cursor was on the screen or on the first cell behind it.
pub write_ch-shown :
    (ch : ℕ) (c : Console)
    → IsCursor c
    → ch < 256
    → ch ≢ 10
    → ((write_ch ch c).mem (0xb8000 + 2 * (cell (write_ch ch c) - 1)) ≡ ch)
      × ((write_ch ch c).mem (0xb8000 + 2 * (cell (write_ch ch c) - 1) + 1) ≡ 0x0f)
unfolding write_ch
write_ch-shown ch c here byte visible =
    let d = wrap (put_ch ch c) in
    let put = put_ch-shown ch c here byte visible in
    let column = (put_ch-IsCursor ch c here).0 in
    let at : 0xb8000 + 2 * (cell d - 1) ≡ 0xb8000 + 2 * cell c = omega (arith, put.0) in
    let pos : 0 < cell d = omega (arith, put.0) in
    let fits : cell d ≤ 2001 = omega (arith, put.0) in
    (
      ap (scroll d).mem (omega arith)
          ∙ scroll-shown d 0 (omega arith) column pos fits
          ∙ ap d.mem (omega (arith, at))
          ∙ put.1,
      scroll-shown d 1 (omega arith) column pos fits ∙ ap (λ (a : ℕ). d.mem (a + 1)) at ∙ put.2,
    )
