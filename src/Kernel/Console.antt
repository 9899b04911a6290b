-- ===== src/Kernel/Console.antt =====
-- kernel/dg.c, the console: a text screen of 25 rows of 80 cells at 0xb8000, two bytes a cell.
pub mod Cursor
pub mod Hex
use gml_vm.Base.{
  ℕ, zero, suc, ◌+◌, ◌-◌, ◌*◌, ◌/◌, ◌%◌, ◌^◌, List, [], ◌∷◌, Option, none, some, ◌==◌, ltb,
  if◌then◌else◌, bit_and, bit_or, shl, shr, u8, u16, get_or,
}
use gml_vm.Kernel.Memory.{memcpy, set_bytes}

-- `x`, `y`, and memory
pub record Console : Type 0 where
  pub x : ℕ
  pub y : ℕ
  pub mem : ℕ → ℕ

-- `mov %ax,(%1)`
abbrev pub store16 : (ℕ → ℕ) → ℕ → ℕ → ℕ → ℕ
store16 m a v j = if j == a then v % 256 else if j == a + 1 then v / 256 % 256 else m j

-- The `switch`: a new line, or a character at the cursor.
unfoldable pub put_ch : (ch : ℕ) → Console → Console
put_ch ch c = if ch == 10 then record c { x = 0; y = c.y + 1 } else record c {
  x = c.x + 1;
  mem = store16 c.mem (0xb8000 + shl (c.y * 80 + c.x) 1) (u16 (bit_or ch 0x0f00));
}

-- `y+=x/80; x%=80;`
abbrev pub wrap : Console → Console
wrap c = record c { x = c.x % 80; y = c.y + c.x / 80 }

-- Behind the last row everything moves up by one.
unfoldable pub scroll : Console → Console
scroll c =
    if ltb (80 * 25 * 2) ((c.y * 80 + c.x) * 2)
    then record c { y = c.y - 1; mem = memcpy 0xb8000 (0xb8000 + 160) (25 * 80 * 2) c.mem }
    else c

unfoldable pub write_ch : (ch : ℕ) → Console → Console
write_ch ch c = scroll (wrap (put_ch ch c))

-- "0123456789ABCDEF"
abbrev pub hex_digits : List ℕ
hex_digits =
    0x30 ∷ 0x31 ∷ 0x32 ∷ 0x33 ∷ 0x34 ∷ 0x35 ∷ 0x36 ∷ 0x37 ∷ 0x38 ∷ 0x39 ∷ 0x41 ∷ 0x42 ∷ 0x43 ∷ 0x44
    ∷ 0x45 ∷ 0x46 ∷ []

unfoldable pub put_byte : (num : ℕ) → Console → Console
put_byte num c =
    let high = get_or hex_digits (bit_and (shr (u8 num) 4) 0xf) 0 in
    let low = get_or hex_digits (bit_and (u8 num) 0xf) 0 in write_ch low (write_ch high c)

unfoldable pub put_hex : (num : ℕ) → Console → Console
put_hex num c = put_byte (bit_and num 0xff) (
    put_byte (bit_and (shr num 8) 0xff)
      (put_byte (bit_and (shr num 16) 0xff) (put_byte (bit_and (shr num 24) 0xff) c)))

-- A format up to its end, each character as the 32 bits of an int; `\e` takes the next argument. Without one the argument read is not
-- defined.
unfoldable pub print_format : (str args : List ℕ) → Console → Option Console
print_format [] args c = some c
print_format (ch ∷ str) [] c =
    let rest = print_format str [] (write_ch ch c) in if ch == 0x1b then none else rest
print_format (ch ∷ str) (a ∷ args) c =
    let rest = print_format str (a ∷ args) (write_ch ch c) in
    let rest' = print_format str args (put_hex a c) in if ch == 0x1b then rest' else rest

unfoldable pub clear : Console → Console
clear c = record { x = 0; y = 0; mem = set_bytes 0xb8000 0 (80 * 25 * 2) c.mem }
