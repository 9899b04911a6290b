-- ===== src/Kernel/Console/Hex.antt =====
-- `puthex` prints a number that can be read back.
use gml_vm.Base.{
  ℕ, ◌+◌, ◌-◌, ◌*◌, ◌/◌, ◌%◌, ◌^◌, ◌<◌, ◌≡◌, refl, ◌∙◌, arith, ap, ap₂, ltb, if◌then◌else◌, shr, u8,
  List, [], ◌∷◌, get_or, length,
}
use gml_vm.Base.Bits.{bit_and-low_bits}
use gml_vm.Kernel.Console.{Console, write_ch, hex_digits, put_byte, put_hex}

-- The characters of a text, one after the other.
abbrev pub write_all : List ℕ → Console → Console
write_all [] c = c
write_all (ch ∷ text) c = write_all text (write_ch ch c)

-- The number that hexadecimal digits stand for, with the digits before them in `n`.
abbrev pub digit_value : ℕ → ℕ
digit_value ch = if ltb ch 0x3a then ch - 0x30 else ch - 0x37

abbrev pub read_hex : List ℕ → ℕ → ℕ
read_hex [] n = n
read_hex (ch ∷ text) n = read_hex text (16 * n + digit_value ch)

abbrev pub digit : ℕ → ℕ
digit n = get_or hex_digits n 0

digit_value-digit : (n : ℕ) → n < 16 → digit_value (digit n) ≡ n
digit_value-digit n h = ground arith

-- The two digits of a byte, in front of a text.
abbrev pub with_byte : ℕ → List ℕ → List ℕ
with_byte b text = digit (b / 16) ∷ digit (b % 16) ∷ text

put_byte-write_all : (b : ℕ) (c : Console) → b < 256 → put_byte b c ≡ write_all (with_byte b []) c
unfolding put_byte
put_byte-write_all b c h =
    let whole : u8 b ≡ b = omega arith in
    let high : b / 2 ^ 4 % 2 ^ 4 ≡ b / 16 = omega arith in
    rw (whole, bit_and-low_bits 4 (shr b 4), bit_and-low_bits 4 b, high) refl

read_hex-with_byte :
    (b n : ℕ) (text : List ℕ)
    → b < 256
    → read_hex (with_byte b text) n ≡ read_hex text (256 * n + b)
read_hex-with_byte b n text h =
    let high = digit_value-digit (b / 16) (omega arith) in
    let low = digit_value-digit (b % 16) (omega arith) in
    ap (read_hex text) (ap₂ (λ (x y : ℕ). 16 * (16 * n + x) + y) high low ∙ omega arith)

-- The eight characters that `puthex` prints for `num`.
abbrev pub hex_text : ℕ → List ℕ
hex_text num =
    with_byte (num / 16777216 % 256)
      (with_byte (num / 65536 % 256) (with_byte (num / 256 % 256) (with_byte (num % 256) [])))

read_hex-hex_text : (num : ℕ) → num < 2 ^ 32 → read_hex (hex_text num) 0 ≡ num
read_hex-hex_text num h =
    let a = num / 16777216 % 256 in
    let b = num / 65536 % 256 in
    let d = num / 256 % 256 in
    let last : List ℕ = with_byte (num % 256) [] in
    read_hex-with_byte a 0 (with_byte b (with_byte d last)) (omega arith)
    ∙ read_hex-with_byte b (256 * 0 + a) (with_byte d last) (omega arith)
    ∙ read_hex-with_byte d (256 * (256 * 0 + a) + b) last (omega arith)
    ∙ read_hex-with_byte (num % 256) (256 * (256 * (256 * 0 + a) + b) + d) [] (omega arith)
    ∙ omega arith

put_hex-write_all : (num : ℕ) (c : Console) → put_hex num c ≡ write_all (hex_text num) c
unfolding put_hex
put_hex-write_all num c =
    rw
      (
        bit_and-low_bits 8 num,
        bit_and-low_bits 8 (shr num 8),
        bit_and-low_bits 8 (shr num 16),
        bit_and-low_bits 8 (shr num 24),
        put_byte-write_all (shr num 24 % 2 ^ 8) c (omega arith),
        put_byte-write_all (shr num 16 % 2 ^ 8) _ (omega arith),
        put_byte-write_all (shr num 8 % 2 ^ 8) _ (omega arith),
        put_byte-write_all (num % 2 ^ 8) _ (omega arith),
      )
      refl

-- `puthex` of a 32-bit number writes eight characters in turn, and these, read as hexadecimal
-- digits, give the number.
pub put_hex-read_hex :
    (num : ℕ) (c : Console)
    → num < 2 ^ 32
    → (text : List ℕ) × (put_hex num c ≡ write_all text c)
      × (length text ≡ 8)
      × (read_hex text 0 ≡ num)
put_hex-read_hex num c h = (hex_text num, put_hex-write_all num c, refl, read_hex-hex_text num h)
