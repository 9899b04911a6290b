-- ===== src/Examples/Screen.antt =====
-- Runs of the console.
use gml_vm.Base.{ℕ, ◌+◌, ◌-◌, ◌*◌, ◌≡◌, arith, List, length}
use gml_vm.Kernel.Console.{Console, write_ch, put_hex}
use gml_vm.Kernel.Console.Cursor.{cell, IsCursor, write_ch-shown}
use gml_vm.Kernel.Console.Hex.{write_all, read_hex, put_hex-read_hex}
use gml_vm.Examples.Setup.{zeros}

-- The cursor on the first cell behind the screen.
abbrev full : Console
full = record { x = 0; y = 25; mem = zeros }

full-IsCursor : IsCursor full
full-IsCursor = record { column = omega arith; row = omega arith }

write_ch-shown_example :
    ((write_ch 0x41 full).mem (0xb8000 + 2 * (cell (write_ch 0x41 full) - 1)) ≡ 0x41)
    × ((write_ch 0x41 full).mem (0xb8000 + 2 * (cell (write_ch 0x41 full) - 1) + 1) ≡ 0x0f)
write_ch-shown_example = write_ch-shown 0x41 full full-IsCursor (omega arith) (omega arith)

put_hex-read_hex_example :
    (text : List ℕ) × (put_hex 0xc0a80165 full ≡ write_all text full)
    × (length text ≡ 8)
    × (read_hex text 0 ≡ 0xc0a80165)
put_hex-read_hex_example = put_hex-read_hex 0xc0a80165 full (omega arith)
