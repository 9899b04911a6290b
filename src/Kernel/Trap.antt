-- ===== src/Kernel/Trap.antt =====
-- kernel/trap.c: the entries of the interrupt table. The addresses of the handlers of kernel/int.S
-- are given by the linker; `Handlers` names those that the C code installs.
pub mod Vector
use gml_vm.Base.{ℕ, zero, suc, ◌+◌, ◌/◌, ◌%◌, ◌^◌, bit_and, bit_or, shr, u16, List, [], ◌∷◌}
use gml_vm.Port.{Cmd, ◌>>=◌, ◌>>◌, inb_p, outb_p, get, put}
use gml_vm.Kernel.Machine.{Machine, update}

abbrev pub ker_code_sec : ℕ
ker_code_sec = 0x8

abbrev pub int_gate : ℕ
int_gate = 0x8e00

abbrev pub tra_gate : ℕ
tra_gate = 0x8f00

abbrev pub idt_r0 : ℕ
idt_r0 = 0x0000

pub record Handlers : Type 0 where
  pub null_int : ℕ
  pub ts_int : ℕ
  pub nci_int : ℕ
  pub page_fault : ℕ
  -- `int_0` to `int_19`, by number
  pub int : ℕ → ℕ

-- `install_int`
unfoldable pub install_int : (num func section attr : ℕ) → Machine → Machine
install_int num func section attr m = record m {
  idt = update m.idt num (record {
    addr1 = bit_and (u16 func) 0xffff;
    section = u16 section;
    attr = u16 attr;
    addr2 = bit_and (u16 (shr func 16)) 0xffff;
  });
}

-- `for (i = lo; i < hi; i++) install_int(i, null_int, …)`, with `n` rounds
unfoldable pub install_null : Handlers → (n i : ℕ) → Machine → Machine
install_null h zero i m = m
install_null h (suc n) i m =
    install_null h n (i + 1) (install_int i h.null_int ker_code_sec (bit_or int_gate idt_r0) m)

-- `install_int(i, int_i, …)` for each number of a list
unfoldable pub install_faults : Handlers → List ℕ → Machine → Machine
install_faults h [] m = m
install_faults h (i ∷ is) m =
    install_faults h is (install_int i (h.int i) ker_code_sec (bit_or int_gate idt_r0) m)

-- The calls of `install_int` in front of the timer, in their order.
unfoldable pub install_defaults : Handlers → Machine → Machine
install_defaults h m =
    let nulls = install_null h 256 0 m in
    let low = install_faults h (0 ∷ 1 ∷ 2 ∷ 3 ∷ 4 ∷ 5 ∷ 6 ∷ 7 ∷ 8 ∷ 9 ∷ []) nulls in
    let ts = install_int 10 h.ts_int ker_code_sec (bit_or int_gate idt_r0) low in
    install_faults h (11 ∷ 12 ∷ 13 ∷ 15 ∷ 16 ∷ 17 ∷ 18 ∷ 19 ∷ []) ts

abbrev pub latch : ℕ
latch = 1193180

unfoldable pub trap_init : Handlers → Cmd Machine (Unit {0})
trap_init h = do
  m ← get
  put (install_defaults h m)
  outb_p 0x36 0x43
  outb_p (bit_and latch 0xff) 0x40
  outb_p (shr latch 8) 0x40
  m' ← get
  put (install_int 0x23 h.nci_int ker_code_sec (bit_or int_gate idt_r0) m')
  v ← inb_p 0x21
  outb_p (bit_and v 0xffff_fff7) 0x21
