-- ===== src/Kernel/Trap/Vector.antt =====
-- The interrupt table that `trap_init` leaves.
use gml_vm.Base.{
  ℕ, zero, suc, ◌+◌, ◌*◌, ◌^◌, ◌<◌, ◌≡◌, refl, ◌∙◌, ap, arith, ◌==◌, ltb, leb, ◌&&◌, ◌||◌,
  if◌then◌else◌, bit_and, bit_or, shr, u8, u16, List, [], ◌∷◌, Bool, true, false, not,
}
use gml_vm.Base.Bits.{bit_and-low_bits}
use gml_vm.Port.{out8, in8, done}
use gml_vm.Kernel.Machine.{Gate, Machine}
use gml_vm.Kernel.Trap.{
  Handlers, install_int, install_null, install_faults, install_defaults, trap_init, ker_code_sec,
  int_gate, idt_r0,
}

-- A gate for the interrupt routine at `func`, in the kernel's code segment, that masks interrupts:
-- where the processor goes, and by which rights.
pub record GateTo (func : ℕ) (g : Gate) : Type 0 where
  pub offset : g.addr1 + 65536 * g.addr2 ≡ func
  pub section : g.section ≡ 0x8
  pub attr : g.attr ≡ 0x8e00

abbrev pub kernel_gate : ℕ → Gate
kernel_gate func = record {
  addr1 = bit_and (u16 func) 0xffff;
  section = 0x8;
  attr = 0x8e00;
  addr2 = bit_and (u16 (shr func 16)) 0xffff;
}

kernel_gate-GateTo : (func : ℕ) → func < 2 ^ 32 → GateTo func (kernel_gate func)
kernel_gate-GateTo func h = record {
  offset =
      rw (bit_and-low_bits 16 (u16 func), bit_and-low_bits 16 (u16 (shr func 16))) (omega arith);
  section = refl;
  attr = refl;
}

abbrev pub mem? : ℕ → List ℕ → Bool
mem? j [] = false
mem? j (i ∷ is) = j == i || mem? j is

install_null_lem :
    (h : Handlers) (n i j : ℕ) (m : Machine)
    → (install_null h n i m).idt j
      ≡ (if leb i j && ltb j (i + n) then kernel_gate h.null_int else m.idt j)
unfolding install_null install_int
install_null_lem h zero i j m = ground arith
install_null_lem h (suc n) i j m = ground (
  arith,
  install_null_lem h n (i + 1) j (install_int i h.null_int ker_code_sec (bit_or int_gate idt_r0) m),
)

install_faults_lem :
    (h : Handlers) (is : List ℕ) (j : ℕ) (m : Machine)
    → (install_faults h is m).idt j ≡ (if mem? j is then kernel_gate (h.int j) else m.idt j)
unfolding install_faults install_int
install_faults_lem h [] j m = refl
install_faults_lem h (i ∷ is) j m =
    install_faults_lem h is j (install_int i (h.int i) ker_code_sec (bit_or int_gate idt_r0) m)
    ∙ ground arith

-- The handler that stands for each interrupt: those of the processor's faults, that of the network
-- card at 0x23, and for all others the default.
abbrev pub handler : Handlers → ℕ → ℕ
handler h j =
    if j == 0x23
    then h.nci_int
    else if j == 10
    then h.ts_int
    else if ltb j 20 && not (j == 14)
    then h.int j
    else h.null_int

low_faults : List ℕ
low_faults = 0 ∷ 1 ∷ 2 ∷ 3 ∷ 4 ∷ 5 ∷ 6 ∷ 7 ∷ 8 ∷ 9 ∷ []

high_faults : List ℕ
high_faults = 11 ∷ 12 ∷ 13 ∷ 15 ∷ 16 ∷ 17 ∷ 18 ∷ 19 ∷ []

mem?-low_faults : (j : ℕ) → mem? j low_faults ≡ ltb j 10
unfolding low_faults
mem?-low_faults j = ground arith

mem?-high_faults : (j : ℕ) → mem? j high_faults ≡ (ltb 10 j && ltb j 20 && not (j == 14))
unfolding high_faults
mem?-high_faults j = ground arith

defaults :
    (h : Handlers) (j : ℕ) (m : Machine)
    → (install_defaults h m).idt j ≡ (
        if mem? j high_faults
        then kernel_gate (h.int j)
        else if j == 10
        then kernel_gate h.ts_int
        else if mem? j low_faults
        then kernel_gate (h.int j)
        else (install_null h 256 0 m).idt j)
unfolding install_defaults install_int low_faults high_faults
defaults h j m =
    let nulls = install_null h 256 0 m in
    let low = install_faults h low_faults nulls in
    let ts = install_int 10 h.ts_int ker_code_sec (bit_or int_gate idt_r0) low in
    rw (install_faults_lem h high_faults j ts, install_faults_lem h low_faults j nulls) refl

-- A gate chosen by tests is the gate of the address chosen by them.
chosen_gate :
    (a b c d : Bool) (x y z w v : ℕ)
    → (if a
        then kernel_gate x
        else if b
        then kernel_gate y
        else if c
        then kernel_gate z
        else if d
        then kernel_gate w
        else kernel_gate v)
      ≡ kernel_gate (if a then x else if b then y else if c then z else if d then w else v)
chosen_gate true b c d x y z w v = refl
chosen_gate false true c d x y z w v = refl
chosen_gate false false true d x y z w v = refl
chosen_gate false false false true x y z w v = refl
chosen_gate false false false false x y z w v = refl

chosen_handler :
    (h : Handlers) (j : ℕ)
    → (if j == 0x23
        then h.nci_int
        else if ltb 10 j && ltb j 20 && not (j == 14)
        then h.int j
        else if j == 10
        then h.ts_int
        else if ltb j 10
        then h.int j
        else h.null_int)
      ≡ handler h j
chosen_handler h j = ground arith

installed :
    (h : Handlers) (j : ℕ) (m : Machine)
    → j < 256
    → (install_int 0x23 h.nci_int ker_code_sec (bit_or int_gate idt_r0) (install_defaults h m)).idt
        j
      ≡ kernel_gate (handler h j)
unfolding install_int
installed h j m fits =
    let inside : (leb 0 j && ltb j (0 + 256)) ≡ true = ground arith in
    rw (defaults h j m, mem?-low_faults j, mem?-high_faults j, install_null_lem h 256 0 j m, inside)
      (chosen_gate (j == 0x23) (ltb 10 j && ltb j 20 && not (j == 14)) (j == 10) (ltb j 10) _ _ _ _
          _
        ∙ ap kernel_gate (chosen_handler h j))

-- `trap_init` comes back once port 0x21 has answered, with a gate for each of the 256 interrupts:
-- to the fault handlers, to that of the network card at 0x23, or to the default, at its full
-- 32-bit address. It sets the timer, and of the interrupt mask it clears bit 3 only.
pub trap_init-GateTo :
    (h : Handlers) (m : Machine) (j v : ℕ) (rs : List ℕ)
    → j < 256
    → handler h j < 2 ^ 32
    → (m' : Machine) × (trap_init h m (v ∷ rs)
        ≡ done tt m'
            (out8 0x43 0x36
              ∷ out8 0x40 0xdc
              ∷ out8 0x40 0x34
              ∷ in8 0x21
              ∷ out8 0x21 (u8 (bit_and (u8 v) 0xffff_fff7))
              ∷ [])
            rs)
      × GateTo (handler h j) (m'.idt j)
unfolding trap_init
trap_init-GateTo h m j v rs fits address = (
  install_int 0x23 h.nci_int ker_code_sec (bit_or int_gate idt_r0) (install_defaults h m),
  refl,
  rw (installed h j m fits) (kernel_gate-GateTo (handler h j) address),
)
