-- ===== src/Ne2k/Dma.antt =====
-- `NICtoPC` and `PCtoNIC`: remote transfers of 16-bit words, with the poll for their end.
pub mod Wait
pub mod Copy
pub mod Fetch
use gml_vm.Base.{
  ℕ, zero, suc, ◌+◌, ◌*◌, ◌/◌, ◌%◌, ◌^◌, Bool, not, List, [], ◌∷◌, ◌==◌, if◌then◌else◌, bit_and,
  shr, u8, u16, u32,
}
use gml_vm.Port.{Cmd, ◌>>=◌, ◌>>◌, pure, after, inb, inw, outb, outw, in8, stop, waiting, done}
use gml_vm.Ne2k.Flag.{isr_rdc}
use gml_vm.Ne2k.Register.{
  interrupt_status, ne_set_int_state, ioport, ne_read_dma, ne_write_dma, ne_set_remote_addr,
  ne_set_remote_byte_count,
}

-- `NE_RDC & neGetIntState()`
abbrev pub is_ready : ℕ → Bool
is_ready v = not (bit_and isr_rdc v == 0)

-- `loop` counts `ecx` down before its test, so a count of 0 makes 2 ^ 32 rounds.
unfoldable pub rounds : ℕ → ℕ
rounds count = if count == 0 then 2 ^ 32 else count

module _ {S : Type 0} where
  -- `while (!(NE_RDC & neGetIntState()));`
  unfoldable pub wait_rdc : Cmd S (Unit {0})
  wait_rdc s [] = stop waiting []
  wait_rdc s (v ∷ rs) =
      if is_ready (u8 v)
      then done tt s (in8 interrupt_status ∷ []) rs
      else after (in8 interrupt_status ∷ []) (wait_rdc s rs)

  -- `in %dx,%ax; stosw; loop`: the bytes stored, low byte of each word first.
  unfoldable pub read_words : ℕ → Cmd S (List ℕ)
  read_words zero = pure []
  read_words (suc n) = do w ← inw ioport; xs ← read_words n; pure (w % 256 ∷ w / 256 ∷ xs)

  -- `lodsw; out %ax,%dx; loop`, from index `i` of the source on.
  unfoldable pub write_words : ℕ → ℕ → (ℕ → ℕ) → Cmd S (Unit {0})
  write_words zero i src = pure tt
  write_words (suc n) i src = do outw (src i + 256 * src (i + 1)) ioport; write_words n (i + 2) src

  unfoldable pub nic_to_pc : (dma count : ℕ) → Cmd S (List ℕ)
  nic_to_pc dma count = do
    let count' = count + 1
    ne_set_remote_byte_count (bit_and count' 0xffff_fffe)
    let words = shr count' 1
    ne_set_remote_addr (u16 dma)
    ne_read_dma
    xs ← read_words (rounds words)
    wait_rdc
    ne_set_int_state isr_rdc
    pure xs

  unfoldable pub pc_to_nic : (src : ℕ → ℕ) (dma count : ℕ) → Cmd S (Unit {0})
  pc_to_nic src dma count = do
    let count' = count + 1
    ne_set_remote_byte_count (bit_and count' 0xffff_fffe)
    let words = shr count' 1
    ne_set_remote_addr (u16 dma)
    ne_write_dma
    write_words (rounds words) 0 src
    wait_rdc
    ne_set_int_state isr_rdc
