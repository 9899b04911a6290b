-- ===== src/Ne2k/Send.antt =====
-- Sending in net/ne2k/ne2k.c: the queue of waiting messages and `neSend`. The queue's cells are a
-- list; a message is NULL when it has no fragment.
pub mod Load
pub mod Deliver
use gml_vm.Base.{
  ℕ, ◌+◌, ◌*◌, ◌^◌, ◌%◌, List, [], ◌∷◌, ◌==◌, if◌then◌else◌, bit_or, u16, shl, Bool, true, false,
}
use gml_vm.Port.{Cmd, ◌>>=◌, ◌>>◌, pure, inb, get, put, irq_off, irq_on}
use gml_vm.Net.Message.{Msg}
use gml_vm.Net.State.{Net}
use gml_vm.Ne2k.Register.{command, ne_send_pack}
use gml_vm.Ne2k.Dma.{pc_to_nic}

-- `TRANS_PAGE`
abbrev pub trans_page : ℕ
trans_page = 0x40

-- `getLevel`, `add` and `del`
abbrev pub get_level : List Msg → List Msg
get_level queue = queue

unfoldable pub add : List Msg → Msg → List Msg
add [] buf = buf ∷ []
add (m ∷ queue) buf = m ∷ add queue buf

unfoldable pub del : List Msg → List Msg
del [] = []
del (m ∷ queue) = queue

module _ {S : Type 0} where
  -- `while (buf != NULL)`: every fragment goes behind the one before it. `count` is a short.
  unfoldable pub load_frame : Msg → (count : ℕ) → Cmd S ℕ
  load_frame [] count = pure count
  load_frame (f ∷ buf) count = do
    pc_to_nic f.at (shl trans_page 8 + count) f.len
    load_frame buf (u16 (count + f.len))

module _ {T : Type 0} where
  unfoldable pub enqueue : Msg → Cmd (Net T) (Unit {0})
  unfolding add
  enqueue buf = do s ← get; put (record s { queue = add s.queue buf })

  unfoldable pub transmit : Msg → Cmd (Net T) (Unit {0})
  transmit buf = do count ← load_frame buf 0; ne_send_pack trans_page count

  -- the part of `neSend` between `cli` and `sti`, for a message that is not NULL
  unfoldable pub send_or_enqueue : Msg → Cmd (Net T) (Unit {0})
  unfolding enqueue transmit
  send_or_enqueue buf = do v ← inb command; if 0x26 == v then enqueue buf else transmit buf

  unfoldable pub ne_send : Msg → Cmd (Net T) (Unit {0})
  unfolding send_or_enqueue
  ne_send [] = do irq_off; irq_on
  ne_send (f ∷ buf) = do irq_off; send_or_enqueue (f ∷ buf); irq_on
