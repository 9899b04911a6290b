-- ===== src/Ne2k/Isr.antt =====
-- `neISR` of net/ne2k/ne2k.c: the interrupt of the card.
pub mod Receive
pub mod Transmit
use gml_vm.Base.{ℕ, List, [], ◌∷◌, Option, not, ◌==◌, if◌then◌else◌, bit_and}
use gml_vm.Port.{Cmd, ◌>>=◌, ◌>>◌, pure, get, put, inb, outb, irq_off, irq_on}
use gml_vm.Net.Message.{Msg}
use gml_vm.Net.State.{Net}
use gml_vm.Net.Arp.{Entry, ip_compare, ListClass, Heap}
use gml_vm.Net.Receive.{eth_recv}
use gml_vm.Ne2k.Flag.{isr_prx, isr_ptx}
use gml_vm.Ne2k.Register.{transmit_status, ne_get_int_state, ne_set_int_state, ne_set_int_mask}
use gml_vm.Ne2k.Send.{get_level, del, ne_send}
use gml_vm.Ne2k.Recv.{imr, ne_recv}

module _ {T : Type 0} where
  -- The message at the head of the queue is sent and taken off; without one nothing is done.
  unfoldable pub send_first : List Msg → Cmd (Net T) (Unit {0})
  send_first [] = pure tt
  send_first (m ∷ queue) = do ne_send m; s ← get; put (record s { queue = del s.queue })

  unfoldable pub sent_event : Cmd (Net T) (Unit {0})
  unfolding send_first
  sent_event = do inb transmit_status; s ← get; send_first (get_level s.queue)

  -- The end of the handler: the events are acknowledged and the controllers told.
  unfoldable pub finish : (state : ℕ) → Cmd (Net T) (Unit {0})
  finish state = do
    ne_set_int_state state
    ne_set_int_mask 0
    irq_off
    outb 0x20 0xa0
    outb 0x20 0x20
    ne_set_int_mask imr
    ne_set_int_state state
    irq_on

module _ (L : ListClass Entry ip_compare) (heap : Heap) (irq : Cmd (Net L.Obj) (Unit {0})) where
  unfoldable pub received_event : Option (ℕ → ℕ) → Cmd (Net L.Obj) (Unit {0})
  received_event old = do msg ← ne_recv old; eth_recv L heap irq msg

  -- One event is served: a packet that has come, or else the end of a transmission.
  unfoldable pub serve : Option (ℕ → ℕ) → (state : ℕ) → Cmd (Net L.Obj) (Unit {0})
  unfolding received_event sent_event
  serve old state =
      if not (bit_and isr_prx state == 0)
      then received_event old
      else if not (bit_and isr_ptx state == 0)
      then sent_event
      else pure tt

  unfoldable pub ne_isr : Option (ℕ → ℕ) → Cmd (Net L.Obj) (Unit {0})
  unfolding serve finish
  ne_isr old = do irq_off; irq_on; state ← ne_get_int_state; serve old state; finish state
