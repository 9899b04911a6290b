-- ===== src/Ne2k/Isr/Transmit.antt =====
-- The interrupt at the end of a transmission: what becomes of the queue.
use gml_vm.Base.{
  ℕ, ◌≡◌, ◌≢◌, ◌∙◌, List, [], ◌∷◌, ◌++◌, arith, length, Option, u8, bit_and, ◌≤◌, append-nil, true,
  false, ◌==◌,
}
use gml_vm.Port.{Event, out8, in8, cli, sti, Cmd, done}
use gml_vm.Net.Message.{Frag, Msg, content}
use gml_vm.Net.State.{Net}
use gml_vm.Net.Arp.{Entry, ip_compare, ListClass, Heap}
use gml_vm.Ne2k.Register.{interrupt_status, interrupt_mask, transmit_status, command}
use gml_vm.Ne2k.Card.{Card, step, steps, steps-append}
use gml_vm.Ne2k.Dma.Wait.{Polled}
use gml_vm.Ne2k.Send.{del}
use gml_vm.Ne2k.Send.Load.{AllFrags}
use gml_vm.Ne2k.Send.Deliver.{Delivered, ne_send-Delivered, ne_send_busy}
use gml_vm.Ne2k.Isr.{ne_isr, send_first}

-- The value of the interrupt status register: a transmission has ended and no packet has come.
pub record IsSentOnly (state : ℕ) : Type 0 where
  pub no_packet : (bit_and 0x01 state == 0) ≡ true
  pub ended : (bit_and 0x02 state == 0) ≡ false

pub finish_events : ℕ → List Event
finish_events state =
    out8 interrupt_status (u8 state)
    ∷ out8 interrupt_mask 0
    ∷ cli
    ∷ out8 0xa0 0x20
    ∷ out8 0x20 0x20
    ∷ out8 interrupt_mask 0x1b
    ∷ out8 interrupt_status (u8 state)
    ∷ sti
    ∷ []

finish_events-sent : (c : Card) (state : ℕ) → (steps c (finish_events state)).sent ≡ c.sent
unfolding finish_events step
finish_events-sent c state = ground arith

module _ (L : ListClass Entry ip_compare) (heap : Heap) (irq : Cmd (Net L.Obj) (Unit {0}))
    (old : Option (ℕ → ℕ)) (s : Net L.Obj) (f : Frag) (buf : Msg) (queue : List Msg)
    (state t v : ℕ) where
  -- When the card reports the end of a transmission, and no packet, and is not sending, the
  -- message that has waited longest goes out as one frame and leaves the queue; the others stay
  -- in their order. The card answers every transfer and its register page 0 is selected; the
  -- message fits the transmit pages, none of its fragments is empty, all but the last are of even
  -- length, and memory holds bytes.
  pub ne_isr-Delivered :
      (c : Card) {rest rs : List ℕ}
      → IsSentOnly (u8 state)
      → u8 v ≢ 0x26
      → Polled rest (length (f ∷ buf)) rs
      → AllFrags (f ∷ buf)
      → c.bank ≡ 0
      → length (content (f ∷ buf)) ≤ 0x600
      → Delivered
          (record s { queue = queue })
          c
          (content (f ∷ buf))
          rest
          (ne_isr L heap irq old (record s { queue = (f ∷ buf) ∷ queue }) (state ∷ t ∷ v ∷ rs))
  unfolding ne_isr step del finish_events
  ne_isr-Delivered c only idle polled ok bank fits =
      let d =
        ne_send-Delivered (record s { queue = (f ∷ buf) ∷ queue }) c f buf v idle polled ok bank
          fits in
      record {
        events =
            cli
            ∷ sti
            ∷ in8 interrupt_status
            ∷ in8 transmit_status
            ∷ (d.events ++ finish_events (u8 state));
        returns = rw (only.no_packet, only.ended, send_first, d.returns, append-nil d.events);
        sent =
            rw (steps-append c d.events (finish_events (u8 state)))
              (finish_events-sent (steps c d.events) (u8 state) ∙ d.sent);
      }

  -- When the card reports the end of a transmission, and no packet, but its command register
  -- still reads 0x26, no frame goes out, and the message that has waited longest moves behind all
  -- the others.
  pub ne_isr_rotates :
      {rs : List ℕ}
      → IsSentOnly (u8 state)
      → u8 v ≡ 0x26
      → ne_isr L heap irq old (record s { queue = (f ∷ buf) ∷ queue }) (state ∷ t ∷ v ∷ rs)
        ≡ done tt
            (record s { queue = queue ++ ((f ∷ buf) ∷ []) })
            (cli
              ∷ sti
              ∷ in8 interrupt_status
              ∷ in8 transmit_status
              ∷ cli
              ∷ in8 command
              ∷ sti
              ∷ finish_events (u8 state))
            rs
  unfolding ne_isr del finish_events
  ne_isr_rotates {rs} only busy = rw (
    only.no_packet,
    only.ended,
    send_first,
    ne_send_busy (record s { queue = (f ∷ buf) ∷ queue }) f buf v rs busy,
  )
