-- ===== src/Ne2k/Isr/Receive.antt =====
-- The interrupt at the arrival of a packet: the message goes on to the protocols unchecked.
use gml_vm.Base.{ℕ, ◌≡◌, ◌≢◌, List, ◌∷◌, Option, true, false, u8, bit_and, ◌==◌, ◌⊎◌, inl, inr}
use gml_vm.Port.{Event, Cmd, Run, stop, null_pointer, Stop}
use gml_vm.Net.State.{Net}
use gml_vm.Net.Arp.{Entry, ip_compare, ListClass, Heap}
use gml_vm.Net.Receive.{eth_recv}
use gml_vm.Ne2k.Dma.Wait.{Polled}
use gml_vm.Ne2k.Recv.{next_page, rejects}
use gml_vm.Ne2k.Recv.Packet.{head_next, data_len, ne_recv_empty, ne_recv_refused}
use gml_vm.Ne2k.Isr.{ne_isr, received_event}

-- The run stops for the reason `w`.
pub data Stops {S A : Type 0} (w : Stop) : Run S A → Type 0 where
  stops : (es : List Event) → Stops w (stop w es)

module _ (L : ListClass Entry ip_compare) (heap : Heap) (irq : Cmd (Net L.Obj) (Unit {0}))
    (old : Option (ℕ → ℕ)) (s : Net L.Obj) (state b cur v w : ℕ) where
  -- When the card reports a packet but the ring is empty, or the header of the packet is refused
  -- (with its transfer answered), the handler reads through the null pointer that `neRecv` gave
  -- it.
  pub ne_isr-null_pointer :
      {mid rs : List ℕ}
      → (bit_and 0x01 (u8 state) == 0) ≡ false
      → (next_page (u8 b) ≡ u8 cur)
        ⊎ ((next_page (u8 b) ≢ u8 cur)
            × (rejects (head_next v) (data_len w) ≡ true)
            × Polled mid 1 rs)
      → Stops null_pointer (ne_isr L heap irq old s (state ∷ b ∷ cur ∷ v ∷ w ∷ rs))
  unfolding ne_isr eth_recv
  ne_isr-null_pointer {rs} packet (inl same) =
      let none = ne_recv_empty s old b cur {rs = v ∷ w ∷ rs} same in
      rw (packet, received_event, none) (stops _)
  ne_isr-null_pointer packet (inr (more, bad, header)) =
      let r = ne_recv_refused s old b cur v w more bad header in
      rw (packet, received_event, r.returns) (stops _)
