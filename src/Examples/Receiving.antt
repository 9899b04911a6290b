-- ===== src/Examples/Receiving.antt =====
-- Runs of the receiving side.
use gml_vm.Base.{ℕ, ◌≡◌, refl, [], ◌∷◌, arith, some, inl, ◌==◌, if◌then◌else◌}
use gml_vm.Port.{null_pointer}
use gml_vm.Ne2k.Card.{Card}
use gml_vm.Ne2k.Recv.{next_page, rejects, recv_page, recv_page_end, ne_recv}
use gml_vm.Ne2k.Recv.Ring.{Received, ne_recv_reset}
use gml_vm.Ne2k.Isr.{ne_isr}
use gml_vm.Ne2k.Isr.Receive.{Stops, ne_isr-null_pointer}
use gml_vm.Examples.Setup.{entries, zeros, card, heap, no_irq, net, one_polled}

-- The boundary is 0x46 and the current page 0x49; the packet of 3 bytes and 4 of checksum ends
-- before page 0x48.
unfoldable packet_ram : ℕ → ℕ
packet_ram i =
    if i == 0x4700
    then 0x01
    else if i == 0x4701
    then 0x48
    else if i == 0x4702
    then 7
    else if i == 0x4704
    then 1
    else if i == 0x4705
    then 2
    else if i == 0x4706
    then 3
    else if i == 0x4707
    then 4
    else 0

abbrev packet_card : Card
packet_card = record card { boundary = 0x46; current = 0x49; ram = packet_ram }

-- The header's page 0x80 is outside of the ring.
unfoldable stray_ram : ℕ → ℕ
stray_ram i = if i == 0x4701 then 0x80 else 0

abbrev stray_card : Card
stray_card = record card { boundary = 0x46; current = 0x49; ram = stray_ram }

ne_recv_reset_example :
    Received net stray_card []
      (recv_page_end ∷ [])
      (0x8000 ∷ 0 ∷ [])
      recv_page_end
      recv_page
      []
      (ne_recv (some zeros) net (0x46 ∷ 0x49 ∷ 0x8000 ∷ 0 ∷ 0x40 ∷ []))
    × (next_page recv_page_end ≡ recv_page)
unfolding next_page rejects stray_ram
ne_recv_reset_example = ne_recv_reset net (some zeros) stray_card refl (omega arith) refl one_polled

ne_isr-null_pointer_example :
    Stops null_pointer
      (ne_isr entries heap no_irq (some zeros) net (0x01 ∷ 0x46 ∷ 0x47 ∷ 0 ∷ 0 ∷ []))
unfolding next_page
ne_isr-null_pointer_example =
    ne_isr-null_pointer entries heap no_irq (some zeros) net 0x01 0x46 0x47 0 0 {mid = []} refl
      (inl refl)
