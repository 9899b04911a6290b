-- ===== src/Examples/Sending.antt =====
-- Runs of the sending side.
use gml_vm.Base.{◌≡◌, refl, [], ◌∷◌, ◌++◌, arith, none, length}
use gml_vm.Port.{done, cli, sti, in8}
use gml_vm.Net.ByteOrder.{be16, be32, le32, long_swap}
use gml_vm.Net.Message.{bytes, content}
use gml_vm.Net.Ethernet.{local_mac, eth_send, ethertype_arp, ethertype_ip}
use gml_vm.Net.Ethernet.Frame.{eth_send-Delivered}
use gml_vm.Net.Arp.{arp_request, arp_reply, broadcast, zero_mac, host_ip}
use gml_vm.Net.Arp.Frame.{arp_packet, arp_request-Delivered, arp_reply-Delivered, local_mac-IsMac}
use gml_vm.Ne2k.Register.{command, interrupt_status, transmit_status}
use gml_vm.Ne2k.Dma.{pc_to_nic}
use gml_vm.Ne2k.Dma.Copy.{Copied, pc_to_nic-Copied}
use gml_vm.Ne2k.Send.{ne_send}
use gml_vm.Ne2k.Send.Load.{IsFrag, AllFrags}
use gml_vm.Ne2k.Send.Deliver.{Delivered, ne_send-Delivered}
use gml_vm.Ne2k.Isr.{ne_isr}
use gml_vm.Ne2k.Isr.Transmit.{finish_events, ne_isr-Delivered, ne_isr_rotates}
use gml_vm.Examples.Setup.{
  entries, zeros, card, heap, no_irq, net, three, two, polls, polled, idle, asking, peer_mac,
}

two-IsFrag : IsFrag two
two-IsFrag = record { pos = omega arith; is_bytes = λ i. ground arith }

pair-IsFrag : AllFrags (two ∷ two ∷ [])
pair-IsFrag = (two-IsFrag, refl, (two-IsFrag, tt, tt))

pair_fits : length (content (two ∷ two ∷ [])) ≡ 4
unfolding content bytes
pair_fits = refl

ne_send-Delivered_example :
    Delivered net card (content (two ∷ two ∷ [])) [] (ne_send (two ∷ two ∷ []) net (0x22 ∷ polls))
ne_send-Delivered_example =
    ne_send-Delivered net card two (two ∷ []) 0x22 (omega arith) polled pair-IsFrag refl
      (omega (arith, pair_fits))

ne_isr-Delivered_example :
    Delivered
      (record net { queue = (three ∷ []) ∷ [] })
      card
      (content (two ∷ two ∷ []))
      []
      (ne_isr entries heap no_irq none
        (record net { queue = (two ∷ two ∷ []) ∷ (three ∷ []) ∷ [] })
        (0x02 ∷ 0 ∷ 0x22 ∷ polls))
ne_isr-Delivered_example =
    ne_isr-Delivered entries heap no_irq none net two (two ∷ []) ((three ∷ []) ∷ []) 0x02 0 0x22
      card (record { no_packet = refl; ended = refl }) (omega arith) polled pair-IsFrag refl
      (omega (arith, pair_fits))

ne_isr_rotates_example :
    ne_isr entries heap no_irq none
      (record net { queue = (two ∷ []) ∷ (three ∷ []) ∷ [] })
      (0x02 ∷ 0 ∷ 0x26 ∷ [])
    ≡ done tt
        (record net { queue = (three ∷ []) ∷ (two ∷ []) ∷ [] })
        (cli
          ∷ sti
          ∷ in8 interrupt_status
          ∷ in8 transmit_status
          ∷ cli
          ∷ in8 command
          ∷ sti
          ∷ finish_events 0x02)
        []
ne_isr_rotates_example =
    ne_isr_rotates entries heap no_irq none net two [] ((three ∷ []) ∷ []) 0x02 0 0x26
      (record { no_packet = refl; ended = refl }) refl

pc_to_nic-Copied_example : Copied net card zeros 0x4000 3 1 [] (pc_to_nic zeros 0x4000 3 net polls)
pc_to_nic-Copied_example =
    pc_to_nic-Copied net card zeros 0x4000 3 polled (λ i. omega arith) (omega arith) (omega arith)
      (omega arith) refl refl

eth_send-Delivered_example :
    Delivered net card
      (peer_mac ++ (local_mac ++ (be16 ethertype_ip ++ content (two ∷ []))))
      []
      (eth_send zeros (two ∷ []) peer_mac local_mac ethertype_ip net (0x22 ∷ polls))
unfolding content bytes
eth_send-Delivered_example =
    eth_send-Delivered net card zeros (two ∷ []) peer_mac local_mac ethertype_ip 0x22 (omega arith)
      polled (two-IsFrag, tt, tt) (record { six = refl; is_bytes = omega arith }) local_mac-IsMac
      (λ i. omega arith) refl (omega arith)

arp_request-Delivered_example :
    Delivered net card
      (broadcast
        ++ (local_mac
            ++ (be16 ethertype_arp
                ++ (arp_packet 1 local_mac (be32 host_ip) zero_mac (be32 0xc0a80165)
                    ++ bytes 32 28 zeros))))
      []
      (arp_request heap (long_swap 0xc0a80165) net (0x22 ∷ polls))
arp_request-Delivered_example =
    arp_request-Delivered net card heap 0x22 idle 0xc0a80165 (omega arith)

arp_reply-Delivered_example :
    Delivered net card
      (broadcast
        ++ (local_mac
            ++ (be16 ethertype_arp
                ++ (arp_packet 2 local_mac (1 ∷ 199 ∷ 0 ∷ 0 ∷ []) zero_mac (le32 asking.s_ip)
                    ++ bytes 32 28 zeros))))
      []
      (arp_reply heap asking net (0x22 ∷ polls))
arp_reply-Delivered_example =
    arp_reply-Delivered net card heap 0x22 idle asking
      (record { six = refl; is_bytes = omega arith })
