-- ===== src/Examples/Resolving.antt =====
-- Runs of address resolution.
use gml_vm.Base.{◌≡◌, refl, [], ◌∷◌, ◌++◌, arith, some, length, ◌+◌}
use gml_vm.Port.{done, stop, null_pointer, print}
use gml_vm.Net.ByteOrder.{short_swap, be16}
use gml_vm.Net.Message.{bytes, content}
use gml_vm.Net.Ethernet.{local_mac, ethertype_ip}
use gml_vm.Net.Arp.{ip_compare, mac_word, arp_recv}
use gml_vm.Net.Arp.Table.{key, arp_recv_learns, arp_recv_again}
use gml_vm.Net.Ip.{ip_send}
use gml_vm.Net.Ip.Datagram.{ip_layout, ip_check, ip_send-Delivered}
use gml_vm.Ne2k.Send.Deliver.{Delivered}
use gml_vm.Examples.Setup.{
  entries, find_entry, zeros, card, heap, no_irq, net, two, long_polls, long_idle, peer_ip,
  peer_mac, peer, asking,
}

arp_recv_learns_example :
    (arp_recv entries heap no_irq (some asking) net []
      ≡ done tt
          (record net { table = some (peer ∷ []) })
          (print (peer_ip ∷ mac_word peer_mac ∷ []) ∷ [])
          [])
    × (find_entry (peer ∷ []) (key peer_ip) ≡ some peer)
unfolding find_entry short_swap
arp_recv_learns_example = arp_recv_learns entries heap no_irq net [] asking [] refl refl refl

arp_recv_again_example :
    arp_recv entries heap no_irq (some asking) (record net { table = some (peer ∷ []) }) []
    ≡ stop null_pointer []
arp_recv_again_example = arp_recv_again entries heap no_irq net [] asking asking [] refl

ip_send-Delivered_example :
    Delivered
      (record net { table = some (peer ∷ []) })
      card
      (peer_mac
        ++ (local_mac
            ++ (be16 ethertype_ip
                ++ (ip_layout zeros
                      (20 + length (content (two ∷ [])))
                      17
                      0xc701a8c0
                      peer_ip
                      (ip_check zeros (20 + length (content (two ∷ []))) 17 0xc701a8c0 peer_ip)
                    ++ content (two ∷ [])))))
      []
      (ip_send entries heap no_irq peer_ip 0xc701a8c0
        (two ∷ [])
        17
        (record net { table = some (peer ∷ []) })
        (0x22 ∷ long_polls))
unfolding find_entry ip_compare content bytes
ip_send-Delivered_example =
    ip_send-Delivered entries heap no_irq net (peer ∷ []) peer card peer_ip 0xc701a8c0 (two ∷ []) 17
      0x22 refl (record { six = refl; is_bytes = omega arith }) long_idle (λ i. omega arith)
      (record { pos = omega arith; is_bytes = λ i. ground arith }, tt, tt) (omega arith)
