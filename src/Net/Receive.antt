-- ===== src/Net/Receive.antt =====
-- `ethRecv` of net/ethernet.c: the packet goes to the protocol that its type names.
use gml_vm.Base.{ℕ, [], ◌∷◌, ◌==◌, if◌then◌else◌, ◌||◌, some}
use gml_vm.Port.{Cmd, fail, null_pointer, printk}
use gml_vm.Net.ByteOrder.{short_swap, load16}
use gml_vm.Net.Message.{Msg}
use gml_vm.Net.State.{Net}
use gml_vm.Net.Ethernet.{ethertype_ip, ethertype_arp, ethertype_revarp}
use gml_vm.Net.Arp.{Entry, ip_compare, ListClass, Heap, arp_read, arp_recv}
use gml_vm.Net.Ip.{ip_recv}

module _ (L : ListClass Entry ip_compare) (heap : Heap) (irq : Cmd (Net L.Obj) (Unit {0})) where
  unfoldable pub eth_dispatch : (type : ℕ) → (ℕ → ℕ) → Cmd (Net L.Obj) (Unit {0})
  eth_dispatch type m =
      if type == ethertype_ip
      then ip_recv
      else if type == ethertype_arp || type == ethertype_revarp
      then arp_recv L heap irq (some (arp_read m 14))
      else printk (load16 m 12 ∷ [])

  -- A message that is NULL is read all the same.
  unfoldable pub eth_recv : Msg → Cmd (Net L.Obj) (Unit {0})
  unfolding eth_dispatch
  eth_recv [] = fail null_pointer
  eth_recv (f ∷ fs) = eth_dispatch (short_swap (load16 f.at 12)) f.at
