-- ===== src/Net/Arp/Table.antt =====
-- The table of addresses: what `arpRecv` learns, when it answers, and what `ipToMac` finds.
use gml_vm.Base.{ℕ, ◌^◌, ◌<◌, ◌≡◌, refl, List, [], ◌∷◌, arith, some, none, true, false}
use gml_vm.Port.{print, Cmd, done, stop, null_pointer}
use gml_vm.Net.ByteOrder.{short_swap}
use gml_vm.Net.State.{Net}
use gml_vm.Net.Ethernet.{ethertype_ip}
use gml_vm.Net.Arp.{
  Entry, ip_compare, ListClass, ArpHeader, Heap, zero_mac, mac_word, arp_recv, answers, ip_to_mac,
  store_entry, new_entry, answer, table_add,
}

abbrev pub key : ℕ → Entry
key ip = record { ip = ip; mac = zero_mac }

-- `ipCompare` gives 0 for entries of one address.
pub ip_compare_self : (e d : Entry) → e.ip ≡ d.ip → ip_compare e d ≡ 0
unfolding ip_compare
ip_compare_self e d same = omega arith

-- It gives 0 for no others, as long as addresses have 32 bits.
pub ip_compare_iff :
    (e d : Entry) → e.ip < 2 ^ 32 → d.ip < 2 ^ 32 → ip_compare e d ≡ 0 → e.ip ≡ d.ip
unfolding ip_compare
ip_compare_iff e d h k z = omega arith

module _ (L : ListClass Entry ip_compare) (heap : Heap) (irq : Cmd (Net L.Obj) (Unit {0})) where
  open L use {Obj, new, find, add}

  -- The state with a table.
  abbrev pub having : Net Obj → Obj → Net Obj
  having s t = record s { table = some t }

  abbrev pub learned : ArpHeader → Entry
  learned h = record { ip = h.s_ip; mac = h.s_host }

  -- A packet of IPv4 from a host that the table does not have, with memory for an entry:
  -- `arpRecv` puts the host's two addresses into the table, where a search for it finds them, and
  -- it touches no port, not even when the packet asks for this host's address.
  pub arp_recv_learns :
      (s : Net Obj) (t : Obj) (h : ArpHeader) (rs : List ℕ)
      → find t (key h.s_ip) ≡ none
      → heap.has_item ≡ true
      → h.protocol_type ≡ short_swap ethertype_ip
      → (arp_recv L heap irq (some h) (having s t) rs
          ≡ done tt
              (having s (add t (learned h)))
              (print (h.s_ip ∷ mac_word h.s_host ∷ []) ∷ [])
              rs)
        × (find (add t (learned h)) (key h.s_ip) ≡ some (learned h))
  unfolding arp_recv short_swap
  arp_recv_learns s t h rs unknown room ipv4 =
      let silent : answers L heap irq h ≡ false = ground arith in
      (
        rw (unknown, store_entry, room, new_entry, table_add, answer, silent),
        L.find-add_hit t (learned h) (key h.s_ip) (ip_compare_self (key h.s_ip) (learned h) refl),
      )

  -- The next packet from a host that has been learned: `arpRecv` copies through a null pointer.
  pub arp_recv_again :
      (s : Net Obj) (t : Obj) (h h' : ArpHeader) (rs : List ℕ)
      → h'.s_ip ≡ h.s_ip
      → arp_recv L heap irq (some h') (having s (add t (learned h))) rs ≡ stop null_pointer []
  unfolding arp_recv
  arp_recv_again s t h h' rs same =
      let hit =
        L.find-add_hit t (learned h) (key h'.s_ip)
          (ip_compare_self (key h'.s_ip) (learned h) same) in
      rw hit

  -- `ipToMac` of an address in the table gives its hardware address and touches no port.
  pub ip_to_mac_known :
      (s : Net Obj) (t : Obj) (e : Entry) (ip : ℕ) (rs : List ℕ)
      → find t (key ip) ≡ some e
      → ip_to_mac L heap irq ip (having s t) rs ≡ done e.mac (having s t) [] rs
  unfolding ip_to_mac
  ip_to_mac_known s t e ip rs known = rw known
