-- ===== src/Net/Udp.antt =====
-- net/udp.c and include/net/udp.h.
pub mod Length
use gml_vm.Base.{ℕ, ◌+◌, List, [], ◌∷◌, ◌++◌}
use gml_vm.Port.{Cmd, fail, null_pointer}
use gml_vm.Net.ByteOrder.{short_swap, long_swap, le16}
use gml_vm.Net.Message.{Frag, Msg, over}
use gml_vm.Net.State.{Net}
use gml_vm.Net.Arp.{Entry, ip_compare, ListClass, Heap, host_ip}
use gml_vm.Net.Ip.{ip_send, ippoto_udp}

-- A `UDPHeader`; the ports come in network order, and the checksum is 0, none.
unfoldable pub udp_bytes : (s_port d_port length : ℕ) → List ℕ
udp_bytes s_port d_port length =
    le16 s_port ++ (le16 d_port ++ (le16 (short_swap length) ++ le16 0))

-- The header in front of `msg`; the length counts the first fragment of `msg`.
unfoldable pub udp_frag : (old : ℕ → ℕ) → Frag → (d_port s_port : ℕ) → Frag
unfolding udp_bytes
udp_frag old f d_port s_port = record {
  len = 8;
  at = over (udp_bytes s_port d_port (8 + f.len)) old;
}

module _ (L : ListClass Entry ip_compare) (heap : Heap) (irq : Cmd (Net L.Obj) (Unit {0})) where
  -- `data->len` of NULL is a read through a null pointer.
  unfoldable pub udp_send : Msg → (d_ip d_port s_port : ℕ) → Cmd (Net L.Obj) (Unit {0})
  unfolding udp_frag
  udp_send [] d_ip d_port s_port = fail null_pointer
  udp_send (f ∷ fs) d_ip d_port s_port =
      ip_send L heap irq d_ip (long_swap host_ip) (udp_frag heap.udp_at f d_port s_port ∷ f ∷ fs)
        ippoto_udp
