-- ===== src/Net/Legacy.antt =====
-- net/ARP.c and net/802/eth.c, an earlier ARP over an earlier `ethSend`. The makefile does not name
-- them. Hardware addresses are numbers of 64 bits here, of which six bytes are copied.
pub mod Frame
use gml_vm.Base.{ℕ, ◌+◌, ◌-◌, ◌/◌, ◌%◌, ◌^◌, List, [], ◌∷◌, ◌++◌}
use gml_vm.Port.{Cmd, ◌>>=◌, ◌>>◌, pure, get, fail, null_pointer}
use gml_vm.Net.ByteOrder.{le16}
use gml_vm.Net.Message.{Frag, Msg, over}
use gml_vm.Net.State.{Net}
use gml_vm.Net.Arp.{ArpHeader, arp_bytes, zero_mac}
use gml_vm.Ne2k.Send.{ne_send}

-- `memcpy(p, &mac, 6)`: the low six bytes of the number
unfoldable pub mac_bytes : ℕ → List ℕ
mac_bytes v =
    v % 256
    ∷ v / 256 % 256
    ∷ v / 65536 % 256
    ∷ v / 16777216 % 256
    ∷ v / 4294967296 % 256
    ∷ v / 1099511627776 % 256
    ∷ []

-- `ethPakcetT`: the type takes the place of the length.
unfoldable pub packet_bytes : (dest_mac src_mac type : ℕ) → List ℕ
unfolding mac_bytes
packet_bytes dest_mac src_mac type = mac_bytes dest_mac ++ (mac_bytes src_mac ++ le16 type)

unfoldable pub packet_frag : (old : ℕ → ℕ) → (dest_mac src_mac type : ℕ) → Frag
unfolding packet_bytes
packet_frag old dest_mac src_mac type = record {
  len = 14;
  at = over (packet_bytes dest_mac src_mac type) old;
}

abbrev pub arp_type : ℕ
arp_type = 0x0608

-- The headers of `IPtoMac` and `replayARP`; a field that is not named is zero.
unfoldable pub ask_header : (ip mac : ℕ) → ArpHeader
unfolding mac_bytes
ask_header ip mac = record {
  hwd_type = 0x0100;
  protocol_type = 0x0008;
  hwd_length = 6;
  protocol_length = 4;
  op = 0x0100;
  s_host = mac_bytes mac;
  s_ip = 0x6501a8c0;
  d_host = zero_mac;
  d_ip = ip;
}

unfoldable pub replay_header : (s_ip d_ip s_mac d_mac : ℕ) → ArpHeader
unfolding mac_bytes
replay_header s_ip d_ip s_mac d_mac = record {
  hwd_type = 0x0100;
  protocol_type = 0x0008;
  hwd_length = 6;
  protocol_length = 4;
  op = 0x0200;
  s_host = mac_bytes s_mac;
  s_ip = s_ip;
  d_host = mac_bytes d_mac;
  d_ip = d_ip;
}

-- `getNICMac` of net/ne2k/ne2k.c
abbrev pub get_nic_mac : {T : Type 0} → Net T → ℕ
get_nic_mac s = s.mac

-- A packet of 60 - 14 bytes, of which the header is written.
unfoldable pub old_frag : (ℕ → ℕ) → ArpHeader → Frag
old_frag old h = record { len = 60 - 14; at = over (arp_bytes h) old }

-- `header_at` and `arp_at` are what stood in the memory that `malloc` gave.
module _ {T : Type 0} (header_at arp_at : ℕ → ℕ) where
  -- `ethSend`; `src->len` of NULL is a read through a null pointer.
  unfoldable pub send_packet : Msg → (mac type : ℕ) → Cmd (Net T) ℕ
  unfolding packet_frag
  send_packet [] mac type = fail null_pointer
  send_packet (f ∷ fs) mac type = do
    s ← get
    ne_send (packet_frag header_at mac (get_nic_mac s) type ∷ f ∷ fs)
    pure 0

  -- `IPtoMac`; the address -1 stands for all hosts.
  unfoldable pub ask_mac : (ip mac : ℕ) → Cmd (Net T) ℕ
  unfolding send_packet old_frag
  ask_mac ip mac = do
    status ← send_packet (old_frag arp_at (ask_header ip mac) ∷ []) (2 ^ 64 - 1) arp_type
    pure 0

  -- `replayARP`
  unfoldable pub replay_arp : (s_ip d_ip s_mac d_mac : ℕ) → Cmd (Net T) (Unit {0})
  unfolding send_packet old_frag
  replay_arp s_ip d_ip s_mac d_mac = do
    status ← send_packet (old_frag arp_at (replay_header s_ip d_ip s_mac d_mac) ∷ []) d_mac arp_type
    pure tt
