-- ===== src/Net/Ethernet.antt =====
-- net/ethernet.c and include/net/ethernet.h: the header of a frame.
pub mod Frame
use gml_vm.Base.{ℕ, ◌+◌, List, [], ◌∷◌, ◌++◌, take}
use gml_vm.Port.{Cmd, ◌>>=◌, ◌>>◌}
use gml_vm.Net.ByteOrder.{short_swap, le16}
use gml_vm.Net.Message.{Frag, Msg, over}
use gml_vm.Net.State.{Net}
use gml_vm.Ne2k.Send.{ne_send}

abbrev pub eth_alen : ℕ
eth_alen = 6

abbrev pub ethertype_ip : ℕ
ethertype_ip = 0x0800

abbrev pub ethertype_arp : ℕ
ethertype_arp = 0x0806

abbrev pub ethertype_revarp : ℕ
ethertype_revarp = 0x8035

-- `localMac`, which `hostMac()` names
abbrev pub local_mac : List ℕ
local_mac = 0xb0 ∷ 0xc4 ∷ 0x20 ∷ 0x00 ∷ 0x00 ∷ 0x00 ∷ []

-- An `EthernetHeader`: two addresses and the type in network order.
unfoldable pub eth_header : (d_host s_host : List ℕ) (type : ℕ) → List ℕ
eth_header d_host s_host type =
    take eth_alen d_host ++ (take eth_alen s_host ++ le16 (short_swap type))

-- The fragment that `ethSend` builds in the memory `old` that it was given.
unfoldable pub eth_frag : (old : ℕ → ℕ) (d_host s_host : List ℕ) (type : ℕ) → Frag
unfolding eth_header
eth_frag old d_host s_host type = record { len = 14; at = over (eth_header d_host s_host type) old }

unfoldable pub eth_send :
    {T : Type 0}
    → (old : ℕ → ℕ) → Msg
    → (d_host s_host : List ℕ) (type : ℕ) → Cmd (Net T) (Unit {0})
unfolding eth_frag
eth_send old msg d_host s_host type = ne_send (eth_frag old d_host s_host type ∷ msg)
