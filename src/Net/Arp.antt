-- ===== src/Net/Arp.antt =====
-- net/arp.c and include/net/arp.h: address resolution. The table is a list of glib/list.h, whose
-- code is not part of the repository: `ListClass` is what the header says of it.
pub mod Frame
pub mod Table
use gml_vm.Base.{
  ℕ, ◌+◌, ◌≡◌, ◌≢◌, Option, none, some, List, [], ◌∷◌, ◌++◌, ◌&&◌, ◌==◌, if◌then◌else◌, leb, sub32,
  Bool, true, false,
}
use gml_vm.Port.{and_then, Cmd, ◌>>=◌, ◌>>◌, pure, get, put, fail, printk, null_pointer, exited}
use gml_vm.Net.ByteOrder.{short_swap, long_swap, le16, le32, load16, load32}
use gml_vm.Net.Message.{Frag, over, bytes}
use gml_vm.Net.State.{Net}
use gml_vm.Net.Ethernet.{eth_alen, ethertype_ip, ethertype_arp, local_mac, eth_send}

-- `ARPTableT`
pub record Entry : Type 0 where
  pub ip : ℕ
  pub mac : List ℕ

-- `ipCompare` of two entries that are not NULL
unfoldable pub ip_compare : Entry → Entry → ℕ
ip_compare d s = sub32 d.ip s.ip

-- `newList`, `find` and `add`: a new list holds nothing, `add` puts an element at the head, and
-- `find` gives the first element that compares equal to the key.
pub record ListClass (E : Type 0) (compare : E → E → ℕ) : Type 1 where
  pub Obj : Type 0
  pub new : Option Obj
  pub find : Obj → E → Option E
  pub add : Obj → E → Obj
  pub find-new : (o : Obj) (k : E) → new ≡ some o → find o k ≡ none
  pub find-add_hit : (o : Obj) (e k : E) → compare k e ≡ 0 → find (add o e) k ≡ some e
  pub find-add_miss : (o : Obj) (e k : E) → compare k e ≢ 0 → find (add o e) k ≡ find o k

-- `ARPHeader`: the fields as they stand in memory, so in network order on a received packet.
pub record ArpHeader : Type 0 where
  pub hwd_type : ℕ
  pub protocol_type : ℕ
  pub hwd_length : ℕ
  pub protocol_length : ℕ
  pub op : ℕ
  pub s_host : List ℕ
  pub s_ip : ℕ
  pub d_host : List ℕ
  pub d_ip : ℕ

-- The packed layout of the 28 bytes, written and read.
unfoldable pub arp_bytes : ArpHeader → List ℕ
arp_bytes h =
    le16 h.hwd_type
    ++ (le16 h.protocol_type
        ++ (h.hwd_length ∷ h.protocol_length ∷ le16 h.op
            ++ (h.s_host ++ (le32 h.s_ip ++ (h.d_host ++ le32 h.d_ip)))))

unfoldable pub arp_read : (ℕ → ℕ) → ℕ → ArpHeader
unfolding bytes
arp_read m i = record {
  hwd_type = load16 m i;
  protocol_type = load16 m (i + 2);
  hwd_length = m (i + 4);
  protocol_length = m (i + 5);
  op = load16 m (i + 6);
  s_host = bytes eth_alen (i + 8) m;
  s_ip = load32 m (i + 14);
  d_host = bytes eth_alen (i + 18) m;
  d_ip = load32 m (i + 24);
}

-- `hostIp()`, in the order of the host
abbrev pub host_ip : ℕ
host_ip = 0xc0a801c7

abbrev pub arpop_request : ℕ
arpop_request = 1

abbrev pub arpop_reply : ℕ
arpop_reply = 2

abbrev pub broadcast : List ℕ
broadcast = 0xff ∷ 0xff ∷ 0xff ∷ 0xff ∷ 0xff ∷ 0xff ∷ []

abbrev pub zero_mac : List ℕ
zero_mac = 0 ∷ 0 ∷ 0 ∷ 0 ∷ 0 ∷ 0 ∷ []

-- The headers that `arpRequest` and `arpReply` fill in; a field that is not named is zero.
unfoldable pub request_header : (ip : ℕ) → ArpHeader
request_header ip = record {
  hwd_type = short_swap 1;
  protocol_type = short_swap ethertype_ip;
  hwd_length = eth_alen;
  protocol_length = 4;
  op = short_swap arpop_request;
  s_host = local_mac;
  s_ip = long_swap host_ip;
  d_host = zero_mac;
  d_ip = ip;
}

unfoldable pub reply_header : ArpHeader → ArpHeader
reply_header arp = record {
  hwd_type = short_swap 1;
  protocol_type = short_swap ethertype_ip;
  hwd_length = eth_alen;
  protocol_length = 4;
  op = short_swap arpop_reply;
  s_host = local_mac;
  s_ip = short_swap host_ip;
  d_host = arp.d_host;
  d_ip = arp.s_ip;
}

-- What the calls of `malloc` on the paths of a packet give: whether there was room for a table
-- entry, and what stood in the memory for an ARP packet, for the headers of UDP and of IP, and for
-- that of Ethernet.
pub record Heap : Type 0 where
  pub has_item : Bool
  pub arp_at : ℕ → ℕ
  pub udp_at : ℕ → ℕ
  pub ip_at : ℕ → ℕ
  pub header_at : ℕ → ℕ

-- A packet of 60 bytes, of which the header is written.
unfoldable pub arp_frag : (ℕ → ℕ) → ArpHeader → Frag
arp_frag old h = record { len = 60; at = over (arp_bytes h) old }

module _ {T : Type 0} (heap : Heap) where
  unfoldable pub arp_request : (ip : ℕ) → Cmd (Net T) (Unit {0})
  unfolding arp_frag
  arp_request ip =
      eth_send heap.header_at (arp_frag heap.arp_at (request_header ip) ∷ []) broadcast local_mac
        ethertype_arp

  unfoldable pub arp_reply : ArpHeader → Cmd (Net T) (Unit {0})
  unfolding arp_frag
  arp_reply arp =
      eth_send heap.header_at (arp_frag heap.arp_at (reply_header arp) ∷ []) broadcast local_mac
        ethertype_arp

-- `(short)` of the first two bytes of an address, as an `unsigned int`
abbrev pub mac_word : List ℕ → ℕ
mac_word mac = let v = load16 (over mac (λ _. 0)) 0 in if leb 0x8000 v then v + 0xffff0000 else v

-- `irq` is what the interrupts do to the state while the delay loop of `ipToMac` counts.
module _ (L : ListClass Entry ip_compare) (heap : Heap) (irq : Cmd (Net L.Obj) (Unit {0})) where
  open L use {Obj, new, find, add}

  -- the table, made at the first use
  unfoldable pub open_table : Cmd (Net Obj) Obj
  open_table s rs = elim s.table [
    | some t ↦ pure t s rs
    | none ↦ elim new [ none ↦ fail exited s rs | some t ↦ pure t (record s { table = some t }) rs ]
  ]

  -- `arpTable->find` on the table of the present state
  unfoldable pub table_find : ℕ → Cmd (Net Obj) (Option Entry)
  table_find ip s rs = elim s.table [
    | none ↦ fail null_pointer s rs
    | some t ↦ pure (find t (record { ip = ip; mac = zero_mac })) s rs
  ]

  -- `((ARPTable)node->e)->mac`
  unfoldable pub node_mac : Option Entry → Cmd (Net Obj) (List ℕ)
  node_mac none = fail null_pointer
  node_mac (some e) = pure e.mac

  -- the second search, behind the request and the delay
  unfoldable pub ask : ℕ → Cmd (Net Obj) (Option Entry)
  unfolding table_find
  ask ip = do arp_request heap ip; irq; table_find ip

  unfoldable pub resolve : ℕ → Option Entry → Cmd (Net Obj) (Option Entry)
  unfolding ask
  resolve ip none = ask ip
  resolve ip (some e) = pure (some e)

  unfoldable pub ip_to_mac : ℕ → Cmd (Net Obj) (List ℕ)
  unfolding open_table table_find resolve node_mac
  ip_to_mac ip = do open_table; node ← table_find ip; node' ← resolve ip node; node_mac node'

  -- `arpTable->add`
  unfoldable pub table_add : Entry → Cmd (Net Obj) (Unit {0})
  table_add e s rs = elim s.table [
    | none ↦ fail null_pointer s rs
    | some t ↦ pure tt (record s { table = some (add t e) }) rs
  ]

  unfoldable pub new_entry : ArpHeader → Cmd (Net Obj) (Unit {0})
  unfolding table_add
  new_entry h = do
    printk (h.s_ip ∷ mac_word h.s_host ∷ [])
    table_add (record { ip = h.s_ip; mac = h.s_host })

  -- With a node in the table `item` stays NULL, and the address is copied to it.
  unfoldable pub store_entry : ArpHeader → Option Entry → Cmd (Net Obj) (Unit {0})
  unfolding new_entry
  store_entry h (some e) = fail null_pointer
  store_entry h none = if heap.has_item then new_entry h else fail exited

  -- The test for a request to this host, as the code makes it.
  abbrev pub answers : ArpHeader → Bool
  answers h = host_ip == h.d_ip && arpop_reply == h.protocol_type

  unfoldable pub answer : ArpHeader → Cmd (Net Obj) (Unit {0})
  answer h = if answers h then arp_reply heap h else pure tt

  -- `if(arpTable == NULL) ipToMac(arpHeader->sIP);`
  unfoldable pub first_use : ArpHeader → Cmd (Net Obj) (Unit {0})
  unfolding ip_to_mac
  first_use h s rs = elim s.table [
    | some t ↦ pure tt s rs
    | none ↦ and_then (ip_to_mac h.s_ip s rs) (λ mac. pure tt)
  ]

  unfoldable pub arp_recv : Option ArpHeader → Cmd (Net Obj) (Unit {0})
  unfolding first_use table_find store_entry answer
  arp_recv none = pure tt
  arp_recv (some h) = do first_use h; node ← table_find h.s_ip; store_entry h node; answer h
