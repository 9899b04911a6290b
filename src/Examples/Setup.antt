-- ===== src/Examples/Setup.antt =====
-- The inputs of the runs: a list for the table of addresses, an idle card, memory of zeros.
use gml_vm.Base.{
  ℕ, ◌≡◌, ◌≢◌, refl, List, [], ◌∷◌, Option, some, none, ◌==◌, if◌then◌else◌, true, arith, ne→==,
}
use gml_vm.Port.{Cmd, pure}
use gml_vm.Net.Message.{Frag}
use gml_vm.Net.State.{Net}
use gml_vm.Net.Arp.{Entry, ip_compare, ListClass, Heap, ArpHeader}
use gml_vm.Net.Arp.Frame.{IsIdle}
use gml_vm.Ne2k.Card.{Card}
use gml_vm.Ne2k.Dma.Wait.{Polled, finished, busy, ready}

unfoldable pub find_entry : List Entry → Entry → Option Entry
find_entry [] k = none
find_entry (e ∷ es) k = let rest = find_entry es k in if ip_compare k e == 0 then some e else rest

pub find_entry_new : (o : List Entry) (k : Entry) → some [] ≡ some o → find_entry o k ≡ none
unfolding find_entry
find_entry_new [] k e = refl
find_entry_new (x ∷ o) k e = absurd (grind (arith, e))

pub find_entry_hit :
    (o : List Entry) (e k : Entry) → ip_compare k e ≡ 0 → find_entry (e ∷ o) k ≡ some e
unfolding find_entry
find_entry_hit o e k same = rw same

pub find_entry_miss :
    (o : List Entry) (e k : Entry) → ip_compare k e ≢ 0 → find_entry (e ∷ o) k ≡ find_entry o k
unfolding find_entry
find_entry_miss o e k other = rw (ne→== (ip_compare k e) 0 other)

abbrev pub entries : ListClass Entry ip_compare
entries = record {
  Obj = List Entry;
  new = some [];
  find = find_entry;
  add = λ o e. e ∷ o;
  find-new = find_entry_new;
  find-add_hit = find_entry_hit;
  find-add_miss = find_entry_miss;
}

abbrev pub zeros : ℕ → ℕ
zeros i = 0

abbrev pub card : Card
card = record {
  bank = 0;
  mode = 4;
  remote = 0;
  left = 0;
  page = 0;
  count = 0;
  boundary = 0x46;
  current = 0x47;
  ram = zeros;
  sent = [];
}

abbrev pub heap : Heap
heap = record { has_item = true; arp_at = zeros; udp_at = zeros; ip_at = zeros; header_at = zeros }

abbrev pub no_irq : Cmd (Net (List Entry)) (Unit {0})
no_irq = pure tt

abbrev pub net : Net (List Entry)
net = record { queue = []; mac = 0; table = some [] }

-- A fragment of three bytes and one of two, of odd and even length.
abbrev pub three : Frag
three = record { len = 3; at = λ i. 5 }

abbrev pub low_byte : ℕ → ℕ
low_byte i = if i == 0 then 7 else 9

abbrev pub two : Frag
two = record { len = 2; at = low_byte }

-- A card that is busy at the first poll, and then answers each transfer at once.
abbrev pub polls : List ℕ
polls = 0 ∷ 0x40 ∷ 0x42 ∷ []

abbrev pub polled : Polled [] 2 polls
polled = busy 0 refl (ready 0x40 refl (ready 0x42 refl finished))

abbrev pub one_polled : Polled [] 1 (0x40 ∷ [])
one_polled = ready 0x40 refl finished

abbrev pub idle : IsIdle card heap 0x22 2 [] polls
idle = record {
  command = omega arith;
  polled = polled;
  bank = refl;
  arp_bytes = λ i. omega arith;
  header_bytes = λ i. omega arith;
}

abbrev pub long_polls : List ℕ
long_polls = 0x40 ∷ polls

abbrev pub long_idle : IsIdle card heap 0x22 3 [] long_polls
long_idle = record {
  command = omega arith;
  polled = ready 0x40 refl polled;
  bank = refl;
  arp_bytes = λ i. omega arith;
  header_bytes = λ i. omega arith;
}

-- 192.168.1.101 in network order, as it stands in memory, and a request of that host.
abbrev pub peer_ip : ℕ
peer_ip = 0x6501a8c0

abbrev pub peer_mac : List ℕ
peer_mac = 2 ∷ 0 ∷ 0 ∷ 0 ∷ 0 ∷ 1 ∷ []

abbrev pub peer : Entry
peer = record { ip = peer_ip; mac = peer_mac }

abbrev pub asking : ArpHeader
asking = record {
  hwd_type = 0x100;
  protocol_type = 0x8;
  hwd_length = 6;
  protocol_length = 4;
  op = 0x100;
  s_host = peer_mac;
  s_ip = peer_ip;
  d_host = 0 ∷ 0 ∷ 0 ∷ 0 ∷ 0 ∷ 0 ∷ [];
  d_ip = 0xc701a8c0;
}
