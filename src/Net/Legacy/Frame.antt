-- ===== src/Net/Legacy/Frame.antt =====
-- What the earlier ARP puts on the cable.
use gml_vm.Base.{
  ℕ, ◌+◌, ◌%◌, ◌-◌, ◌≤◌, ◌^◌, ◌≡◌, ◌≢◌, refl, ◌∙◌, ap, List, [], ◌∷◌, ◌++◌, arith, length,
  length-append, u8, append-nil, append_assoc,
}
use gml_vm.Port.{Run, done, Event, ◌>>=◌, ◌>>◌}
use gml_vm.Net.ByteOrder.{le16, le32, be16, be32}
use gml_vm.Net.Message.{Frag, Msg, over, bytes, length-bytes, content}
use gml_vm.Net.State.{Net}
use gml_vm.Net.Ethernet.{ethertype_arp}
use gml_vm.Net.Ethernet.Frame.{IsByteList, IsMac, over-IsBytes, bytes-over_all}
use gml_vm.Net.Arp.{arp_bytes, broadcast, zero_mac}
use gml_vm.Net.Arp.Frame.{arp_packet, bytes_padded, length-arp_packet, IsByteList-arp_packet}
use gml_vm.Net.Legacy.{
  mac_bytes, packet_bytes, packet_frag, arp_type, ask_header, replay_header, old_frag, send_packet,
  ask_mac, replay_arp,
}
use gml_vm.Ne2k.Card.{Card, steps}
use gml_vm.Ne2k.Dma.Wait.{Polled}
use gml_vm.Ne2k.Dma.Copy.{IsBytes}
use gml_vm.Ne2k.Send.Load.{IsFrag}
use gml_vm.Ne2k.Send.Deliver.{ne_send-Delivered}

mac_bytes-IsMac : (v : ℕ) → IsMac (mac_bytes v)
unfolding mac_bytes
mac_bytes-IsMac v = record { six = refl; is_bytes = omega arith }

-- The run comes back with the state as it was and a value, and the card has put `xs` on the cable.
pub record Returned {S A : Type 0} (a : A) (s : S) (c : Card) (xs rest : List ℕ) (r : Run S A)
    : Type 0 where
  pub events : List Event
  pub returns : r ≡ done a s events rest
  pub sent : (steps c events).sent ≡ c.sent ++ (xs ∷ [])

-- What a run needs of the card and of the memory that `malloc` gave.
pub record IsReady (c : Card) (header_at arp_at : ℕ → ℕ) (v : ℕ) (rest rs : List ℕ) : Type 0 where
  pub command : u8 v ≢ 0x26
  pub polled : Polled rest 2 rs
  pub bank : c.bank ≡ 0
  pub header_bytes : IsBytes header_at
  pub arp_bytes : IsBytes arp_at

module _ (old : ℕ → ℕ) (d s type : ℕ) where
  length-packet_bytes : length (packet_bytes d s type) ≡ 14
  unfolding packet_bytes mac_bytes
  length-packet_bytes = refl

  packet_frag-IsFrag : IsBytes old → IsFrag (packet_frag old d s type)
  unfolding packet_frag packet_bytes mac_bytes
  packet_frag-IsFrag k = record {
    pos = omega arith;
    is_bytes = over-IsBytes (packet_bytes d s type) old (omega arith) k;
  }

  packet_frag-even : (packet_frag old d s type).len % 2 ≡ 0
  unfolding packet_frag
  packet_frag-even = refl

  content-packet_frag :
      (msg : Msg)
      → content (packet_frag old d s type ∷ msg)
        ≡ mac_bytes d ++ (mac_bytes s ++ (le16 type ++ content msg))
  unfolding packet_frag content packet_bytes
  content-packet_frag msg = rw (bytes-over_all 14 (packet_bytes d s type) old length-packet_bytes) (
      append_assoc (mac_bytes d) (mac_bytes s ++ le16 type) (content msg)
      ∙ ap (◌++◌ (mac_bytes d)) (append_assoc (mac_bytes s) (le16 type) (content msg)))

send_packet-Returned :
    {T : Type 0} (s : Net T) (c : Card) (h p : ℕ → ℕ) (f : Frag) (mac type v : ℕ) {rest rs : List ℕ}
    → IsReady c h p v rest rs
    → IsFrag f
    → 14 + length (content (f ∷ [])) ≤ 0x600
    → Returned 0 s c
        (mac_bytes mac ++ (mac_bytes s.mac ++ (le16 type ++ content (f ∷ []))))
        rest
        (send_packet h p (f ∷ []) mac type s (v ∷ rs))
unfolding send_packet
send_packet-Returned s c h p f mac type v ready ok fits =
    let frag = packet_frag h mac s.mac type in
    let held = content-packet_frag h mac s.mac type (f ∷ []) in
    let size : length (content (frag ∷ f ∷ [])) ≤ 0x600 = rw held (
      omega (
        arith,
        length-append (mac_bytes mac) (mac_bytes s.mac ++ (le16 type ++ content (f ∷ []))),
        length-append (mac_bytes s.mac) (le16 type ++ content (f ∷ [])),
        length-append (le16 type) (content (f ∷ [])),
        (mac_bytes-IsMac mac).six,
        (mac_bytes-IsMac s.mac).six,
      )) in
    let d =
      ne_send-Delivered s c frag (f ∷ []) v ready.command ready.polled
        (
          packet_frag-IsFrag h mac s.mac type ready.header_bytes,
          packet_frag-even h mac s.mac type,
          (ok, tt, tt),
        )
        ready.bank size in
    record {
      events = d.events;
      returns = rw (◌>>◌, d.returns, append-nil) refl;
      sent = rw (← held) d.sent;
    }

broadcast_lem : mac_bytes (2 ^ 64 - 1) ≡ broadcast
unfolding mac_bytes
broadcast_lem = refl

ask-packet :
    (ip mac : ℕ)
    → arp_bytes (ask_header ip mac)
      ≡ arp_packet 1 (mac_bytes mac) (be32 0xc0a80165) zero_mac (le32 ip)
unfolding arp_bytes ask_header mac_bytes
ask-packet ip mac = refl

replay-packet :
    (s_ip d_ip s_mac d_mac : ℕ)
    → arp_bytes (replay_header s_ip d_ip s_mac d_mac)
      ≡ arp_packet 2 (mac_bytes s_mac) (le32 s_ip) (mac_bytes d_mac) (le32 d_ip)
unfolding arp_bytes replay_header mac_bytes
replay-packet s_ip d_ip s_mac d_mac = refl

-- The 46 bytes of a packet.
module _ (packet : List ℕ) (p : ℕ → ℕ) (size : length packet ≡ 28) where
  padded-IsFrag :
      IsByteList packet → IsBytes p → IsFrag (record { len = 60 - 14; at = over packet p })
  padded-IsFrag k o = record { pos = omega arith; is_bytes = over-IsBytes packet p k o }

  content-old_frag :
      content (record { len = 60 - 14; at = over packet p } ∷ []) ≡ packet ++ bytes 18 28 p
  unfolding content
  content-old_frag = rw (bytes_padded 28 18 packet p size, append-nil) refl

  old_frag-Returned :
      {T : Type 0} (s : Net T) (c : Card) (h : ℕ → ℕ) (mac v : ℕ) {rest rs : List ℕ}
      → IsReady c h p v rest rs
      → IsByteList packet
      → Returned 0 s c
          (mac_bytes mac ++ (mac_bytes s.mac ++ (be16 ethertype_arp ++ (packet ++ bytes 18 28 p))))
          rest
          (send_packet h p
            (record { len = 60 - 14; at = over packet p } ∷ [])
            mac
            arp_type
            s
            (v ∷ rs))
  old_frag-Returned s c h mac v ready k =
      let fits : 14 + length (content (record { len = 60 - 14; at = over packet p } ∷ [])) ≤ 0x600 =
        rw content-old_frag
          (omega (arith, length-append packet (bytes 18 28 p), length-bytes 18 28 p)) in
      rw content-old_frag at (
        send_packet-Returned s c h p (record { len = 60 - 14; at = over packet p }) mac arp_type v
          ready (padded-IsFrag k ready.arp_bytes) fits)

module _ {T : Type 0} (s : Net T) (c : Card) (h p : ℕ → ℕ) (v : ℕ) {rest rs : List ℕ}
    (ready : IsReady c h p v rest rs) where
  -- `IPtoMac`, on a card that is not sending, answers both transfers and has register page 0 selected: it
  -- comes back with 0, and all hosts of the cable get a frame of an ARP request, in network order, of the
  -- host 192.168.1.101 with the hardware address `mac` for the address that stands in memory as `ip`. The
  -- packet is padded to 46 bytes by what stood in its memory, and memory holds bytes.
  pub ask_mac-Returned :
      (ip mac : ℕ)
      → Returned 0 s c
          (broadcast
            ++ (mac_bytes s.mac
                ++ (be16 ethertype_arp
                    ++ (arp_packet 1 (mac_bytes mac) (be32 0xc0a80165) zero_mac (le32 ip)
                        ++ bytes 18 28 p))))
          rest
          (ask_mac h p ip mac s (v ∷ rs))
  unfolding ask_mac old_frag
  ask_mac-Returned ip mac =
      let zero-IsMac : IsMac zero_mac = record { six = refl; is_bytes = omega arith } in
      let packet = arp_packet 1 (mac_bytes mac) (be32 0xc0a80165) zero_mac (le32 ip) in
      let d =
        old_frag-Returned packet p
          (length-arp_packet 1 (mac_bytes mac) (be32 0xc0a80165) zero_mac (le32 ip)
            (mac_bytes-IsMac mac) zero-IsMac refl refl)
          s c h (2 ^ 64 - 1) v ready
          (IsByteList-arp_packet 1 (mac_bytes mac) (be32 0xc0a80165) zero_mac (le32 ip)
            (mac_bytes-IsMac mac) zero-IsMac refl refl (omega arith) (omega arith)) in
      record {
        events = d.events;
        returns = rw (ask-packet ip mac) (rw (◌>>=◌, d.returns, append-nil) refl);
        sent =
            d.sent
            ∙ ap
                (λ m.
                  c.sent
                  ++ ((m ++ (mac_bytes s.mac ++ (be16 ethertype_arp ++ (packet ++ bytes 18 28 p))))
                      ∷ []))
                broadcast_lem;
      }

  -- `replayARP`, on a card that is not sending, answers both transfers and has register page 0 selected: the
  -- card puts a frame for the hardware address `d_mac` on the cable, with an ARP reply, in network order, that
  -- the addresses `s_ip` and `s_mac` belong together. The packet is padded to 46 bytes by what stood in its
  -- memory, and memory holds bytes.
  pub replay_arp-Returned :
      (s_ip d_ip s_mac d_mac : ℕ)
      → Returned tt s c
          (mac_bytes d_mac
            ++ (mac_bytes s.mac
                ++ (be16 ethertype_arp
                    ++ (arp_packet 2 (mac_bytes s_mac) (le32 s_ip) (mac_bytes d_mac) (le32 d_ip)
                        ++ bytes 18 28 p))))
          rest
          (replay_arp h p s_ip d_ip s_mac d_mac s (v ∷ rs))
  unfolding replay_arp old_frag
  replay_arp-Returned s_ip d_ip s_mac d_mac =
      let packet = arp_packet 2 (mac_bytes s_mac) (le32 s_ip) (mac_bytes d_mac) (le32 d_ip) in
      let d =
        old_frag-Returned packet p
          (length-arp_packet 2 (mac_bytes s_mac) (le32 s_ip) (mac_bytes d_mac) (le32 d_ip)
            (mac_bytes-IsMac s_mac) (mac_bytes-IsMac d_mac) refl refl)
          s c h d_mac v ready
          (IsByteList-arp_packet 2 (mac_bytes s_mac) (le32 s_ip) (mac_bytes d_mac) (le32 d_ip)
            (mac_bytes-IsMac s_mac) (mac_bytes-IsMac d_mac) refl refl (omega arith)
            (omega arith)) in
      record {
        events = d.events;
        returns = rw (replay-packet s_ip d_ip s_mac d_mac) (rw (◌>>=◌, d.returns, append-nil) refl);
        sent = d.sent;
      }
