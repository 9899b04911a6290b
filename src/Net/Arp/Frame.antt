-- ===== src/Net/Arp/Frame.antt =====
-- The packets that `arpRequest` and `arpReply` put on the cable.
use gml_vm.Base.{
  ℕ, ◌+◌, ◌≤◌, ◌<◌, ◌^◌, ◌≡◌, ◌≢◌, refl, ap, subst, List, [], ◌∷◌, ◌++◌, arith, All-append, length,
  length-append, u8, append-nil,
}
use gml_vm.Net.ByteOrder.{short_swap, long_swap, le32, be16, be32, le32-long_swap}
use gml_vm.Net.Message.{over, bytes, bytes-append, bytes-ext, length-bytes, content}
use gml_vm.Net.State.{Net}
use gml_vm.Net.Ethernet.{ethertype_arp, local_mac, eth_send}
use gml_vm.Net.Ethernet.Frame.{IsByteList, IsMac, over-IsBytes, bytes-over_all, eth_send-Delivered}
use gml_vm.Net.Arp.{
  ArpHeader, Heap, arp_bytes, arp_frag, arp_request, arp_reply, request_header, reply_header,
  broadcast, zero_mac, host_ip,
}
use gml_vm.Ne2k.Card.{Card}
use gml_vm.Ne2k.Dma.Wait.{Polled}
use gml_vm.Ne2k.Dma.Copy.{IsBytes}
use gml_vm.Ne2k.Send.Load.{IsFrag}
use gml_vm.Ne2k.Send.Deliver.{Delivered}

-- An ARP packet for IPv4 over Ethernet, as the protocol lays it out: the operation, then the
-- hardware and protocol address of the sender and of the target.
abbrev pub arp_packet : (op : ℕ) (s_mac s_ip d_mac d_ip : List ℕ) → List ℕ
arp_packet op s_mac s_ip d_mac d_ip =
    be16 1 ++ (be16 0x0800 ++ (6 ∷ 4 ∷ be16 op ++ (s_mac ++ (s_ip ++ (d_mac ++ d_ip)))))

pub local_mac-IsMac : IsMac local_mac
local_mac-IsMac = record { six = refl; is_bytes = omega arith }

broadcast-IsMac : IsMac broadcast
broadcast-IsMac = record { six = refl; is_bytes = omega arith }

-- The written header, then what stood in the memory.
pub bytes_padded :
    (n k : ℕ) (xs : List ℕ) (old : ℕ → ℕ)
    → length xs ≡ n
    → bytes (n + k) 0 (over xs old) ≡ xs ++ bytes k n old
bytes_padded n k xs old e =
    let first : 0 + n ≡ n = omega arith in
    rw (
      bytes-append n k 0 (over xs old),
      first,
      bytes-over_all n xs old e,
      bytes-ext k n n (over xs old) old (λ i p. ground arith),
    )

module _ (op : ℕ) (s_mac s_ip d_mac d_ip : List ℕ) (sm : IsMac s_mac) (dm : IsMac d_mac)
    (si : length s_ip ≡ 4) (di : length d_ip ≡ 4) where
  pub length-arp_packet : length (arp_packet op s_mac s_ip d_mac d_ip) ≡ 28
  length-arp_packet = omega (
    arith,
    length-append s_mac (s_ip ++ (d_mac ++ d_ip)),
    length-append s_ip (d_mac ++ d_ip),
    length-append d_mac d_ip,
    sm.six,
    dm.six,
    si,
    di,
  )

  pub IsByteList-arp_packet :
      IsByteList s_ip → IsByteList d_ip → IsByteList (arp_packet op s_mac s_ip d_mac d_ip)
  IsByteList-arp_packet sb db = All-append _ (0 ∷ 1 ∷ 8 ∷ 0 ∷ 6 ∷ 4 ∷ be16 op) _ (omega arith) (
      All-append _ s_mac _ sm.is_bytes
        (All-append _ s_ip _ sb (All-append _ d_mac _ dm.is_bytes db)))

arp_request-packet :
    (x : ℕ)
    → x < 2 ^ 32
    → arp_bytes (request_header (long_swap x))
      ≡ arp_packet 1 local_mac (be32 host_ip) zero_mac (be32 x)
unfolding arp_bytes request_header short_swap long_swap
arp_request-packet x h =
    ap (◌++◌ (arp_packet 1 local_mac (be32 host_ip) zero_mac [])) (le32-long_swap x h)

arp_reply-packet :
    (arp : ArpHeader)
    → arp_bytes (reply_header arp)
      ≡ arp_packet 2 local_mac (0x01 ∷ 0xc7 ∷ 0 ∷ 0 ∷ []) arp.d_host (le32 arp.s_ip)
unfolding arp_bytes reply_header short_swap
arp_reply-packet arp = refl

-- What a run needs of the card and of the memory that `malloc` gave.
pub record IsIdle (c : Card) (heap : Heap) (v n : ℕ) (rest rs : List ℕ) : Type 0 where
  pub command : u8 v ≢ 0x26
  pub polled : Polled rest n rs
  pub bank : c.bank ≡ 0
  pub arp_bytes : IsBytes heap.arp_at
  pub header_bytes : IsBytes heap.header_at

-- The fragment of a packet, and the frame around it.
module _ (h : ArpHeader) (packet : List ℕ) (old : ℕ → ℕ) (same : arp_bytes h ≡ packet)
    (size : length packet ≡ 28) where
  arp_frag-IsFrag : IsByteList packet → IsBytes old → IsFrag (arp_frag old h)
  unfolding arp_frag
  arp_frag-IsFrag k o = record {
    pos = omega arith;
    is_bytes = rw same (over-IsBytes packet old k o);
  }

  content-arp_frag : content (arp_frag old h ∷ []) ≡ packet ++ bytes 32 28 old
  unfolding arp_frag content
  content-arp_frag = rw (same, bytes_padded 28 32 packet old size, append-nil)

  -- The same for the frame, sent to all hosts.
  arp_frag-Delivered :
      {T : Type 0} (s : Net T) (c : Card) (heap : Heap) (v : ℕ) {rest rs : List ℕ}
      → heap.arp_at ≡ old
      → IsIdle c heap v 2 rest rs
      → IsByteList packet
      → Delivered s c
          (broadcast ++ (local_mac ++ (be16 ethertype_arp ++ (packet ++ bytes 32 28 old))))
          rest
          (eth_send heap.header_at
            (arp_frag old h ∷ [])
            broadcast
            local_mac
            ethertype_arp
            s
            (v ∷ rs))
  arp_frag-Delivered s c heap v here idle k =
      let ok = arp_frag-IsFrag k (subst IsBytes here idle.arp_bytes) in
      let fits : 14 + length (content (arp_frag old h ∷ [])) ≤ 0x600 =
        rw content-arp_frag
          (omega (arith, length-append packet (bytes 32 28 old), length-bytes 32 28 old)) in
      rw content-arp_frag at (
        eth_send-Delivered s c heap.header_at (arp_frag old h ∷ []) broadcast local_mac
          ethertype_arp v idle.command idle.polled (ok, tt, tt) broadcast-IsMac local_mac-IsMac
          idle.header_bytes idle.bank fits)

module _ {T : Type 0} (s : Net T) (c : Card) (heap : Heap) (v : ℕ) {rest rs : List ℕ}
    (idle : IsIdle c heap v 2 rest rs) where
  -- On a card that is not sending, answers both transfers and has register page 0 selected, a
  -- request for the 32-bit address `x` goes to all hosts of the cable: an ARP request of this
  -- host for `x`, in network order, padded to 60 bytes by what stood in the memory of the packet.
  -- Memory holds bytes.
  pub arp_request-Delivered :
      (x : ℕ)
      → x < 2 ^ 32
      → Delivered s c
          (broadcast
            ++ (local_mac
                ++ (be16 ethertype_arp
                    ++ (arp_packet 1 local_mac (be32 host_ip) zero_mac (be32 x)
                        ++ bytes 32 28 heap.arp_at))))
          rest
          (arp_request heap (long_swap x) s (v ∷ rs))
  unfolding arp_request
  arp_request-Delivered x h =
      arp_frag-Delivered (request_header (long_swap x))
        (arp_packet 1 local_mac (be32 host_ip) zero_mac (be32 x)) heap.arp_at
        (arp_request-packet x h) refl s c heap v refl idle (omega arith)

  -- What `arpReply` sends in answer to `arp`, on a card that is not sending, answers both
  -- transfers and has register page 0 selected: not to its sender but to all hosts, with
  -- 1.199.0.0 for this host's address, and with the target's hardware address of the request,
  -- where a request has none, in place of the sender's. That address has six bytes, and memory
  -- holds bytes.
  pub arp_reply-Delivered :
      (arp : ArpHeader)
      → IsMac arp.d_host
      → Delivered s c
          (broadcast
            ++ (local_mac
                ++ (be16 ethertype_arp
                    ++ (arp_packet 2 local_mac (1 ∷ 199 ∷ 0 ∷ 0 ∷ []) arp.d_host (le32 arp.s_ip)
                        ++ bytes 32 28 heap.arp_at))))
          rest
          (arp_reply heap arp s (v ∷ rs))
  unfolding arp_reply
  arp_reply-Delivered arp dm =
      let sender : List ℕ = 1 ∷ 199 ∷ 0 ∷ 0 ∷ [] in
      arp_frag-Delivered (reply_header arp)
        (arp_packet 2 local_mac sender arp.d_host (le32 arp.s_ip)) heap.arp_at
        (arp_reply-packet arp)
        (length-arp_packet 2 local_mac sender arp.d_host (le32 arp.s_ip) local_mac-IsMac dm refl
          refl)
        s c heap v refl idle
        (IsByteList-arp_packet 2 local_mac sender arp.d_host (le32 arp.s_ip) local_mac-IsMac dm refl
          refl (omega arith) (omega arith))
