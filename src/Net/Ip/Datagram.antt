-- ===== src/Net/Ip/Datagram.antt =====
-- `ipSend`: the datagram that is put on the cable.
use gml_vm.Base.{
  ℕ, suc, ◌+◌, ◌^◌, ◌≤◌, ◌<◌, ◌≡◌, ◌∙◌, List, [], ◌∷◌, ◌++◌, arith, length, length-append, u8, u16,
  fun_ext, refl, ◌%◌, some,
}
use gml_vm.Port.{Cmd, after-nil}
use gml_vm.Net.ByteOrder.{short_swap, be16, le16, le32, load16, le16-short_swap}
use gml_vm.Net.Message.{over, Frag, Msg, bytes, length-bytes, content}
use gml_vm.Net.State.{Net}
use gml_vm.Net.Ethernet.{ethertype_ip, local_mac}
use gml_vm.Net.Ethernet.Frame.{IsByteList, IsMac, over-IsBytes, bytes-over_all, eth_send-Delivered}
use gml_vm.Net.Arp.{Entry, ip_compare, ListClass, Heap}
use gml_vm.Net.Arp.Frame.{IsIdle, local_mac-IsMac}
use gml_vm.Net.Arp.Table.{key, having, ip_to_mac_known}
use gml_vm.Net.Ip.{check_sum, words, total_len, ip_bytes, ip_header, memset, ip_send}
use gml_vm.Ne2k.Card.{Card}
use gml_vm.Ne2k.Dma.Copy.{IsBytes}
use gml_vm.Ne2k.Send.Load.{IsFrag, AllFrags, Joins-even}
use gml_vm.Ne2k.Send.Deliver.{Delivered}

-- The length in the header is the number of bytes of the chain, as long as it fits 16 bits.
pub total_len-content :
    (msg : Msg) (n : ℕ)
    → n + length (content msg) < 2 ^ 16
    → total_len msg n ≡ n + length (content msg)
unfolding total_len content
total_len-content [] n h = omega arith
total_len-content (f ∷ fs) n h =
    let size = length-append (bytes f.len 0 f.at) (content fs) in
    let exact : u16 (n + f.len) ≡ n + f.len = omega (arith, size, length-bytes f.len 0 f.at) in
    rw exact (
      total_len-content fs (n + f.len) (omega (arith, size, length-bytes f.len 0 f.at))
      ∙ omega (arith, size, length-bytes f.len 0 f.at))

ip_bytes-IsByteList :
    (m : ℕ → ℕ) (len id ttl protocol check sip dip : ℕ)
    → m 1 < 256
    → IsByteList (ip_bytes m len id ttl protocol check sip dip)
unfolding ip_bytes
ip_bytes-IsByteList m len id ttl protocol check sip dip tos = omega arith

ip_header-IsBytes :
    (m : ℕ → ℕ) (len type sip dip : ℕ) → IsBytes m → IsBytes (ip_header m len type sip dip)
unfolding ip_header
ip_header-IsBytes m len type sip dip h =
    over-IsBytes _ m (ip_bytes-IsByteList m _ _ _ _ _ _ _ (h 1)) h

-- The header of a datagram of `len` bytes, as the protocol lays it out, with the identification 1 and 60
-- hops to live. The type of service and the lowest three bits of byte 6 are what stood in the memory
-- `m`. The addresses come as they are to stand in memory.
abbrev pub ip_layout : (m : ℕ → ℕ) (len type sip dip check : ℕ) → List ℕ
ip_layout m len type sip dip check =
    0x45 ∷ m 1 ∷ be16 len
    ++ (be16 1 ++ (m 6 % 8 ∷ 0 ∷ 60 ∷ u8 type ∷ le16 check ++ (le32 sip ++ le32 dip)))

-- The checksum of that header, with what stood in `m` in the place of the checksum.
abbrev pub ip_check : (m : ℕ → ℕ) (len type sip dip : ℕ) → ℕ
ip_check m len type sip dip =
    check_sum (words 10 0 (over (ip_layout m len type sip dip (load16 m 10)) m))

ip_bytes-ip_layout :
    (m : ℕ → ℕ) (len type sip dip check : ℕ)
    → ip_bytes m (short_swap len) (short_swap 1) 60 type check sip dip
      ≡ ip_layout m len type sip dip check
unfolding ip_bytes
ip_bytes-ip_layout m len type sip dip check i =
    0x45 ∷ m 1 ∷ le16-short_swap len i
    ++ (le16-short_swap 1 i ++ (m 6 % 8 ∷ 0 ∷ 60 ∷ u8 type ∷ le16 check ++ (le32 sip ++ le32 dip)))

ip_header-ip_layout :
    (m : ℕ → ℕ) (len type sip dip : ℕ)
    → bytes 20 0 (ip_header m len type sip dip)
      ≡ ip_layout m len type sip dip (ip_check m len type sip dip)
unfolding ip_header
ip_header-ip_layout m len type sip dip =
    let check = ip_check m len type sip dip in
    rw
      (
        ip_bytes-ip_layout m len type sip dip (load16 m 10),
        ip_bytes-ip_layout m len type sip dip check,
      )
      (bytes-over_all 20 (ip_layout m len type sip dip check) m refl)

memset_none : (m : ℕ → ℕ) (ch : ℕ) → memset m ch 0 ≡ m
unfolding memset
memset_none m ch = fun_ext λ j. ground arith

module _ (L : ListClass Entry ip_compare) (heap : Heap) (irq : Cmd (Net L.Obj) (Unit {0})) where
  -- `ipSend`, with the target's hardware address in the table and a card that is not sending: one
  -- frame goes out, to that address, of type IP, and holds the header of the datagram, as the
  -- protocol lays it out, and what the message holds. The header has the length of the whole
  -- datagram; its type of service, the lowest bits of byte 6 and the place of the checksum that
  -- the checksum is taken over are what stood in the memory that `malloc` gave. The card answers
  -- every transfer and its register page 0 is selected; the message fits the transmit pages behind 34
  -- bytes of headers, none of its fragments is empty, all but the last are of even length, and memory
  -- holds bytes.
  pub ip_send-Delivered :
      (s : Net L.Obj) (t : L.Obj) (e : Entry) (c : Card) (dip sip : ℕ) (msg : Msg) (type v : ℕ)
      {rest rs : List ℕ}
      → L.find t (key dip) ≡ some e
      → IsMac e.mac
      → IsIdle c heap v (suc (suc (length msg))) rest rs
      → IsBytes heap.ip_at
      → AllFrags msg
      → 34 + length (content msg) ≤ 0x600
      → Delivered
          (having L heap irq s t)
          c
          (e.mac
            ++ (local_mac
                ++ (be16 ethertype_ip
                    ++ (ip_layout heap.ip_at
                          (20 + length (content msg))
                          type
                          sip
                          dip
                          (ip_check heap.ip_at (20 + length (content msg)) type sip dip)
                        ++ content msg))))
          rest
          (ip_send L heap irq dip sip msg type (having L heap irq s t) (v ∷ rs))
  unfolding ip_send content
  ip_send-Delivered s t e c dip sip msg type v {rs} known dm idle h ok fits =
      let n = 20 + length (content msg) in
      let m = heap.ip_at in
      let frag : Frag = record { len = 20; at = ip_header m n type sip dip } in
      let sound : IsFrag frag = record {
        pos = omega arith;
        is_bytes = ip_header-IsBytes m n type sip dip h;
      } in
      let size = length-append (bytes 20 0 (ip_header m n type sip dip)) (content msg) in
      let base : Frag = record { len = 20; at = m } in
      let base_size = length-append (bytes 20 0 m) (content msg) in
      let len : total_len (base ∷ msg) 0 ≡ n =
        total_len-content (base ∷ msg) 0 (omega (arith, base_size, length-bytes 20 0 m))
        ∙ omega (arith, base_size, length-bytes 20 0 m) in
      let found = ip_to_mac_known L heap irq s t e dip (v ∷ rs) known in
      let sent =
        eth_send-Delivered (having L heap irq s t) c heap.header_at (frag ∷ msg) e.mac local_mac
          ethertype_ip v idle.command idle.polled (sound, Joins-even frag msg refl, ok) dm
          local_mac-IsMac idle.header_bytes idle.bank
          (omega (arith, size, length-bytes 20 0 (ip_header m n type sip dip))) in
      rw (len, memset_none m 20, found, after-nil)
        (rw (ip_header-ip_layout m n type sip dip) at sent)
