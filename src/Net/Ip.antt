-- ===== src/Net/Ip.antt =====
-- net/ip.c and include/net/ip.h: the header of a datagram, its checksum, and `ipSend`.
pub mod Checksum
pub mod Datagram
pub mod Frame
use gml_vm.Base.{
  ℕ, zero, suc, ◌+◌, ◌-◌, ◌*◌, ◌/◌, ◌%◌, ◌^◌, List, [], ◌∷◌, ◌++◌, ◌==◌, if◌then◌else◌, bit_and,
  shr, replicate, u8, u16, u32,
}
use gml_vm.Port.{Cmd, ◌>>=◌, pure}
use gml_vm.Net.ByteOrder.{short_swap, le16, le32, load16}
use gml_vm.Net.Message.{Frag, Msg, over}
use gml_vm.Net.State.{Net}
use gml_vm.Net.Ethernet.{ethertype_ip, local_mac, eth_send}
use gml_vm.Net.Arp.{Entry, ip_compare, ListClass, Heap, ip_to_mac}

abbrev pub ippoto_udp : ℕ
ippoto_udp = 17

-- `sum` is an `unsigned long` of 32 bits.
unfoldable pub sum_words : List ℕ → ℕ → ℕ
sum_words [] sum = sum
sum_words (w ∷ ws) sum = sum_words ws (u32 (sum + w))

-- `sum = (sum & 0xffff) + (sum >> 16); sum += (sum>>16); return ~sum;`
unfoldable pub fold_sum : ℕ → ℕ
fold_sum sum =
    let once = u32 (bit_and sum 0xffff + shr sum 16) in
    let twice = u32 (once + shr once 16) in u16 (2 ^ 32 - 1 - twice)

unfoldable pub check_sum : List ℕ → ℕ
unfolding sum_words fold_sum
check_sum ws = fold_sum (sum_words ws 0)

-- The `n` shorts from index `i` on.
unfoldable pub words : ℕ → ℕ → (ℕ → ℕ) → List ℕ
words zero i m = []
words (suc n) i m = load16 m i ∷ words n (i + 2) m

-- The loop over the chain. `len` is an `unsigned short`.
unfoldable pub total_len : Msg → ℕ → ℕ
total_len [] len = len
total_len (f ∷ fs) len = total_len fs (u16 (len + f.len))

-- The 20 bytes of the header. `v` (4 bits) stands below `headLenght`; `offset` and `flags` share a
-- short, of which only the upper 13 bits are written.
unfoldable pub ip_bytes : (old : ℕ → ℕ) (len id ttl protocol check sip dip : ℕ) → List ℕ
ip_bytes old len id ttl protocol check sip dip =
    (5 + 16 * 4) ∷ old 1 ∷ le16 len
    ++ (le16 id ++ (old 6 % 8 ∷ 0 ∷ u8 ttl ∷ u8 protocol ∷ le16 check ++ (le32 sip ++ le32 dip)))

-- The header that stands in `old` when the fields are assigned: the checksum is taken while the
-- field `check` holds what was there before.
unfoldable pub ip_header : (old : ℕ → ℕ) (len type sip dip : ℕ) → ℕ → ℕ
ip_header old len type sip dip =
    let before =
      over (ip_bytes old (short_swap len) (short_swap 1) 60 type (load16 old 10) sip dip) old in
    let check = check_sum (words 10 0 before) in
    over (ip_bytes old (short_swap len) (short_swap 1) 60 type check sip dip) old

-- The call of `memset`, with the meaning that C gives it, which a compiler that knows the function puts
-- in place of a call with a constant count: in the kernel as it was built, vmgmL, the call of
-- `ipSend`, with count 0, has become nothing. The loop of c/string.c is `set_bytes` of Kernel/Memory.
unfoldable pub memset : (m : ℕ → ℕ) (ch n : ℕ) → ℕ → ℕ
memset m ch n = over (replicate n (u8 ch)) m

-- `ipRecv` does nothing.
abbrev pub ip_recv : {S : Type 0} → Cmd S (Unit {0})
ip_recv = pure tt

module _ (L : ListClass Entry ip_compare) (heap : Heap) (irq : Cmd (Net L.Obj) (Unit {0})) where
  -- The length is counted before the header is filled in. The arguments of `memset` stand in the order
  -- of the source: 20 is the byte and 0 the count.
  unfoldable pub ip_send : (dip sip : ℕ) → Msg → (type : ℕ) → Cmd (Net L.Obj) (Unit {0})
  unfolding memset
  ip_send dip sip msg type = do
    let len = total_len (record { len = 20; at = heap.ip_at } ∷ msg) 0
    let header = ip_header (memset heap.ip_at 20 0) len type sip dip
    d_host ← ip_to_mac L heap irq dip
    eth_send heap.header_at (record { len = 20; at = header } ∷ msg) d_host local_mac ethertype_ip
