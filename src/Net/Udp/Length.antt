-- ===== src/Net/Udp/Length.antt =====
-- The header of `udpSend`, and the two lengths of a datagram.
use gml_vm.Base.{ℕ, ◌+◌, ◌^◌, ◌<◌, ◌≡◌, ◌↔◌, ◌∙◌, ap, [], ◌∷◌, ◌++◌, arith, length, length-append}
use gml_vm.Net.ByteOrder.{short_swap, be16, le16-short_swap}
use gml_vm.Net.Message.{Frag, Msg, bytes, length-bytes, content}
use gml_vm.Net.Ethernet.Frame.{bytes-over_all}
use gml_vm.Net.Ip.{total_len}
use gml_vm.Net.Ip.Datagram.{total_len-content}
use gml_vm.Net.Udp.{udp_bytes, udp_frag}

-- The header in network order, for ports that the caller has put into network order.
udp_bytes-be16 :
    (s_port d_port len : ℕ)
    → udp_bytes (short_swap s_port) (short_swap d_port) len
      ≡ be16 s_port ++ (be16 d_port ++ (be16 len ++ (0 ∷ 0 ∷ [])))
unfolding udp_bytes
udp_bytes-be16 s_port d_port len i =
    le16-short_swap s_port i
    ++ (le16-short_swap d_port i ++ (le16-short_swap len i ++ (0 ∷ 0 ∷ [])))

-- The eight bytes that `udpSend` puts in front of a message, for a datagram below 2 ^ 16 bytes:
-- the ports and the length in network order, no checksum. The length is the header's and the
-- first fragment's; it agrees with the length that `ipSend` counts exactly when the fragments
-- behind the first are empty.
pub udp_frag_lem :
    (old : ℕ → ℕ) (f : Frag) (fs : Msg) (d_port s_port : ℕ)
    → 28 + length (content (f ∷ fs)) < 2 ^ 16
    → (bytes 8 0 (udp_frag old f (short_swap d_port) (short_swap s_port)).at
        ≡ be16 s_port ++ (be16 d_port ++ (be16 (8 + f.len) ++ (0 ∷ 0 ∷ []))))
      × ((20 + (8 + f.len)
            ≡ total_len (udp_frag old f (short_swap d_port) (short_swap s_port) ∷ f ∷ fs) 20)
          ↔ (length (content fs) ≡ 0))
unfolding udp_frag content
udp_frag_lem old f fs d_port s_port fits =
    let header = udp_bytes-be16 s_port d_port (8 + f.len) in
    let h = udp_bytes (short_swap s_port) (short_swap d_port) (8 + f.len) in
    let u = udp_frag old f (short_swap d_port) (short_swap s_port) in
    let all = length-append (bytes f.len 0 f.at) (content fs) in
    let whole = length-append (bytes 8 0 u.at) (content (f ∷ fs)) in
    let first = length-bytes f.len 0 f.at in
    let eight = length-bytes 8 0 u.at in
    let sum = total_len-content (u ∷ f ∷ fs) 20 (omega (arith, all, whole, first, eight)) in
    (
      bytes-over_all 8 h old (ap length header) ∙ header,
      (
        λ e. omega (arith, sum, all, whole, first, eight),
        λ e. omega (arith, sum, all, whole, first, eight),
      ),
    )
