-- ===== src/Net/Ip/Frame.antt =====
-- The header that `ipSend` fills in.
use gml_vm.Base.{ℕ, ◌+◌, ◌*◌, ◌/◌, ◌%◌, ◌<◌, ◌≡◌, refl, List, [], ◌∷◌, ◌++◌, arith, u8}
use gml_vm.Net.ByteOrder.{short_swap, load16}
use gml_vm.Net.Message.{over}
use gml_vm.Net.Ip.{check_sum, words, ip_bytes, ip_header}
use gml_vm.Net.Ip.Checksum.{IsWords, check_sum-check_sum, check_sum-lt}

-- The words of the header in front of the checksum and behind it.
front : (m : ℕ → ℕ) (len : ℕ) (protocol : ℕ) → List ℕ
front m len protocol =
    (5 + 16 * 4 + 256 * m 1)
    ∷ (len % 256 + 256 * (len / 256 % 256))
    ∷ 0x100
    ∷ (m 6 % 8 + 256 * 0)
    ∷ (60 + 256 * u8 protocol)
    ∷ []

rear : (sip dip : ℕ) → List ℕ
rear sip dip =
    (sip % 256 + 256 * (sip / 256 % 256))
    ∷ (sip / 65536 % 256 + 256 * (sip / 16777216 % 256))
    ∷ (dip % 256 + 256 * (dip / 256 % 256))
    ∷ (dip / 65536 % 256 + 256 * (dip / 16777216 % 256))
    ∷ []

words-ip_bytes :
    (m : ℕ → ℕ) (len protocol check sip dip : ℕ)
    → words 10 0 (over (ip_bytes m len (short_swap 1) 60 protocol check sip dip) m)
      ≡ front m len protocol ++ ((check % 256 + 256 * (check / 256 % 256)) ∷ rear sip dip)
unfolding words ip_bytes front rear short_swap
words-ip_bytes m len protocol check sip dip = refl

IsWords-front : (m : ℕ → ℕ) (len protocol : ℕ) → m 1 < 256 → IsWords (front m len protocol)
unfolding front
IsWords-front m len protocol h = omega arith

IsWords-rear : (sip dip : ℕ) → IsWords (rear sip dip)
unfolding rear
IsWords-rear sip dip = omega arith

-- The header that `ipSend` fills in over memory whose checksum field is 0 passes the receiver's
-- test, whatever the length, the protocol and the addresses.
pub ip_header-check_sum :
    (m : ℕ → ℕ) (len type sip dip : ℕ)
    → m 1 < 256
    → m 10 ≡ 0
    → m 11 ≡ 0
    → check_sum (words 10 0 (ip_header m len type sip dip)) ≡ 0
unfolding ip_header
ip_header-check_sum m len type sip dip tos low high =
    let pre = front m (short_swap len) type in
    let c = check_sum (pre ++ (0 ∷ rear sip dip)) in
    let empty : load16 m 10 ≡ 0 = omega arith in
    let fits : c % 256 + 256 * (c / 256 % 256) ≡ c =
      omega (arith, check_sum-lt (pre ++ (0 ∷ rear sip dip))) in
    rw
      (
        empty,
        words-ip_bytes m (short_swap len) type 0 sip dip,
        words-ip_bytes m (short_swap len) type c sip dip,
        fits,
      )
      (check_sum-check_sum pre (rear sip dip) (IsWords-front m (short_swap len) type tos)
        (IsWords-rear sip dip) (unfold front rear in omega arith))
