-- ===== src/Net/Ethernet/Frame.antt =====
-- `ethSend`: the frame on the cable.
use gml_vm.Base.{
  ℕ, ◌%◌, zero, suc, ◌+◌, ◌≤◌, ◌<◌, ◌≡◌, ◌≢◌, refl, ◌∙◌, ap, List, [], ◌∷◌, ◌++◌, arith, All,
  All-append, length, length-append, take, get_or, u8, append_assoc,
}
use gml_vm.Net.ByteOrder.{be16, le16-short_swap}
use gml_vm.Net.Message.{Msg, over, bytes, bytes-over, content}
use gml_vm.Net.State.{Net}
use gml_vm.Net.Ethernet.{eth_header, eth_frag, eth_send}
use gml_vm.Ne2k.Card.{Card}
use gml_vm.Ne2k.Dma.Wait.{Polled}
use gml_vm.Ne2k.Dma.Copy.{IsBytes}
use gml_vm.Ne2k.Send.Load.{IsFrag, AllFrags, Joins-even}
use gml_vm.Ne2k.Send.Deliver.{Delivered, ne_send-Delivered}

abbrev pub IsByteList : List ℕ → Type 0
IsByteList = All (λ b. b < 256)

-- A hardware address.
pub record IsMac (mac : List ℕ) : Type 0 where
  pub six : length mac ≡ 6
  pub is_bytes : IsByteList mac

take_all : (n : ℕ) (xs : List ℕ) → length xs ≡ n → take n xs ≡ xs
take_all zero [] e = refl
take_all zero (x ∷ xs) e = absurd (omega arith)
take_all (suc n) [] e = refl
take_all (suc n) (x ∷ xs) e = ap (◌∷◌ x) (take_all n xs (omega arith))

get_or-lt : (xs : List ℕ) (i : ℕ) → IsByteList xs → get_or xs i 0 < 256
get_or-lt [] i h = omega arith
get_or-lt (x ∷ xs) zero h = h.0
get_or-lt (x ∷ xs) (suc i) h = get_or-lt xs i h.1

pub over-IsBytes : (xs : List ℕ) (old : ℕ → ℕ) → IsByteList xs → IsBytes old → IsBytes (over xs old)
over-IsBytes xs old h k i = ground (arith, get_or-lt xs i h, k i)

-- A fragment that holds the list written into it, if the list fills it.
pub bytes-over_all :
    (n : ℕ) (xs : List ℕ) (old : ℕ → ℕ) → length xs ≡ n → bytes n 0 (over xs old) ≡ xs
bytes-over_all n xs old e = rw (← e) (bytes-over xs old)

eth_header-be16 :
    (d h : List ℕ) (type : ℕ) → IsMac d → IsMac h → eth_header d h type ≡ d ++ (h ++ be16 type)
unfolding eth_header
eth_header-be16 d h type dm hm = rw (take_all 6 d dm.six, take_all 6 h hm.six, le16-short_swap type)

be16-IsByteList : (type : ℕ) → IsByteList (be16 type)
be16-IsByteList type = omega arith

module _ (old : ℕ → ℕ) (d h : List ℕ) (type : ℕ) (dm : IsMac d) (hm : IsMac h) where
  length-eth_header : length (d ++ (h ++ be16 type)) ≡ 14
  length-eth_header =
      omega (arith, length-append d (h ++ be16 type), length-append h (be16 type), dm.six, hm.six)

  eth_frag-IsFrag : IsBytes old → IsFrag (eth_frag old d h type)
  unfolding eth_frag
  eth_frag-IsFrag k = record {
    pos = omega arith;
    is_bytes = rw (eth_header-be16 d h type dm hm) (
        over-IsBytes _ old
          (All-append _ d _ dm.is_bytes (All-append _ h _ hm.is_bytes (be16-IsByteList type))) k);
  }

  eth_frag-even : (eth_frag old d h type).len % 2 ≡ 0
  unfolding eth_frag
  eth_frag-even = refl

  content-eth_frag :
      (msg : Msg) → content (eth_frag old d h type ∷ msg) ≡ d ++ (h ++ (be16 type ++ content msg))
  unfolding eth_frag content
  content-eth_frag msg =
      rw (eth_header-be16 d h type dm hm, bytes-over_all 14 _ old length-eth_header)
        (append_assoc d (h ++ be16 type) (content msg)
          ∙ ap (◌++◌ d) (append_assoc h (be16 type) (content msg)))

-- `ethSend` on a card that is not sending puts one frame on the cable: the two addresses, the
-- type in network order and what the message holds. The card answers every transfer and its
-- register page 0 is selected; the addresses have six bytes, the message fits the transmit pages
-- behind the 14 bytes of the header, none of its fragments is empty, all but the last are of even
-- length, and memory holds bytes.
pub eth_send-Delivered :
    {T : Type 0} (s : Net T) (c : Card) (old : ℕ → ℕ) (msg : Msg) (d h : List ℕ) (type v : ℕ)
    {rest rs : List ℕ}
    → u8 v ≢ 0x26
    → Polled rest (suc (length msg)) rs
    → AllFrags msg
    → IsMac d
    → IsMac h
    → IsBytes old
    → c.bank ≡ 0
    → 14 + length (content msg) ≤ 0x600
    → Delivered s c
        (d ++ (h ++ (be16 type ++ content msg)))
        rest
        (eth_send old msg d h type s (v ∷ rs))
unfolding eth_send
eth_send-Delivered s c old msg d h type v idle polled ok dm hm k bank fits =
    let held = content-eth_frag old d h type dm hm msg in
    let size : length (content (eth_frag old d h type ∷ msg)) ≤ 0x600 = rw held (
      omega (
        arith,
        length-append d (h ++ (be16 type ++ content msg)),
        length-append h (be16 type ++ content msg),
        dm.six,
        hm.six,
      )) in
    rw held at (
      ne_send-Delivered s c (eth_frag old d h type) msg v idle polled
        (
          eth_frag-IsFrag old d h type dm hm k,
          Joins-even (eth_frag old d h type) msg (eth_frag-even old d h type dm hm),
          ok,
        )
        bank size)
