-- ===== src/Ne2k/Recv/Ring.antt =====
-- `neRecv` on the ring of a card: the packet in the card's memory, the registers that place the ring,
-- and the two ways in which it takes something out.
use gml_vm.Base.{ℕ, ◌+◌, ◌*◌, ◌/◌, ◌≡◌, ◌≢◌, refl, List, [], ◌∷◌, Option, true, u8}
use gml_vm.Port.{Event, Run, done}
use gml_vm.Port.Trace.{sent_to}
use gml_vm.Net.Message.{Msg}
use gml_vm.Ne2k.Card.{Card, word_at}
use gml_vm.Ne2k.Dma.Wait.{Polled}
use gml_vm.Ne2k.Dma.Fetch.{words_at}
use gml_vm.Ne2k.Register.{boundary}
use gml_vm.Ne2k.Recv.{rejects, recv_page, recv_page_end, next_page, ne_recv}
use gml_vm.Ne2k.Recv.Take.{Leaves}
use gml_vm.Ne2k.Recv.Packet.{head_next, data_len, ne_recv_refused}

-- The run on the card `c` comes back with `msg`; the words that it is given by the card are `ws`; it
-- sets the boundary register to `bs` in turn, and leaves the ring with the boundary `bnd` and the page
-- `cur` to be received next.
pub record Received {S : Type 0} (s : S) (c : Card) (msg : Msg) (bs ws : List ℕ) (bnd cur : ℕ)
    (rest : List ℕ) (r : Run S Msg) : Type 0 where
  pub events : List Event
  pub returns : r ≡ done msg s events rest
  pub ring : sent_to boundary events ≡ bs
  pub leaves : Leaves c events ws bnd cur

module _ {S : Type 0} (s : S) (old : Option (ℕ → ℕ)) (c : Card) where
  -- The page behind the boundary, and its first two words: the header.
  abbrev first : ℕ
  first = next_page (u8 c.boundary)

  abbrev state_word : ℕ
  state_word = word_at c.ram (256 * first)

  abbrev len_word : ℕ
  len_word = word_at c.ram (256 * first + 2)

  abbrev half : ℕ
  half = (data_len len_word + 1) / 2

  -- A header with a page outside of the ring or a length that cannot be empties the ring, when the
  -- card starts in register page 0 and has a packet, the replies are the boundary, the current page and
  -- the header's words in the card's memory, and the polls find the transfer done: `neRecv` comes
  -- back with no message, having read those words, and the card is left with the first page of the ring
  -- to receive into, which is also the page behind the boundary.
  pub ne_recv_reset :
      {mid rs : List ℕ}
      → c.bank ≡ 0
      → first ≢ u8 c.current
      → rejects (head_next state_word) (data_len len_word) ≡ true
      → Polled mid 1 rs
      → Received s c []
          (recv_page_end ∷ [])
          (words_at 2 (256 * first) c.ram)
          recv_page_end
          recv_page
          mid
          (ne_recv old s (c.boundary ∷ c.current ∷ state_word ∷ len_word ∷ rs))
        × (next_page recv_page_end ≡ recv_page)
  unfolding next_page
  ne_recv_reset bank more bad header =
      let r = ne_recv_refused s old c.boundary c.current state_word len_word more bad header in
      (
        record { events = r.events; returns = r.returns; ring = r.ring; leaves = r.leaves c bank },
        refl,
      )
