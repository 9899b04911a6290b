-- ===== src/Ne2k/Recv/Take.antt =====
-- How `neRecv` leaves a card, and its last part: a packet is fetched, and the boundary set behind it.
use gml_vm.Base.{
  ℕ, ◌+◌, ◌-◌, ◌*◌, ◌/◌, ◌≤◌, ◌<◌, ◌≡◌, ◌^◌, refl, ap, ap₂, ◌∙◌, subst, append-nil, List, [], ◌∷◌,
  ◌++◌, arith, some, length, bit_or, shl, u8,
}
use gml_vm.Port.{Event, Run, done, out8}
use gml_vm.Port.Trace.{sent_to, sent_to-append}
use gml_vm.Net.Message.{Msg, over}
use gml_vm.Base.Bits.{bit_or-field}
use gml_vm.Ne2k.Card.{
  Card, step, steps, steps-append, word_reply, word_replies, word_replies-append,
}
use gml_vm.Ne2k.Register.{boundary}
use gml_vm.Ne2k.Dma.Wait.{Polled, all_polled}
use gml_vm.Ne2k.Dma.Fetch.{flat, words_at, Gives, nic_to_pc-Fetched}
use gml_vm.Ne2k.Recv.{recv_page, recv_page_end, next_page, take_packet}

-- In the run the card gives the words `ws`, and the boundary of its ring is `bnd` then and the page that
-- it receives next `cur`.
pub record Leaves (c : Card) (es : List Event) (ws : List ℕ) (bnd cur : ℕ) : Type 0 where
  pub words : word_replies c es ≡ ws
  pub boundary : (steps c es).boundary ≡ bnd
  pub current : (steps c es).current ≡ cur

pub Leaves-append :
    (c : Card) (es fs : List Event) (vs ws : List ℕ) {bnd cur : ℕ}
    → Gives c es vs
    → Leaves (steps c es) fs ws bnd cur
    → Leaves c (es ++ fs) (vs ++ ws) bnd cur
Leaves-append c es fs vs ws x y =
    let end = steps-append c es fs in
    record {
      words = word_replies-append c es fs ∙ ap₂ (λ (p q : List ℕ). p ++ q) x.words y.words;
      boundary = ap (λ (d : Card). d.boundary) end ∙ y.boundary;
      current = ap (λ (d : Card). d.current) end ∙ y.current;
    }

-- The run comes back with `msg`, the boundary register has been set to `bs` in turn, and of a card in
-- register page 0 it gets words and leaves the ring as `ws`, `bnd` and `cur` tell.
pub record Ran {S : Type 0} (s : S) (msg : Msg) (bs : List ℕ) (ws : (ℕ → ℕ) → List ℕ)
    (bnd cur : ℕ → ℕ) (rest : List ℕ) (r : Run S Msg) : Type 0 where
  pub events : List Event
  pub returns : r ≡ done msg s events rest
  pub ring : sent_to boundary events ≡ bs
  pub leaves : (c : Card) → c.bank ≡ 0 → Leaves c events (ws c.ram) (bnd c.boundary) (cur c.current)

-- The boundary that `neRecv` leaves behind a packet leads back to the page that the packet's
-- header names, and that of an emptied ring to its first page.
pub next_page-pred :
    (next : ℕ) → recv_page ≤ next → next ≤ recv_page_end → next_page (next - 1) ≡ next
unfolding next_page
next_page-pred next lo hi = ground arith

packet_address : (p : ℕ) → p < 256 → bit_or (shl p 8) 4 ≡ 256 * p + 4
packet_address p fits =
    let at : shl p 8 ≡ p * 2 ^ 8 = omega arith in
    rw at (bit_or-field 8 p 4 (omega arith) ∙ omega arith)

pub next_page_fits : (b : ℕ) → next_page b < 0x80
unfolding next_page
next_page_fits b = ground arith

pub take_packet-Ran :
    {S : Type 0} (s : S) (old : ℕ → ℕ) (bound next len : ℕ) (ws : List ℕ) {rest rs : List ℕ}
    → bound < 256
    → 0 < len
    → len < 2 ^ 15
    → length ws ≡ (len + 1) / 2
    → Polled rest 1 rs
    → Ran s
        (record { len = len; at = over (flat ws) old } ∷ [])
        (u8 (next - 1) ∷ [])
        (words_at (length ws) (256 * bound + 4))
        (λ x. u8 (next - 1))
        (λ x. x)
        rest
        (take_packet (some old) bound next len s (ws ++ rs))
unfolding take_packet step word_reply
take_packet-Ran s old bound next len ws page pos short size polled =
    let at = packet_address bound page in
    let dma = bit_or (shl bound 8) 4 in
    let got =
      nic_to_pc-Fetched s dma len ws pos (omega arith) (omega (arith, at)) (omega (arith, at)) size
        polled in
    let end = all_polled got.polled in
    let last = out8 boundary (u8 (next - 1)) ∷ [] in
    record {
      events = got.events ++ last;
      returns = rw (got.returns, end) refl;
      ring = rw (sent_to-append boundary got.events last, got.ring) refl;
      leaves = λ c bank.
          let g =
            subst (λ a. Gives c got.events (words_at (length ws) a c.ram)) at (got.gives c bank) in
          subst (λ xs. Leaves c (got.events ++ last) xs (u8 (next - 1)) c.current)
            (append-nil (words_at (length ws) (256 * bound + 4) c.ram))
            (Leaves-append c got.events last (words_at (length ws) (256 * bound + 4) c.ram) [] g
              (record { words = refl; boundary = rw g.bank refl; current = rw g.bank g.current }));
    }
