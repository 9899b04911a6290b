-- ===== src/Ne2k/Recv/Packet.antt =====
-- `neRecv`, packet by packet: the two pages, the header, and what follows from it.
use gml_vm.Base.{
  ℕ, ◌+◌, ◌-◌, ◌*◌, ◌/◌, ◌%◌, ◌<◌, ◌≡◌, ◌≢◌, ◌^◌, refl, ap, ap₂, ◌∙◌, subst, List, [], ◌∷◌, ◌++◌,
  arith, Option, some, true, false, length, shl, sub16, u8, u16, ne→==,
}
use gml_vm.Port.{Event, done, in8, out8}
use gml_vm.Port.Trace.{sent_to-append}
use gml_vm.Net.Message.{Msg, over}
use gml_vm.Ne2k.Card.{Card, step, steps, word_reply}
use gml_vm.Ne2k.Register.{boundary, command, current}
use gml_vm.Ne2k.Dma.Wait.{Polled, all_polled}
use gml_vm.Ne2k.Dma.Fetch.{flat, words_at, Gives, nic_to_pc-Fetched}
use gml_vm.Ne2k.Recv.{
  RecvHead, judge, recv_page, recv_page_end, next_page, rejects, reset_ring, recv_packet, ne_recv,
}
use gml_vm.Ne2k.Recv.Take.{Leaves, Leaves-append, Ran, next_page_fits, take_packet-Ran}

-- The replies up to the first word of a packet: the boundary, the current page, and the two words
-- of the header, whose polls `rs` begins with.
abbrev pub head_next : ℕ → ℕ
head_next w = u16 w / 256

abbrev pub data_len : ℕ → ℕ
data_len w = sub16 (u16 w) 4

abbrev pub head_of : (v w : ℕ) → RecvHead
head_of v w = record { state = u16 v % 256; next = head_next v; len = u16 w }

module _ {S : Type 0} (s : S) (old : Option (ℕ → ℕ)) (b cur v w : ℕ) where
  abbrev page : ℕ
  page = next_page (u8 b)

  -- The two pages are read.
  abbrev look : List Event
  look = in8 boundary ∷ out8 command 0x62 ∷ in8 current ∷ out8 command 0x22 ∷ []

  look-Gives : (c : Card) → c.bank ≡ 0 → Gives c look []
  unfolding step word_reply
  look-Gives c bank = record {
    words = refl;
    bank = refl;
    ram = refl;
    boundary = refl;
    current = refl;
  }

  look-Leaves :
      (c : Card)
      → c.bank ≡ 0
      → (gs fs : List Event) (a : ℕ) (ws : (ℕ → ℕ) → List ℕ) (bnd next : ℕ → ℕ)
      → ((d : Card) → d.bank ≡ 0 → Gives d gs (words_at 2 a d.ram))
      → ((d : Card) → d.bank ≡ 0 → Leaves d fs (ws d.ram) (bnd d.boundary) (next d.current))
      → Leaves c
          (look ++ (gs ++ fs))
          (words_at 2 a c.ram ++ ws c.ram)
          (bnd c.boundary)
          (next c.current)
  look-Leaves c bank gs fs a ws bnd next head tail =
      let start = look-Gives c bank in
      let d = steps c look in
      let got = head d start.bank in
      let e = steps d gs in
      let behind = tail e got.bank in
      let whole = Leaves-append d gs fs (words_at 2 a d.ram) (ws e.ram) got behind in
      let all = Leaves-append c look (gs ++ fs) [] (words_at 2 a d.ram ++ ws e.ram) start whole in
      record {
        words =
            all.words
            ∙ ap₂ (λ (m n : ℕ → ℕ). words_at 2 a m ++ ws n) start.ram (got.ram ∙ start.ram);
        boundary = all.boundary ∙ ap bnd (got.boundary ∙ start.boundary);
        current = all.current ∙ ap next (got.current ∙ start.current);
      }

  -- Behind the header the run goes on with `judge`.
  ne_recv-judge :
      (mid : List ℕ) {msg : Msg} {bs rest rs : List ℕ} {ws : (ℕ → ℕ) → List ℕ} {bnd next : ℕ → ℕ}
      → page ≢ u8 cur
      → Polled mid 1 rs
      → Ran s msg bs ws bnd next rest (judge old page (head_of v w) s mid)
      → Ran s msg bs
          (λ m. words_at 2 (256 * page) m ++ ws m)
          bnd
          next
          rest
          (ne_recv old s (b ∷ cur ∷ v ∷ w ∷ rs))
  unfolding ne_recv
  ne_recv-judge mid {ws} {bnd} {next} more polled r =
      let fits = next_page_fits (u8 b) in
      let at : shl page 8 ≡ 256 * page = omega arith in
      let got =
        nic_to_pc-Fetched s (shl page 8) 4 (v ∷ w ∷ []) (omega arith) (omega arith)
          (omega (arith, at)) (omega (arith, at)) refl polled in
      let differs = ne→== page (u8 cur) more in
      let end = all_polled got.polled in
      let whole : u16 w % 256 + 256 * (u16 w / 256) ≡ u16 w = omega arith in
      record {
        events = look ++ (got.events ++ r.events);
        returns = rw (differs, recv_packet, got.returns, whole, end, r.returns) refl;
        ring = rw (sent_to-append boundary got.events r.events, got.ring) r.ring;
        leaves = λ c bank.
            look-Leaves c bank got.events r.events (256 * page) ws bnd next
              (λ d fetch.
                subst (λ a. Gives d got.events (words_at 2 a d.ram)) at (got.gives d fetch))
              r.leaves;
      }

  -- A sound packet: the message is handed on, and the boundary is set to the page before the next.
  pub ne_recv-Ran :
      (m : ℕ → ℕ) (ws : List ℕ) {mid rest rs : List ℕ}
      → old ≡ some m
      → page ≢ u8 cur
      → rejects (head_next v) (data_len w) ≡ false
      → 0 < data_len w
      → length ws ≡ (data_len w + 1) / 2
      → Polled (ws ++ mid) 1 rs
      → Polled rest 1 mid
      → Ran s
          (record { len = data_len w; at = over (flat ws) m } ∷ [])
          ((head_next v - 1) ∷ [])
          (λ ram. words_at 2 (256 * page) ram ++ words_at (length ws) (256 * page + 4) ram)
          (λ x. head_next v - 1)
          (λ x. x)
          rest
          (ne_recv old s (b ∷ cur ∷ v ∷ w ∷ rs))
  unfolding judge rejects
  ne_recv-Ran m ws {mid} given more sound pos size header packet =
      let small : u8 (head_next v - 1) ≡ head_next v - 1 = omega arith in
      let fits = next_page_fits (u8 b) in
      let short : data_len w < 2 ^ 15 = ground arith in
      ne_recv-judge (ws ++ mid) more header (
        rw (sound, given)
          (rw small at (
            take_packet-Ran s m page (head_next v) (data_len w) ws (omega (arith, fits)) pos short
              size packet)))

  -- A packet whose header is refused: there is no message, and the ring is emptied.
  pub ne_recv_refused :
      {mid rs : List ℕ}
      → page ≢ u8 cur
      → rejects (head_next v) (data_len w) ≡ true
      → Polled mid 1 rs
      → Ran s []
          (recv_page_end ∷ [])
          (λ ram. words_at 2 (256 * page) ram ++ [])
          (λ x. recv_page_end)
          (λ x. recv_page)
          mid
          (ne_recv old s (b ∷ cur ∷ v ∷ w ∷ rs))
  unfolding judge reset_ring step word_reply
  ne_recv_refused {mid} more bad header = ne_recv-judge mid more header (
      rw bad (record {
        events =
            out8 command 0x61
            ∷ out8 current recv_page
            ∷ out8 command 0x22
            ∷ out8 boundary recv_page_end
            ∷ [];
        returns = refl;
        ring = refl;
        leaves = λ c bank. record { words = refl; boundary = refl; current = refl };
      }))

-- With nothing behind the boundary `neRecv` reads the two pages, transfers nothing and leaves the
-- ring alone.
pub ne_recv_empty :
    {S : Type 0} (s : S) (old : Option (ℕ → ℕ)) (b cur : ℕ) {rs : List ℕ}
    → next_page (u8 b) ≡ u8 cur
    → ne_recv old s (b ∷ cur ∷ rs)
      ≡ done [] s (in8 boundary ∷ out8 command 0x62 ∷ in8 current ∷ out8 command 0x22 ∷ []) rs
unfolding ne_recv
ne_recv_empty s old b cur same = rw same (ground arith)
