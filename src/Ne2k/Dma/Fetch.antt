-- ===== src/Ne2k/Dma/Fetch.antt =====
-- What `NICtoPC` reads: the words of the data port, and when it comes back.
use gml_vm.Base.{
  ℕ, zero, suc, ◌+◌, ◌*◌, ◌/◌, ◌%◌, ◌^◌, ◌<◌, ◌≡◌, refl, ap, ap₂, ◌∙◌, sym, subst, List, [], ◌∷◌,
  ◌++◌, arith, length, shr, u16, append-nil,
}
use gml_vm.Port.{Event, out8, in16, Run, done}
use gml_vm.Port.Trace.{sent_to, sent_to-append, IsRead}
use gml_vm.Ne2k.Register.{ioport, interrupt_status}
use gml_vm.Ne2k.Dma.{rounds, read_words, nic_to_pc}
use gml_vm.Ne2k.Card.{
  Card, steps, steps-append, word_reply, word_replies, word_replies-append, word_at, moved,
  step-read,
}
use gml_vm.Ne2k.Dma.Copy.{set_up, set_up-Addressed, step-acknowledge}
use gml_vm.Ne2k.Dma.Wait.{Polled, wait_rdc-Waited}

-- The bytes of a list of words, low byte first.
abbrev pub flat : List ℕ → List ℕ
flat [] = []
flat (w ∷ ws) = u16 w % 256 ∷ u16 w / 256 ∷ flat ws

pub length-flat : (ws : List ℕ) → length (flat ws) ≡ 2 * length ws
length-flat [] = refl
length-flat (w ∷ ws) = omega (arith, length-flat ws)

-- The `n` words from address `a` on.
abbrev pub words_at : ℕ → ℕ → (ℕ → ℕ) → List ℕ
words_at zero a m = []
words_at (suc n) a m = word_at m a ∷ words_at n (a + 2) m

pub length-words_at : (n a : ℕ) (m : ℕ → ℕ) → length (words_at n a m) ≡ n
length-words_at zero a m = refl
length-words_at (suc n) a m = omega (arith, length-words_at n (a + 2) m)

read_events : ℕ → List Event
read_events zero = []
read_events (suc n) = in16 ioport ∷ read_events n

read_words-read_events :
    {S : Type 0} (s : S) (n : ℕ) (ws rest : List ℕ)
    → length ws ≡ n
    → read_words n s (ws ++ rest) ≡ done (flat ws) s (read_events n) rest
unfolding read_words read_events
read_words-read_events s zero [] rest e = refl
read_words-read_events s zero (w ∷ ws) rest e = absurd (omega arith)
read_words-read_events s (suc n) [] rest e = absurd (omega arith)
read_words-read_events s (suc n) (w ∷ ws) rest e =
    rw (read_words-read_events s n ws rest (omega arith), append-nil) refl

read_events-IsRead : (n : ℕ) → IsRead (read_events n)
unfolding read_events
read_events-IsRead zero p = refl
read_events-IsRead (suc n) p = read_events-IsRead n p

-- In the run the card `c` gives the words `ws`; it stays in register page 0 with its memory, the place of
-- its ring and what it has sent.
pub record Gives (c : Card) (es : List Event) (ws : List ℕ) : Type 0 where
  pub words : word_replies c es ≡ ws
  pub bank : (steps c es).bank ≡ 0
  pub ram : (steps c es).ram ≡ c.ram
  pub boundary : (steps c es).boundary ≡ c.boundary
  pub current : (steps c es).current ≡ c.current

pub Gives-append :
    (c : Card) (es fs : List Event) (vs ws : List ℕ)
    → Gives c es vs
    → Gives (steps c es) fs ws
    → Gives c (es ++ fs) (vs ++ ws)
Gives-append c es fs vs ws x y =
    let end = steps-append c es fs in
    record {
      words = word_replies-append c es fs ∙ ap₂ (λ (p q : List ℕ). p ++ q) x.words y.words;
      bank = ap (λ (d : Card). d.bank) end ∙ y.bank;
      ram = ap (λ (d : Card). d.ram) end ∙ y.ram ∙ x.ram;
      boundary = ap (λ (d : Card). d.boundary) end ∙ y.boundary ∙ x.boundary;
      current = ap (λ (d : Card). d.current) end ∙ y.current ∙ x.current;
    }

-- A run that does nothing to the card.
pub Gives-idle :
    (c : Card) (es : List Event)
    → c.bank ≡ 0
    → steps c es ≡ c
    → word_replies c es ≡ []
    → Gives c es []
Gives-idle c es bank same silent = record {
  words = silent;
  bank = ap (λ (d : Card). d.bank) same ∙ bank;
  ram = ap (λ (d : Card). d.ram) same;
  boundary = ap (λ (d : Card). d.boundary) same;
  current = ap (λ (d : Card). d.current) same;
}

read_events-Gives :
    (n : ℕ) (c : Card)
    → c.bank ≡ 0
    → c.mode ≡ 1
    → c.left ≡ 2 * n
    → c.remote % 2 ≡ 0
    → Gives c (read_events n) (words_at n c.remote c.ram)
unfolding read_events
read_events-Gives zero c bank mode left even = record {
  words = refl;
  bank = bank;
  ram = refl;
  boundary = refl;
  current = refl;
}
read_events-Gives (suc n) c bank mode left even =
    let one = step-read c mode (omega (arith, left)) even in
    let rest =
      read_events-Gives n (moved c) bank mode (omega (arith, left)) (omega (arith, even)) in
    Gives-append c (in16 ioport ∷ []) (read_events n) (word_at c.ram c.remote ∷ [])
      (words_at n (c.remote + 2) c.ram)
      (record {
        words = ap (λ xs. xs ++ []) one.1;
        bank = ap (λ (d : Card). d.bank) one.0 ∙ bank;
        ram = ap (λ (d : Card). d.ram) one.0;
        boundary = ap (λ (d : Card). d.boundary) one.0;
        current = ap (λ (d : Card). d.current) one.0;
      })
      (subst (λ d. Gives d (read_events n) (words_at n (c.remote + 2) c.ram)) (sym one.0) rest)

-- The registers are set, and the words read.
fetch-Gives :
    (c : Card) (dma count n : ℕ)
    → c.bank ≡ 0
    → dma < 2 ^ 16
    → dma % 2 ≡ 0
    → count + 1 < 2 ^ 16
    → n ≡ (count + 1) / 2
    → Gives c (set_up 0x0a dma count ++ read_events n) (words_at n dma c.ram)
unfolding set_up word_reply
fetch-Gives c dma count n bank fits even few size =
    let ready = set_up-Addressed c 0x0a dma count refl refl bank fits few in
    let d = steps c (set_up 0x0a dma count) in
    let got =
      read_events-Gives n d ready.bank ready.mode (omega (arith, ready.left, size))
        (omega (arith, ready.remote, even)) in
    Gives-append c (set_up 0x0a dma count) (read_events n) [] (words_at n dma c.ram)
      (record {
        words = refl;
        bank = ready.bank;
        ram = ready.ram;
        boundary = ready.boundary;
        current = ready.current;
      })
      (subst (λ a. Gives d (read_events n) (words_at n a c.ram)) ready.remote
        (subst (λ m. Gives d (read_events n) (words_at n d.remote m)) ready.ram got))

-- `NICtoPC` comes back with the bytes of the words `ws`, and touches none of the registers that
-- place the ring. A card in register page 0 gives it its words from address `dma` on.
pub record Fetched {S : Type 0} (s : S) (dma : ℕ) (ws : List ℕ) (n : ℕ) (rest : List ℕ)
    (r : Run S (List ℕ)) : Type 0 where
  pub events : List Event
  pub left : List ℕ
  pub returns : r ≡ done (flat ws) s events left
  pub ring : sent_to 0x303 events ≡ []
  pub gives : (c : Card) → c.bank ≡ 0 → Gives c events (words_at (length ws) dma c.ram)
  pub polled : Polled rest n left

-- The end of a transfer.
last-Gives :
    (c : Card) (polls : List Event)
    → c.bank ≡ 0
    → ((d : Card) → steps d polls ≡ d)
    → ((d : Card) → word_replies d polls ≡ [])
    → Gives c (polls ++ out8 interrupt_status 0x40 ∷ []) []
unfolding word_reply
last-Gives c polls bank idle silent =
    let last = out8 interrupt_status 0x40 ∷ [] in
    Gives-append c polls last [] [] (Gives-idle c polls bank (idle c) (silent c)) (
      subst (λ d. Gives d last []) (sym (idle c))
        (Gives-idle c last bank (step-acknowledge c 0x40 bank) refl))

pub nic_to_pc-Fetched :
    {S : Type 0} (s : S) (dma count : ℕ) (ws : List ℕ) {rest : List ℕ} {n : ℕ} {rs : List ℕ}
    → 0 < count
    → count + 1 < 2 ^ 16
    → dma < 2 ^ 16
    → dma % 2 ≡ 0
    → length ws ≡ (count + 1) / 2
    → Polled rest (suc n) rs
    → Fetched s dma ws n rest (nic_to_pc dma count s (ws ++ rs))
unfolding nic_to_pc set_up rounds
nic_to_pc-Fetched s dma count ws {rs} pos few fits even size polled =
    let k = length ws in
    let loop : rounds (shr (count + 1) 1) ≡ k = ground (arith, size) in
    let got = read_words-read_events s k ws rs refl in
    let w = wait_rdc-Waited s polled in
    let last = out8 interrupt_status 0x40 ∷ [] in
    record {
      events = (set_up 0x0a dma count ++ read_events k) ++ (w.events ++ last);
      left = w.left;
      returns = rw (loop, got, w.returns) refl;
      ring =
          rw
            (
              sent_to-append 0x303 (read_events k) (w.events ++ last),
              sent_to-append 0x303 w.events last,
              read_events-IsRead k 0x303,
              w.quiet 0x303,
            )
            refl;
      gives = λ c bank.
          let first = fetch-Gives c dma count k bank fits even few size in
          let d = steps c (set_up 0x0a dma count ++ read_events k) in
          subst (λ xs. Gives c ((set_up 0x0a dma count ++ read_events k) ++ (w.events ++ last)) xs)
            (append-nil (words_at k dma c.ram))
            (Gives-append c (set_up 0x0a dma count ++ read_events k) (w.events ++ last)
              (words_at k dma c.ram) [] first (last-Gives d w.events first.bank w.idle w.silent));
      polled = w.polled;
    }
