-- ===== src/Ne2k/Dma/Copy.antt =====
-- What `PCtoNIC` leaves in the card.
use gml_vm.Base.{
  ℕ, zero, suc, ◌+◌, ◌-◌, ◌*◌, ◌/◌, ◌%◌, ◌^◌, ◌<◌, ◌≡◌, refl, ◌∙◌, sym, subst, List, [], ◌∷◌, ◌++◌,
  arith, bit_and, ◌==◌, true, u8, u16, shr,
}
use gml_vm.Port.{Event, out8, out16, Run, done}
use gml_vm.Base.Bits.{bit_and-low_bits, bit_and-middle}
use gml_vm.Ne2k.Register.{
  ioport, command, interrupt_status, remote_byte_count0, remote_byte_count1, remote_start_address0,
  remote_start_address1,
}
use gml_vm.Ne2k.Dma.{rounds, write_words, pc_to_nic}
use gml_vm.Ne2k.Dma.Wait.{Polled, wait_rdc-Waited}
use gml_vm.Ne2k.Card.{Card, step, steps, steps-append, step-write, stored}

abbrev pub IsBytes : (ℕ → ℕ) → Type 0
IsBytes m = (i : ℕ) → m i < 256

-- From `c` to `d` the first `n` bytes of `src` have come to address `a`, nothing has changed
-- below it, and no frame has been sent.
pub record Stored (c d : Card) (a n : ℕ) (src : ℕ → ℕ) : Type 0 where
  pub inside : (i : ℕ) → i < n → d.ram (a + i) ≡ src i
  pub below : (j : ℕ) → j < a → d.ram j ≡ c.ram j
  pub bank : d.bank ≡ c.bank
  pub sent : d.sent ≡ c.sent

word_events : ℕ → ℕ → (ℕ → ℕ) → List Event
word_events zero i src = []
word_events (suc n) i src =
    out16 ioport (u16 (src i + 256 * src (i + 1))) ∷ word_events n (i + 2) src

write_words-word_events :
    {S : Type 0} (s : S) (n i : ℕ) (src : ℕ → ℕ) (rs : List ℕ)
    → write_words n i src s rs ≡ done tt s (word_events n i src) rs
unfolding write_words word_events
write_words-word_events s zero i src rs = refl
write_words-word_events s (suc n) i src rs = rw (write_words-word_events s n (i + 2) src rs)

abbrev from : ℕ → (ℕ → ℕ) → ℕ → ℕ
from i src j = src (i + j)

-- The card takes words: there are `n` bytes to transfer, to an even address.
record Takes (c : Card) (n : ℕ) : Type 0 where
  mode : c.mode ≡ 2
  left : c.left ≡ n
  even : c.remote % 2 ≡ 0

word_events-Stored :
    (n i : ℕ) (src : ℕ → ℕ) (c : Card)
    → IsBytes src
    → Takes c (2 * n)
    → Stored c (steps c (word_events n i src)) c.remote (2 * n) (from i src)
unfolding word_events
word_events-Stored zero i src c h t = record {
  inside = λ k p. absurd (omega arith);
  below = λ j p. refl;
  bank = refl;
  sent = refl;
}
word_events-Stored (suc n) i src c h t =
    let w = u16 (src i + 256 * src (i + 1)) in
    let one = step-write c w t.mode (omega (arith, t.left)) t.even in
    let rest =
      word_events-Stored n (i + 2) src (stored c w) h
        (record { mode = t.mode; left = omega (arith, t.left); even = omega (arith, t.even) }) in
    subst (λ d. Stored c (steps d (word_events n (i + 2) src)) c.remote (2 * suc n) (from i src))
      (sym one)
      (record {
        inside =
            λ k p. ground (arith, rest.inside (k - 2), rest.below (c.remote + k), h i, h (i + 1));
        below = λ j p. ground (arith, rest.below j);
        bank = rest.bank;
        sent = rest.sent;
      })

-- The registers that are set before the words go out.
unfoldable pub set_up : (cmd dma count : ℕ) → List Event
set_up cmd dma count =
    out8 remote_byte_count0 (u8 (bit_and (bit_and (count + 1) 0xffff_fffe) 0xff))
    ∷ out8 remote_byte_count1 (u8 (bit_and (shr (bit_and (count + 1) 0xffff_fffe) 8) 0xff))
    ∷ out8 remote_start_address0 (u8 (bit_and (u16 dma) 0xff))
    ∷ out8 remote_start_address1 (u8 (bit_and (shr (u16 dma) 8) 0xff))
    ∷ out8 command cmd
    ∷ []

pub even_lem : (a : ℕ) → a < 2 ^ 32 → bit_and a 0xffff_fffe ≡ a / 2 * 2
even_lem a small = omega (arith, bit_and-middle 1 31 a)

pub record Addressed (c d : Card) (cmd dma count : ℕ) : Type 0 where
  pub remote : d.remote ≡ dma
  pub mode : d.mode ≡ cmd / 8 % 8
  pub left : d.left ≡ (count + 1) / 2 * 2
  pub bank : d.bank ≡ 0
  pub ram : d.ram ≡ c.ram
  pub sent : d.sent ≡ c.sent
  pub boundary : d.boundary ≡ c.boundary
  pub current : d.current ≡ c.current

pub set_up-Addressed :
    (c : Card) (cmd dma count : ℕ)
    → cmd / 64 ≡ 0
    → (bit_and cmd 4 == 0) ≡ true
    → c.bank ≡ 0
    → dma < 2 ^ 16
    → count + 1 < 2 ^ 16
    → Addressed c (steps c (set_up cmd dma count)) cmd dma count
unfolding set_up step
set_up-Addressed c cmd dma count low quiet bank fits few = record {
  remote = ground (arith, bit_and-low_bits 8 (u16 dma), bit_and-low_bits 8 (shr (u16 dma) 8));
  mode = ground arith;
  left =
      let whole = even_lem (count + 1) (omega arith) in
      ground (
        arith,
        whole,
        bit_and-low_bits 8 (bit_and (count + 1) 0xffff_fffe),
        bit_and-low_bits 8 (shr (bit_and (count + 1) 0xffff_fffe) 8),
      );
  bank = ground arith;
  ram = ground arith;
  sent = ground arith;
  boundary = ground arith;
  current = ground arith;
}

pub step-acknowledge : (c : Card) (v : ℕ) → c.bank ≡ 0 → step c (out8 interrupt_status v) ≡ c
unfolding step
step-acknowledge c v bank = rw bank refl

-- The instructions of one transfer, the polls in their middle left open.
transfer : (src : ℕ → ℕ) (dma count : ℕ) → List Event → List Event
transfer src dma count polls =
    set_up 0x12 dma count
    ++ (word_events (rounds (shr (count + 1) 1)) 0 src
        ++ (polls ++ out8 interrupt_status 0x40 ∷ []))

-- The card after the set-up and the words; the rest of the transfer leaves it alone.
steps-transfer :
    (c : Card) (src : ℕ → ℕ) (dma count : ℕ) (polls : List Event)
    → ((d : Card) → steps d polls ≡ d)
    → (steps
        (steps c (set_up 0x12 dma count))
        (word_events (rounds (shr (count + 1) 1)) 0 src)).bank
      ≡ 0
    → steps c (transfer src dma count polls)
      ≡ steps (steps c (set_up 0x12 dma count)) (word_events (rounds (shr (count + 1) 1)) 0 src)
unfolding transfer
steps-transfer c src dma count polls idle bank =
    let c' = steps c (set_up 0x12 dma count) in
    let words = word_events (rounds (shr (count + 1) 1)) 0 src in
    let last = out8 interrupt_status 0x40 ∷ [] in
    steps-append c (set_up 0x12 dma count) (words ++ (polls ++ last))
    ∙ steps-append c' words (polls ++ last)
    ∙ steps-append (steps c' words) polls last
    ∙ rw (idle (steps c' words)) (step-acknowledge (steps c' words) 0x40 bank)

-- A run comes back with the bytes in the card and the replies for `k` later transfers.
pub record Copied {S : Type 0} (s : S) (c : Card) (src : ℕ → ℕ) (dma n k : ℕ) (rest : List ℕ)
    (r : Run S (Unit {0})) : Type 0 where
  pub events : List Event
  pub left : List ℕ
  pub returns : r ≡ done tt s events left
  pub stored : Stored c (steps c events) dma n src
  pub polled : Polled rest k left

transfer-Stored :
    (c : Card) (src : ℕ → ℕ) (dma n : ℕ)
    → IsBytes src
    → 0 < n
    → n + 1 < 2 ^ 16
    → dma < 2 ^ 16
    → dma % 2 ≡ 0
    → c.bank ≡ 0
    → Stored c
        (steps (steps c (set_up 0x12 dma n)) (word_events (rounds (shr (n + 1) 1)) 0 src))
        dma
        n
        src
unfolding rounds
transfer-Stored c src dma n is_bytes pos few fits even bank =
    let ready = set_up-Addressed c 0x12 dma n refl refl bank fits few in
    let put =
      word_events-Stored (rounds (shr (n + 1) 1)) 0 src (steps c (set_up 0x12 dma n)) is_bytes
        (record {
          mode = ready.mode;
          left = ground (arith, ready.left);
          even = omega (arith, ready.remote, even);
        }) in
    record {
      inside = λ i p. ground (arith, put.inside i, ready.remote);
      below = λ j p. ground (arith, put.below j, ready.remote, ready.ram);
      bank = ground (arith, put.bank, ready.bank);
      sent = put.sent ∙ ready.sent;
    }

-- `PCtoNIC` comes back once the card has answered, and the card then holds the `n` bytes of `src`
-- from address `dma` on, with nothing below changed and no frame sent. The address is even and below
-- 2 ^ 16, there is a byte to copy and at most 2 ^ 16 - 2, register page 0 is selected, and `src` holds
-- bytes.
pub pc_to_nic-Copied :
    {S : Type 0} (s : S) (c : Card) (src : ℕ → ℕ) (dma n : ℕ) {rest : List ℕ} {k : ℕ} {rs : List ℕ}
    → Polled rest (suc k) rs
    → IsBytes src
    → 0 < n
    → n + 1 < 2 ^ 16
    → dma < 2 ^ 16
    → dma % 2 ≡ 0
    → c.bank ≡ 0
    → Copied s c src dma n k rest (pc_to_nic src dma n s rs)
unfolding pc_to_nic set_up transfer
pc_to_nic-Copied s c src dma n {rs} polled is_bytes pos few fits even bank =
    let w = wait_rdc-Waited s polled in
    let put = transfer-Stored c src dma n is_bytes pos few fits even bank in
    record {
      events = transfer src dma n w.events;
      left = w.left;
      returns = rw (write_words-word_events s (rounds (shr (n + 1) 1)) 0 src rs, w.returns);
      stored = rw (steps-transfer c src dma n w.events w.idle (put.bank ∙ bank)) put;
      polled = w.polled;
    }
