-- ===== src/Ne2k/Dma/Wait.antt =====
-- The poll for the end of a remote transfer comes back at the first reply with the bit set.
use gml_vm.Base.{ℕ, zero, suc, ◌≡◌, refl, true, false, List, [], ◌∷◌, u8}
use gml_vm.Port.{Event, in8, Run, done}
use gml_vm.Port.Trace.{IsRead}
use gml_vm.Ne2k.Register.{interrupt_status}
use gml_vm.Ne2k.Dma.{is_ready, wait_rdc}
use gml_vm.Ne2k.Card.{Card, step, steps, word_reply, word_replies}

-- `rs` answers the polls of `n` transfers, and `rest` are the replies behind them.
pub data Polled (rest : List ℕ) : ℕ → List ℕ → Type 0 where
  finished : Polled rest zero rest
  busy :
      {n : ℕ} {rs : List ℕ} (v : ℕ)
      → is_ready (u8 v) ≡ false
      → Polled rest (suc n) rs
      → Polled rest (suc n) (v ∷ rs)
  ready :
      {n : ℕ} {rs : List ℕ} (v : ℕ)
      → is_ready (u8 v) ≡ true
      → Polled rest n rs
      → Polled rest (suc n) (v ∷ rs)

pub all_polled : {rest rs : List ℕ} → Polled rest zero rs → rs ≡ rest
all_polled finished = refl

-- A run of polls and nothing else, with the replies left for the later transfers.
pub record Waited {S : Type 0} (s : S) (n : ℕ) (rest : List ℕ) (r : Run S (Unit {0})) : Type 0 where
  pub events : List Event
  pub left : List ℕ
  pub returns : r ≡ done tt s events left
  pub idle : (c : Card) → steps c events ≡ c
  pub silent : (c : Card) → word_replies c events ≡ []
  pub quiet : IsRead events
  pub polled : Polled rest n left

pub wait_rdc-Waited :
    {S : Type 0} (s : S) {rest : List ℕ} {n : ℕ} {rs : List ℕ}
    → Polled rest (suc n) rs
    → Waited s n rest (wait_rdc s rs)
unfolding wait_rdc step word_reply
wait_rdc-Waited s (busy v no_bit p) =
    let w = wait_rdc-Waited s p in
    record {
      events = in8 interrupt_status ∷ w.events;
      left = w.left;
      returns = rw (no_bit, w.returns);
      idle = λ c. w.idle c;
      silent = λ c. w.silent c;
      quiet = λ q. w.quiet q;
      polled = w.polled;
    }
wait_rdc-Waited s (ready {rs} v bit p) = record {
  events = in8 interrupt_status ∷ [];
  left = rs;
  returns = rw bit;
  idle = λ c. refl;
  silent = λ c. refl;
  quiet = λ q. refl;
  polled = p;
}
