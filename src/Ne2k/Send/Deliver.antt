-- ===== src/Ne2k/Send/Deliver.antt =====
-- `neSend` on a card that is not sending: the frame goes out.
use gml_vm.Base.{
  ℕ, ◌+◌, ◌*◌, ◌/◌, ◌%◌, ◌≤◌, ◌≡◌, ◌≢◌, refl, ◌∙◌, sym, List, [], ◌∷◌, ◌++◌, arith, length, u8,
  bit_and, shr, ne→==, ap, false, ◌==◌,
}
use gml_vm.Base.Bits.{bit_and-low_bits}
use gml_vm.Port.{Event, out8, in8, cli, sti, Run, done}
use gml_vm.Net.Message.{Frag, Msg, bytes, content}
use gml_vm.Net.State.{Net}
use gml_vm.Ne2k.Register.{command, transmit_page, transmit_byte_count0, transmit_byte_count1}
use gml_vm.Ne2k.Card.{Card, step, steps, steps-append}
use gml_vm.Ne2k.Dma.Wait.{Polled}
use gml_vm.Ne2k.Send.{add, ne_send, transmit}
use gml_vm.Ne2k.Send.Load.{AllFrags, Even, load_frame-Framed}

pub add-append : (queue : List Msg) (buf : Msg) → add queue buf ≡ queue ++ (buf ∷ [])
unfolding add
add-append [] buf = refl
add-append (m ∷ queue) buf = ap (◌∷◌ m) (add-append queue buf)

-- `neSendPack`
start_events : (count : ℕ) → List Event
start_events count =
    out8 transmit_page 0x40
    ∷ out8 transmit_byte_count0 (u8 (bit_and count 0xff))
    ∷ out8 transmit_byte_count1 (u8 (bit_and (shr count 8) 0xff))
    ∷ out8 command 0x26
    ∷ []

start_events-sent :
    (c : Card) (n : ℕ)
    → c.bank ≡ 0
    → n ≤ 0x600
    → (steps c (start_events n)).sent ≡ c.sent ++ (bytes n 0x4000 c.ram ∷ [])
unfolding start_events step
start_events-sent c n bank fits =
    let low = bit_and-low_bits 8 n in
    let high = bit_and-low_bits 8 (shr n 8) in
    let whole : (c.count / 256 * 256 + n % 256 % 256) % 256 + 256 * (shr n 8 % 256 % 256) ≡ n =
      omega arith in
    rw (bank, low, high, whole)

-- The run comes back with the state as it was, and the card has put `xs` on the cable.
pub record Delivered {S : Type 0} (s : S) (c : Card) (xs rest : List ℕ) (r : Run S (Unit {0}))
    : Type 0 where
  pub events : List Event
  pub returns : r ≡ done tt s events rest
  pub sent : (steps c events).sent ≡ c.sent ++ (xs ∷ [])

start_aligned : (buf : Msg) → Even 0 buf
start_aligned [] = tt
start_aligned (f ∷ fs) = refl

transmit-Delivered :
    {T : Type 0} (s : Net T) (c : Card) (buf : Msg) {rest rs : List ℕ}
    → Polled rest (length buf) rs
    → AllFrags buf
    → c.bank ≡ 0
    → length (content buf) ≤ 0x600
    → Delivered s c (content buf) rest (transmit buf s rs)
unfolding transmit start_events
transmit-Delivered s c buf polled ok bank fits =
    let n = length (content buf) in
    let framed =
      load_frame-Framed s c buf 0 n polled ok (start_aligned buf) bank (omega arith) fits in
    let d = steps c framed.events in
    let started = start_events-sent d n (framed.loaded.bank ∙ bank) fits in
    record {
      events = framed.events ++ start_events n;
      returns = rw framed.returns;
      sent = rw (
        steps-append c framed.events (start_events n),
        started,
        framed.loaded.held,
        framed.loaded.sent,
      );
    }

-- `neSend` on a card whose command register is not 0x26 (start, transmit, no transfer): it comes
-- back, the card puts exactly the fragments' bytes in order on the cable as one frame, and the
-- driver's state is as before. The card answers every transfer and its register page 0 is
-- selected; the message has a fragment and fits the transmit pages 0x40 to 0x45, no fragment is
-- empty, all but the last are of even length, and memory holds bytes.
pub ne_send-Delivered :
    {T : Type 0} (s : Net T) (c : Card) (f : Frag) (buf : Msg) (v : ℕ) {rest rs : List ℕ}
    → u8 v ≢ 0x26
    → Polled rest (length (f ∷ buf)) rs
    → AllFrags (f ∷ buf)
    → c.bank ≡ 0
    → length (content (f ∷ buf)) ≤ 0x600
    → Delivered s c (content (f ∷ buf)) rest (ne_send (f ∷ buf) s (v ∷ rs))
unfolding ne_send step
ne_send-Delivered s c f buf v idle polled ok bank fits =
    let t = transmit-Delivered s c (f ∷ buf) polled ok bank fits in
    let free : (0x26 == u8 v) ≡ false = ne→== 0x26 (u8 v) (λ e. idle (sym e)) in
    record {
      events = cli ∷ in8 command ∷ (t.events ++ (sti ∷ []));
      returns = rw (free, t.returns);
      sent = rw (steps-append c t.events (sti ∷ [])) t.sent;
    }

-- `neSend` of a message with a fragment while the card is sending (command register 0x26):
-- nothing but the command register is touched, and the message stands behind all that waited.
pub ne_send_busy :
    {T : Type 0} (s : Net T) (f : Frag) (buf : Msg) (v : ℕ) (rs : List ℕ)
    → u8 v ≡ 0x26
    → ne_send (f ∷ buf) s (v ∷ rs)
      ≡ done tt (record s { queue = s.queue ++ ((f ∷ buf) ∷ []) }) (cli ∷ in8 command ∷ sti ∷ []) rs
unfolding ne_send
ne_send_busy s f buf v rs busy = rw (busy, add-append s.queue (f ∷ buf))
