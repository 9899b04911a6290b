-- ===== src/Ne2k/Card.antt =====
-- The card as doc/ne2kReg describes it, as far as transfers, sending and the place of the ring go:
-- what the instructions of a run do to its registers, to its memory and to the cable. This is the
-- specification that the driver is held to, and no part of the driver. The driver sets the card to
-- transfers of words; the description does not say what one at an odd address does, and here it does
-- nothing.
use gml_vm.Base.{
  ℕ, ◌+◌, ◌-◌, ◌*◌, ◌/◌, ◌%◌, ◌≡◌, ◌≢◌, refl, sym, append_assoc, Bool, not, ◌&&◌, ne→==, List, [],
  ◌∷◌, ◌++◌, ◌==◌, if◌then◌else◌, bit_and,
}
use gml_vm.Port.{Event, out8, out16, in8, in16, cli, sti, print}
use gml_vm.Net.Message.{bytes}

pub record Card : Type 0 where
  -- the register page, the remote command, address and byte count, the transmit page and byte count
  pub bank : ℕ
  pub mode : ℕ
  pub remote : ℕ
  pub left : ℕ
  pub page : ℕ
  pub count : ℕ
  -- the boundary of the ring and the page that is received next
  pub boundary : ℕ
  pub current : ℕ
  -- the memory of the card and the frames that it has put on the cable
  pub ram : ℕ → ℕ
  pub sent : List (List ℕ)

-- A byte for a register of page 0.
write_register : Card → ℕ → ℕ → Card
write_register c port v =
    if port == 0x303
    then record c { boundary = v }
    else if port == 0x304
    then record c { page = v }
    else if port == 0x305
    then record c { count = c.count / 256 * 256 + v }
    else if port == 0x306
    then record c { count = c.count % 256 + 256 * v }
    else if port == 0x308
    then record c { remote = c.remote / 256 * 256 + v }
    else if port == 0x309
    then record c { remote = c.remote % 256 + 256 * v }
    else if port == 0x30a
    then record c { left = c.left / 256 * 256 + v }
    else if port == 0x30b
    then record c { left = c.left % 256 + 256 * v }
    else c

-- A byte for a register of page 1.
write_second : Card → ℕ → ℕ → Card
write_second c port v = if port == 0x307 then record c { current = v } else c

-- A byte for the command register: it selects the page, its bits 3 to 5 are the remote command, and
-- its bit 2 starts a transmission.
write_command : Card → ℕ → Card
write_command c v =
    let d = record c { bank = v / 64; mode = v / 8 % 8 } in
    if bit_and v 4 == 0
    then d
    else record d { sent = c.sent ++ (bytes c.count (256 * c.page) c.ram ∷ []) }

-- The data port moves a word under the remote command `mode`, 1 to read and 2 to write, as long as
-- there are bytes to transfer.
abbrev moves : Card → ℕ → Bool
moves c mode = c.mode == mode && (not (c.left == 0) && c.remote % 2 == 0)

abbrev pub moved : Card → Card
moved c = record c { remote = c.remote + 2; left = c.left - 2 }

-- The word that was written, at the remote address, low byte first.
abbrev pub stored : Card → ℕ → Card
stored c w = record (moved c) {
  ram = λ j. if j == c.remote then w % 256 else if j == c.remote + 1 then w / 256 else c.ram j;
}

abbrev pub word_at : (ℕ → ℕ) → ℕ → ℕ
word_at m a = m a + 256 * m (a + 1)

unfoldable pub step : Card → Event → Card
unfolding write_register write_second write_command
step c (out8 port v) =
    if port == 0x300
    then write_command c v
    else if c.bank == 0
    then write_register c port v
    else if c.bank == 1
    then write_second c port v
    else c
step c (out16 port w) = if port == 0x310 && moves c 2 then stored c w else c
step c (in8 port) = c
step c (in16 port) = if port == 0x310 && moves c 1 then moved c else c
step c cli = c
step c sti = c
step c (print xs) = c

abbrev pub steps : Card → List Event → Card
steps c [] = c
steps c (e ∷ es) = steps (step c e) es

pub steps-append : (c : Card) (es fs : List Event) → steps c (es ++ fs) ≡ steps (steps c es) fs
steps-append c [] fs = refl
steps-append c (e ∷ es) fs = steps-append (step c e) es fs

-- The word that the card gives to an instruction, if it gives one.
unfoldable pub word_reply : Card → Event → List ℕ
word_reply c (out8 port v) = []
word_reply c (out16 port w) = []
word_reply c (in8 port) = []
word_reply c (in16 port) = if port == 0x310 && moves c 1 then word_at c.ram c.remote ∷ [] else []
word_reply c cli = []
word_reply c sti = []
word_reply c (print xs) = []

-- The words that the card gives in a run.
abbrev pub word_replies : Card → List Event → List ℕ
word_replies c [] = []
word_replies c (e ∷ es) = word_reply c e ++ word_replies (step c e) es

pub word_replies-append :
    (c : Card) (es fs : List Event)
    → word_replies c (es ++ fs) ≡ word_replies c es ++ word_replies (steps c es) fs
word_replies-append c [] fs = refl
word_replies-append c (e ∷ es) fs = rw (word_replies-append (step c e) es fs) (
    sym (
      append_assoc (word_reply c e) (word_replies (step c e) es)
        (word_replies (steps (step c e) es) fs)))

-- A word goes through the data port.
pub step-write :
    (c : Card) (w : ℕ)
    → c.mode ≡ 2
    → c.left ≢ 0
    → c.remote % 2 ≡ 0
    → step c (out16 0x310 w) ≡ stored c w
unfolding step
step-write c w write more even = rw (write, ne→== c.left 0 more, even) refl

pub step-read :
    (c : Card)
    → c.mode ≡ 1
    → c.left ≢ 0
    → c.remote % 2 ≡ 0
    → (step c (in16 0x310) ≡ moved c) × (word_reply c (in16 0x310) ≡ word_at c.ram c.remote ∷ [])
unfolding step word_reply
step-read c read more even =
    (rw (read, ne→== c.left 0 more, even) refl, rw (read, ne→== c.left 0 more, even) refl)
