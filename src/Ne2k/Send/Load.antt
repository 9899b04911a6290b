-- ===== src/Ne2k/Send/Load.antt =====
-- The loop of `neSend` puts the fragments into the card one behind the other.
use gml_vm.Base.{
  ℕ, ◌+◌, ◌%◌, ◌≤◌, ◌<◌, ◌≡◌, refl, ◌∙◌, List, [], ◌∷◌, ◌++◌, arith, length, length-append, u16,
}
use gml_vm.Port.{Event, Cmd, Run, done, and_then}
use gml_vm.Net.Message.{Frag, Msg, bytes, content, length-bytes, bytes-ext, bytes-append}
use gml_vm.Ne2k.Card.{Card, steps, steps-append}
use gml_vm.Ne2k.Dma.Wait.{Polled, finished}
use gml_vm.Ne2k.Dma.Copy.{IsBytes, Stored, Copied, pc_to_nic-Copied}
use gml_vm.Ne2k.Send.{load_frame}

-- A fragment that the driver can send: it is not empty, and memory holds bytes.
pub record IsFrag (f : Frag) : Type 0 where
  pub pos : 0 < f.len
  pub is_bytes : IsBytes f.at

-- A fragment in front of another one is of even length, so that each begins at an even address.
abbrev pub Joins : Frag → Msg → Type 0
Joins f [] = Unit
Joins f (g ∷ fs) = f.len % 2 ≡ 0

abbrev pub AllFrags : Msg → Type 0
AllFrags [] = Unit
AllFrags (f ∷ fs) = IsFrag f × Joins f fs × AllFrags fs

pub Joins-even : (f : Frag) (fs : Msg) → f.len % 2 ≡ 0 → Joins f fs
Joins-even f [] even = tt
Joins-even f (g ∷ fs) even = even

-- `xs` stands at address `a`.
pub record Loaded (c d : Card) (a : ℕ) (xs : List ℕ) : Type 0 where
  pub held : bytes (length xs) a d.ram ≡ xs
  pub below : (j : ℕ) → j < a → d.ram j ≡ c.ram j
  pub bank : d.bank ≡ c.bank
  pub sent : d.sent ≡ c.sent

pub record Framed {S : Type 0} (s : S) (c : Card) (xs : List ℕ) (a count : ℕ) (rest : List ℕ)
    (r : Run S ℕ) : Type 0 where
  pub events : List Event
  pub returns : r ≡ done count s events rest
  pub loaded : Loaded c (steps c events) a xs

-- A fragment at `a`, and the rest of the frame behind it at `b`.
load-one :
    (c d e : Card) (f : Frag) (a b : ℕ) (xs : List ℕ)
    → Stored c d a f.len f.at
    → b ≡ a + f.len
    → Loaded d e b xs
    → Loaded c e a (bytes f.len 0 f.at ++ xs)
load-one c d e f a b xs one next rest = record {
  held =
      let size : length (bytes f.len 0 f.at ++ xs) ≡ f.len + length xs =
        omega (arith, length-append (bytes f.len 0 f.at) xs, length-bytes f.len 0 f.at) in
      let front =
        bytes-ext f.len a 0 e.ram f.at λ i p. ground (arith, rest.below (a + i), one.inside i) in
      rw (size, bytes-append f.len (length xs) a e.ram, front, ← next, rest.held);
  below = λ j p. ground (arith, rest.below j, one.below j);
  bank = rest.bank ∙ one.bank;
  sent = rest.sent ∙ one.sent;
}

module _ {S : Type 0} {s : S} {c : Card} {f : Frag} {a b n k : ℕ} {xs rest : List ℕ} where
  Framed-cons :
      {r : Run S (Unit {0})} (go : ℕ → Cmd S ℕ) (j m : ℕ) (one : Copied s c f.at a f.len k rest r)
      → j ≡ m
      → b ≡ a + f.len
      → Framed s (steps c one.events) xs b n rest (go m s one.left)
      → Framed s c (bytes f.len 0 f.at ++ xs) a n rest (and_then r (λ _. go j))
  Framed-cons go j m one same next more = record {
    events = one.events ++ more.events;
    returns = rw (one.returns, same, more.returns);
    loaded = rw (steps-append c one.events more.events) (
        load-one c (steps c one.events) (steps (steps c one.events) more.events) f a b xs one.stored
          next more.loaded);
  }

-- The address of the next fragment, if there is one.
abbrev pub Even : ℕ → Msg → Type 0
Even count [] = Unit
Even count (f ∷ fs) = count % 2 ≡ 0

Even-next : (count : ℕ) (f : Frag) (fs : Msg) → count % 2 ≡ 0 → Joins f fs → Even (count + f.len) fs
Even-next count f [] even joins = tt
Even-next count f (g ∷ fs) even joins = omega (arith, even, joins)

-- `n` is the byte count of the frame up to the end of `buf`.
pub load_frame-Framed :
    {S : Type 0} (s : S) (c : Card) (buf : Msg) (count n : ℕ) {rest rs : List ℕ}
    → Polled rest (length buf) rs
    → AllFrags buf
    → Even count buf
    → c.bank ≡ 0
    → count + length (content buf) ≡ n
    → n ≤ 0x600
    → Framed s c (content buf) (0x4000 + count) n rest (load_frame buf count s rs)
unfolding load_frame content bytes
load_frame-Framed s c [] count n finished ok even bank e fits = record {
  events = [];
  returns = ground arith;
  loaded = record { held = refl; below = λ j p. refl; bank = refl; sent = refl };
}
load_frame-Framed s c (f ∷ buf) count n polled ok even bank e fits =
    let size = length-append (bytes f.len 0 f.at) (content buf) in
    let total : count + f.len + length (content buf) ≡ n =
      omega (arith, size, length-bytes f.len 0 f.at) in
    let short : u16 (count + f.len) ≡ count + f.len = omega arith in
    let one =
      pc_to_nic-Copied s c f.at (0x4000 + count) f.len polled ok.0.is_bytes ok.0.pos (omega arith)
        (omega arith) (omega (arith, even)) bank in
    let more =
      load_frame-Framed s (steps c one.events) buf (count + f.len) n one.polled ok.2
        (Even-next count f buf even ok.1) (one.stored.bank ∙ bank) total fits in
    Framed-cons {b = 0x4000 + (count + f.len)} (load_frame buf) (u16 (count + f.len))
      (count + f.len) one short (omega arith) more
