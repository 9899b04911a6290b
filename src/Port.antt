-- ===== src/Port.antt =====
-- include/x86/io.h and the interrupt flag of include/x86/system.h: port input and output, as the
-- sequence of instructions that a driver executes. The values that the ports answer come from
-- outside the program: they are a list of replies, one for each `in`.
pub mod Trace
use gml_vm.Base.{ℕ, ◌+◌, ◌*◌, ◌^◌, ◌≡◌, refl, List, [], ◌∷◌, ◌++◌, append_assoc, ap, sym, u8, u16}

pub data Event : Type 0 where
  out8 : (port value : ℕ) → Event
  out16 : (port value : ℕ) → Event
  in8 : (port : ℕ) → Event
  in16 : (port : ℕ) → Event
  cli sti : Event
  -- a call of `printk` and the numbers that it is given
  print : List ℕ → Event

-- Why a run does not come back: it still polls a port when the replies end, it reads through a
-- null pointer, it writes over the whole address space, it ends in `exit`, an endless loop, or it
-- waits for a free page.
pub data Stop : Type 0 where
  waiting null_pointer exited stuck : Stop

-- A run comes back with a value, the new state, the instructions executed and the replies left.
pub data Run (S A : Type 0) : Type 0 where
  done : A → S → List Event → List ℕ → Run S A
  stop : Stop → List Event → Run S A

abbrev pub Cmd : Type 0 → Type 0 → Type 0
Cmd S A = S → List ℕ → Run S A

module _ {S A : Type 0} where
  abbrev pub after : List Event → Run S A → Run S A
  after es (done a s fs rs) = done a s (es ++ fs) rs
  after es (stop w fs) = stop w (es ++ fs)

  abbrev pub pure : A → Cmd S A
  pure a s rs = done a s [] rs

  abbrev pub fail : Stop → Cmd S A
  fail w s rs = stop w []

  pub after-append : (es fs : List Event) (r : Run S A) → after es (after fs r) ≡ after (es ++ fs) r
  after-append es fs (done a s gs rs) = ap (λ l. done a s l rs) (sym (append_assoc es fs gs))
  after-append es fs (stop w gs) = ap (stop w) (sym (append_assoc es fs gs))

  pub after-nil : (r : Run S A) → after [] r ≡ r
  after-nil (done a s es rs) = refl
  after-nil (stop w es) = refl

module _ {S A B : Type 0} where
  abbrev pub and_then : Run S A → (A → Cmd S B) → Run S B
  and_then (done a s es rs) k = after es (k a s rs)
  and_then (stop w es) k = stop w es

  infixl 5 ◌>>=◌ ◌>>◌
  abbrev pub ◌>>=◌ : Cmd S A → (A → Cmd S B) → Cmd S B
  (m >>= k) s rs = and_then (m s rs) k

  abbrev pub ◌>>◌ : Cmd S A → Cmd S B → Cmd S B
  (m >> k) s rs = and_then (m s rs) (λ _. k)

module _ {S : Type 0} where
  -- `out %al,%dx` and `out %ax,%dx` send the low bits of the register.
  abbrev pub outb : (value port : ℕ) → Cmd S (Unit {0})
  outb value port s rs = done tt s (out8 port (u8 value) ∷ []) rs

  abbrev pub outw : (value port : ℕ) → Cmd S (Unit {0})
  outw value port s rs = done tt s (out16 port (u16 value) ∷ []) rs

  abbrev pub inb : (port : ℕ) → Cmd S ℕ
  inb port s [] = stop waiting []
  inb port s (v ∷ rs) = done (u8 v) s (in8 port ∷ []) rs

  abbrev pub inw : (port : ℕ) → Cmd S ℕ
  inw port s [] = stop waiting []
  inw port s (v ∷ rs) = done (u16 v) s (in16 port ∷ []) rs

  -- The delay of two jumps behind the instruction does not show.
  abbrev pub outb_p : (value port : ℕ) → Cmd S (Unit {0})
  outb_p value port s rs = done tt s (out8 port (u8 value) ∷ []) rs

  abbrev outw_p : (value port : ℕ) → Cmd S (Unit {0})
  outw_p value port s rs = done tt s (out16 port (u16 value) ∷ []) rs

  abbrev pub inb_p : (port : ℕ) → Cmd S ℕ
  inb_p port s [] = stop waiting []
  inb_p port s (v ∷ rs) = done (u8 v) s (in8 port ∷ []) rs

  -- It reads a byte, `in %dx,%al`. The high byte of the result is what `%ah` held, `ah`.
  abbrev inw_p : (ah port : ℕ) → Cmd S ℕ
  inw_p ah port s [] = stop waiting []
  inw_p ah port s (v ∷ rs) = done (u8 ah * 2 ^ 8 + u8 v) s (in8 port ∷ []) rs

  abbrev pub irq_off : Cmd S (Unit {0})
  irq_off s rs = done tt s (cli ∷ []) rs

  abbrev pub irq_on : Cmd S (Unit {0})
  irq_on s rs = done tt s (sti ∷ []) rs

  abbrev pub printk : List ℕ → Cmd S (Unit {0})
  printk xs s rs = done tt s (print xs ∷ []) rs

  abbrev pub get : Cmd S S
  get s rs = done s s [] rs

  abbrev pub put : S → Cmd S (Unit {0})
  put s' s rs = done tt s' [] rs
