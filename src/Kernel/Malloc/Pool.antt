-- ===== src/Kernel/Malloc/Pool.antt =====
-- `clean`, `malloc` and `free` of kernel/malloc.c, over the machine, the nodes and `mmList`. `n` is
-- the fuel of the functions on the list.
use gml_vm.Base.{
  ℕ, zero, suc, ◌+◌, ◌-◌, ◌^◌, Option, some, none, not, ◌==◌, leb, if◌then◌else◌, shl, shr, u32,
  sub32,
}
use gml_vm.Kernel.Machine.{Machine, update}
use gml_vm.Kernel.Frames.{get_free_page}
use gml_vm.Kernel.Malloc.{
  Node, Nodes, free_state, busy_state, set_root, set_size, set_state, add, find, del, unite,
  unite_all,
}

pub record Pool : Type 0 where
  pub machine : Machine
  pub nodes : Nodes
  pub list : ℕ

abbrev pub Run : Type 0 → Type 0
Run A = Pool → Option (A × Pool)

abbrev pub pure : {A : Type 0} → A → Run A
pure a s = some (a, s)

infixl 5 ◌>>=◌ ◌>>◌
abbrev pub ◌>>=◌ : {A B : Type 0} → Run A → (A → Run B) → Run B
(r >>= k) s = elim (r s) [ none ↦ none | some (a, s') ↦ k a s' ]

abbrev pub ◌>>◌ : {B : Type 0} → Run (Unit {0}) → Run B → Run B
r >> k = r >>= λ _. k

abbrev pub get : Run Nodes
get s = some (s.nodes, s)

abbrev pub write : (Nodes → Nodes) → Run (Unit {0})
write f s = some (tt, record s { nodes = f s.nodes })

-- `mmList = add(mmList, mm)` and `find(mmList, size)`; `n` is the fuel of the recursion.
abbrev pub added : Pool → Option (ℕ × Nodes) → Option (Unit {0} × Pool)
added s none = none
added s (some (l, h)) = some (tt, record s { nodes = h; list = l })

abbrev pub pool_add : (n mm : ℕ) → Run (Unit {0})
pool_add n mm s = added s (add n s.list mm s.nodes)

abbrev pub found : Pool → Option ℕ → Option (ℕ × Pool)
found s none = none
found s (some mm) = some (mm, s)

abbrev pub pool_find : (n size : ℕ) → Run ℕ
pool_find n size s = found s (find n s.list size s.nodes)

abbrev pub united : Pool → Option Nodes → Option (Unit {0} × Pool)
united s none = none
united s (some h) = some (tt, record s { nodes = h })

-- `clean`: each node is taken out, joined with what is free behind it, and put back.
unfoldable pub clean : (n fuel mm : ℕ) → Run (Unit {0})
clean n zero mm s = none
clean n (suc fuel) mm s =
    let nextm = (s.nodes mm).root in
    let round =
      (do
        write (del mm)
        (λ t. united t (unite_all n mm t.nodes))
        pool_add n mm
        h ← get
        clean n fuel
            (if not (mm == (h nextm).next) then (h nextm).next else (h (h nextm).next).next))
        s in
    if mm == 0 then some (tt, s) else round

-- The static node that the list begins with.
abbrev pub mmlist : Node
mmlist = record { size = 0; next = 0; root = 0; state = free_state }

-- A page as one free node.
abbrev pub page_node : Node
page_node = record { size = 2 ^ 12 - 16; next = 0; root = 0; state = free_state }

-- `get_free_page`, which works on the machine
abbrev pub page_got : Pool → Option (ℕ × Machine) → Option (ℕ × Pool)
page_got s none = none
page_got s (some (a, m)) = some (a, record s { machine = m })

abbrev pub pool_page : (n : ℕ) → Run ℕ
pool_page n s = page_got s (get_free_page n s.machine)

abbrev pub add_page : (n nm : ℕ) → Run (Unit {0})
add_page n nm = do write (λ h. update h nm page_node); pool_add n nm

-- `while (NULL == (mm = find(mmList,size)))`: one page after the other is added until a node is
-- found. NULL is the answer when there is no page.
unfoldable pub grow : (n fuel size : ℕ) → Run ℕ
grow n zero size = λ s. none
grow n (suc fuel) size =
    let again = grow n fuel size in
    let more = pool_page n >>= λ nm. if nm == 0 then pure 0 else (add_page n nm >> again) in
    do mm ← pool_find n size; if mm == 0 then more else pure mm

-- The rest of the node `mm` behind `size` bytes becomes a node, and `mm` is cut to `size`.
unfoldable pub split : (n size mm : ℕ) → Run (Unit {0})
split n size mm = do
  let nm = u32 (mm + size + 16)
  write (set_state nm free_state)
  write (set_root nm 0)
  write (λ h. set_size nm (sub32 (sub32 (h mm).size size) 16) h)
  pool_add n nm
  write (set_size mm size)

unfoldable pub carve : (n size mm : ℕ) → Run ℕ
unfolding del split
carve n size mm = do
  write (del mm)
  h ← get
  if leb (u32 (size + 4 + 16)) (h mm).size then split n size mm else pure tt
  write (set_state mm busy_state)
  pure (u32 (mm + 16))

-- `((size+3)>>2)<<2`
abbrev pub rounded : ℕ → ℕ
rounded size = shl (shr (u32 (size + 3)) 2) 2

-- `find`, and if that fails, `clean` and pages
unfoldable pub obtain : (n size : ℕ) → Run ℕ
obtain n size =
    let more = (do (λ s. clean n n (s.nodes s.list).next s); grow n n size) in
    do mm ← pool_find n size; if mm == 0 then more else pure mm

unfoldable pub malloc : (n size : ℕ) → Run ℕ
malloc n size = do
  mm ← obtain n (rounded size)
  if mm == 0 then pure 0 else carve n (rounded size) mm

unfoldable pub free : (n p : ℕ) → Run (Unit {0})
free n p =
    if p == 0
    then pure tt
    else (do let mm = sub32 p 16; write (unite mm); write (set_state mm free_state); pool_add n mm)
