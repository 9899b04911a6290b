-- ===== src/Kernel/Malloc.antt =====
-- kernel/malloc.c and include/vm/malloc.h: the heap of the kernel. Memory is seen as nodes, one at
-- each address; a node is 16 bytes long, and the nodes of the heap do not overlap. Here are the
-- functions on the list of free nodes; Malloc/Pool has `malloc` and `free`. Loops and recursions over
-- the list take fuel.
pub mod Chain
pub mod Add
pub mod Del
pub mod Find
pub mod Pool
pub mod Room
pub mod Carve
pub mod Best
pub mod Release
pub mod Page
pub mod Grow
pub mod Fresh
pub mod First
pub mod Tile
use gml_vm.Base.{
  ℕ, zero, suc, ◌+◌, ◌-◌, ◌*◌, ◌/◌, ◌%◌, ◌^◌, Option, some, none, not, ◌&&◌, ◌==◌, leb,
  if◌then◌else◌, bit_and, shl, shr, u32, sub32,
}
use gml_vm.Kernel.Machine.{Machine, update}
use gml_vm.Kernel.Frames.{get_free_page}

-- `FREE` and `BUSY`
abbrev pub free_state : ℕ
free_state = 0xfe

abbrev pub busy_state : ℕ
busy_state = 0xfb

-- `mlT`; its size is 16.
pub record Node : Type 0 where
  pub size : ℕ
  pub next : ℕ
  pub root : ℕ
  pub state : ℕ

abbrev pub Nodes : Type 0
Nodes = ℕ → Node

abbrev pub set_next : (a v : ℕ) → Nodes → Nodes
set_next a v h = update h a (record (h a) { next = v })

abbrev pub set_root : (a v : ℕ) → Nodes → Nodes
set_root a v h = update h a (record (h a) { root = v })

abbrev pub set_size : (a v : ℕ) → Nodes → Nodes
set_size a v h = update h a (record (h a) { size = v })

abbrev pub set_state : (a v : ℕ) → Nodes → Nodes
set_state a v h = update h a (record (h a) { state = v })

-- `ml->next = a; a->root = ml;`
abbrev pub link : (ml a : ℕ) → Nodes → Nodes
link ml a h = set_root a ml (set_next ml a h)

-- `ml->next = add(ml->next,mm); ml->next->root = ml; return ml;` with the result of the call
abbrev pub link_result : (ml : ℕ) → Option (ℕ × Nodes) → Option (ℕ × Nodes)
link_result ml none = none
link_result ml (some (a, h)) = some (ml, link ml a h)

unfoldable pub add : (fuel ml mm : ℕ) → Nodes → Option (ℕ × Nodes)
add zero ml mm h = none
add (suc fuel) ml mm h =
    let rest = link_result ml (add fuel (h ml).next mm h) in
    if ml == 0
    then some (mm, set_next mm 0 (set_root mm 0 h))
    else if leb (h mm).size (h ml).size
    then some (mm, set_next mm ml (set_root ml mm (set_root mm (h ml).root h)))
    else rest

unfoldable pub find : (fuel ml size : ℕ) → Nodes → Option ℕ
find zero ml size h = none
find (suc fuel) ml size h =
    let rest = find fuel (h ml).next size h in
    if ml == 0 then some 0 else if leb size (h ml).size then some ml else rest

-- `if (mm->next != NULL) mm->next->root = mm->root;`
unfoldable pub root_behind : (mm : ℕ) → Nodes → Nodes
root_behind mm h = if (h mm).next == 0 then h else set_root (h mm).next (h mm).root h

unfoldable pub del : (mm : ℕ) → Nodes → Nodes
del mm h = if mm == 0 then h else root_behind mm (set_next (h mm).root (h mm).next h)

-- The node behind `mm`, where `mm` ends.
abbrev pub behind : (mm : ℕ) → Nodes → ℕ
behind mm h = u32 (mm + (h mm).size + 16)

abbrev pub page_of : ℕ → ℕ
page_of a = bit_and a 0xffff_f000

-- The node behind `nextm` joins `mm`.
unfoldable pub join : (mm nextm : ℕ) → Nodes → Nodes
unfolding del
join mm nextm h = let h' = del nextm h in set_size mm (u32 ((h' mm).size + (h' nextm).size + 16)) h'

unfoldable pub unite : (mm : ℕ) → Nodes → Nodes
unite mm h =
    if mm == 0
    then h
    else if page_of (behind mm h) == page_of mm && (h (behind mm h)).state == free_state
    then join mm (behind mm h) h
    else h

-- `do { size = mm->size; mm = unite(mm); } while (size != mm->size);`
unfoldable pub unite_all : (fuel mm : ℕ) → Nodes → Option Nodes
unite_all zero mm h = none
unite_all (suc fuel) mm h =
    let h' = unite mm h in
    let rest = unite_all fuel mm h' in if (h mm).size == (h' mm).size then some h' else rest
