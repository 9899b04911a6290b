-- ===== src/Start.antt =====
-- kernel/init.c with `multiboot_info_t` of include/multiboot.h: `cmain`, which the boot loader's code
-- calls, over the state of the kernel and that of the network.
use gml_vm.Base.{ℕ, ◌+◌, ◌==◌, Option, some, none, List, [], ◌∷◌, if◌then◌else◌, bit_and, not}
use gml_vm.Port.{Run, done, stop, stuck, Cmd, ◌>>=◌, ◌>>◌, pure, get}
use gml_vm.Kernel.Machine.{Machine, Step, load}
use gml_vm.Kernel.Trap.{Handlers, trap_init}
use gml_vm.Kernel.Paging.{mm_init}
use gml_vm.Kernel.Paging.Map.{mmap_init}
use gml_vm.Net.ByteOrder.{short_swap, long_swap}
use gml_vm.Net.Message.{Frag, over}
use gml_vm.Net.State.{Net}
use gml_vm.Net.Arp.{Entry, ip_compare, ListClass, Heap}
use gml_vm.Net.Udp.{udp_send}
use gml_vm.Ne2k.Recv.{ne_init}

-- `multiboot_info_t`; the union `u` is four words.
pub record MultibootInfo : Type 0 where
  pub flags : ℕ
  pub mem_lower : ℕ
  pub mem_upper : ℕ
  pub boot_device : ℕ
  pub cmdline : ℕ
  pub mods_count : ℕ
  pub mods_addr : ℕ
  pub u : List ℕ
  pub mmap_length : ℕ
  pub mmap_addr : ℕ

-- `*env`
abbrev pub info_at : (ℕ → ℕ) → ℕ → MultibootInfo
info_at mem env = record {
  flags = load mem env;
  mem_lower = load mem (env + 4);
  mem_upper = load mem (env + 8);
  boot_device = load mem (env + 12);
  cmdline = load mem (env + 16);
  mods_count = load mem (env + 20);
  mods_addr = load mem (env + 24);
  u = load mem (env + 28) ∷ load mem (env + 32) ∷ load mem (env + 36) ∷ load mem (env + 40) ∷ [];
  mmap_length = load mem (env + 44);
  mmap_addr = load mem (env + 48);
}

pub record Boot (T : Type 0) : Type 0 where
  pub machine : Machine
  pub net : Net T

-- The result -1, or the endless loop behind the last call.
pub data Outcome : Type 0 where
  failed idle : Outcome

module _ {T A : Type 0} where
  abbrev pub put_machine : Boot T → Run Machine A → Run (Boot T) A
  put_machine s (done a m es rs) = done a (record s { machine = m }) es rs
  put_machine s (stop w es) = stop w es

  abbrev pub on_machine : Cmd Machine A → Cmd (Boot T) A
  on_machine c s rs = put_machine s (c s.machine rs)

  abbrev pub put_net : Boot T → Run (Net T) A → Run (Boot T) A
  put_net s (done a n es rs) = done a (record s { net = n }) es rs
  put_net s (stop w es) = stop w es

  abbrev pub on_net : Cmd (Net T) A → Cmd (Boot T) A
  on_net c s rs = put_net s (c s.net rs)

  -- A step that does not come back waits for a free page.
  abbrev pub put_step : Boot T → List ℕ → Option (A × Machine) → Run (Boot T) A
  put_step s rs none = stop stuck []
  put_step s rs (some (a, m)) = done a (record s { machine = m }) [] rs

  abbrev pub on_step : Step A → Cmd (Boot T) A
  on_step f s rs = put_step s rs (f s.machine)

-- "Hello IP potocol!"
abbrev pub greeting : List ℕ
greeting =
    0x48 ∷ 0x65 ∷ 0x6c ∷ 0x6c ∷ 0x6f ∷ 0x20 ∷ 0x49 ∷ 0x50 ∷ 0x20 ∷ 0x70 ∷ 0x6f ∷ 0x74 ∷ 0x6f ∷ 0x63
    ∷ 0x6f ∷ 0x6c ∷ 0x21 ∷ []

-- 100 bytes, of which 17 are written; `old` is what stood in the memory that `malloc` gave.
unfoldable pub greeting_frag : (old : ℕ → ℕ) → Frag
greeting_frag old = record { len = 100; at = over greeting old }

-- The memory, by the map of areas or else by the two sizes; false stands for `return -1`.
unfoldable pub init_memory :
    {T : Type 0} → Handlers → (fuel : ℕ) → MultibootInfo → Option (Cmd (Boot T) ℕ)
init_memory h fuel env =
    if not (bit_and env.flags 0x40 == 0)
    then some (on_step (mmap_init h fuel env.mmap_addr env.mmap_length))
    else if not (bit_and env.flags 0x1 == 0)
    then some (on_step (mm_init h fuel env.mem_lower env.mem_upper))
    else none

module _ (L : ListClass Entry ip_compare) (heap : Heap) (irq : Cmd (Net L.Obj) (Unit {0})) where
  -- Behind the start of the memory: the card, and a greeting to 192.168.1.101.
  unfoldable pub greet : (old : ℕ → ℕ) → Cmd (Boot L.Obj) Outcome
  greet old = do
    mac ← on_net ne_init
    on_net (
        udp_send L heap irq (greeting_frag old ∷ []) (long_swap 0xc0a80165) (short_swap 8000)
          (short_swap 1024))
    pure idle

  abbrev pub memory_then : (old : ℕ → ℕ) → Option (Cmd (Boot L.Obj) ℕ) → Cmd (Boot L.Obj) Outcome
  memory_then old none = pure failed
  memory_then old (some start) = do pde ← start; greet old

  unfoldable pub cmain : Handlers → (fuel env : ℕ) → (old : ℕ → ℕ) → Cmd (Boot L.Obj) Outcome
  unfolding greet
  cmain h fuel env old = do
    on_machine (trap_init h)
    s ← get
    memory_then old (init_memory h fuel (info_at s.machine.mem env))
