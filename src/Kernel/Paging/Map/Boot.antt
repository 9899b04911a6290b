-- ===== src/Kernel/Paging/Map/Boot.antt =====
-- `mmap_init` with the paging that it starts.
use gml_vm.Base.{
  ℕ, suc, ◌+◌, ◌/◌, ◌^◌, ◌≤◌, ◌<◌, ◌≡◌, refl, ◌∙◌, List, length, ltb, if◌then◌else◌, bit_or, arith,
}
use gml_vm.Kernel.Machine.{Machine}
use gml_vm.Kernel.Frames.Laws.{FirstKernel}
use gml_vm.Kernel.Trap.{Handlers, install_int, ker_code_sec, tra_gate, idt_r0}
use gml_vm.Kernel.Paging.{start_paging}
use gml_vm.Kernel.Paging.Map.{MemoryMap, mmap_init}
use gml_vm.Kernel.Paging.Map.Areas.{Holds, frame_state, top, mmap_init-Started}
use gml_vm.Kernel.Paging.Identity.Build.{HasRoom, IsIdentity, open_pagination-IsIdentity}

-- The end of the memory that is mapped: KMEM, or the top of the memory if that is lower.
abbrev pub mapped_end : List MemoryMap → Machine → ℕ
mapped_end areas m = if ltb (top areas m.hmem) m.kmem then top areas m.hmem else m.kmem

start_paging-IsIdentity :
    (h : Handlers) (fuel end : ℕ) (m : Machine)
    → (if ltb m.hmem m.kmem then m.hmem else m.kmem) ≡ end
    → end < 2 ^ 32
    → 0x401 + end / 2 ^ 22 < end / 4096
    → ((j : ℕ) → 0x400 ≤ j → j ≤ 0x401 + end / 2 ^ 22 → m.mmap j ≡ 0)
    → IsIdentity (record m { kmem = end }) 0x400 (start_paging h (suc fuel) m)
unfolding start_paging install_int
start_paging-IsIdentity h fuel end m small bound room free =
    let m' =
      install_int 14 h.page_fault ker_code_sec (bit_or tra_gate idt_r0) (record m { kmem = end }) in
    let first : FirstKernel m' 0x400 = record {
      from = omega arith;
      below = omega (arith, room);
      free = free 0x400 (omega arith) (omega arith);
      taken = λ j p q. absurd (omega arith);
    } in
    let has_room : HasRoom m' 0x400 = record { from = omega arith; below = room; bound = bound } in
    let r = open_pagination-IsIdentity fuel 0x400 m' first has_room free in
    rw small (record {
      last = r.last;
      returns = r.returns;
      cr3 = r.cr3;
      cr0 = r.cr0;
      identity = r.identity;
    })

-- `mmap_init`, when memory holds a map of areas that ends below 2 ^ 32, the mapped memory ends
-- below 2 ^ 32, and by the map the first frames of the kernel, as many as the directory and the
-- tables need, are free and lie in the mapped memory: with more fuel than there are areas it
-- comes back with paging on and the directory in the first of these frames, and each address of
-- the mapped memory, up to its last whole page, then leads to itself.
pub mmap_init-IsIdentity :
    (h : Handlers) (fuel addr size : ℕ) (m : Machine) (areas : List MemoryMap)
    → Holds m.mem addr (addr + size) areas
    → addr + size < 2 ^ 32
    → length areas ≤ fuel
    → mapped_end areas m < 2 ^ 32
    → 0x401 + mapped_end areas m / 2 ^ 22 < mapped_end areas m / 4096
    → ((j : ℕ) → 0x400 ≤ j → j ≤ 0x401 + mapped_end areas m / 2 ^ 22 → frame_state areas 100 j ≡ 0)
    → IsIdentity (record m { kmem = mapped_end areas m }) 0x400 (mmap_init h (suc fuel) addr size m)
mmap_init-IsIdentity h fuel addr size m areas held fits enough bound room free =
    let st = mmap_init-Started h (suc fuel) addr size m areas held fits (omega arith) in
    let r =
      start_paging-IsIdentity h fuel (mapped_end areas m)
        (record m { mmap = st.frames; hmem = top areas m.hmem }) refl bound room
        (λ j p q. st.state j (omega arith) ∙ free j p q) in
    record {
      last = r.last;
      returns = st.returns ∙ r.returns;
      cr3 = r.cr3;
      cr0 = r.cr0;
      identity = r.identity;
    }
