-- ===== src/Kernel/Paging/Map/Areas.antt =====
-- What `mmap_init` makes of a map of areas.
use gml_vm.Base.{
  ℕ, zero, suc, ◌+◌, ◌/◌, ◌^◌, ◌≤◌, ◌<◌, ◌≡◌, refl, ◌∙◌, ap, Option, some, ◌==◌, ltb, if◌then◌else◌,
  shr, u32, List, [], ◌∷◌, length, arith, lt→ltb, le→ltb, true,
}
use gml_vm.Kernel.Machine.{Machine}
use gml_vm.Kernel.Trap.{Handlers}
use gml_vm.Kernel.Paging.{fill, start_paging}
use gml_vm.Kernel.Paging.Start.{fill_lem}
use gml_vm.Kernel.Paging.Map.{MemoryMap, area_at, busy_of, mark_area, mark_areas, mmap_init}

-- Memory holds these areas from `addr` up to `limit`, each with the size of the rest of it in front.
abbrev pub Holds : (ℕ → ℕ) → (addr limit : ℕ) → List MemoryMap → Type 0
Holds mem addr limit [] = addr ≡ limit
Holds mem addr limit (a ∷ areas) =
    (area_at mem addr ≡ a)
    × (a.size + 4 + addr ≤ limit)
    × Holds mem (addr + (a.size + 4)) limit areas

-- The state of a frame by the map: that of the last area whose length reaches it. An area is
-- taken to start at 0, whatever its base.
abbrev pub frame_state : List MemoryMap → ℕ → ℕ → ℕ
frame_state [] old j = old
frame_state (a ∷ areas) old j =
    frame_state areas
      (if ltb j (a.length_low / 4096) then (if a.kind == 1 then 0 else 100) else old) j

-- The top of the memory: the end of the last area of kind 1.
abbrev pub top : List MemoryMap → ℕ → ℕ
top [] old = old
top (a ∷ areas) old = top areas (if a.kind == 1 then u32 (a.base_addr_low + a.length_low) else old)

-- The loop goes over the areas and leaves all but the top and the states of the frames alone.
record Marked (m : Machine) (areas : List MemoryMap) (r : Option Machine) : Type 0 where
  frames : ℕ → ℕ
  returns : r ≡ some (record m { mmap = frames; hmem = top areas m.hmem })
  state : (j : ℕ) → frames j ≡ frame_state areas (m.mmap j) j

frame_state-ap :
    (areas : List MemoryMap) (j : ℕ) {v w : ℕ}
    → v ≡ w
    → frame_state areas v j ≡ frame_state areas w j
frame_state-ap areas j e = ap (λ v. frame_state areas v j) e

mark_areas_step :
    (a : MemoryMap) (fuel addr limit : ℕ) (m : Machine)
    → area_at m.mem addr ≡ a
    → ltb addr limit ≡ true
    → u32 (addr + u32 (a.size + 4)) ≡ addr + (a.size + 4)
    → mark_areas (suc fuel) addr limit m
      ≡ mark_areas fuel (addr + (a.size + 4)) limit (mark_area a m)
unfolding mark_areas
mark_areas_step a fuel addr limit m area more next = rw more (
    ap (λ b. mark_areas fuel (u32 (addr + u32 (b.size + 4))) limit (mark_area b m)) area
    ∙ ap (λ t. mark_areas fuel t limit (mark_area a m)) next)

mark_areas-Marked :
    (areas : List MemoryMap) (fuel addr limit : ℕ) (m : Machine)
    → Holds m.mem addr limit areas
    → limit < 2 ^ 32
    → length areas < fuel
    → Marked m areas (mark_areas fuel addr limit m)
unfolding mark_areas mark_area
mark_areas-Marked areas zero addr limit m held bound enough = absurd (omega arith)
mark_areas-Marked [] (suc fuel) addr limit m held bound enough = record {
  frames = m.mmap;
  returns = rw (le→ltb addr limit (omega (arith, held))) refl;
  state = λ j. refl;
}
mark_areas-Marked (a ∷ areas) (suc fuel) addr limit m held bound enough =
    let small : a.size + 4 + addr ≤ limit = held.1 in
    let next : u32 (addr + u32 (a.size + 4)) ≡ addr + (a.size + 4) = omega arith in
    let more : ltb addr limit ≡ true = lt→ltb addr limit (omega arith) in
    let r =
      mark_areas-Marked areas fuel (addr + (a.size + 4)) limit (mark_area a m) held.2 bound
        (omega arith) in
    record {
      frames = r.frames;
      returns = mark_areas_step a fuel addr limit m held.0 more next ∙ r.returns;
      state = λ j.
          r.state j
          ∙ frame_state-ap areas j
              (ground (arith, fill_lem (shr a.length_low 12) 0 (busy_of a) m.mmap j));
    }

-- The paging starts on these frames.
pub record Started (h : Handlers) (fuel : ℕ) (m : Machine) (areas : List MemoryMap)
    (r : Option (ℕ × Machine)) : Type 0 where
  pub frames : ℕ → ℕ
  pub returns : r ≡ start_paging h fuel (record m { mmap = frames; hmem = top areas m.hmem })
  pub state : (j : ℕ) → j < 0x100000 → frames j ≡ frame_state areas 100 j

-- `mmap_init`, when memory holds a map of areas of the given length that ends below 2 ^ 32: with more fuel
-- than there are areas its loop comes back. The paging then starts with the end of the last area of kind 1
-- as the top of the memory; each frame is free if the last area whose length reaches the frame's number is of
-- kind 1, and taken otherwise. No area's base counts for that.
pub mmap_init-Started :
    (h : Handlers) (fuel addr size : ℕ) (m : Machine) (areas : List MemoryMap)
    → Holds m.mem addr (addr + size) areas
    → addr + size < 2 ^ 32
    → length areas < fuel
    → Started h fuel m areas (mmap_init h fuel addr size m)
unfolding mmap_init
mmap_init-Started h fuel addr size m areas held bound enough =
    let limit : u32 (size + addr) ≡ addr + size = omega arith in
    let clear = fill 0x100000 0 100 m.mmap in
    let r =
      mark_areas-Marked areas fuel addr (addr + size) (record m { mmap = clear }) held bound
        enough in
    record {
      frames = r.frames;
      returns = rw (limit, r.returns) refl;
      state = λ j small.
          r.state j ∙ frame_state-ap areas j (ground (arith, fill_lem 0x100000 0 100 m.mmap j));
    }
