-- ===== src/Kernel/Paging/Fault/Walk.antt =====
-- The translation of addresses by the tables, and what the handler of a missing page makes of it.
use gml_vm.Base.{
  ℕ, ◌+◌, ◌*◌, ◌/◌, ◌%◌, ◌^◌, ◌≤◌, ◌<◌, ◌≡◌, ◌≢◌, refl, ◌∙◌, ap, ◌⊎◌, arith, Option, some, none,
  ◌==◌, if◌then◌else◌, bit_and, bit_or, shl, shr, false, ne→==,
}
use gml_vm.Base.Bits.{bit_and-low_bits, bit_and-middle, bit_or-field}
use gml_vm.Kernel.Machine.{Machine, load, store, load-store_self, load-store_apart, ◌>>◌, ◌>>=◌}
use gml_vm.Kernel.Frames.{success, take_frame}
use gml_vm.Kernel.Frames.Laws.{FirstUser, uget_free_page-first}
use gml_vm.Kernel.Paging.Fault.{entry, ensure_table, put_entry, put_page, do_no_page}

-- The processor's translation in two levels: the bits of an address from 22 on choose an entry of
-- the directory, those from 12 to 21 one of the table, and bit 0 of an entry says that it is there.
abbrev pub frame : ℕ → ℕ
frame e = e / 4096 % 2 ^ 20 * 4096

abbrev pub table_of : Machine → ℕ → ℕ
table_of m vd = frame (load m.mem (m.cr3 + 4 * (vd / 2 ^ 22)))

abbrev pub walk : Machine → ℕ → Option ℕ
walk m vd =
    let d = load m.mem (m.cr3 + 4 * (vd / 2 ^ 22)) in
    let e = load m.mem (frame d + 4 * (vd / 4096 % 1024)) in
    if d % 2 == 0 then none else if e % 2 == 0 then none else some (frame e + vd % 4096)

-- The directory has a table for `vd`, which does not overlap the directory.
pub record HasTable (m : Machine) (vd : ℕ) : Type 0 where
  pub address : vd < 2 ^ 32
  pub present : load m.mem (m.cr3 + 4 * (vd / 2 ^ 22)) % 2 ≡ 1
  pub apart : (table_of m vd + 4096 ≤ m.cr3) ⊎ (m.cr3 + 4096 ≤ table_of m vd)

-- The machine with the entry for `vd` set to the frame at `pd`.
abbrev pub mapped : Machine → (vd pd : ℕ) → Machine
mapped m vd pd = record m { mem = store m.mem (table_of m vd + 4 * (vd / 4096 % 1024)) (pd + 7) }

page_flags : (i : ℕ) → bit_or (4096 * i) 7 ≡ 4096 * i + 7
page_flags i =
    let q : 512 * i * 2 ^ 3 ≡ 4096 * i = omega arith in
    rw (← q) (bit_or-field 3 (512 * i) 7 (omega arith))

ensure_table-present :
    (m : Machine) (fuel vd : ℕ) → HasTable m vd → ensure_table fuel vd m ≡ some (tt, m)
unfolding ensure_table entry
ensure_table-present m fuel vd h =
    let d = load m.mem (m.cr3 + 4 * shr vd 22) in
    let there : (bit_and d 1 == 0) ≡ false =
      ne→== (bit_and d 1) 0 (λ e. omega (arith, e, bit_and-low_bits 1 d, h.present)) in
    rw there refl

put_entry-mapped :
    (m : Machine) (vd i : ℕ) → put_entry vd (4096 * i) m ≡ some (tt, mapped m vd (4096 * i))
unfolding put_entry entry
put_entry-mapped m vd i =
    let d = load m.mem (m.cr3 + 4 * shr vd 22) in
    rw (bit_and-middle 12 20 d, bit_and-low_bits 10 (shr vd 12), page_flags i) refl

put_page-mapped :
    (m : Machine) (fuel vd i : ℕ)
    → HasTable m vd
    → i < 2 ^ 20
    → m.mmap i ≢ 0
    → put_page fuel vd (4096 * i) m ≡ some (success, mapped m vd (4096 * i))
unfolding put_page
put_page-mapped m fuel vd i h small taken =
    let held : (m.mmap (shr (4096 * i) 12) == 0) ≡ false =
      ne→== (m.mmap (shr (4096 * i) 12)) 0 (λ e. taken (ap m.mmap (omega arith) ∙ e)) in
    rw (held, ◌>>◌, ensure_table-present m fuel vd h, put_entry-mapped m vd i) refl

mapped-walk :
    (m : Machine) (vd i : ℕ)
    → HasTable m vd
    → i < 2 ^ 20
    → walk (mapped m vd (4096 * i)) vd ≡ some (4096 * i + vd % 4096)
mapped-walk m vd i h small =
    let d = m.cr3 + 4 * (vd / 2 ^ 22) in
    let e = table_of m vd + 4 * (vd / 4096 % 1024) in
    let same = load-store_apart m.mem e d (4096 * i + 7) (ground (arith, h.apart, h.address)) in
    let new = load-store_self m.mem e (4096 * i + 7) (omega arith) in
    let odd : (4096 * i + 7) % 2 ≡ 1 = omega arith in
    let at : frame (4096 * i + 7) ≡ 4096 * i = omega arith in
    rw (same, h.present, new, odd, at) refl

-- A missing page: when the user's part has a free frame, the memory ends below 2 ^ 32, and the
-- directory has a table for the address that does not overlap it, `do_no_page` comes back, with
-- the first free frame marked as taken, and the processor's translation then leads the address to
-- that frame, at the same offset.
pub do_no_page-walk :
    (m : Machine) (fuel error vd i : ℕ)
    → FirstUser m i
    → m.hmem < 2 ^ 32
    → HasTable m vd
    → (do_no_page fuel error vd m ≡ some (tt, mapped (take_frame m i) vd (4096 * i)))
      × (walk (mapped (take_frame m i) vd (4096 * i)) vd ≡ some (4096 * i + vd % 4096))
unfolding do_no_page
do_no_page-walk m fuel error vd i first bound h =
    let small : i < 2 ^ 20 = omega (arith, first.below) in
    let got = uget_free_page-first m i fuel first in
    let page : shl i 12 ≡ 4096 * i = omega arith in
    let h' : HasTable (take_frame m i) vd = record {
      address = h.address;
      present = h.present;
      apart = h.apart;
    } in
    let taken : (take_frame m i).mmap i ≢ 0 = ground arith in
    (
      rw (◌>>=◌, got, page, put_page-mapped (take_frame m i) fuel vd i h' small taken) refl,
      mapped-walk (take_frame m i) vd i h' small,
    )
