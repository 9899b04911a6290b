-- ===== src/Examples/Starting.antt =====
-- Runs of the start of the kernel, of its paging and of the earlier ARP.
use gml_vm.Base.{ℕ, refl, [], ◌∷◌, ◌++◌, ◌==◌, if◌then◌else◌, arith}
use gml_vm.Kernel.Machine.{load}
use gml_vm.Kernel.Paging.{open_pagination}
use gml_vm.Kernel.Paging.Map.{MemoryMap, mmap_init}
use gml_vm.Kernel.Paging.Map.Areas.{Holds, Started, mmap_init-Started}
use gml_vm.Kernel.Paging.Map.Boot.{mmap_init-IsIdentity}
use gml_vm.Kernel.Paging.Clone.{share_pages}
use gml_vm.Kernel.Paging.Clone.Protect.{Shared, share_pages-Shared}
use gml_vm.Kernel.Paging.Identity.Build.{HasRoom, IsIdentity, open_pagination-IsIdentity}
use gml_vm.Net.ByteOrder.{be16, be32, le32}
use gml_vm.Net.Message.{bytes}
use gml_vm.Net.Ethernet.{ethertype_arp}
use gml_vm.Net.Arp.{broadcast, zero_mac}
use gml_vm.Net.Arp.Frame.{arp_packet}
use gml_vm.Net.Legacy.{mac_bytes, ask_mac}
use gml_vm.Net.Legacy.Frame.{IsReady, Returned, ask_mac-Returned}
use gml_vm.Examples.Setup.{zeros, card, net, polls, polled}
use gml_vm.Examples.Allocating.{machine, first_free, handlers}

room : HasRoom machine 0x401
room = record { from = omega arith; below = omega arith; bound = omega arith }

open_pagination-IsIdentity_example : IsIdentity machine 0x401 (open_pagination 1 machine)
open_pagination-IsIdentity_example =
    open_pagination-IsIdentity 0 0x401 machine first_free room (λ j from below. ground arith)

-- Two areas at 0x1000: 32 megabytes that can be used, and one that cannot.
abbrev map_memory : ℕ → ℕ
map_memory j =
    if j == 0x1000
    then 20
    else if j == 0x100f
    then 2
    else if j == 0x1014
    then 1
    else if j == 0x1018
    then 20
    else if j == 0x1026
    then 0x10
    else if j == 0x102c
    then 2
    else 0

abbrev usable : MemoryMap
usable = record {
  size = 20;
  base_addr_low = 0;
  base_addr_high = 0;
  length_low = 0x2000000;
  length_high = 0;
  kind = 1;
}

abbrev reserved : MemoryMap
reserved = record {
  size = 20;
  base_addr_low = 0;
  base_addr_high = 0;
  length_low = 0x100000;
  length_high = 0;
  kind = 2;
}

map-Holds : Holds map_memory 0x1000 0x1030 (usable ∷ reserved ∷ [])
unfolding load
map-Holds = (refl, omega arith, (refl, omega arith, refl))

mmap_init-Started_example :
    Started handlers 3
      (record machine { mem = map_memory })
      (usable ∷ reserved ∷ [])
      (mmap_init handlers 3 0x1000 0x30 (record machine { mem = map_memory }))
mmap_init-Started_example =
    mmap_init-Started handlers 3 0x1000 0x30 (record machine { mem = map_memory })
      (usable ∷ reserved ∷ []) map-Holds (omega arith) (omega arith)

-- A page table at 0x5000 with an entry for the frame 0x401.
abbrev table_memory : ℕ → ℕ
table_memory j =
    if j == 0x5000 then 7 else if j == 0x5001 then 0x10 else if j == 0x5002 then 0x40 else 0

share_pages-Shared_example :
    Shared 1024 0 0x5000
      (record machine { mem = table_memory })
      (share_pages 1024 0 0x5000 (record machine { mem = table_memory }))
share_pages-Shared_example =
    share_pages-Shared 1024 0 0x5000 (record machine { mem = table_memory })

ready : IsReady card zeros zeros 0x22 [] polls
ready = record {
  command = omega arith;
  polled = polled;
  bank = refl;
  header_bytes = λ i. omega arith;
  arp_bytes = λ i. omega arith;
}

ask_mac-Returned_example :
    Returned 0 net card
      (broadcast
        ++ (mac_bytes 0
            ++ (be16 ethertype_arp
                ++ (arp_packet 1 (mac_bytes 0x2b0) (be32 0xc0a80165) zero_mac (le32 0x0101a8c0)
                    ++ bytes 18 28 zeros))))
      []
      (ask_mac zeros zeros 0x0101a8c0 0x2b0 net (0x22 ∷ polls))
ask_mac-Returned_example = ask_mac-Returned net card zeros zeros 0x22 ready 0x0101a8c0 0x2b0

mmap_init-IsIdentity_example :
    IsIdentity
      (record machine { mem = map_memory })
      0x400
      (mmap_init handlers 3 0x1000 0x30 (record machine { mem = map_memory }))
mmap_init-IsIdentity_example =
    mmap_init-IsIdentity handlers 2 0x1000 0x30 (record machine { mem = map_memory })
      (usable ∷ reserved ∷ []) map-Holds (omega arith) (omega arith) (omega arith) (omega arith)
      (λ j from below. ground arith)
