-- ===== src/Lib.antt =====
-- A model of gml-vm, a small kernel for the PC with an NE2000 driver and a stack of ARP, IP and UDP
-- over Ethernet.
--
-- The parts and the files that model them. Paths are those of the repository.
--
--   Base       shared helpers: Boolean tests, lists, widths and bits of words.
--   Port       include/x86/io.h and cli and sti of include/x86/system.h. A run of a driver is a
--              trace of instructions (`Event`); what the ports answer is a list of replies.
--   Ne2k       the driver. Ne2k/Register and Ne2k/Flag are include/net/ne2k/ne2k.h; Ne2k/Dma, Ne2k/Send,
--              Ne2k/Recv, Ne2k/Isr and Ne2k/Show are net/ne2k/ne2k.c: `nic_to_pc` and `pc_to_nic` are NICtoPC and
--              PCtoNIC, `ne_init`, `ne_send`, `ne_recv` and `ne_isr` are neInit, neSend, neRecv and
--              neISR. Ne2k/Card is no part of the program: it is the card as doc/ne2kReg describes
--              it, which the traces are run on: remote reads and writes of words under the command
--              register's remote command and the remote byte count, transmission, and the registers that
--              place the ring. Words are moved at even addresses only, and the remote address does
--              not turn back at the end of the ring.
--   Net        the protocols. Net/ByteOrder is include/net/in.h, Net/Message include/vm/msg.h,
--              Net/Ethernet and Net/Receive net/ethernet.c, Net/Arp net/arp.c, Net/Ip net/ip.c and
--              Net/Udp net/udp.c. Net/State is what they keep: the send queue, the hardware
--              address and the table of addresses. Net/Legacy is net/ARP.c and net/802/eth.c, an
--              earlier ARP that the makefile does not name.
--   Kernel     Kernel/Machine is the machine; Kernel/Frames and Kernel/Paging are kernel/mm.c,
--              where Kernel/Paging/Fault is put_page and do_no_page, and Kernel/Paging/Share
--              do_wp_page, Kernel/Paging/Map mmap_init with memory_map_t of include/multiboot.h, and
--              Kernel/Paging/Clone create_mm; Kernel/Malloc is kernel/malloc.c, where
--              Kernel/Malloc/Pool has clean, malloc and free; Kernel/Trap is kernel/trap.c with
--              include/x86/trap.h, Kernel/Memory is c/string.c and Kernel/Console kernel/dg.c.
--   Start      kernel/init.c with multiboot_info_t of include/multiboot.h: `cmain` puts the parts
--              together.
--   Examples   the theorems at concrete inputs.
--
-- How they interact. udpSend calls ipSend, ipSend calls ipToMac and ethSend, and arpRequest calls
-- ethSend; ethSend puts a header in front of the message and calls neSend. The interrupt handler
-- neISR calls neRecv and hands the packet to ethRecv, which hands it to arpRecv or ipRecv, or it
-- sends on from the queue. What the interrupts do while ipToMac waits is a parameter, `irq`.
--
-- Conventions. Numbers are natural numbers, with the width of a C type written out (u8, u16, u32,
-- shl). A null pointer is `none` or the empty message. A read through it, a loop that polls longer
-- than there are replies, and `exit` each end a run (`Stop`). Memory that malloc gives holds
-- arbitrary bytes.
--
-- The heap of the kernel is a list of nodes in memory, which is seen as one node at each address, since
-- a node's header is read and written as a whole where nodes do not overlap. A heap in order
-- (`IsHeap`, Kernel/Malloc/Room) is linked both ways behind the static node and sorted by size, and
-- its nodes do not overlap. Kernel/Malloc/Tile adds the nodes that were given out: `IsTiled` says that
-- all nodes together tile the pages that were taken for them. Tile/Unite, Tile/Free, Tile/Take and
-- Tile/Page are the steps on such a heap; Tile/Gather, Tile/Onward, Tile/Stride and Tile/Clean are the
-- loops of `clean`; Tile/Obtain and Tile/Session put them together. malloc takes its pages from the
-- frame allocator.
--
-- Fuel. The functions on the list of free nodes take fuel, for which the length of the list is
-- enough. `clean` goes over a node that has grown once more, so that it needs up to twice that: the
-- nodes in the list and those in front of it together become fewer with each round. `grow` takes
-- fuel for the pages that it may add, and mmap_init for the areas of the map.
-- get_free_page spins until a frame is free. `get_free_page` and what calls it take the
-- number of rounds; a round that finds no frame changes nothing, so one round decides, and the
-- result `none` for every number of rounds means that the code never comes back.
--
-- Parameters. The list that holds the table of addresses is declared in include/glib/list.h and
-- its code is not in the repository: `ListClass` states what newList, find and add promise. What
-- malloc returns on the paths of a packet is `Heap`, which is not NULL but for the item of the table
-- of addresses and the message that is received. The call of memset in ipSend has the meaning
-- that C gives it. The addresses of the handlers of kernel/int.S are `Handlers`. The array mmap and the pages handed out do not overlap.
--
-- Not modelled: the assembler sources; kernel/msg.c, whose body stands in a comment; the headers of
-- glib, whose code is not in the repository; vm, which holds stubs; and the boot code and the tools of
-- the host in x86 and host. The processor's cache of translations, which refpage() empties, is no
-- part of the machine here.
pub mod Base
pub mod Port
pub mod Kernel
pub mod Net
pub mod Ne2k
pub mod Start
pub mod Examples
