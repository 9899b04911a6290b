-- ===== src/Ne2k/Flag.antt =====
-- include/net/ne2k/ne2k.h: the bits of the registers that the driver uses. The prefix says which
-- register: the command (cmd), the interrupt status (isr), and the configurations of data (dcr), of
-- transmission (tcr) and of receipt (rcr).
use gml_vm.Base.{ℕ}

abbrev pub cmd_stop : ℕ
cmd_stop = 0x01

abbrev pub cmd_start : ℕ
cmd_start = 0x02

abbrev pub cmd_send : ℕ
cmd_send = 0x04

abbrev pub cmd_read_dma : ℕ
cmd_read_dma = 0x08

abbrev pub cmd_write_dma : ℕ
cmd_write_dma = 0x10

abbrev pub cmd_dma_abort : ℕ
cmd_dma_abort = 0x20

abbrev pub cmd_page00 : ℕ
cmd_page00 = 0x00

abbrev pub cmd_page01 : ℕ
cmd_page01 = 0x40

abbrev pub isr_prx : ℕ
isr_prx = 0x01

abbrev pub isr_ptx : ℕ
isr_ptx = 0x02

abbrev pub isr_rdc : ℕ
isr_rdc = 0x40

abbrev pub dcr_wts : ℕ
dcr_wts = 0x01

abbrev pub dcr_bos : ℕ
dcr_bos = 0x02

abbrev pub dcr_ls : ℕ
dcr_ls = 0x08

abbrev pub dcr_arm : ℕ
dcr_arm = 0x10

abbrev pub tcr_lb00 : ℕ
tcr_lb00 = 0x00

abbrev pub rcr_sep : ℕ
rcr_sep = 0x01

abbrev pub rcr_ar : ℕ
rcr_ar = 0x02

abbrev pub rcr_ab : ℕ
rcr_ab = 0x04

abbrev pub rcr_am : ℕ
rcr_am = 0x08
