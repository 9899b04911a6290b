-- ===== src/Ne2k/Register.antt =====
-- include/net/ne2k/ne2k.h: the ports of the card and the macros over them. `|` of constants is
-- kept as the header writes it.
use gml_vm.Base.{ℕ, ◌+◌, bit_and, bit_or, shr}
use gml_vm.Ne2k.Flag.{
  cmd_stop, cmd_start, cmd_send, cmd_read_dma, cmd_write_dma, cmd_dma_abort, cmd_page00, cmd_page01,
}
use gml_vm.Port.{Cmd, ◌>>=◌, ◌>>◌, pure, inb, outb}

abbrev pub command : ℕ
command = 0x300

abbrev pub page_start : ℕ
page_start = command + 0x1

abbrev pub page_stop : ℕ
page_stop = command + 0x2

abbrev pub boundary : ℕ
boundary = command + 0x3

abbrev pub transmit_page : ℕ
transmit_page = command + 0x4

abbrev pub transmit_status : ℕ
transmit_status = command + 0x4

abbrev pub transmit_byte_count0 : ℕ
transmit_byte_count0 = command + 0x5

abbrev pub transmit_byte_count1 : ℕ
transmit_byte_count1 = command + 0x6

abbrev pub interrupt_status : ℕ
interrupt_status = command + 0x7

abbrev pub current : ℕ
current = command + 0x7

abbrev pub remote_start_address0 : ℕ
remote_start_address0 = command + 0x8

abbrev pub remote_start_address1 : ℕ
remote_start_address1 = command + 0x9

abbrev pub remote_byte_count0 : ℕ
remote_byte_count0 = command + 0xa

abbrev pub remote_byte_count1 : ℕ
remote_byte_count1 = command + 0xb

abbrev pub receive_configuration : ℕ
receive_configuration = command + 0xc

abbrev pub transmit_configuration : ℕ
transmit_configuration = command + 0xd

abbrev pub data_configuration : ℕ
data_configuration = command + 0xe

abbrev pub interrupt_mask : ℕ
interrupt_mask = command + 0xf

abbrev pub ioport : ℕ
ioport = command + 0x10

-- `PAR0` to `PAR5` are six ports in a row, `MAR0` to `MAR7` eight.
abbrev pub par : ℕ → ℕ
par i = command + 0x1 + i

abbrev pub mar : ℕ → ℕ
mar i = command + 0x8 + i

module _ {S : Type 0} where
  -- `neCmd`
  abbrev pub ne_cmd : ℕ → Cmd S (Unit {0})
  ne_cmd cmd = outb cmd command

  -- `neWriteDMA` and `neReadDMA`
  abbrev pub ne_write_dma : Cmd S (Unit {0})
  ne_write_dma = ne_cmd (bit_or cmd_start cmd_write_dma)

  abbrev pub ne_read_dma : Cmd S (Unit {0})
  ne_read_dma = ne_cmd (bit_or cmd_start cmd_read_dma)

  -- `neGetIntState`, `neSetIntState` and the other registers that are read or written at once
  abbrev pub ne_get_int_state : Cmd S ℕ
  ne_get_int_state = inb interrupt_status

  abbrev pub ne_set_int_state : ℕ → Cmd S (Unit {0})
  ne_set_int_state state = outb state interrupt_status

  abbrev pub ne_set_int_mask : ℕ → Cmd S (Unit {0})
  ne_set_int_mask mask = outb mask interrupt_mask

  abbrev pub ne_set_data_config : ℕ → Cmd S (Unit {0})
  ne_set_data_config mode = outb (bit_or mode 0x80) data_configuration

  abbrev pub ne_set_transfer_config : ℕ → Cmd S (Unit {0})
  ne_set_transfer_config mode = outb (bit_or mode 0xe0) transmit_configuration

  abbrev pub ne_set_recv_config : ℕ → Cmd S (Unit {0})
  ne_set_recv_config mode = outb mode receive_configuration

  abbrev pub ne_set_transfer_page : ℕ → Cmd S (Unit {0})
  ne_set_transfer_page page = outb page transmit_page

  abbrev pub ne_set_recv_page : (start stop_page : ℕ) → Cmd S (Unit {0})
  ne_set_recv_page start stop_page = do outb start page_start; outb stop_page page_stop

  abbrev pub ne_set_boundary : ℕ → Cmd S (Unit {0})
  ne_set_boundary page = outb page boundary

  abbrev pub ne_get_boundary : Cmd S ℕ
  ne_get_boundary = inb boundary

  -- `neSetRemoteByteCount`, `neSetRemoteAddr`, `neSetTransferByteCount`: low byte, then high byte.
  abbrev pub ne_set_remote_byte_count : ℕ → Cmd S (Unit {0})
  ne_set_remote_byte_count count = do
    outb (bit_and count 0xff) remote_byte_count0
    outb (bit_and (shr count 8) 0xff) remote_byte_count1

  abbrev pub ne_set_remote_addr : ℕ → Cmd S (Unit {0})
  ne_set_remote_addr addr = do
    outb (bit_and addr 0xff) remote_start_address0
    outb (bit_and (shr addr 8) 0xff) remote_start_address1

  abbrev pub ne_set_transfer_byte_count : ℕ → Cmd S (Unit {0})
  ne_set_transfer_byte_count count = do
    outb (bit_and count 0xff) transmit_byte_count0
    outb (bit_and (shr count 8) 0xff) transmit_byte_count1

  -- `neSendPack`
  abbrev pub ne_send_pack : (page count : ℕ) → Cmd S (Unit {0})
  ne_send_pack page count = do
    ne_set_transfer_page page
    ne_set_transfer_byte_count count
    ne_cmd (bit_or (bit_or cmd_dma_abort cmd_send) cmd_start)

  -- `neSetMAC` and `neSetMap`: page 1 is selected for the writes and page 0 after them.
  abbrev pub ne_set_mac : (macl mach : ℕ) → Cmd S (Unit {0})
  ne_set_mac macl mach = do
    ne_cmd (bit_or (bit_or cmd_page01 cmd_stop) cmd_dma_abort)
    outb (bit_and macl 0xff) (par 0)
    outb (bit_and (shr macl 8) 0xff) (par 1)
    outb (bit_and (shr macl 16) 0xff) (par 2)
    outb (bit_and (shr macl 24) 0xff) (par 3)
    outb (bit_and mach 0xff) (par 4)
    outb (bit_and (shr mach 8) 0xff) (par 5)
    ne_cmd (bit_or (bit_or cmd_page00 cmd_start) cmd_dma_abort)

  abbrev pub ne_set_map : (mapl maph : ℕ) → Cmd S (Unit {0})
  ne_set_map mapl maph = do
    ne_cmd (bit_or (bit_or cmd_page01 cmd_stop) cmd_dma_abort)
    outb (bit_and mapl 0xff) (mar 0)
    outb (bit_and (shr mapl 8) 0xff) (mar 1)
    outb (bit_and (shr mapl 16) 0xff) (mar 2)
    outb (bit_and (shr mapl 24) 0xff) (mar 3)
    outb (bit_and maph 0xff) (mar 4)
    outb (bit_and (shr maph 8) 0xff) (mar 5)
    outb (bit_and (shr maph 16) 0xff) (mar 6)
    outb (bit_and (shr maph 24) 0xff) (mar 7)
    ne_cmd (bit_or (bit_or cmd_page00 cmd_start) cmd_dma_abort)

  -- `neSetCurrnet` and `neGetCurrnet`
  abbrev pub ne_set_current : ℕ → Cmd S (Unit {0})
  ne_set_current page = do
    ne_cmd (bit_or (bit_or cmd_page01 cmd_stop) cmd_dma_abort)
    outb page current
    ne_cmd (bit_or (bit_or cmd_page00 cmd_start) cmd_dma_abort)

  abbrev pub ne_get_current : Cmd S ℕ
  ne_get_current = do
    ne_cmd (bit_or (bit_or cmd_page01 cmd_start) cmd_dma_abort)
    v ← inb current
    ne_cmd (bit_or (bit_or cmd_page00 cmd_start) cmd_dma_abort)
    pure v
