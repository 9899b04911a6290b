-- ===== src/Ne2k/Recv.antt =====
-- Receiving in net/ne2k/ne2k.c: `neInit` and `neRecv`.
pub mod Take
pub mod Packet
pub mod Ring
use gml_vm.Base.{
  ℕ, ◌+◌, ◌-◌, ◌*◌, ◌%◌, ◌^◌, Bool, List, [], ◌∷◌, Option, none, some, ◌==◌, ltb, if◌then◌else◌,
  ◌||◌, bit_or, get_or, length, shl, u8, sub16,
}
use gml_vm.Port.{Cmd, ◌>>=◌, ◌>>◌, pure, get, put, inb, outb}
use gml_vm.Net.ByteOrder.{load16, load32}
use gml_vm.Net.Message.{Frag, Msg, over}
use gml_vm.Net.State.{Net}
use gml_vm.Ne2k.Flag.{
  cmd_stop, cmd_start, cmd_dma_abort, dcr_wts, dcr_bos, dcr_ls, dcr_arm, tcr_lb00, rcr_sep, rcr_ar,
  rcr_ab, rcr_am,
}
use gml_vm.Ne2k.Register.{
  ne_cmd, ne_set_current, ne_get_current, ne_set_remote_byte_count, ne_set_mac, ne_set_map,
  ne_set_data_config, ne_set_recv_config, ne_set_transfer_page, ne_set_transfer_config,
  ne_set_recv_page, ne_set_boundary, ne_get_boundary, ne_set_int_state, ne_set_int_mask,
}
use gml_vm.Ne2k.Dma.{nic_to_pc}
use gml_vm.Ne2k.Send.{trans_page}

-- `RECV_PAGE` and `RECV_PAGE_END`
abbrev pub recv_page : ℕ
recv_page = 0x46

abbrev pub recv_page_end : ℕ
recv_page_end = 0x7f

-- The mask `imr`, a variable that no code assigns.
abbrev pub imr : ℕ
imr = 0x1b

-- `recvHeadT`
pub record RecvHead : Type 0 where
  pub state : ℕ
  pub next : ℕ
  pub len : ℕ

unfoldable pub recv_head : List ℕ → RecvHead
recv_head xs = record {
  state = get_or xs 0 0;
  next = get_or xs 1 0;
  len = get_or xs 2 0 + 256 * get_or xs 3 0;
}

-- The page behind the boundary, in the ring.
unfoldable pub next_page : (boundary : ℕ) → ℕ
next_page b = let bound = u8 (b + 1) in if ltb recv_page_end bound then recv_page else bound

-- `recv.next>RECV_PAGE_END||recv.next<RECV_PAGE||recv.len>0x600`, the length less the checksum
unfoldable pub rejects : (next len : ℕ) → Bool
rejects next len = ltb recv_page_end next || ltb next recv_page || ltb 0x600 len

module _ {S : Type 0} where
  -- The ring is emptied.
  unfoldable pub reset_ring : Cmd S Msg
  reset_ring = do ne_set_current recv_page; ne_set_boundary recv_page_end; pure []

  -- `old` is the memory that `malloc` gives, `none` for NULL.
  unfoldable pub take_packet : Option (ℕ → ℕ) → (bound next len : ℕ) → Cmd S Msg
  take_packet none bound next len = pure []
  take_packet (some old) bound next len = do
    xs ← nic_to_pc (bit_or (shl bound 8) 4) len
    ne_set_boundary (next - 1)
    pure (record { len = len; at = over xs old } ∷ [])

  -- What follows once the header is read.
  unfoldable pub judge : Option (ℕ → ℕ) → (bound : ℕ) → RecvHead → Cmd S Msg
  unfolding rejects reset_ring take_packet
  judge old bound head =
      let len = sub16 head.len 4 in
      if rejects head.next len then reset_ring else take_packet old bound head.next len

  unfoldable pub recv_packet : Option (ℕ → ℕ) → (bound : ℕ) → Cmd S Msg
  unfolding recv_head judge
  recv_packet old bound = do xs ← nic_to_pc (shl bound 8) 4; judge old bound (recv_head xs)

  -- The message received, [] for NULL.
  unfoldable pub ne_recv : Option (ℕ → ℕ) → Cmd S Msg
  unfolding next_page recv_packet
  ne_recv old = do
    b ← ne_get_boundary
    current ← ne_get_current
    let bound = next_page b
    if bound == current then pure [] else recv_packet old bound

-- The bytes 0, 2, 4, 6, 8 and 10 of the 12 that were read, then what stays in the array.
unfoldable pub pick_mac : List ℕ → List ℕ
pick_mac xs =
    get_or xs 0 0
    ∷ get_or xs 2 0
    ∷ get_or xs 4 0
    ∷ get_or xs 6 0
    ∷ get_or xs 8 0
    ∷ get_or xs 10 0
    ∷ get_or xs 6 0
    ∷ get_or xs 7 0
    ∷ []

unfoldable pub ne_init : {T : Type 0} → Cmd (Net T) ℕ
unfolding pick_mac
ne_init = do
  ne_cmd (bit_or cmd_dma_abort cmd_stop)
  ne_set_data_config (bit_or (bit_or (bit_or dcr_wts dcr_ls) dcr_arm) dcr_bos)
  ne_set_remote_byte_count 0
  ne_set_recv_config (bit_or (bit_or (bit_or rcr_am rcr_sep) rcr_ab) rcr_ar)
  ne_set_transfer_page trans_page
  ne_set_transfer_config tcr_lb00
  ne_set_recv_page recv_page recv_page_end
  ne_set_boundary recv_page
  ne_set_current (recv_page + 1)
  ne_set_int_state 0xff
  ne_set_int_mask imr
  ne_cmd (bit_or cmd_dma_abort cmd_start)
  xs ← nic_to_pc 0 12
  let mac = over (pick_mac xs) (λ _. 0)
  ne_set_mac (load32 mac 0) (load32 mac 4)
  ne_set_map 0xffff_ffff 0xffff_ffff
  s ← get
  let value = load32 mac 0 + 2 ^ 32 * load32 mac 4
  put (record s { mac = value })
  pure value
