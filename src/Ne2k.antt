-- ===== src/Ne2k.antt =====
-- net/ne2k/ne2k.c with include/net/ne2k/ne2k.h: the driver of the NE2000 network card.
pub mod Register
pub mod Flag
pub mod Card
pub mod Dma
pub mod Isr
pub mod Recv
pub mod Send
pub mod Show
