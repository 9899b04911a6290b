-- ===== src/Net/State.antt =====
-- What the network code keeps between calls: `sendQueue` and `MAC` of net/ne2k/ne2k.c and
-- `arpTable` of net/arp.c, whose list type `T` comes from outside the repository. `none` is NULL.
use gml_vm.Base.{ℕ, List, Option}
use gml_vm.Net.Message.{Msg}

pub record Net (T : Type 0) : Type 0 where
  pub queue : List Msg
  pub mac : ℕ
  pub table : Option T
