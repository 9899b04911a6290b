-- ===== src/Examples/Checking.antt =====
-- Runs of the checksum, of the lengths and of the byte orders.
use gml_vm.Base.{◌+◌, ◌≡◌, ◌↔◌, refl, [], ◌∷◌, ◌++◌, arith, length}
use gml_vm.Net.ByteOrder.{short_swap, be16}
use gml_vm.Net.Message.{bytes, content}
use gml_vm.Net.Ip.{check_sum, words, total_len, ip_header}
use gml_vm.Net.Ip.Checksum.{check_sum-check_sum}
use gml_vm.Net.Ip.Frame.{ip_header-check_sum}
use gml_vm.Net.Udp.{udp_frag}
use gml_vm.Net.Udp.Length.{udp_frag_lem}
use gml_vm.Examples.Setup.{zeros, two}

check_sum-check_sum_example :
    check_sum
      (0x45 ∷ 0xffff ∷ [] ++ (check_sum (0x45 ∷ 0xffff ∷ [] ++ (0 ∷ 0x1234 ∷ [])) ∷ 0x1234 ∷ []))
    ≡ 0
check_sum-check_sum_example =
    check_sum-check_sum (0x45 ∷ 0xffff ∷ []) (0x1234 ∷ []) (omega arith) (omega arith) (omega arith)

ip_header-check_sum_example :
    check_sum (words 10 0 (ip_header zeros 128 17 0xc701a8c0 0x6501a8c0)) ≡ 0
ip_header-check_sum_example =
    ip_header-check_sum zeros 128 17 0xc701a8c0 0x6501a8c0 (omega arith) refl refl

udp_frag_lem_example :
    (bytes 8 0 (udp_frag zeros two (short_swap 8000) (short_swap 1024)).at
      ≡ be16 1024 ++ (be16 8000 ++ (be16 (8 + 2) ++ (0 ∷ 0 ∷ []))))
    × ((20 + (8 + 2)
          ≡ total_len (udp_frag zeros two (short_swap 8000) (short_swap 1024) ∷ two ∷ two ∷ []) 20)
        ↔ (length (content (two ∷ [])) ≡ 0))
unfolding content bytes
udp_frag_lem_example = udp_frag_lem zeros two (two ∷ []) 8000 1024 (omega arith)
