-- ===== src/Port/Trace.antt =====
-- The values that a run sends to a port.
use gml_vm.Base.{ℕ, ◌≡◌, refl, List, [], ◌∷◌, ◌++◌, arith, ◌==◌, if◌then◌else◌}
use gml_vm.Port.{Event, out8, out16, in8, in16, cli, sti, print}

-- The values that a run sends to a port, in order.
abbrev pub sent_to : ℕ → List Event → List ℕ
sent_to p [] = []
sent_to p (out8 q v ∷ es) = if q == p then v ∷ sent_to p es else sent_to p es
sent_to p (out16 q v ∷ es) = sent_to p es
sent_to p (in8 q ∷ es) = sent_to p es
sent_to p (in16 q ∷ es) = sent_to p es
sent_to p (cli ∷ es) = sent_to p es
sent_to p (sti ∷ es) = sent_to p es
sent_to p (print xs ∷ es) = sent_to p es

pub sent_to-append :
    (p : ℕ) (es fs : List Event) → sent_to p (es ++ fs) ≡ sent_to p es ++ sent_to p fs
sent_to-append p [] fs = refl
sent_to-append p (out8 q v ∷ es) fs = ground (arith, sent_to-append p es fs)
sent_to-append p (out16 q v ∷ es) fs = sent_to-append p es fs
sent_to-append p (in8 q ∷ es) fs = sent_to-append p es fs
sent_to-append p (in16 q ∷ es) fs = sent_to-append p es fs
sent_to-append p (cli ∷ es) fs = sent_to-append p es fs
sent_to-append p (sti ∷ es) fs = sent_to-append p es fs
sent_to-append p (print xs ∷ es) fs = sent_to-append p es fs

-- Only reads of ports.
abbrev pub IsRead : List Event → Type 0
IsRead es = (p : ℕ) → sent_to p es ≡ []
