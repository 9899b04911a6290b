-- ===== src/Net/Message.antt =====
-- include/vm/msg.h: a message is a chain of fragments. A fragment is its length and the memory
-- that starts at `msg->msg`, so that a read behind the end is defined by what stands there.
use gml_vm.Base.{
  ℕ, zero, suc, ◌+◌, ◌<◌, ◌≡◌, List, [], ◌∷◌, ◌++◌, refl, arith, ltb, lt→ltb, if◌then◌else◌, length,
  get_or, ap, ap₂,
}

-- `msgT` without its link; a chain linked by `next` is a list.
pub record Frag : Type 0 where
  pub len : ℕ
  pub at : ℕ → ℕ

abbrev pub Msg : Type 0
Msg = List Frag

-- Memory in which `xs` has been written over what stood there.
abbrev pub over : List ℕ → (ℕ → ℕ) → ℕ → ℕ
over xs old i = if ltb i (length xs) then get_or xs i 0 else old i

-- The `n` bytes from index `i` on.
unfoldable pub bytes : ℕ → ℕ → (ℕ → ℕ) → List ℕ
bytes zero i m = []
bytes (suc n) i m = m i ∷ bytes n (i + 1) m

-- What a chain holds on the wire, fragment after fragment.
unfoldable pub content : Msg → List ℕ
content [] = []
content (f ∷ fs) = bytes f.len 0 f.at ++ content fs

pub length-bytes : (n i : ℕ) (m : ℕ → ℕ) → length (bytes n i m) ≡ n
unfolding bytes
length-bytes zero i m = refl
length-bytes (suc n) i m = ap suc (length-bytes n (i + 1) m)

-- Bytes read back from where they were written, the first of them at index `i`.
bytes_from :
    (xs : List ℕ) (i : ℕ) (m : ℕ → ℕ)
    → ((j : ℕ) → j < length xs → m (i + j) ≡ get_or xs j 0)
    → bytes (length xs) i m ≡ xs
unfolding bytes
bytes_from [] i m h = refl
bytes_from (x ∷ xs) i m h = ap₂ ◌∷◌ (ground (arith, h 0)) (
    bytes_from xs (i + 1) m
      λ j p. let next : i + 1 + j ≡ i + suc j = omega arith in rw next (h (suc j) (omega arith)))

pub bytes-over : (xs : List ℕ) (old : ℕ → ℕ) → bytes (length xs) 0 (over xs old) ≡ xs
bytes-over xs old =
    bytes_from xs 0 (over xs old)
      λ j p. let first : 0 + j ≡ j = omega arith in rw (first, lt→ltb j (length xs) p)

-- Two stretches of memory that agree, and a stretch in two parts.
pub bytes-ext :
    (n a b : ℕ) (m m' : ℕ → ℕ)
    → ((i : ℕ) → i < n → m (a + i) ≡ m' (b + i))
    → bytes n a m ≡ bytes n b m'
unfolding bytes
bytes-ext zero a b m m' h = refl
bytes-ext (suc n) a b m m' h =
    ap₂ ◌∷◌ (ground (arith, h 0))
      (bytes-ext n (a + 1) (b + 1) m m' λ i p. ground (arith, h (suc i)))

pub bytes-append : (n k a : ℕ) (m : ℕ → ℕ) → bytes (n + k) a m ≡ bytes n a m ++ bytes k (a + n) m
unfolding bytes
bytes-append zero k a m =
    let none : 0 + k ≡ k = omega arith in let here : a + 0 ≡ a = omega arith in rw (none, here)
bytes-append (suc n) k a m =
    let more : suc n + k ≡ suc (n + k) = omega arith in
    let far : a + suc n ≡ a + 1 + n = omega arith in rw (more, far, bytes-append n k (a + 1) m)
