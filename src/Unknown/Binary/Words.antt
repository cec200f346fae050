-- ===== src/Unknown/Binary/Words.antt =====
-- encoding/binary's BigEndian, as far as binary.go uses it: a word as bytes, the highest first.
use thriftgo.Prelude.{
  ℕ, zero, suc, ◌+◌, ◌*◌, ◌/◌, ◌%◌, ◌<◌, ◌≡◌, refl, sym, List, [], ◌∷◌, ◌++◌, arith, length,
  length-append,
}

-- The `n` lowest bytes of `v`.
unfoldable pub be_bytes : ℕ → ℕ → List ℕ
be_bytes zero v = []
be_bytes (suc n) v = be_bytes n (v / 256) ++ v % 256 ∷ []

-- The word that bytes stand for, after a word `acc`.
unfoldable pub be_word : ℕ → List ℕ → ℕ
be_word acc [] = acc
be_word acc (b ∷ bs) = be_word (acc * 256 + b) bs

-- `v` is a word of `n` bytes.
abbrev pub IsWord : ℕ → ℕ → Type 0
IsWord zero v = v ≡ 0
IsWord (suc n) v = IsWord n (v / 256)

pub length-be_bytes : (n v : ℕ) → length (be_bytes n v) ≡ n
unfolding be_bytes
length-be_bytes zero v = refl
length-be_bytes (suc n) v =
    omega (arith, length-append (be_bytes n (v / 256)) (v % 256 ∷ []), length-be_bytes n (v / 256))

be_word-append :
    (acc : ℕ) (xs : List ℕ) (b : ℕ) → be_word acc (xs ++ b ∷ []) ≡ be_word acc xs * 256 + b
unfolding be_word
be_word-append acc [] b = refl
be_word-append acc (x ∷ xs) b = be_word-append (acc * 256 + x) xs b

pub be_word-be_bytes : (n v : ℕ) → IsWord n v → be_word 0 (be_bytes n v) ≡ v
unfolding be_bytes
be_word-be_bytes zero v h = unfold be_word in sym h
be_word-be_bytes (suc n) v h =
    omega (arith, be_word-append 0 (be_bytes n (v / 256)) (v % 256), be_word-be_bytes n (v / 256) h)

pub IsWord-1 : (v : ℕ) → v < 256 → IsWord 1 v
IsWord-1 v h = omega arith

pub IsWord-2 : (v : ℕ) → v < 65536 → IsWord 2 v
IsWord-2 v h = omega arith

pub IsWord-4 : (v : ℕ) → v < 4294967296 → IsWord 4 v
IsWord-4 v h = omega arith

pub IsWord-8 : (v : ℕ) → v < 18446744073709551616 → IsWord 8 v
IsWord-8 v h = omega arith
