-- ===== src/Prelude/Bytes.antt =====
-- Go strings as lists of bytes, and what the code uses of the package strings.
use Prim.Native.Nat.{ℕ}
use Prim.Native.String.{String}
use Prim.Native.Char.{code}
use mathlib.Core.Path.{◌≡◌, refl, subst}
use mathlib.Core.Logic.{◌↔◌}
use mathlib.Core.Bool.{Bool, true, false, ◌&&◌, ◌||◌}
use mathlib.Core.List.{List, [], ◌∷◌}
use native.Mathlib.Omega.{arith}
use thriftgo.Prelude.Tests.{◌==◌, if◌then◌else◌}
use thriftgo.Prelude.Names.{Equality}

abbrev pub Bytes : Type 0
Bytes = List ℕ

-- The bytes of a literal in ASCII.
abbrev pub codes : String → Bytes
codes String.[] = []
codes (String.◌∷◌ c s) = code c ∷ codes s

abbrev pub same_bytes : Bytes → Bytes → Bool
same_bytes [] [] = true
same_bytes [] (b ∷ t) = false
same_bytes (a ∷ s) [] = false
same_bytes (a ∷ s) (b ∷ t) = a == b && same_bytes s t

same_bytes_refl : (s : Bytes) → same_bytes s s ≡ true
same_bytes_refl [] = refl
same_bytes_refl (a ∷ s) = ground (arith, same_bytes_refl s)

same_bytes_sound : (s t : Bytes) → same_bytes s t ≡ true → s ≡ t
same_bytes_sound [] [] h = refl
same_bytes_sound [] (b ∷ t) h = ground (arith, h)
same_bytes_sound (a ∷ s) [] h = ground (arith, h)
same_bytes_sound (a ∷ s) (b ∷ t) h =
    let e : a ≡ b = ground (arith, h) in
    let r : same_bytes s t ≡ true = ground (arith, h) in rw (e, same_bytes_sound s t r) refl

pub same_bytes_iff : (s t : Bytes) → (same_bytes s t ≡ true) ↔ (s ≡ t)
same_bytes_iff s t =
    (same_bytes_sound s t, λ e. subst (λ u. same_bytes s u ≡ true) e (same_bytes_refl s))

instance abbrev pub bytes_eq : Equality Bytes
bytes_eq = record { same = same_bytes; same_iff = same_bytes_iff }

-- A byte of the text is `c`: strings.Contains with a text of one byte.
abbrev pub has_byte : ℕ → Bytes → Bool
has_byte c [] = false
has_byte c (b ∷ s) = c == b || has_byte c s

abbrev pub cut_head : ℕ → List Bytes → List Bytes
cut_head c [] = (c ∷ []) ∷ []
cut_head c (p ∷ ps) = (c ∷ p) ∷ ps

-- strings.Split at a separator of one byte
unfoldable pub split : ℕ → Bytes → List Bytes
split sep [] = [] ∷ []
split sep (b ∷ s) = let rest = split sep s in if sep == b then [] ∷ rest else cut_head b rest

-- `arr[len(arr)-1]`, of an array that is not empty
unfoldable pub last_piece : List Bytes → Bytes
last_piece [] = []
last_piece (p ∷ []) = p
last_piece (p ∷ q ∷ ps) = last_piece (q ∷ ps)

-- strings.TrimSuffix: the text without the suffix, if it ends in it
unfoldable pub trim_suffix : Bytes → Bytes → Bytes
trim_suffix [] t = []
trim_suffix (b ∷ s) t = let rest = trim_suffix s t in if same_bytes (b ∷ s) t then [] else b ∷ rest
