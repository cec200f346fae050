-- ===== src/FieldMask/Path/Scan.antt =====
-- How far a literal and a quoted string of fieldmask/path.go go, and the tokens of the separators.
use thriftgo.Prelude.{
  ℕ, ◌≤◌, ◌<◌, ◌≡◌, ◌⊎◌, refl, none, some, [], ◌∷◌, Bool, true, false, ◌&&◌, length, leb, ◌==◌,
  if◌then◌else◌, Bool-cases, inl, inr, arith,
}
use thriftgo.Prelude.Bytes.{Bytes, has_byte}
use thriftgo.Go.Outcome.{ok}
use thriftgo.FieldMask.Path.{
  PathType, lit_str, lit_int, quoted, root, field, index_l, index_r, map_l, map_r, elem, any, eof,
  error, new_path_token, separators, lit_scan, str_scan, sep_type,
}

pub lit_scan_le : (first is_int : Bool) (s : Bytes) → (lit_scan first is_int s).0 ≤ length s
unfolding lit_scan
lit_scan_le first is_int [] = omega arith
lit_scan_le first is_int (c ∷ s) =
    let a = lit_scan_le false (if first then true else is_int) s in
    let b = lit_scan_le false false s in
    elim (Bool-cases (has_byte c separators)) [
      | inl e ↦ rw e (omega arith)
      | inr e ↦ elim (Bool-cases (leb 48 c && leb c 57)) [
        | inl d ↦ rw (e, d) (omega arith)
        | inr d ↦ rw (e, d) (omega arith)
      ]
    ]

-- A literal takes a byte, unless it stands at a byte that ends it.
pub lit_scan_moves :
    (c : ℕ) (s : Bytes)
    → ((has_byte c separators ≡ true) × (lit_scan true false (c ∷ s) ≡ (0, false)))
      ⊎ (0 < (lit_scan true false (c ∷ s)).0)
unfolding lit_scan
lit_scan_moves c s = elim (Bool-cases (has_byte c separators)) [
  | inl e ↦ inl (e, rw e refl)
  | inr e ↦ elim (Bool-cases (leb 48 c && leb c 57)) [
    | inl d ↦ inr (rw (e, d) (omega arith))
    | inr d ↦ inr (rw (e, d) (omega arith))
  ]
]

-- The backslash ends a literal, and is neither a token of its own nor a quotation mark.
pub sep_type-backslash :
    (c : ℕ) → has_byte c separators ≡ true → sep_type c ≡ none → (c == 34) ≡ false → c ≡ 92
unfolding separators
sep_type-backslash c h plain other = ground (arith, h, plain, other)

pub str_scan_moves : (is_open : Bool) (c : ℕ) (s : Bytes) → 0 < str_scan is_open (c ∷ s)
unfolding str_scan
str_scan_moves is_open c [] = elim (Bool-cases (c == 92)) [
  | inl e ↦ rw e (omega arith)
  | inr e ↦ rw e (omega arith)
]
str_scan_moves is_open c (d ∷ s) = elim (Bool-cases (c == 92)) [
  | inl e ↦ rw e (omega arith)
  | inr e ↦ elim (Bool-cases (c == 34)) [
    | inl q ↦ elim (Bool-cases is_open) [
      | inl o ↦ rw (e, q, o) (omega arith)
      | inr o ↦ rw (e, q, o) (omega arith)
    ]
    | inr q ↦ rw (e, q) (omega arith)
  ]
]

-- The token of a separator has no text.
pub new_path_token-sep_type :
    (t : PathType) (c start stop : ℕ)
    → sep_type c ≡ some t
    → new_path_token t [] start stop
      ≡ ok (record { typ = t; text = []; number = 0; start = start; stop = stop })
unfolding new_path_token
new_path_token-sep_type lit_str c start stop h = refl
new_path_token-sep_type lit_int c start stop h = let never : ⊥ = ground (arith, h) in elim never [ ]
new_path_token-sep_type quoted c start stop h = refl
new_path_token-sep_type root c start stop h = refl
new_path_token-sep_type field c start stop h = refl
new_path_token-sep_type index_l c start stop h = refl
new_path_token-sep_type index_r c start stop h = refl
new_path_token-sep_type map_l c start stop h = refl
new_path_token-sep_type map_r c start stop h = refl
new_path_token-sep_type elem c start stop h = refl
new_path_token-sep_type any c start stop h = refl
new_path_token-sep_type eof c start stop h = let never : ⊥ = ground (arith, h) in elim never [ ]
new_path_token-sep_type error c start stop h = let never : ⊥ = ground (arith, h) in elim never [ ]
