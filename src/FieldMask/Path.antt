-- ===== src/FieldMask/Path.antt =====
-- fieldmask/path.go: the tokens of a path.
pub mod Advance
pub mod Scan
use thriftgo.Prelude.{
  ℕ, zero, suc, ◌+◌, ◌-◌, ◌*◌, ◌^◌, ◌≡◌, List, Option, none, some, Bool, true, false, not, ◌&&◌,
  ◌||◌, [], ◌∷◌, if◌then◌else◌, ◌==◌, ltb, leb, length, take, drop, String,
}
use thriftgo.Prelude.Ints.{ℤ, pos}
use thriftgo.Prelude.Bytes.{Bytes, codes, has_byte}
use thriftgo.Go.Outcome.{Outcome, ok, err, panic, stuck, ◌>>=◌}

pub data PathType : Type 0 where
  lit_str : PathType
  lit_int : PathType
  quoted : PathType
  root : PathType
  field : PathType
  index_l : PathType
  index_r : PathType
  map_l : PathType
  map_r : PathType
  elem : PathType
  any : PathType
  eof : PathType
  error : PathType

-- `val` holds the text of a token, or the number of an integer.
pub record PathToken : Type 0 where
  pub typ : PathType
  pub text : Bytes
  pub number : ℕ
  pub start : ℕ
  pub stop : ℕ

-- The errors of this package, by their texts.
abbrev pub Result : Type 0 → Type 0
Result A = Outcome String A

abbrev is_digit : ℕ → Bool
is_digit c = leb 48 c && leb c 57

-- The number that a text of digits writes: strconv.Atoi, which refuses what an int64 does not hold.
abbrev digits_value : ℕ → Bytes → ℕ
digits_value n [] = n
digits_value n (c ∷ s) = digits_value (n * 10 + (c - 48)) s

unfoldable pub atoi : Bytes → Option ℕ
atoi s = let n = digits_value 0 s in if ltb n (2 ^ 63) then some n else none

unfoldable pub new_path_token : PathType → Bytes → ℕ → ℕ → Result PathToken
new_path_token eof val s e = ok (record { typ = eof; text = []; number = 0; start = 0; stop = 0 })
new_path_token lit_int val s e = elim (atoi val) [
  | none ↦ panic
  | some i ↦ ok (record { typ = lit_int; text = []; number = i; start = s; stop = e })
]
new_path_token error val s e = panic
new_path_token typ val s e = ok (record { typ = typ; text = val; number = 0; start = s; stop = e })

pub record PathIterator : Type 0 where
  pub pos : ℕ
  pub src : Bytes

unfoldable pub new_path_iter : Bytes → PathIterator
new_path_iter src = record { pos = 0; src = src }

-- `src[pos:]`, which is empty from the end on.
unfoldable pub left_path : PathIterator → Bytes
left_path p = drop p.pos p.src

unfoldable pub has_next : PathIterator → Bool
has_next p = ltb p.pos (length p.src)

-- The bytes at which a literal ends: `,*$.[]{}"\`
unfoldable pub separators : Bytes
separators = codes ",*$.[]{}\"\\"

-- How far a literal goes in the bytes left, and whether it is an integer.
unfoldable pub lit_scan : Bool → Bool → Bytes → ℕ × Bool
lit_scan first is_int [] = (0, is_int)
lit_scan first is_int (c ∷ s) =
    let (n, digits) = lit_scan false (if first then true else is_int) s in
    let (m, other) = lit_scan false false s in
    if has_byte c separators
    then (0, is_int)
    else if is_digit c
    then (suc n, digits)
    else (suc m, other)

unfoldable pub lit : PathIterator → (Bytes × Bool) × PathIterator
lit p =
    let (n, is_int) = lit_scan true false (left_path p) in
    ((take n (left_path p), is_int), record p { pos = p.pos + n })

-- How far a quoted string goes; a backslash skips a byte, at the end of the path one too many.
unfoldable pub str_scan : Bool → Bytes → ℕ
str_scan is_open [] = 0
str_scan is_open (c ∷ []) = if c == 92 then 2 else 1
str_scan is_open (c ∷ d ∷ s) =
    let skipped = str_scan is_open s in
    let inside = str_scan is_open (d ∷ s) in
    let after_quote = str_scan true (d ∷ s) in
    if c == 92
    then suc (suc skipped)
    else if c == 34
    then (if is_open then 1 else suc after_quote)
    else suc inside

abbrev pub with_iterator : Result PathToken → PathIterator → Result (PathToken × PathIterator)
with_iterator t p = t >>= λ tok. ok (tok, p)

abbrev sep_type : ℕ → Option PathType
sep_type c =
    if c == 36
    then some root
    else if c == 46
    then some field
    else if c == 91
    then some index_l
    else if c == 93
    then some index_r
    else if c == 123
    then some map_l
    else if c == 125
    then some map_r
    else if c == 44
    then some elem
    else if c == 42
    then some any
    else none

-- A literal, from where it starts.
unfoldable pub next_lit : PathIterator → Result (PathToken × PathIterator)
next_lit p =
    let ((val, is_int), q) = lit p in
    with_iterator (new_path_token (if is_int then lit_int else lit_str) val p.pos q.pos) q

-- strconv.Unquote is a parameter: the text that a quoted string stands for, if it is valid.
module _ (unquote : Bytes → Option Bytes) where
  -- The slice panics if the end lies behind the path.
  unfoldable pub str : PathIterator → Result (Option Bytes × PathIterator)
  str p =
      let n = str_scan false (left_path p) in
      if leb n (length (left_path p))
      then ok (unquote (take n (left_path p)), record p { pos = p.pos + n })
      else panic

  unfoldable pub next_str : PathIterator → Result (PathToken × PathIterator)
  next_str p = str p >>= λ r. elim r.0 [
    | none ↦ with_iterator (new_path_token error (codes "invalid quote string") p.pos r.1.pos) r.1
    | some v ↦ with_iterator (new_path_token quoted v p.pos r.1.pos) r.1
  ]

  unfoldable pub next : PathIterator → Result (PathToken × PathIterator)
  next p = elim (left_path p) [
    | [] ↦ with_iterator (new_path_token eof [] p.pos p.pos) p
    | c ∷ rest ↦ elim (sep_type c) [
      | some t ↦
          with_iterator (new_path_token t [] p.pos (suc p.pos)) (record p { pos = suc p.pos })
      | none ↦ if c == 34 then next_str p else next_lit p
    ]
  ]
