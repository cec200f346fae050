-- ===== src/Reflection/Alias.antt =====
-- utils/name_utils.go: basic and container names, and names with the alias of an include in front.
use thriftgo.Prelude.{
  ℕ, ◌≡◌, refl, sym, ap, subst, Bool, true, false, List, [], ◌∷◌, ◌++◌, ◌⊎◌, inl, inr, arith,
  if◌then◌else◌, ◌==◌, map, Bool-cases, length, length-append,
}
use thriftgo.Prelude.Names.{contains}
use thriftgo.Prelude.Bytes.{
  Bytes, codes, same_bytes, same_bytes_iff, bytes_eq, has_byte, cut_head, split, last_piece,
  trim_suffix,
}

unfoldable pub basic_map : List Bytes
basic_map =
    map codes ("i8" ∷ "i16" ∷ "i32" ∷ "i64" ∷ "double" ∷ "string" ∷ "byte" ∷ "binary" ∷ "bool" ∷ [])

unfoldable pub container_map : List Bytes
container_map = map codes ("set" ∷ "list" ∷ "map" ∷ [])

unfoldable pub is_basic_name : Bytes → Bool
is_basic_name name = contains name basic_map

unfoldable pub is_container_name : Bytes → Bool
is_container_name name = contains name container_map

-- the byte '.'
abbrev pub dot : ℕ
dot = 46

unfoldable pub parse_alias : Bytes → Bytes × Bytes
parse_alias tname =
    let real_name = last_piece (split dot tname) in
    if has_byte dot tname then (trim_suffix tname (dot ∷ real_name), real_name) else ([], tname)

abbrev Clean : ℕ → List Bytes → Type 0
Clean sep [] = Unit
Clean sep (p ∷ ps) = (has_byte sep p ≡ false) × Clean sep ps

cut_head-Clean :
    (sep b : ℕ) (ps : List Bytes) → (sep == b) ≡ false → Clean sep ps → Clean sep (cut_head b ps)
cut_head-Clean sep b [] n h = (ground (arith, n), tt)
cut_head-Clean sep b (p ∷ ps) n h = (let k = h.0 in ground (arith, n, k), h.1)

split-Clean : (sep : ℕ) (s : Bytes) → Clean sep (split sep s)
unfolding split
split-Clean sep [] = (refl, tt)
split-Clean sep (b ∷ s) = elim (Bool-cases (sep == b)) [
  | inl e ↦ rw e (refl, split-Clean sep s)
  | inr n ↦ rw n (cut_head-Clean sep b (split sep s) n (split-Clean sep s))
]

last_piece-Clean : (sep : ℕ) (ps : List Bytes) → Clean sep ps → has_byte sep (last_piece ps) ≡ false
unfolding last_piece
last_piece-Clean sep [] h = refl
last_piece-Clean sep (p ∷ []) h = h.0
last_piece-Clean sep (p ∷ q ∷ ps) h = last_piece-Clean sep (q ∷ ps) h.1

-- The pieces of a text: itself if the separator is not in it, and at least two otherwise.
record Single (sep : ℕ) (s : Bytes) : Type 0 where
  absent : has_byte sep s ≡ false
  whole : split sep s ≡ s ∷ []

record Several (sep : ℕ) (s : Bytes) : Type 0 where
  present : has_byte sep s ≡ true
  first : Bytes
  second : Bytes
  others : List Bytes
  pieces : split sep s ≡ first ∷ second ∷ others

split-cases : (sep : ℕ) (s : Bytes) → Single sep s ⊎ Several sep s
unfolding split
split-cases sep [] = inl (record { absent = refl; whole = refl })
split-cases sep (b ∷ s) = elim (Bool-cases (sep == b)) [
  | inl e ↦ elim (split-cases sep s) [
    | inl h ↦ inr (record {
      present = rw e refl;
      first = [];
      second = s;
      others = [];
      pieces = rw (e, h.whole) refl;
    })
    | inr h ↦ inr (record {
      present = rw e refl;
      first = [];
      second = h.first;
      others = h.second ∷ h.others;
      pieces = rw (e, h.pieces) refl;
    })
  ]
  | inr n ↦ elim (split-cases sep s) [
    | inl h ↦ inl (record { absent = rw n h.absent; whole = rw (n, h.whole) refl })
    | inr h ↦ inr (record {
      present = rw n h.present;
      first = b ∷ h.first;
      second = h.second;
      others = h.others;
      pieces = rw (n, h.pieces) refl;
    })
  ]
]

last_piece-split :
    (sep : ℕ) (s : Bytes)
    → has_byte sep s ≡ true
    → (p : Bytes) × (s ≡ p ++ sep ∷ last_piece (split sep s))
unfolding split last_piece
last_piece-split sep [] h = ground (arith, h)
last_piece-split sep (b ∷ s) h = elim (Bool-cases (sep == b)) [
  | inl e ↦
      let same : sep ≡ b = ground (arith, e) in
      elim (split-cases sep s) [
        | inl k ↦ ([], rw (e, k.whole, same) refl)
        | inr k ↦
            let (p, eq) = last_piece-split sep s k.present in
            let moved = rw k.pieces at eq in (b ∷ p, rw (e, k.pieces) (ap (λ t. b ∷ t) moved))
      ]
  | inr n ↦ elim (split-cases sep s) [
    | inl k ↦ let never : ⊥ = ground (arith, h, n, k.absent) in elim never [ ]
    | inr k ↦
        let (p, eq) = last_piece-split sep s k.present in
        let moved = rw k.pieces at eq in (b ∷ p, rw (n, k.pieces) (ap (λ t. b ∷ t) moved))
  ]
]

same_bytes-longer : (p : Bytes) (c : ℕ) (t : Bytes) → same_bytes (c ∷ p ++ t) t ≡ false
same_bytes-longer p c t = elim (Bool-cases (same_bytes (c ∷ p ++ t) t)) [
  | inl e ↦
      let eq = ap length ((same_bytes_iff (c ∷ p ++ t) t).0 e) in
      let never : ⊥ = omega (arith, eq, length-append p t) in elim never [ ]
  | inr n ↦ n
]

trim_suffix-append : (p : Bytes) (c : ℕ) (t : Bytes) → trim_suffix (p ++ c ∷ t) (c ∷ t) ≡ p
unfolding trim_suffix
trim_suffix-append [] c t =
    let e : same_bytes (c ∷ t) (c ∷ t) ≡ true = (same_bytes_iff (c ∷ t) (c ∷ t)).1 refl in rw e refl
trim_suffix-append (b ∷ p) c t =
    rw (same_bytes-longer p b (c ∷ t)) (ap (λ q. b ∷ q) (trim_suffix-append p c t))

-- The name that ParseAlias returns has no dot in it.
pub parse_alias-name : (tname : Bytes) → has_byte dot (parse_alias tname).1 ≡ false
unfolding parse_alias
parse_alias-name tname = elim (Bool-cases (has_byte dot tname)) [
  | inl e ↦ rw e (last_piece-Clean dot (split dot tname) (split-Clean dot tname))
  | inr n ↦ rw n n
]

-- Where a dot is in the name, the prefix and the name that ParseAlias returns are the parts before
-- and behind the last dot; the name of a name without a dot is itself, and its prefix is empty.
pub parse_alias-append :
    (tname : Bytes)
    → ((has_byte dot tname ≡ true) × (tname ≡ (parse_alias tname).0 ++ dot ∷ (parse_alias tname).1))
      ⊎ ((has_byte dot tname ≡ false) × (parse_alias tname ≡ ([], tname)))
unfolding parse_alias
parse_alias-append tname = elim (Bool-cases (has_byte dot tname)) [
  | inl e ↦
      let real = last_piece (split dot tname) in
      let (p, eq) = last_piece-split dot tname e in
      let cut : trim_suffix tname (dot ∷ real) ≡ p =
        subst (λ t. trim_suffix t (dot ∷ real) ≡ p) (sym eq) (trim_suffix-append p dot real) in
      inl (e, rw (e, cut) eq)
  | inr n ↦ inr (n, rw n refl)
]
