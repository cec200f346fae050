-- ===== src/FieldMask/Path/Advance.antt =====
-- Next of fieldmask/path.go: the token that it takes off the path, and where it panics.
use thriftgo.Prelude.{
  ℕ, suc, ◌+◌, ◌-◌, ◌≤◌, ◌<◌, ◌≡◌, ◌⊎◌, refl, ap, Option, none, [], ◌∷◌, true, false, length, take,
  leb, ◌==◌, Bool-cases, List-cases, Option-cases, inl, inr, arith, length-drop,
}
use thriftgo.Prelude.Bytes.{Bytes}
use thriftgo.Go.Outcome.{ok, err, panic, stuck, Good, Good-weaken}
use thriftgo.FieldMask.Path.{
  lit_str, Result, PathToken, PathIterator, atoi, new_path_token, left_path, has_next, lit_scan,
  lit, str_scan, str, sep_type, next_lit, next_str, next,
}
use thriftgo.FieldMask.Path.Scan.{
  lit_scan_le, lit_scan_moves, sep_type-backslash, str_scan_moves, new_path_token-sep_type,
}

-- An empty literal, where the bytes left start with a backslash.
pub record IsEmpty (p : PathIterator) (t : PathToken) : Type 0 where
  pub literal : t.typ ≡ lit_str
  pub no_text : t.text ≡ []
  pub backslash : take 1 (left_path p) ≡ 92 ∷ []

pub record Advance (p : PathIterator) (r : PathToken × PathIterator) : Type 0 where
  pub src : r.1.src ≡ p.src
  pub low : p.pos ≤ r.1.pos
  pub high : r.1.pos ≤ length p.src
  pub moves : IsEmpty p r.0 ⊎ (p.pos < r.1.pos)

-- What is left of a path is as long as the path less the position.
pub length-left_path : (p : PathIterator) → length (left_path p) ≡ length p.src - p.pos
unfolding left_path
length-left_path p = length-drop p.pos p.src

module _ (unquote : Bytes → Option Bytes) where
  -- Why there is no token: digits that are no int64, a quoted string that goes beyond the path, or
  -- one that strconv.Unquote refuses.
  pub data Fails (p : PathIterator) : Type 0 where
    too_large :
        (lit_scan true false (left_path p)).1 ≡ true
        → atoi (take (lit_scan true false (left_path p)).0 (left_path p)) ≡ none
        → Fails p
    cut_off :
        take 1 (left_path p) ≡ 34 ∷ []
        → length (left_path p) < str_scan false (left_path p)
        → Fails p
    refused :
        take 1 (left_path p) ≡ 34 ∷ []
        → unquote (take (str_scan false (left_path p)) (left_path p)) ≡ none
        → Fails p

  -- The result is a token that advances, or a panic for one of these reasons.
  abbrev pub Told : PathIterator → Result (PathToken × PathIterator) → Type 0
  Told p (ok r) = Advance p r
  Told p (err e) = ⊥
  Told p panic = Fails p
  Told p stuck = ⊥

  Told-Good :
      (p : PathIterator) (m : Result (PathToken × PathIterator)) → Told p m → Good (Advance p) m
  Told-Good p (ok r) h = h
  Told-Good p (err e) h = tt
  Told-Good p panic h = tt
  Told-Good p stuck h = h

  next_lit-Told :
      (p : PathIterator) (c : ℕ) (s : Bytes)
      → left_path p ≡ c ∷ s
      → p.pos + length (c ∷ s) ≤ length p.src
      → sep_type c ≡ none
      → (c == 34) ≡ false
      → Told p (next_lit p)
  unfolding next_lit lit new_path_token
  next_lit-Told p c s e room plain other =
      let short = lit_scan_le true false (c ∷ s) in
      elim (lit_scan_moves c s) [
        | inl (ends, scan) ↦
            rw (e, scan, next_lit)
              (record {
                src = refl;
                low = omega arith;
                high = omega arith;
                moves = inl (record {
                  literal = refl;
                  no_text = refl;
                  backslash = rw e (ap (λ b. b ∷ []) (sep_type-backslash c ends plain other));
                });
              })
        | inr further ↦ elim (Bool-cases (lit_scan true false (c ∷ s)).1) [
          | inr text ↦
              rw (e, text, next_lit)
                (record {
                  src = refl;
                  low = omega arith;
                  high = omega (arith, short);
                  moves = inr (omega (arith, further));
                })
          | inl digits ↦ elim (Option-cases (atoi (take (lit_scan true false (c ∷ s)).0 (c ∷ s)))) [
            | inl large ↦
                rw (e, digits, new_path_token, large, next_lit)
                  (too_large (rw e digits) (rw e large))
            | inr (i, held) ↦
                rw (e, digits, new_path_token, held, next_lit)
                  (record {
                    src = refl;
                    low = omega arith;
                    high = omega (arith, short);
                    moves = inr (omega (arith, further));
                  })
          ]
        ]
      ]

  next_str-Told :
      (p : PathIterator) (s : Bytes)
      → left_path p ≡ 34 ∷ s
      → p.pos + length (34 ∷ s) ≤ length p.src
      → Told p (next_str unquote p)
  unfolding next_str str new_path_token
  next_str-Told p s e room =
      let n = str_scan false (34 ∷ s) in
      let moved = str_scan_moves false 34 s in
      elim (Bool-cases (leb n (length (34 ∷ s)))) [
        | inr off ↦ rw (e, off, next_str) (cut_off (rw e refl) (rw e (ground (arith, off))))
        | inl on ↦
            let fits : n ≤ length (34 ∷ s) = ground (arith, on) in
            elim (Option-cases (unquote (take n (34 ∷ s)))) [
              | inl bad ↦ rw (e, on, bad, next_str) (refused (rw e refl) (rw e bad))
              | inr (v, good) ↦
                  rw (e, on, good, next_str)
                    (record {
                      src = refl;
                      low = omega arith;
                      high = omega (arith, fits);
                      moves = inr (omega (arith, moved));
                    })
            ]
      ]

  -- Next, where bytes are left: it returns a token, and the position stays within the path and moves
  -- on, unless the token is an empty literal in front of a backslash; or it panics, and the path
  -- goes on with digits that are no int64, with a quoted string that goes beyond its end, or with
  -- one that strconv.Unquote refuses. It returns no error.
  pub next-Advance : (p : PathIterator) → has_next p ≡ true → Told p (next unquote p)
  unfolding next has_next
  next-Advance p h =
      let below : p.pos < length p.src = ground (arith, h) in
      let size = length-left_path p in
      elim (List-cases (left_path p)) [
        | inl e ↦ let never : ⊥ = omega (arith, size, ap length e) in elim never [ ]
        | inr (c, s, e) ↦
            let room : p.pos + length (c ∷ s) ≤ length p.src = omega (arith, size, ap length e) in
            elim (Option-cases (sep_type c)) [
              | inr (t, sep) ↦
                  rw (e, sep, new_path_token-sep_type t c p.pos (suc p.pos) sep, next)
                    (record {
                      src = refl;
                      low = omega arith;
                      high = omega arith;
                      moves = inr (omega arith);
                    })
              | inl plain ↦ elim (Bool-cases (c == 34)) [
                | inl quote ↦
                    let same : c ≡ 34 = ground (arith, quote) in
                    rw (e, plain, quote, next) (next_str-Told p s (rw same at e) room)
                | inr other ↦ rw (e, plain, other, next) (next_lit-Told p c s e room plain other)
              ]
            ]
      ]

-- How a token shortens what is left of the path.
pub record Moves (p : PathIterator) (r : PathToken × PathIterator) : Type 0 where
  pub stays : length (left_path r.1) ≤ length (left_path p)
  pub shorter : (r.0.typ ≡ lit_str) ⊎ (length (left_path r.1) < length (left_path p))

Advance-Moves : (p : PathIterator) (r : PathToken × PathIterator) → Advance p r → Moves p r
Advance-Moves p r a =
    let before = length-left_path p in
    let after = length-left_path r.1 in
    let same = ap length a.src in
    let low = a.low in
    let high = a.high in
    record {
      stays = omega (arith, before, after, same, low, high);
      shorter = elim a.moves [
        | inl here ↦ inl here.literal
        | inr further ↦ inr (omega (arith, before, after, same, low, high, further))
      ];
    }

pub next-Moves :
    (unquote : Bytes → Option Bytes) (p : PathIterator)
    → has_next p ≡ true
    → Good (Moves p) (next unquote p)
next-Moves unquote p h =
    Good-weaken (Advance p) (Moves p) (next unquote p)
      (Told-Good unquote p (next unquote p) (next-Advance unquote p h)) (λ r a. Advance-Moves p r a)

pub next-stays :
    (unquote : Bytes → Option Bytes) (p : PathIterator)
    → Good (λ r. length (left_path r.1) ≤ length (left_path p)) (next unquote p)
unfolding next has_next new_path_token
next-stays unquote p = elim (Bool-cases (has_next p)) [
  | inl more ↦
      Good-weaken (Moves p) (λ r. length (left_path r.1) ≤ length (left_path p)) (next unquote p)
        (next-Moves unquote p more) (λ r m. m.stays)
  | inr end ↦
      let over : length p.src ≤ p.pos = ground (arith, end) in
      let size = length-left_path p in
      elim (List-cases (left_path p)) [
        | inr (c, s, e) ↦ let never : ⊥ = omega (arith, size, ap length e) in elim never [ ]
        | inl e ↦ rw (e, next) (rw e (omega arith))
      ]
]
