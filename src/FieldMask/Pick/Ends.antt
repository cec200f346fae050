-- ===== src/FieldMask/Pick/Ends.antt =====
-- The loops over indexes and keys end, and leave no more of the path than there was.
use thriftgo.Prelude.{
  ℕ, zero, suc, ◌≤◌, ◌<◌, ◌≡◌, ◌⊎◌, Option, List, [], ◌∷◌, ◌++◌, Bool, true, false, length,
  Bool-cases, inl, inr, arith,
}
use thriftgo.Prelude.Ints.{ℤ, pos}
use thriftgo.Prelude.Bytes.{Bytes}
use thriftgo.Go.Outcome.{Good, Good-bind, Good-if, Good-weaken}
use thriftgo.FieldMask.Path.{
  PathType, lit_str, lit_int, quoted, root, field, index_l, index_r, map_l, map_r, elem, any, eof,
  error, PathToken, Result, PathIterator, left_path, has_next, next,
}
use thriftgo.FieldMask.Path.Advance.{Moves, next-Moves}
use thriftgo.FieldMask.Storage.{FieldMask}
use thriftgo.FieldMask.Pick.{
  settle_ints, settle_keys, Picked, int_token, pick_ints, key_token, pick_keys,
}

-- What is left behind the loop is no longer than the path from here, and the mask has the property.
abbrev pub Within : (FieldMask → Type 0) → PathIterator → Picked → Type 0
Within P it p = (length (left_path p.rest) ≤ length (left_path it)) × P p.cur

-- The loop goes on with a shorter path, or the token is an empty literal.
abbrev Shorter : PathType → PathIterator → PathIterator → Type 0
Shorter typ it q = (typ ≡ lit_str) ⊎ (length (left_path q) < length (left_path it))

module _ (P : FieldMask → Type 0) (settles_ints : (m : FieldMask) → P m → Good P (settle_ints m))
    (settles_keys : (m : FieldMask) → P m → Good P (settle_keys m)) (it q : PathIterator)
    (tok : PathToken) (cur : FieldMask) (covers empty : Bool) (ids : List ℤ)
    (stays : length (left_path q) ≤ length (left_path it)) (pc : P cur) where
  int_token-Good :
      (again : FieldMask → Bool → List ℤ → PathIterator → Result Picked) (typ : PathType)
      → Shorter typ it q
      → ((c : FieldMask) (b : Bool) (l : List ℤ)
          → P c
          → length (left_path q) < length (left_path it)
          → Good (Within P it) (again c b l q))
      → Good (Within P it) (int_token again cur covers empty ids typ tok q)
  unfolding int_token
  int_token-Good again eof h k = tt
  int_token-Good again index_r h k = Good-if _ _ _ empty tt (stays, pc)
  int_token-Good again elem (inl never) k = let absurd : ⊥ = cc in elim absurd [ ]
  int_token-Good again elem (inr less) k = k cur covers ids pc less
  int_token-Good again any (inl never) k = let absurd : ⊥ = cc in elim absurd [ ]
  int_token-Good again any (inr less) k =
      Good-bind P (Within P it) (settle_ints cur) _ (settles_ints cur pc)
        (λ settled ps. k settled true ids ps less)
  int_token-Good again lit_int (inl never) k = let absurd : ⊥ = cc in elim absurd [ ]
  int_token-Good again lit_int (inr less) k =
      Good-if _ _ _ covers tt (k cur covers (ids ++ pos tok.number ∷ []) pc less)
  int_token-Good again lit_str h k = Good-if _ _ _ covers tt tt
  int_token-Good again quoted h k = Good-if _ _ _ covers tt tt
  int_token-Good again root h k = Good-if _ _ _ covers tt tt
  int_token-Good again field h k = Good-if _ _ _ covers tt tt
  int_token-Good again index_l h k = Good-if _ _ _ covers tt tt
  int_token-Good again map_l h k = Good-if _ _ _ covers tt tt
  int_token-Good again map_r h k = Good-if _ _ _ covers tt tt
  int_token-Good again error h k = Good-if _ _ _ covers tt tt

  key_token-Good :
      (again : FieldMask → Bool → List ℤ → List Bytes → PathIterator → Result Picked)
      (is_int is_str : Bool) (strs : List Bytes) (typ : PathType)
      → Shorter typ it q
      → ((c : FieldMask) (b : Bool) (l : List ℤ) (s : List Bytes)
          → P c
          → length (left_path q) < length (left_path it)
          → Good (Within P it) (again c b l s q))
      → Good (Within P it) (key_token again is_int is_str cur covers empty ids strs typ tok q)
  unfolding key_token
  key_token-Good again is_int is_str strs eof h k = tt
  key_token-Good again is_int is_str strs map_r h k = Good-if _ _ _ empty tt (stays, pc)
  key_token-Good again is_int is_str strs elem (inl never) k =
      let absurd : ⊥ = cc in elim absurd [ ]
  key_token-Good again is_int is_str strs elem (inr less) k = k cur covers ids strs pc less
  key_token-Good again is_int is_str strs any (inl never) k = let absurd : ⊥ = cc in elim absurd [ ]
  key_token-Good again is_int is_str strs any (inr less) k =
      Good-bind P (Within P it) (settle_keys cur) _ (settles_keys cur pc)
        (λ settled ps. k settled true ids strs ps less)
  key_token-Good again is_int is_str strs lit_int (inl never) k =
      let absurd : ⊥ = cc in elim absurd [ ]
  key_token-Good again is_int is_str strs lit_int (inr less) k =
      Good-if _ _ _ covers tt
        (Good-if _ _ _ is_int (k cur covers (ids ++ pos tok.number ∷ []) strs pc less) tt)
  key_token-Good again is_int is_str strs quoted (inl never) k =
      let absurd : ⊥ = cc in elim absurd [ ]
  key_token-Good again is_int is_str strs quoted (inr less) k =
      Good-if _ _ _ covers tt
        (Good-if _ _ _ is_str (k cur covers ids (strs ++ tok.text ∷ []) pc less) tt)
  key_token-Good again is_int is_str strs lit_str h k = Good-if _ _ _ covers tt tt
  key_token-Good again is_int is_str strs root h k = Good-if _ _ _ covers tt tt
  key_token-Good again is_int is_str strs field h k = Good-if _ _ _ covers tt tt
  key_token-Good again is_int is_str strs index_l h k = Good-if _ _ _ covers tt tt
  key_token-Good again is_int is_str strs index_r h k = Good-if _ _ _ covers tt tt
  key_token-Good again is_int is_str strs map_l h k = Good-if _ _ _ covers tt tt
  key_token-Good again is_int is_str strs error h k = Good-if _ _ _ covers tt tt

module _ (unquote : Bytes → Option Bytes) (P : FieldMask → Type 0)
    (settles_ints : (m : FieldMask) → P m → Good P (settle_ints m))
    (settles_keys : (m : FieldMask) → P m → Good P (settle_keys m)) where
  pub pick_ints-Good :
      (fuel : ℕ) (cur : FieldMask) (covers empty : Bool) (ids : List ℤ) (it : PathIterator)
      → P cur
      → length (left_path it) < fuel
      → Good (Within P it) (pick_ints unquote fuel cur covers empty ids it)
  unfolding pick_ints
  pick_ints-Good zero cur covers empty ids it pc h = let never : ⊥ = omega arith in elim never [ ]
  pick_ints-Good (suc fuel) cur covers empty ids it pc h = elim (Bool-cases (has_next it)) [
    | inr end ↦
        rw end
          ((let same : length (left_path it) ≤ length (left_path it) = omega arith in same), pc)
    | inl more ↦ rw more (
        Good-bind (Moves it) (Within P it) (next unquote it) _ (next-Moves unquote it more) (λ t m.
          int_token-Good P settles_ints settles_keys it t.1 t.0 cur covers empty ids m.stays pc _
            t.0.typ m.shorter
            (λ c b l pd less.
              Good-weaken (Within P t.1) (Within P it) _
                (pick_ints-Good fuel c b false l t.1 pd (omega arith))
                (λ p k. ((let first = k.0 in omega arith), k.1)))))
  ]

  pub pick_keys-Good :
      (fuel : ℕ) (is_int is_str : Bool) (cur : FieldMask) (covers empty : Bool) (ids : List ℤ)
      (strs : List Bytes) (it : PathIterator)
      → P cur
      → length (left_path it) < fuel
      → Good (Within P it) (pick_keys unquote fuel is_int is_str cur covers empty ids strs it)
  unfolding pick_keys
  pick_keys-Good zero is_int is_str cur covers empty ids strs it pc h =
      let never : ⊥ = omega arith in elim never [ ]
  pick_keys-Good (suc fuel) is_int is_str cur covers empty ids strs it pc h =
      elim (Bool-cases (has_next it)) [
        | inr end ↦
            rw end
              ((let same : length (left_path it) ≤ length (left_path it) = omega arith in same), pc)
        | inl more ↦ rw more (
            Good-bind (Moves it) (Within P it) (next unquote it) _ (next-Moves unquote it more)
              (λ t m.
                key_token-Good P settles_ints settles_keys it t.1 t.0 cur covers empty ids m.stays
                  pc _ is_int is_str strs t.0.typ m.shorter
                  (λ c b l s pd less.
                    Good-weaken (Within P t.1) (Within P it) _
                      (pick_keys-Good fuel is_int is_str c b false l s t.1 pd (omega arith))
                      (λ p k. ((let first = k.0 in omega arith), k.1)))))
      ]
