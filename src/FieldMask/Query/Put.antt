-- ===== src/FieldMask/Query/Put.antt =====
-- Looking up an index: what was put into the entries, and the answer of a mask.
use thriftgo.Prelude.{◌≡◌, refl, subst, Bool, true, false, Bool-cases, inl, inr}
use thriftgo.Prelude.Names.{int_eq}
use thriftgo.Prelude.Ints.{ℤ}
use thriftgo.Go.Outcome.{ok, ◌>>=◌}
use thriftgo.FieldMask.Path.{Result}
use thriftgo.FieldMask.Storage.{
  FieldMaskType, ft_invalid, ft_scalar, ft_list, ft_struct, ft_str_map, ft_int_map, FieldMask, mask,
  FieldMap, IntMap, nil_ints, made_ints, int_entry, StrMap, int_slot, int_put, exist, int_get,
}
use thriftgo.FieldMask.Query.{answer, ret, int, ints_of}

pub int_slot-int_put : (k : ℤ) (m : FieldMask) (t : IntMap) → int_slot k (int_put k m t) ≡ m
unfolding int_slot int_put
int_slot-int_put k m nil_ints =
    let e : int_eq.same k k ≡ true = (int_eq.same_iff k k).1 refl in rw e refl
int_slot-int_put k m made_ints =
    let e : int_eq.same k k ≡ true = (int_eq.same_iff k k).1 refl in rw e refl
int_slot-int_put k m (int_entry j n t) = elim (Bool-cases (int_eq.same k j)) [
  | inl e ↦ rw e (rw e refl)
  | inr e ↦ rw e (rw e (int_slot-int_put k m t))
]

pub int_slot-int_put_other :
    (k j : ℤ) (m : FieldMask) (t : IntMap)
    → int_eq.same j k ≡ false
    → int_slot j (int_put k m t) ≡ int_slot j t
unfolding int_slot int_put
int_slot-int_put_other k j m nil_ints h = rw h refl
int_slot-int_put_other k j m made_ints h = rw h refl
int_slot-int_put_other k j m (int_entry i n t) h = elim (Bool-cases (int_eq.same k i)) [
  | inl e ↦
      let same : k ≡ i = (int_eq.same_iff k i).0 e in
      let apart : int_eq.same j i ≡ false = subst (λ x. int_eq.same j x ≡ false) same h in
      rw (e, apart) refl
  | inr e ↦ rw e (elim (Bool-cases (int_eq.same j i)) [
    | inl found ↦ rw found refl
    | inr other ↦ rw other (int_slot-int_put_other k j m t h)
  ])
]

-- A mask that is settled, and not for all, answers by the child.
answer-child :
    (child : FieldMask → Result FieldMask) (black : Bool) (typ : FieldMaskType) (a : FieldMask)
    (fd : FieldMap) (ints : IntMap) (strs : StrMap)
    → exist (mask false black typ a fd ints strs) ≡ true
    → answer child (mask false black typ a fd ints strs)
      ≡ (child (mask false black typ a fd ints strs) >>= λ fm. ret black fm)
unfolding answer exist
answer-child child black ft_invalid a fd ints strs h = let never : ⊥ = cc in elim never [ ]
answer-child child black ft_scalar a fd ints strs h = refl
answer-child child black ft_list a fd ints strs h = refl
answer-child child black ft_struct a fd ints strs h = refl
answer-child child black ft_str_map a fd ints strs h = refl
answer-child child black ft_int_map a fd ints strs h = refl

pub int-answer :
    (black : Bool) (typ : FieldMaskType) (a : FieldMask) (fd : FieldMap) (ints : IntMap)
    (strs : StrMap) (u : ℤ)
    → exist (mask false black typ a fd ints strs) ≡ true
    → int (mask false black typ a fd ints strs) u ≡ ret black (int_get u ints)
unfolding int
int-answer black typ a fd ints strs u h =
    answer-child (λ m. ok (int_get u (ints_of m))) black typ a fd ints strs h
