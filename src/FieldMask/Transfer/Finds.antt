-- ===== src/FieldMask/Transfer/Finds.antt =====
-- The mask of a transfer form finds each element by its key.
use thriftgo.Prelude.{◌≡◌, ◌≢◌, refl, sym, ◌∙◌, ap, subst, Bool, true, false, Bool-cases, inl, inr}
use thriftgo.Prelude.Names.{int_eq}
use thriftgo.Prelude.Ints.{ℤ}
use thriftgo.Prelude.Bytes.{Bytes}
use thriftgo.Go.Outcome.{ok, ◌>>=◌, bind-ok}
use thriftgo.FieldMask.Path.{Result}
use thriftgo.FieldMask.Storage.{
  ft_list, FieldMask, no_mask, mask, FieldMap, no_fields, IntMap, nil_ints, StrMap, nil_strs,
  new_field_mask_of, if_not_exist, int_slot, int_put, int_child, put_int, exist, if_exists, int_get,
}
use thriftgo.FieldMask.Query.{ret, int}
use thriftgo.FieldMask.Query.Put.{int_slot-int_put, int_slot-int_put_other, int-answer}
use thriftgo.FieldMask.Transfer.{
  FieldMaskTransfer, transfer, Transfers, end, child, is_any, type_of, path_of, retype, empty_mask,
  transfer_from, ints_from,
}

different : (v id : ℤ) → v ≢ id → int_eq.same v id ≡ false
different v id n = elim (Bool-cases (int_eq.same v id)) [
  | inl e ↦ elim (n ((int_eq.same_iff v id).0 e)) [ ]
  | inr e ↦ e
]

ok-same : {A : Type 0} {a b : A} → ◌≡◌ {A = Result A} (ok a) (ok b) → a ≡ b
ok-same h = cc

module _ (field_id : Bytes → Result ℤ) (int_key : Bytes → Result ℤ)
    (str_key : Bytes → Result Bytes) where
  -- The child is not "*", and has another key.
  pub record Other (v : ℤ) (c : FieldMaskTransfer) : Type 0 where
    pub not_any : is_any (path_of c) ≡ false
    pub apart : (id : ℤ) → int_key (path_of c) ≡ ok id → v ≢ id

  abbrev pub Others : ℤ → Transfers → Type 0
  Others v end = Unit
  Others v (child c cs) = Other v c × Others v cs

  -- The child is in the list, under the key, which no other child has.
  pub data Once (v : ℤ) (c : FieldMaskTransfer) : Transfers → Type 0 where
    here :
        {cs : Transfers}
        → is_any (path_of c) ≡ false
        → int_key (path_of c) ≡ ok v
        → Others v cs
        → Once v c (child c cs)
    later :
        {d : FieldMaskTransfer} {cs : Transfers} → Other v d → Once v c cs → Once v c (child d cs)

  module _ (black : Bool) (a : FieldMask) (fd : FieldMap) (strs : StrMap) where
    abbrev with_ints : IntMap → FieldMask
    with_ints ints = mask false black ft_list a fd ints strs

    abbrev step : FieldMaskTransfer → Transfers → IntMap → Result FieldMask
    step c cs ints = int_key (path_of c) >>= λ id.
        int_child id (type_of c) (with_ints ints) >>= λ next.
        transfer_from field_id int_key str_key next c >>= λ done.
        put_int id done (with_ints ints) >>= λ after.
        ints_from field_id int_key str_key cs false after

    -- One round of the loop.
    record Round (c : FieldMaskTransfer) (cs : Transfers) (ints : IntMap) (m : FieldMask)
        : Type 0 where
      id : ℤ
      done : FieldMask
      keyed : int_key (path_of c) ≡ ok id
      made :
          transfer_from field_id int_key str_key
            (if_not_exist (type_of c) black (int_slot id ints))
            c
          ≡ ok done
      rest : ints_from field_id int_key str_key cs false (with_ints (int_put id done ints)) ≡ ok m

    ints_from-Round :
        (c : FieldMaskTransfer) (cs : Transfers) (first : Bool) (ints : IntMap) (m : FieldMask)
        → is_any (path_of c) ≡ false
        → ints_from field_id int_key str_key (child c cs) first (with_ints ints) ≡ ok m
        → Round c cs ints m
    unfolding transfer_from int_child put_int
    ints_from-Round (transfer path type b ds) cs first ints m n h =
        let opened = rw n at h in
        let (id, keyed, h1) = bind-ok (int_key path) _ m opened in
        let (done, made, h2) =
          bind-ok
            (transfer_from field_id int_key str_key (if_not_exist type black (int_slot id ints))
              (transfer path type b ds))
            _ m h1 in
        record { id = id; done = done; keyed = keyed; made = made; rest = h2 }

    record Leaves (v : ℤ) (ints : IntMap) (m : FieldMask) : Type 0 where
      after : IntMap
      form : m ≡ with_ints after
      same : int_slot v after ≡ int_slot v ints

    ints_from-Others :
        (v : ℤ) (cs : Transfers) (ints : IntMap) (m : FieldMask)
        → Others v cs
        → ints_from field_id int_key str_key cs false (with_ints ints) ≡ ok m
        → Leaves v ints m
    unfolding transfer_from
    ints_from-Others v end ints m o h = record { after = ints; form = cc; same = refl }
    ints_from-Others v (child c cs) ints m o h =
        let r = ints_from-Round c cs false ints m o.0.not_any h in
        let l = ints_from-Others v cs (int_put r.id r.done ints) m o.1 r.rest in
        let away : int_eq.same v r.id ≡ false = different v r.id (o.0.apart r.id r.keyed) in
        record {
          after = l.after;
          form = l.form;
          same = l.same ∙ int_slot-int_put_other r.id v r.done ints away;
        }

    record Holds (v : ℤ) (c : FieldMaskTransfer) (ints : IntMap) (m : FieldMask) : Type 0 where
      after : IntMap
      done : FieldMask
      form : m ≡ with_ints after
      made :
          transfer_from field_id int_key str_key
            (if_not_exist (type_of c) black (int_slot v ints))
            c
          ≡ ok done
      slot : int_slot v after ≡ done

    ints_from-Once :
        (v : ℤ) (c : FieldMaskTransfer) (cs : Transfers) (first : Bool) (ints : IntMap)
        (m : FieldMask)
        → Once v c cs
        → ints_from field_id int_key str_key cs first (with_ints ints) ≡ ok m
        → Holds v c ints m
    ints_from-Once v c end first ints m o h = elim o [ ]
    ints_from-Once v c (child d cs) first ints m (here n k others) h =
        let r = ints_from-Round c cs first ints m n h in
        let same : r.id ≡ v = ok-same (sym r.keyed ∙ k) in
        let l = ints_from-Others v cs (int_put r.id r.done ints) m others r.rest in
        record {
          after = l.after;
          done = r.done;
          form = l.form;
          made =
              subst
                (λ x.
                  transfer_from field_id int_key str_key
                    (if_not_exist (type_of c) black (int_slot x ints)) c
                  ≡ ok r.done)
                same r.made;
          slot =
              l.same
              ∙ subst (λ x. int_slot x (int_put r.id r.done ints) ≡ r.done) same
                  (int_slot-int_put r.id r.done ints);
        }
    ints_from-Once v c (child d cs) first ints m (later o k) h =
        let r = ints_from-Round d cs first ints m o.not_any h in
        let l = ints_from-Once v c cs false (int_put r.id r.done ints) m k r.rest in
        let away : int_eq.same v r.id ≡ false = different v r.id (o.apart r.id r.keyed) in
        record {
          after = l.after;
          done = l.done;
          form = l.form;
          made =
              subst
                (λ x.
                  transfer_from field_id int_key str_key (if_not_exist (type_of c) black x) c
                  ≡ ok l.done)
                (int_slot-int_put_other r.id v r.done ints away) l.made;
          slot = l.slot;
        }

-- Where TransferFrom makes a mask from the transfer form of a list, with a child under the key v that
-- no other child has, and no child "*", Int of v answers by the mask that TransferFrom makes from this
-- child alone.
pub transfer_from-Int :
    (field_id int_key : Bytes → Result ℤ) (str_key : Bytes → Result Bytes) (path : Bytes)
    (black : Bool) (children : Transfers) (v : ℤ) (c : FieldMaskTransfer) (m : FieldMask)
    → Once field_id int_key str_key v c children
    → transfer_from field_id int_key str_key empty_mask (transfer path ft_list black children)
      ≡ ok m
    → (d : FieldMask) × (transfer_from field_id int_key str_key
          (new_field_mask_of (type_of c) black)
          c
        ≡ ok d)
      × (int m v ≡ ret black (if_exists d))
unfolding transfer_from retype if_not_exist int_slot int_get exist
transfer_from-Int field_id int_key str_key path black children v c m o h =
    let l =
      ints_from-Once field_id int_key str_key black no_mask no_fields nil_strs v c children true
        nil_ints m o h in
    let answers : int m v ≡ ret black (int_get v l.after) =
      subst (λ x. int x v ≡ ret black (int_get v l.after)) (sym l.form)
        (int-answer black ft_list no_mask no_fields l.after nil_strs v refl) in
    (l.done, l.made, answers ∙ ap (λ x. ret black (if_exists x)) l.slot)
