-- ===== src/Stream/Similar.antt =====
-- Operations do not look at rows: applied to entries that agree up to `rowsEqual`, they leave
-- entries that agree up to `rowsEqual`.
use view_server_smart.Shared.{
  ℕ, zero, suc, ◌≡◌, refl, ap, ◌∙◌, inl, inr, Bool, true, ◌&&◌, not, Option, none, some, List, [],
  ◌∷◌, arith, length, get_elem?, set, contains, Bool-cases, Option-cases,
}
use view_server_smart.Shared.Splice.{
  splice_in, splice_out, splice_move, splice_move-at, splice_move-none,
}
use view_server_smart.Shared.KeyIndexes.{index_from}
use view_server_smart.Shared.Arrays.{keys_of}
use view_server_smart.Protocol.{DeltaOperation, insert, update, move, remove}
use view_server_smart.Protocol.Number.{as_natural}
use view_server_smart.Client.Arrays.{is_insert_index, is_existing_index, is_key_at}
use view_server_smart.Client.Entries.{edit, edit_all}
use view_server_smart.Engine.Delta.Agreement.{Interchangeable, Agrees, Agrees-keys}

module _ {K R : Type 0} (rows_equal : R → R → Bool) where
  Agrees-splice_in :
      (shown es : List (K × R)) (i : ℕ) (e : K × R)
      → Agrees rows_equal shown es
      → Agrees rows_equal (splice_in shown i e) (splice_in es i e)
  Agrees-splice_in [] [] i e a = (refl, inl refl, tt)
  Agrees-splice_in [] (x ∷ es) i e a = elim a [ ]
  Agrees-splice_in (s ∷ shown) [] i e a = elim a [ ]
  Agrees-splice_in (s ∷ shown) (x ∷ es) zero e a = (refl, inl refl, a)
  Agrees-splice_in (s ∷ shown) (x ∷ es) (suc i) e a = (a.0, a.1, Agrees-splice_in shown es i e a.2)

  -- Entries that agree may be put in.
  Agrees-splice_in_row :
      (shown es : List (K × R)) (i : ℕ) (d e : K × R)
      → d.0 ≡ e.0
      → Interchangeable rows_equal d.1 e.1
      → Agrees rows_equal shown es
      → Agrees rows_equal (splice_in shown i d) (splice_in es i e)
  Agrees-splice_in_row [] [] i d e k r a = (k, r, tt)
  Agrees-splice_in_row [] (x ∷ es) i d e k r a = elim a [ ]
  Agrees-splice_in_row (s ∷ shown) [] i d e k r a = elim a [ ]
  Agrees-splice_in_row (s ∷ shown) (x ∷ es) zero d e k r a = (k, r, a)
  Agrees-splice_in_row (s ∷ shown) (x ∷ es) (suc i) d e k r a =
      (a.0, a.1, Agrees-splice_in_row shown es i d e k r a.2)

  Agrees-set :
      (shown es : List (K × R)) (i : ℕ) (e : K × R)
      → Agrees rows_equal shown es
      → Agrees rows_equal (set shown i e) (set es i e)
  Agrees-set [] [] i e a = tt
  Agrees-set [] (x ∷ es) i e a = elim a [ ]
  Agrees-set (s ∷ shown) [] i e a = elim a [ ]
  Agrees-set (s ∷ shown) (x ∷ es) zero e a = (refl, inl refl, a.2)
  Agrees-set (s ∷ shown) (x ∷ es) (suc i) e a = (a.0, a.1, Agrees-set shown es i e a.2)

  Agrees-splice_out :
      (shown es : List (K × R)) (i : ℕ)
      → Agrees rows_equal shown es
      → Agrees rows_equal (splice_out shown i) (splice_out es i)
  Agrees-splice_out [] [] i a = tt
  Agrees-splice_out [] (x ∷ es) i a = elim a [ ]
  Agrees-splice_out (s ∷ shown) [] i a = elim a [ ]
  Agrees-splice_out (s ∷ shown) (x ∷ es) zero a = a.2
  Agrees-splice_out (s ∷ shown) (x ∷ es) (suc i) a = (a.0, a.1, Agrees-splice_out shown es i a.2)

  Agrees-get_elem? :
      (shown es : List (K × R)) (i : ℕ) (e : K × R)
      → Agrees rows_equal shown es
      → get_elem? es i ≡ some e
      → (d : K × R) × (get_elem? shown i ≡ some d)
        × (d.0 ≡ e.0)
        × Interchangeable rows_equal d.1 e.1
  Agrees-get_elem? [] [] i e a h = cc
  Agrees-get_elem? [] (x ∷ es) i e a h = elim a [ ]
  Agrees-get_elem? (s ∷ shown) [] i e a h = elim a [ ]
  Agrees-get_elem? (s ∷ shown) (x ∷ es) zero e a h =
      let same : x ≡ e = ground arith in (s, refl, rw same at a.0, rw same at a.1)
  Agrees-get_elem? (s ∷ shown) (x ∷ es) (suc i) e a h = Agrees-get_elem? shown es i e a.2 h

  Agrees-get_elem?-none :
      (shown es : List (K × R)) (i : ℕ)
      → Agrees rows_equal shown es
      → get_elem? es i ≡ none
      → get_elem? shown i ≡ none
  Agrees-get_elem?-none [] [] i a h = refl
  Agrees-get_elem?-none [] (x ∷ es) i a h = elim a [ ]
  Agrees-get_elem?-none (s ∷ shown) [] i a h = elim a [ ]
  Agrees-get_elem?-none (s ∷ shown) (x ∷ es) zero a h = cc
  Agrees-get_elem?-none (s ∷ shown) (x ∷ es) (suc i) a h = Agrees-get_elem?-none shown es i a.2 h

  Agrees-splice_move :
      (shown es : List (K × R)) (i j : ℕ)
      → Agrees rows_equal shown es
      → Agrees rows_equal (splice_move shown i j) (splice_move es i j)
  Agrees-splice_move shown es i j a = elim (Option-cases (get_elem? es i)) [
    | inl e ↦
        rw
          (
            splice_move-none es i j e,
            splice_move-none shown i j (Agrees-get_elem?-none shown es i a e),
          )
          (Agrees-splice_out shown es i a)
    | inr (x, e) ↦
        let (d, at, key, row) = Agrees-get_elem? shown es i x a e in
        rw (splice_move-at es i j x e, splice_move-at shown i j d at)
          (Agrees-splice_in_row (splice_out shown i) (splice_out es i) j d x key row
            (Agrees-splice_out shown es i a))
  ]

  pub Agrees-length :
      (shown es : List (K × R)) → Agrees rows_equal shown es → length shown ≡ length es
  Agrees-length [] [] a = refl
  Agrees-length [] (x ∷ es) a = elim a [ ]
  Agrees-length (s ∷ shown) [] a = elim a [ ]
  Agrees-length (s ∷ shown) (x ∷ es) a = ap suc (Agrees-length shown es a.2)

module _ {K R : Type 0} (dec : Discrete K) (rows_equal : R → R → Bool) where
  abbrev BothAgree : Option (List (K × R)) → Option (List (K × R)) → Type 0
  BothAgree none none = Unit
  BothAgree none (some es) = ⊥
  BothAgree (some shown) none = ⊥
  BothAgree (some shown) (some es) = Agrees rows_equal shown es

  edit-BothAgree :
      (shown es : List (K × R)) (op : DeltaOperation K R)
      → Agrees rows_equal shown es
      → BothAgree (edit dec shown op) (edit dec es op)
  unfolding edit
  edit-BothAgree shown es (insert key row index) a =
      rw (Agrees-length rows_equal shown es a, Agrees-keys rows_equal shown es a)
        (elim (Bool-cases
          (is_insert_index index (length es) && not (contains dec key (keys_of es)))) [
            | inl fits ↦
                rw fits (Agrees-splice_in rows_equal shown es (as_natural index) (key, row) a)
            | inr fails ↦ rw fails tt
          ])
  edit-BothAgree shown es (update key row index) a =
      rw (Agrees-length rows_equal shown es a, Agrees-keys rows_equal shown es a)
        (elim (Bool-cases (
          is_existing_index index (length es)
          && is_key_at dec (keys_of es) (as_natural index) key)) [
            | inl fits ↦ rw fits (Agrees-set rows_equal shown es (as_natural index) (key, row) a)
            | inr fails ↦ rw fails tt
          ])
  edit-BothAgree shown es (move key from_index to_index) a =
      rw (Agrees-length rows_equal shown es a, Agrees-keys rows_equal shown es a)
        (elim (Bool-cases (
          (is_existing_index from_index (length es) && is_existing_index to_index (length es))
          && is_key_at dec (keys_of es) (as_natural from_index) key)) [
            | inl fits ↦ rw fits (
                Agrees-splice_move rows_equal shown es (as_natural from_index) (as_natural to_index)
                  a)
            | inr fails ↦ rw fails tt
          ])
  edit-BothAgree shown es (remove key) a =
      let keys = ap (index_from dec 0 key) (Agrees-keys rows_equal shown es a) in
      elim (Option-cases (index_from dec 0 key (keys_of es))) [
        | inl e ↦ rw (e, keys ∙ e, edit) tt
        | inr (i, e) ↦ rw (e, keys ∙ e, edit) (Agrees-splice_out rows_equal shown es i a)
      ]

  and_rest :
      (ops : List (DeltaOperation K R)) (a b : Option (List (K × R)))
      → ((shown es : List (K × R))
          → Agrees rows_equal shown es
          → BothAgree (edit_all dec shown ops) (edit_all dec es ops))
      → BothAgree a b
      → BothAgree
          (elim a [ none ↦ none | some next ↦ edit_all dec next ops ])
          (elim b [ none ↦ none | some next ↦ edit_all dec next ops ])
  and_rest ops none none h r = tt
  and_rest ops none (some es) h r = elim r [ ]
  and_rest ops (some shown) none h r = elim r [ ]
  and_rest ops (some shown) (some es) h r = h shown es r

  edit_all-BothAgree :
      (ops : List (DeltaOperation K R)) (shown es : List (K × R))
      → Agrees rows_equal shown es
      → BothAgree (edit_all dec shown ops) (edit_all dec es ops)
  unfolding edit_all
  edit_all-BothAgree [] shown es a = a
  edit_all-BothAgree (op ∷ ops) shown es a =
      and_rest ops (edit dec shown op) (edit dec es op) (edit_all-BothAgree ops)
        (edit-BothAgree shown es op a)

  -- The form that is used: what succeeds on the entries succeeds on entries that agree with them.
  pub edit_all-Agrees :
      (ops : List (DeltaOperation K R)) (shown es after : List (K × R))
      → Agrees rows_equal shown es
      → edit_all dec es ops ≡ some after
      → (next : List (K × R)) × (edit_all dec shown ops ≡ some next) × Agrees rows_equal next after
  edit_all-Agrees ops shown es after a h = elim (Option-cases (edit_all dec shown ops)) [
    | inl e ↦ absurd (rw (e, h) at (edit_all-BothAgree ops shown es a))
    | inr (next, e) ↦ (next, e, (rw (e, h) at (edit_all-BothAgree ops shown es a)))
  ]

  -- Agreement is transitive where `rowsEqual` is.
  pub Agrees-trans :
      ((a b c : R) → rows_equal a b ≡ true → rows_equal b c ≡ true → rows_equal a c ≡ true)
      → (xs ys zs : List (K × R)) → Agrees rows_equal xs ys
      → Agrees rows_equal ys zs
      → Agrees rows_equal xs zs
  Agrees-trans t [] [] [] a b = tt
  Agrees-trans t [] [] (z ∷ zs) a b = elim b [ ]
  Agrees-trans t [] (y ∷ ys) zs a b = elim a [ ]
  Agrees-trans t (x ∷ xs) [] zs a b = elim a [ ]
  Agrees-trans t (x ∷ xs) (y ∷ ys) [] a b = elim b [ ]
  Agrees-trans t (x ∷ xs) (y ∷ ys) (z ∷ zs) a b =
      (a.0 ∙ b.0, row a.1 b.1, Agrees-trans t xs ys zs a.2 b.2)
    where
      row :
          Interchangeable rows_equal x.1 y.1
          → Interchangeable rows_equal y.1 z.1
          → Interchangeable rows_equal x.1 z.1
      row (inl p) (inl q) = inl (p ∙ q)
      row (inl p) (inr q) = inr (rw p q)
      row (inr p) (inl q) = inr (rw q at p)
      row (inr p) (inr q) = inr (t x.1 y.1 z.1 p q)
