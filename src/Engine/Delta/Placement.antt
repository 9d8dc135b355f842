-- ===== src/Engine/Delta/Placement.antt =====
-- The second loop of the general path puts the entries of the next window in place one by one.
use mathlib.Core.List.{append_assoc, map-append}
use view_server_smart.Shared.{
  ℕ, suc, ◌+◌, ◌≤◌, ◌≡◌, refl, sym, ap, ◌∙◌, subst, inl, inr, Bool, true, false, none, some, List,
  [], ◌∷◌, ◌++◌, arith, ◌==◌, length, get_elem?, contains, Distinct, Bool-cases, length-append,
  get_elem?-map, contains-append, Distinct-append, Distinct-append_right,
}
use view_server_smart.Shared.Splice.{
  splice_in-append, set-append, splice_move-append, get_elem?-append_append,
}
use view_server_smart.Shared.KeyIndexes.{index_from-get_elem?, index_from_absent}
use view_server_smart.Shared.Arrays.{
  Arrays, Represents, splice_in-Represents, splice_move-Represents, set-Represents, keys_of,
}
use view_server_smart.Protocol.Number.{max_safe_integer}
use view_server_smart.Client.Entries.{edit_all}
use view_server_smart.Client.Edits.{
  key_after, row_after, edit-insert_after, edit-update_after, edit-move_after, edit_all-append,
}
use view_server_smart.Engine.Evaluation.{row_differs, row_differs-eq}
use view_server_smart.Engine.Delta.Agreement.{Interchangeable, Agrees}
use view_server_smart.Engine.Delta.Removal.{Distinct-keys}
use view_server_smart.Engine.Delta.General.{
  Edited, place_existing, refresh_row, place, place_window,
}

module _ {ℓ} {K R : Type ℓ} (dec : Discrete K) where
  -- Where a key stands among the entries.
  pub record Found (key : K) (es : List (K × R)) : Type ℓ where
    pub before : List (K × R)
    pub row : R
    pub after : List (K × R)
    pub split : es ≡ before ++ (key, row) ∷ after

  pub find : (key : K) (es : List (K × R)) → contains dec key (keys_of es) ≡ true → Found key es
  find key [] h = cc
  find key (e ∷ es) h = elim (dec key e.0) [
    | yes p ↦ record { before = []; row = e.1; after = es; split = λ i. (sym p i, e.1) ∷ es }
    | no p ↦
        let f = find key es (ground arith) in
        record { before = e ∷ f.before; row = f.row; after = f.after; split = ap (◌∷◌ e) f.split }
  ]

  -- The first half of a round for a key that is there: the entry of the key comes after `done`.
  place_existing-Represents :
      (done before after : List (K × R)) (e : K × R) (s : Arrays K R)
      → Represents dec s (done ++ (before ++ e ∷ after))
      → length done + length before ≤ max_safe_integer
      → let p = place_existing dec (length done) e.0 (length done + length before) s in
        (edit_all dec (done ++ (before ++ e ∷ after)) p.operations
          ≡ some (done ++ e ∷ (before ++ after)))
        × Represents dec p.arrays (done ++ e ∷ (before ++ after))
  unfolding place_existing edit_all
  place_existing-Represents done [] after e s r safe =
      let same : (length done + 0 == length done) ≡ true = ground arith in rw same (refl, r)
  place_existing-Represents done (b ∷ before) after e s r safe =
      let other : (length done + length (b ∷ before) == length done) ≡ false = ground arith in
      rw other (
        rw (edit-move_after dec done (b ∷ before) after e safe, edit_all) refl,
        subst (Represents dec _) (splice_move-append done (b ∷ before) after e) (
            splice_move-Represents dec s (done ++ (b ∷ before ++ e ∷ after)) r e.0
              (length done + length (b ∷ before)) (length done)
              (get_elem?-map (λ x. x.0) (done ++ (b ∷ before ++ e ∷ after))
                (length done + length (b ∷ before)) e
                (get_elem?-append_append done (b ∷ before) after e))
              (omega (arith, length-append done (b ∷ before ++ e ∷ after)))),
      )

module _ {K R : Type 0} (dec : Discrete K) (rows_equal : R → R → Bool) where
  -- What a round leaves: the entry of the key after `done`, with a row that shows the next one.
  record Placed (done rest : List (K × R)) (key : K) (row : R) (before : List (K × R))
      (e : Edited K R) : Type 0 where
    shown : R
    others : List (K × R)
    same_row : Interchangeable rows_equal shown row
    applied : edit_all dec before e.operations ≡ some (done ++ (key, shown) ∷ others)
    held : Represents dec e.arrays (done ++ (key, shown) ∷ others)
    subset : (j : K) → contains dec j (keys_of others) ≡ true → contains dec j (keys_of rest) ≡ true
    shorter : length others ≤ length rest

  refresh_row-Placed :
      (done rest others start : List (K × R)) (key : K) (old row : R) (e : Edited K R)
      → edit_all dec start e.operations ≡ some (done ++ (key, old) ∷ others)
      → Represents dec e.arrays (done ++ (key, old) ∷ others)
      → ((j : K) → contains dec j (keys_of others) ≡ true → contains dec j (keys_of rest) ≡ true)
      → length others ≤ length rest
      → length done ≤ max_safe_integer
      → Placed done rest key row start (refresh_row rows_equal (length done) key row e)
  unfolding refresh_row edit_all
  refresh_row-Placed done rest others start key old row e a h sub le safe =
      elim (Bool-cases (row_differs rows_equal (get_elem? e.arrays.rows (length done)) row)) [
        | inr same ↦ rw same (record {
          shown = old;
          others = others;
          same_row = inr (
              row_differs-eq rows_equal _ old row (rw h.rows (row_after done others (key, old)))
                same);
          applied = a;
          held = h;
          subset = sub;
          shorter = le;
        })
        | inl changed ↦ rw changed (record {
          shown = row;
          others = others;
          same_row = inl refl;
          applied =
              edit_all-append dec start (done ++ (key, old) ∷ others) e.operations _ a
              ∙ rw (edit-update_after dec done others (key, old) row safe, edit_all) refl;
          held = subst (Represents dec _) (set-append done others (key, old) (key, row)) (
              set-Represents dec e.arrays (done ++ (key, old) ∷ others) h key row (length done)
                (key_after done others (key, old)));
          subset = sub;
          shorter = le;
        })
      ]

  place_absent-Placed :
      (done rest : List (K × R)) (key : K) (row : R) (s : Arrays K R)
      → Represents dec s (done ++ rest)
      → contains dec key (keys_of (done ++ rest)) ≡ false
      → length done ≤ max_safe_integer
      → Placed done rest key row (done ++ rest) (place dec rows_equal (length done) key row s)
  unfolding place edit_all
  place_absent-Placed done rest key row s r new safe =
      let missing : s.key_indexes key ≡ none =
        r.exact key ∙ rw r.keys (index_from_absent dec 0 key (keys_of (done ++ rest)) new) in
      rw (missing, place)
        (record {
          shown = row;
          others = rest;
          same_row = inl refl;
          applied = rw (edit-insert_after dec done rest key row safe new, edit_all) refl;
          held = subst (Represents dec _) (splice_in-append done rest (key, row)) (
              splice_in-Represents dec s (done ++ rest) r key row (length done)
                (omega (arith, length-append done rest)) new);
          subset = λ j h. h;
          shorter = omega arith;
        })

  without-subset :
      (before after : List (K × R)) (e : K × R) (j : K)
      → contains dec j (keys_of (before ++ after)) ≡ true
      → contains dec j (keys_of (before ++ e ∷ after)) ≡ true
  without-subset [] after e j h = ground arith
  without-subset (b ∷ before) after e j h = ground (arith, without-subset before after e j)

  place_present-Placed :
      (done before after : List (K × R)) (e : K × R) (row : R) (s : Arrays K R)
      → Represents dec s (done ++ (before ++ e ∷ after))
      → length done + length (before ++ e ∷ after) ≤ max_safe_integer
      → Placed done
          (before ++ e ∷ after)
          e.0
          row
          (done ++ (before ++ e ∷ after))
          (place dec rows_equal (length done) e.0 row s)
  unfolding place
  place_present-Placed done before after e row s r safe =
      rw (found, place)
        (refresh_row-Placed done (before ++ e ∷ after) (before ++ after) whole e.0 e.1 row
          (place_existing dec (length done) e.0 (length done + length before) s) placed.0 placed.1
          (without-subset before after e)
          (omega (arith, length-append before after, length-append before (e ∷ after)))
          (omega arith))
    where
      whole : List (K × R)
      whole = done ++ (before ++ e ∷ after)

      at : get_elem? (keys_of whole) (length done + length before) ≡ some e.0
      at =
          get_elem?-map (λ x. x.0) whole (length done + length before) e
            (get_elem?-append_append done before after e)

      found : s.key_indexes e.0 ≡ some (length done + length before)
      found =
          r.exact e.0
          ∙ rw r.keys (
              index_from-get_elem? dec e.0 (keys_of whole) (length done + length before)
                (Distinct-keys dec s whole r) at)

      placed :
          (edit_all dec whole
              (place_existing dec (length done) e.0 (length done + length before) s).operations
            ≡ some (done ++ e ∷ (before ++ after)))
          × Represents dec
              (place_existing dec (length done) e.0 (length done + length before) s).arrays
              (done ++ e ∷ (before ++ after))
      placed =
          place_existing-Represents dec done before after e s r
            (omega (arith, length-append before (e ∷ after)))

  -- One round of the loop, for a key that does not stand among `done`.
  place-Placed :
      (done rest : List (K × R)) (key : K) (row : R) (s : Arrays K R)
      → Represents dec s (done ++ rest)
      → contains dec key (keys_of done) ≡ false
      → length done + length rest ≤ max_safe_integer
      → Placed done rest key row (done ++ rest) (place dec rows_equal (length done) key row s)
  place-Placed done rest key row s r new safe =
      elim (Bool-cases (contains dec key (keys_of rest))) [
        | inr absent ↦
            place_absent-Placed done rest key row s r
              (rw (map-append (λ e. e.0) done rest)
                (contains-append dec key (keys_of done) (keys_of rest) new absent))
              (omega arith)
        | inl present ↦
            let f = find dec key rest present in
            rw f.split (
              place_present-Placed done f.before f.after (key, f.row) row s (rw f.split at r)
                (rw f.split at safe))
      ]

  -- The loop: from entries whose other keys all stand in the window, its operations lead to
  -- entries that show the window.
  pub place_window-Agrees :
      (window done rest : List (K × R)) (index : ℕ) (s : Arrays K R)
      → length done ≡ index
      → Represents dec s (done ++ rest)
      → Distinct dec (keys_of (done ++ window))
      → ((j : K) → contains dec j (keys_of rest) ≡ true → contains dec j (keys_of window) ≡ true)
      → length done + length rest + length window ≤ max_safe_integer
      → (shown : List (K × R)) × (edit_all dec
            (done ++ rest)
            (place_window dec rows_equal index window s)
          ≡ some (done ++ shown))
        × Agrees rows_equal shown window
  unfolding place_window edit_all
  place_window-Agrees [] done [] index s at r d sub safe = ([], refl, tt)
  place_window-Agrees [] done (e ∷ rest) index s at r d sub safe = absurd (ground (arith, sub e.0))
  place_window-Agrees ((key, row) ∷ window) done rest index s at r d sub safe =
      let unique : Distinct dec (keys_of done ++ key ∷ keys_of window) =
        rw (map-append (λ e. e.0) done ((key, row) ∷ window)) at d in
      let p : Placed done rest key row (done ++ rest)
          (place dec rows_equal (length done) key row s) =
        place-Placed done rest key row s r
          (Distinct-append dec key (keys_of done) (key ∷ keys_of window) unique (ground arith))
          (omega arith) in
      let single : contains dec key (keys_of p.others) ≡ false =
        (Distinct-append_right dec (keys_of done) (key ∷ keys_of p.others) (
          rw (map-append (λ e. e.0) done ((key, p.shown) ∷ p.others)) at
            (Distinct-keys dec _ (done ++ (key, p.shown) ∷ p.others) p.held))).0 in
      let ih =
        place_window-Agrees window (done ++ (key, p.shown) ∷ []) p.others (suc (length done))
          (place dec rows_equal (length done) key row s).arrays
          (omega (arith, length-append done ((key, p.shown) ∷ [])))
          (rw (append_assoc done ((key, p.shown) ∷ []) p.others) p.held)
          (rw
            (
              append_assoc done ((key, p.shown) ∷ []) window,
              map-append (λ e. e.0) done ((key, p.shown) ∷ window),
            )
            unique)
          (λ j h. ground (arith, sub j, p.subset j h, single))
          (omega (arith, length-append done ((key, p.shown) ∷ []), p.shorter)) in
      rw (← at) (
        (key, p.shown) ∷ ih.0,
        edit_all-append dec (done ++ rest) (done ++ (key, p.shown) ∷ p.others) _ _ p.applied
            ∙ (rw
                (
                  append_assoc done ((key, p.shown) ∷ []) p.others,
                  append_assoc done ((key, p.shown) ∷ []) ih.0,
                )
                at ih.1),
        (refl, p.same_row, ih.2),
      )
