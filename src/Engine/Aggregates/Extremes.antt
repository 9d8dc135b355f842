-- ===== src/Engine/Aggregates/Extremes.antt =====
-- The retained minimum or maximum: it is an extreme of the values in the map, after an addition and after a removal.
use view_server_smart.Shared.{
  ◌≡◌, ◌≢◌, refl, sym, ap, subst, ◌∙◌, inl, inr, Bool, true, false, Option, none, some, List, [],
  ◌∷◌, arith, Bool-cases, ◌⊎◌,
}
use view_server_smart.Shared.Int.{ℤ}
use view_server_smart.Shared.Assoc.{get_entry, HasUniqueKeys}
use view_server_smart.Shared.Order.{Comparison, same, AtMost, IsPreorder}
use view_server_smart.Engine.Aggregates.{
  MinMaxAggregateValueState, is_better_value, better_of, best_of,
}

module _ {V S D : Type 0} (dec : Discrete S) (stable_string : V → S)
    (compare_values : V → V → Comparison) (as_bigint : V → Option ℤ) (to_decimal : V → Option D)
    (sum subtract : D → D → D) (zero_decimal : D) (o : IsPreorder compare_values)
    (same_string : (a b : V) → stable_string a ≡ stable_string b → compare_values a b ≡ same) where
  abbrev pub better : Bool → V → V → Bool
  better is_min value current =
      is_better_value dec stable_string compare_values as_bigint to_decimal sum subtract
        zero_decimal is_min (compare_values value current)

  abbrev choose : Bool → Option V → V → Option V
  choose is_min best value =
      better_of dec stable_string compare_values as_bigint to_decimal sum subtract zero_decimal
        is_min best value

  abbrev best : Bool → Option V → List (S × MinMaxAggregateValueState V) → Option V
  best is_min start entries =
      best_of dec stable_string compare_values as_bigint to_decimal sum subtract zero_decimal is_min
        start entries

  better_self : (is_min : Bool) (a : V) → better is_min a a ≡ false
  better_self true a = ground (arith, o.swap a a)
  better_self false a = ground (arith, o.swap a a)

  pub better-same :
      (is_min : Bool) (a b : V) → stable_string a ≡ stable_string b → better is_min a b ≡ false
  better-same true a b h = rw (same_string a b h) refl
  better-same false a b h = rw (same_string a b h) refl

  better_asym : (is_min : Bool) (a b : V) → better is_min a b ≡ true → better is_min b a ≡ false
  better_asym true a b h = ground (arith, o.swap a b, h)
  better_asym false a b h = ground (arith, o.swap a b, h)

  -- What is not better than something is not better than anything at least as good.
  pub not_better_trans :
      (is_min : Bool) (a b c : V)
      → better is_min a b ≡ false
      → better is_min b c ≡ false
      → better is_min a c ≡ false
  not_better_trans true a b c h k =
      let ba : AtMost compare_values b a = ground (arith, o.swap a b, h) in
      let cb : AtMost compare_values c b = ground (arith, o.swap b c, k) in
      ground (arith, o.swap a c, o.trans c b a cb ba)
  not_better_trans false a b c h k = o.trans a b c h k

  -- No entry is better than the extreme value, and its own value has an entry.
  pub record IsExtreme (is_min : Bool) (m : List (S × MinMaxAggregateValueState V)) (b : V)
      : Type 0 where
    pub bound :
        (key : S) (e : MinMaxAggregateValueState V)
        → get_entry dec key m ≡ some e
        → better is_min e.entry_value b ≡ false
    pub entry : MinMaxAggregateValueState V
    pub there : get_entry dec (stable_string b) m ≡ some entry

  abbrev pub Extreme : Bool → List (S × MinMaxAggregateValueState V) → Option V → Type 0
  Extreme is_min m none = m ≡ []
  Extreme is_min m (some b) = IsExtreme is_min m b

  abbrev pub IsKeyed : List (S × MinMaxAggregateValueState V) → Type 0
  IsKeyed m =
      (key : S) (e : MinMaxAggregateValueState V)
      → get_entry dec key m ≡ some e
      → stable_string e.entry_value ≡ key

  -- An entry of the map holds the value.
  pub record Holder (b : V) (m : List (S × MinMaxAggregateValueState V)) : Type 0 where
    pub key : S
    pub entry : MinMaxAggregateValueState V
    pub there : get_entry dec key m ≡ some entry
    pub held : b ≡ entry.entry_value

  keep-Holder :
      (b : V) (k : S) (x : MinMaxAggregateValueState V)
      (rest : List (S × MinMaxAggregateValueState V))
      → get_entry dec k rest ≡ none
      → Holder b rest
      → Holder b ((k, x) ∷ rest)
  keep-Holder b k x rest u h = record {
    key = h.key;
    entry = h.entry;
    there = ground (arith, u, h.there);
    held = h.held;
  }

  -- The loop over the entries finds the best of them and of the value it starts with.
  pub record Found (is_min : Bool) (start b : V) (m : List (S × MinMaxAggregateValueState V))
      : Type 0 where
    pub start_bound : better is_min start b ≡ false
    pub bound :
        (key : S) (e : MinMaxAggregateValueState V)
        → get_entry dec key m ≡ some e
        → better is_min e.entry_value b ≡ false
    pub source : (b ≡ start) ⊎ Holder b m

  best-Found :
      (is_min : Bool) (start : V) (m : List (S × MinMaxAggregateValueState V))
      → HasUniqueKeys dec m
      → (b : V) × (best is_min (some start) m ≡ some b) × Found is_min start b m
  best-Found is_min start [] u = (
    start,
    refl,
    record {
      start_bound = better_self is_min start;
      bound = λ key e h. absurd (cc h);
      source = inl refl;
    },
  )
  best-Found is_min start ((k, x) ∷ rest) u =
      elim (Bool-cases (better is_min x.entry_value start)) [
        | inl h ↦
            let (b, found, f) = best-Found is_min x.entry_value rest u.1 in
            (
              b,
              rw (h, best_of) found,
              record {
                start_bound =
                    not_better_trans is_min start x.entry_value b
                      (better_asym is_min x.entry_value start h) f.start_bound;
                bound = λ key e g. elim (dec key k) [
                  | yes s ↦
                      let same_entry : x ≡ e = ground (arith, s, g) in
                      subst
                        (λ (y : MinMaxAggregateValueState V). better is_min y.entry_value b ≡ false)
                        same_entry f.start_bound
                  | no n ↦ f.bound key e (ground (arith, n, g))
                ];
                source = elim f.source [
                  | inl s ↦ inr (record { key = k; entry = x; there = ground arith; held = s })
                  | inr s ↦ inr (keep-Holder b k x rest u.0 s)
                ];
              },
            )
        | inr h ↦
            let (b, found, f) = best-Found is_min start rest u.1 in
            (
              b,
              rw (h, best_of) found,
              record {
                start_bound = f.start_bound;
                bound = λ key e g. elim (dec key k) [
                  | yes s ↦
                      let same_entry : x ≡ e = ground (arith, s, g) in
                      subst
                        (λ (y : MinMaxAggregateValueState V). better is_min y.entry_value b ≡ false)
                        same_entry (not_better_trans is_min x.entry_value start b h f.start_bound)
                  | no n ↦ f.bound key e (ground (arith, n, g))
                ];
                source = elim f.source [
                  | inl s ↦ inl s
                  | inr s ↦ inr (keep-Holder b k x rest u.0 s)
                ];
              },
            )
      ]

  held-Extreme :
      (is_min : Bool) (b : V) (m : List (S × MinMaxAggregateValueState V))
      → IsKeyed m
      → ((key : S) (e : MinMaxAggregateValueState V)
          → get_entry dec key m ≡ some e
          → better is_min e.entry_value b ≡ false)
      → Holder b m
      → Extreme is_min m (some b)
  held-Extreme is_min b m keyed bound h =
      let key : stable_string b ≡ h.key = ap stable_string h.held ∙ keyed h.key h.entry h.there in
      record {
        bound = bound;
        entry = h.entry;
        there = ap (λ (key : S). get_entry dec key m) key ∙ h.there;
      }

  -- Recomputing gives an extreme of the map, whatever was known before.
  pub best-Extreme :
      (is_min : Bool) (m : List (S × MinMaxAggregateValueState V))
      → HasUniqueKeys dec m
      → IsKeyed m
      → Extreme is_min m (best is_min none m)
  best-Extreme is_min [] u keyed = refl
  best-Extreme is_min ((k, x) ∷ rest) u keyed =
      let (b, found, f) = best-Found is_min x.entry_value rest u.1 in
      let bound : (key : S) (e : MinMaxAggregateValueState V)
          → get_entry dec key ((k, x) ∷ rest) ≡ some e
          → better is_min e.entry_value b ≡ false =
        λ key e g. elim (dec key k) [
          | yes s ↦
              let same_entry : x ≡ e = ground (arith, s, g) in
              subst (λ (y : MinMaxAggregateValueState V). better is_min y.entry_value b ≡ false)
                same_entry f.start_bound
          | no n ↦ f.bound key e (ground (arith, n, g))
        ] in
      subst (Extreme is_min ((k, x) ∷ rest)) (sym found) (
        held-Extreme is_min b ((k, x) ∷ rest) keyed bound (elim f.source [
          | inl s ↦ record { key = k; entry = x; there = ground arith; held = s }
          | inr s ↦ keep-Holder b k x rest u.0 s
        ]))

  module _ (is_min : Bool) (v : V) (m added : List (S × MinMaxAggregateValueState V))
      (keyed : IsKeyed added) (e_v : MinMaxAggregateValueState V)
      (at_v : get_entry dec (stable_string v) added ≡ some e_v)
      (others : (key : S)
        → stable_string v ≢ key
        → get_entry dec key added ≡ get_entry dec key m) where
    with_v :
        (b : V)
        → better is_min v b ≡ false
        → ((key : S) (e : MinMaxAggregateValueState V)
            → get_entry dec key m ≡ some e
            → better is_min e.entry_value b ≡ false)
        → (key : S) (e : MinMaxAggregateValueState V) → get_entry dec key added ≡ some e
        → better is_min e.entry_value b ≡ false
    with_v b h bound key e g = elim (dec (stable_string v) key) [
      | yes s ↦
          not_better_trans is_min e.entry_value v b
            (better-same is_min e.entry_value v (keyed key e g ∙ sym s)) h
      | no n ↦ bound key e (sym (others key n) ∙ g)
    ]

    pub choose-Extreme :
        (start : Option V) → Extreme is_min m start → Extreme is_min added (choose is_min start v)
    choose-Extreme none empty = record {
      bound = with_v v (better_self is_min v) (λ key e g.
          absurd (let at_nil : get_entry dec key [] ≡ some e = rw empty at g in cc at_nil));
      entry = e_v;
      there = at_v;
    }
    choose-Extreme (some b) x = elim (Bool-cases (better is_min v b)) [
      | inl h ↦
          rw (h, better_of)
            (record {
              bound = with_v v (better_self is_min v) (λ key e g.
                  not_better_trans is_min e.entry_value b v (x.bound key e g)
                    (better_asym is_min v b h));
              entry = e_v;
              there = at_v;
            })
      | inr h ↦
          rw (h, better_of)
            (elim (dec (stable_string v) (stable_string b)) [
              | yes s ↦ record {
                bound = with_v b h x.bound;
                entry = e_v;
                there = ap (λ (key : S). get_entry dec key added) (sym s) ∙ at_v;
              }
              | no n ↦ record {
                bound = with_v b h x.bound;
                entry = x.entry;
                there = others (stable_string b) n ∙ x.there;
              }
            ])
    ]

  -- Fewer entries, with the same values, among them the extreme one's.
  pub fewer-Extreme :
      (is_min : Bool) (m less_m : List (S × MinMaxAggregateValueState V)) (b : V)
      → ((key : S) (e : MinMaxAggregateValueState V)
          → get_entry dec key less_m ≡ some e
          → (old : MinMaxAggregateValueState V) × (get_entry dec key m ≡ some old)
            × (old.entry_value ≡ e.entry_value))
      → (e : MinMaxAggregateValueState V) → get_entry dec (stable_string b) less_m ≡ some e
      → IsExtreme is_min m b
      → IsExtreme is_min less_m b
  fewer-Extreme is_min m less_m b old e there x = record {
    bound = λ key y g.
        let (z, at_z, same_value) = old key y g in
        subst (λ (w : V). better is_min w b ≡ false) same_value (x.bound key z at_z);
    entry = e;
    there = there;
  }
