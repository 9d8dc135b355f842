-- ===== src/Engine/Heap/Order.antt =====
-- The order of a heap: every element is at most its parent, and sifting up or down restores that.
use view_server_smart.Shared.{
  ℕ, zero, suc, ◌-◌, ◌/◌, ◌<◌, ◌≡◌, ◌≢◌, refl, sym, ap, subst, ◌∙◌, inl, inr, true, false, arith,
  Bool-cases, ◌==◌, ==→≡, ==→≢,
}
use view_server_smart.Shared.Order.{Comparison, AtMost, IsPreorder, AtMost-self}
use view_server_smart.Engine.Heap.Reads.{swap_at}

abbrev pub parent : ℕ → ℕ
parent i = (i - 1) / 2

module _ {A : Type 0} (compare : A → A → Comparison) where
  abbrev pub InOrder : ℕ → (ℕ → A) → Type 0
  InOrder size f = (i : ℕ) → 0 < i → i < size → AtMost compare (f i) (f (parent i))

  -- The order holds but between `current` and its parent.
  pub record InOrderBelow (size current : ℕ) (f : ℕ → A) : Type 0 where
    pub others : (i : ℕ) → 0 < i → i < size → i ≢ current → AtMost compare (f i) (f (parent i))
    pub children :
        (i : ℕ)
        → 0 < i
        → i < size
        → parent i ≡ current
        → 0 < current
        → AtMost compare (f i) (f (parent current))

  -- The order holds but between `current` and its children.
  pub record InOrderAbove (size current : ℕ) (f : ℕ → A) : Type 0 where
    pub others :
        (i : ℕ) → 0 < i → i < size → parent i ≢ current → AtMost compare (f i) (f (parent i))
    pub children :
        (i : ℕ)
        → 0 < i
        → i < size
        → parent i ≡ current
        → 0 < current
        → AtMost compare (f i) (f (parent current))

module _ {A : Type 0} (f : ℕ → A) (l r : ℕ) where
  swap_at-left : l ≢ r → swap_at f l r l ≡ f r
  swap_at-left n =
      let e : (r == l) ≡ false = ground (arith, n) in
      let e' : (l == l) ≡ true = ground arith in rw (e, e', swap_at) refl

  swap_at-right : swap_at f l r r ≡ f l
  swap_at-right = let e : (r == r) ≡ true = ground arith in rw (e, swap_at) refl

  swap_at-other : (i : ℕ) → l ≢ i → r ≢ i → swap_at f l r i ≡ f i
  swap_at-other i n m =
      let e : (r == i) ≡ false = ground (arith, m) in
      let e' : (l == i) ≡ false = ground (arith, n) in rw (e, e', swap_at) refl

module _ {A : Type 0} {compare : A → A → Comparison} (o : IsPreorder compare) (size : ℕ)
    (f : ℕ → A) where
  AtMost-reads : (a b c d : A) → a ≡ b → c ≡ d → AtMost compare b d → AtMost compare a c
  AtMost-reads a b c d e e' h = rw (e, e') h

  module _ (c : ℕ) (pos : 0 < c) (inside : c < size) (x : InOrderBelow compare size c f)
      (above : AtMost compare (f (parent c)) (f c)) where
    apart : parent c ≢ c
    apart = λ e. omega (arith, e, pos)

    up-others :
        (i : ℕ)
        → 0 < i
        → i < size
        → i ≢ parent c
        → AtMost compare (swap_at f (parent c) c i) (swap_at f (parent c) c (parent i))
    up-others i hi hs n = elim (Bool-cases (i == c)) [
      | inl e ↦
          let e : i ≡ c = ==→≡ i c e in
          AtMost-reads _ (f (parent c)) _ (f c)
            (ap (swap_at f (parent c) c) e ∙ swap_at-right f (parent c) c)
            (ap (λ (i : ℕ). swap_at f (parent c) c (parent i)) e
              ∙ swap_at-left f (parent c) c apart)
            above
      | inr ne ↦
          let ne : i ≢ c = ==→≢ i c ne in
          let kept = swap_at-other f (parent c) c i (λ e. n (sym e)) (λ e. ne (sym e)) in
          elim (Bool-cases (parent i == parent c)) [
            | inl e ↦
                let e : parent i ≡ parent c = ==→≡ (parent i) (parent c) e in
                let below : AtMost compare (f i) (f (parent c)) =
                  subst (λ (j : ℕ). AtMost compare (f i) (f j)) e (x.others i hi hs ne) in
                AtMost-reads _ (f i) _ (f c) kept
                  (ap (swap_at f (parent c) c) e ∙ swap_at-left f (parent c) c apart)
                  (o.trans (f i) (f (parent c)) (f c) below above)
            | inr np ↦
                let np : parent i ≢ parent c = ==→≢ (parent i) (parent c) np in
                elim (Bool-cases (parent i == c)) [
                  | inl e ↦
                      let e : parent i ≡ c = ==→≡ (parent i) c e in
                      AtMost-reads _ (f i) _ (f (parent c)) kept
                        (ap (swap_at f (parent c) c) e ∙ swap_at-right f (parent c) c)
                        (x.children i hi hs e pos)
                  | inr nc ↦
                      let nc : parent i ≢ c = ==→≢ (parent i) c nc in
                      AtMost-reads _ (f i) _ (f (parent i)) kept
                        (swap_at-other f (parent c) c (parent i) (λ e. np (sym e))
                          (λ e. nc (sym e)))
                        (x.others i hi hs ne)
                ]
          ]
    ]

    up-children :
        (i : ℕ)
        → 0 < i
        → i < size
        → parent i ≡ parent c
        → 0 < parent c
        → AtMost compare (swap_at f (parent c) c i) (swap_at f (parent c) c (parent (parent c)))
    up-children i hi hs e hp =
        let up : swap_at f (parent c) c (parent (parent c)) ≡ f (parent (parent c)) =
          swap_at-other f (parent c) c (parent (parent c)) (λ e. omega (arith, e, hp))
            (λ e. omega (arith, e, hp)) in
        let grand : AtMost compare (f (parent c)) (f (parent (parent c))) =
          x.others (parent c) hp (omega (arith, inside)) apart in
        elim (Bool-cases (i == c)) [
          | inl e ↦
              AtMost-reads _ (f (parent c)) _ (f (parent (parent c)))
                (ap (swap_at f (parent c) c) (==→≡ i c e) ∙ swap_at-right f (parent c) c) up grand
          | inr ne ↦
              let ne : i ≢ c = ==→≢ i c ne in
              let below : AtMost compare (f i) (f (parent c)) =
                subst (λ (j : ℕ). AtMost compare (f i) (f j)) e (x.others i hi hs ne) in
              AtMost-reads _ (f i) _ (f (parent (parent c)))
                (swap_at-other f (parent c) c i (λ e'. omega (arith, e', e, hi, hp))
                  (λ e. ne (sym e)))
                up (o.trans (f i) (f (parent c)) (f (parent (parent c))) below grand)
        ]

    -- One round up: `c` is above its parent, and takes its place.
    pub up-round : InOrderBelow compare size (parent c) (swap_at f (parent c) c)
    up-round = record { others = up-others; children = up-children }

  -- One round down: the child `w` of `c` is above it and the other child, and takes its place.
  module _ (c w : ℕ) (inside : w < size) (child : parent w ≡ c) (pos : 0 < w)
      (x : InOrderAbove compare size c f) (below : AtMost compare (f c) (f w))
      (best : (i : ℕ) → 0 < i → i < size → parent i ≡ c → AtMost compare (f i) (f w)) where
    apart_down : c ≢ w
    apart_down = λ e. omega (arith, e, pos, child)

    down-others :
        (i : ℕ)
        → 0 < i
        → i < size
        → parent i ≢ w
        → AtMost compare (swap_at f c w i) (swap_at f c w (parent i))
    down-others i hi hs n = elim (Bool-cases (parent i == c)) [
      | inl e ↦
          let e : parent i ≡ c = ==→≡ (parent i) c e in
          let top = ap (swap_at f c w) e ∙ swap_at-left f c w apart_down in
          elim (Bool-cases (i == w)) [
            | inl s ↦
                AtMost-reads _ (f c) _ (f w) (ap (swap_at f c w) (==→≡ i w s) ∙ swap_at-right f c w)
                  top below
            | inr s ↦
                AtMost-reads _ (f i) _ (f w)
                  (swap_at-other f c w i (λ e'. omega (arith, e', e, hi))
                    (λ e'. ==→≢ i w s (sym e')))
                  top (best i hi hs e)
          ]
      | inr ne ↦
          let ne : parent i ≢ c = ==→≢ (parent i) c ne in
          let top = swap_at-other f c w (parent i) (λ e. ne (sym e)) (λ e. n (sym e)) in
          elim (Bool-cases (i == c)) [
            | inl s ↦
                let s : i ≡ c = ==→≡ i c s in
                AtMost-reads _ (f w) _ (f (parent i))
                  (ap (swap_at f c w) s ∙ swap_at-left f c w apart_down) top
                  (subst (λ (j : ℕ). AtMost compare (f w) (f (parent j))) (sym s)
                    (x.children w pos inside child (omega (arith, s, hi))))
            | inr s ↦
                let s : i ≢ c = ==→≢ i c s in
                AtMost-reads _ (f i) _ (f (parent i))
                  (swap_at-other f c w i (λ e. s (sym e)) (λ e. ne (ap parent (sym e) ∙ child))) top
                  (x.others i hi hs ne)
          ]
    ]

    down-children :
        (i : ℕ)
        → 0 < i
        → i < size
        → parent i ≡ w
        → 0 < w
        → AtMost compare (swap_at f c w i) (swap_at f c w (parent w))
    down-children i hi hs e hw =
        AtMost-reads _ (f i) _ (f w)
          (swap_at-other f c w i (λ e'. omega (arith, e', e, child, pos))
            (λ e'. omega (arith, e', e, hi)))
          (ap (swap_at f c w) child ∙ swap_at-left f c w apart_down)
          (subst (λ (j : ℕ). AtMost compare (f i) (f j)) e
            (x.others i hi hs (λ e'. apart_down (sym e' ∙ e))))

    pub down-round : InOrderAbove compare size w (swap_at f c w)
    down-round = record { others = down-others; children = down-children }

  -- In a heap the root is above all.
  pub root-AtMost :
      InOrder compare size f → (bound i : ℕ) → i < bound → i < size → AtMost compare (f i) (f 0)
  root-AtMost h zero i b s = absurd (omega (arith, b))
  root-AtMost h (suc bound) zero b s = AtMost-self o (f 0)
  root-AtMost h (suc bound) (suc i) b s =
      o.trans (f (suc i)) (f (parent (suc i))) (f 0) (h (suc i) (omega arith) s)
        (root-AtMost h bound (parent (suc i)) (omega (arith, b)) (omega (arith, s)))
