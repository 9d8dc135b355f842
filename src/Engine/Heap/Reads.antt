-- ===== src/Engine/Heap/Reads.antt =====
-- What a heap holds at its indexes after a swap, and how often it holds an element.
use view_server_smart.Shared.{
  ℕ, zero, suc, ◌+◌, ◌<◌, ◌≡◌, ◌≢◌, refl, sym, ap, subst, ◌∙◌, inl, inr, Bool, none, some, List, [],
  ◌∷◌, ◌++◌, length, get_elem?, set, if◌then◌else◌, arith, Bool-cases, length-set, get_elem?-lt,
  ◌==◌, ==→≡, ==→≢,
}
use view_server_smart.Shared.Order.{Comparison, is_same}
use view_server_smart.Shared.Order.Sorting.{count}
use view_server_smart.Engine.Storage.Elements.{get_elem?-set-same, get_elem?-set-other}
use view_server_smart.Engine.Heap.{swap_heap, test_at}

module _ {A : Type 0} where
  abbrev pub set_at : (ℕ → A) → ℕ → A → ℕ → A
  set_at f i v j = if i == j then v else f j

  abbrev pub swap_at : (ℕ → A) → ℕ → ℕ → ℕ → A
  swap_at f l r j = if r == j then f l else (if l == j then f r else f j)

module _ {A : Type 0} (d : A) where
  -- The element at an index in range; `d` stands for what is beyond.
  abbrev pub at : List A → ℕ → A
  at heap i = elim (get_elem? heap i) [ none ↦ d | some a ↦ a ]

  pub get_elem?-at : (heap : List A) (i : ℕ) → i < length heap → get_elem? heap i ≡ some (at heap i)
  get_elem?-at heap i h = let (x, e) = get_elem?-lt heap i h in rw (e, at) refl

  pub at-set :
      (heap : List A) (i j : ℕ) (v : A)
      → i < length heap
      → at (set heap i v) j ≡ set_at (at heap) i v j
  at-set heap i j v h = elim (Bool-cases (i == j)) [
    | inl e ↦
        let same_index : i ≡ j = ==→≡ i j e in
        let written : get_elem? (set heap i v) j ≡ some v =
          ap (get_elem? (set heap i v)) (sym same_index) ∙ get_elem?-set-same heap i v h in
        rw (e, written, at, set_at) refl
    | inr e ↦ rw (e, get_elem?-set-other heap i j v (==→≢ i j e), at, set_at) refl
  ]

  pub swap_heap-set :
      (heap : List A) (l r : ℕ)
      → l < length heap
      → r < length heap
      → swap_heap heap l r ≡ set (set heap l (at heap r)) r (at heap l)
  swap_heap-set heap l r hl hr = rw (get_elem?-at heap l hl, get_elem?-at heap r hr, swap_heap) refl

  pub length-swap_heap :
      (heap : List A) (l r : ℕ)
      → l < length heap
      → r < length heap
      → length (swap_heap heap l r) ≡ length heap
  length-swap_heap heap l r hl hr =
      ap length (swap_heap-set heap l r hl hr)
      ∙ length-set (set heap l (at heap r)) r (at heap l)
      ∙ length-set heap l (at heap r)

  pub at-swap_heap :
      (heap : List A) (l r j : ℕ)
      → l < length heap
      → r < length heap
      → at (swap_heap heap l r) j ≡ swap_at (at heap) l r j
  at-swap_heap heap l r j hl hr =
      let first = at-set heap l j (at heap r) hl in
      let second =
        at-set (set heap l (at heap r)) r j (at heap l)
          (omega (arith, length-set heap l (at heap r), hr)) in
      ap (λ (h : List A). at h j) (swap_heap-set heap l r hl hr)
      ∙ second
      ∙ ap (λ (x : A). if r == j then at heap l else x) first

  pub test_at-at :
      (test : A → A → Bool) (heap : List A) (i j : ℕ)
      → i < length heap
      → j < length heap
      → test_at test heap i j ≡ test (at heap i) (at heap j)
  test_at-at test heap i j hi hj = rw (get_elem?-at heap i hi, get_elem?-at heap j hj, test_at) refl

module _ {A : Type 0} (d : A) (compare : A → A → Comparison) where
  abbrev pub once : A → A → ℕ
  once a x = if is_same (compare a x) then 1 else 0

  pub count-set :
      (a : A) (heap : List A) (i : ℕ) (v : A)
      → i < length heap
      → count compare a (set heap i v) + once a (at d heap i) ≡ count compare a heap + once a v
  count-set a [] i v h = absurd (omega arith)
  count-set a (x ∷ xs) zero v h = omega arith
  count-set a (x ∷ xs) (suc i) v h = omega (arith, count-set a xs i v (omega (arith, h)))

  pub count-swap_heap :
      (a : A) (heap : List A) (l r : ℕ)
      → l < length heap
      → r < length heap
      → l ≢ r
      → count compare a (swap_heap heap l r) ≡ count compare a heap
  count-swap_heap a heap l r hl hr n =
      let one = count-set a heap l (at d heap r) hl in
      let two =
        count-set a (set heap l (at d heap r)) r (at d heap l)
          (omega (arith, length-set heap l (at d heap r), hr)) in
      let read : at d (set heap l (at d heap r)) r ≡ at d heap r =
        rw (get_elem?-set-other heap l r (at d heap r) n, at) refl in
      let two' =
        subst
          (λ (x : A).
            count compare a (set (set heap l (at d heap r)) r (at d heap l)) + once a x
            ≡ count compare a (set heap l (at d heap r)) + once a (at d heap l))
          read two in
      ap (count compare a) (swap_heap-set d heap l r hl hr) ∙ omega (arith, one, two')

  pub count-append :
      (a x : A) (heap : List A) → count compare a (heap ++ x ∷ []) ≡ once a x + count compare a heap
  count-append a x [] = omega arith
  count-append a x (y ∷ ys) = omega (arith, count-append a x ys)
