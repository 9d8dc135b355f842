-- ===== src/Engine/Heap/Maps.antt =====
-- A heap of images: the heap's operations commute with a function that the tests look through.
use view_server_smart.Shared.{
  ℕ, zero, suc, ◌+◌, ◌-◌, ◌*◌, ◌/◌, ◌≡◌, refl, sym, ap, ◌∙◌, inl, inr, Bool, true, false, List, [],
  ◌∷◌, ◌++◌, map, length, get_elem?, set, ltb, ◌==◌, Bool-cases, Option-cases, get_elem?-map,
  get_elem?-map-none, map-set, length-map,
}
use view_server_smart.Engine.Heap.{
  swap_heap, test_at, sift_up, sift_down, pick, largest_of, retain_bounded,
}

module _ {A B : Type 0} (f : A → B) where
  map-append : (xs : List A) (x : A) → map f (xs ++ x ∷ []) ≡ map f xs ++ f x ∷ []
  map-append [] x = refl
  map-append (y ∷ ys) x = ap (λ (zs : List B). f y ∷ zs) (map-append ys x)

  map-swap_heap :
      (heap : List A) (l r : ℕ) → swap_heap (map f heap) l r ≡ map f (swap_heap heap l r)
  map-swap_heap heap l r = elim (Option-cases (get_elem? heap l)) [
    | inl e ↦ rw (e, get_elem?-map-none f heap l e, swap_heap) refl
    | inr (a, e) ↦ elim (Option-cases (get_elem? heap r)) [
      | inl g ↦ rw (e, get_elem?-map f heap l a e, g, get_elem?-map-none f heap r g, swap_heap) refl
      | inr (b, g) ↦
          rw (e, get_elem?-map f heap l a e, g, get_elem?-map f heap r b g, swap_heap)
            (ap (λ (h : List B). set h r (f a)) (sym (map-set f heap l b))
              ∙ sym (map-set f (set heap l b) r a))
    ]
  ]

  module _ (test : A → A → Bool) (test_image : B → B → Bool)
      (agrees : (a b : A) → test_image (f a) (f b) ≡ test a b) where
    test_at-map :
        (heap : List A) (i j : ℕ) → test_at test_image (map f heap) i j ≡ test_at test heap i j
    test_at-map heap i j = elim (Option-cases (get_elem? heap i)) [
      | inl e ↦ rw (e, get_elem?-map-none f heap i e, test_at) refl
      | inr (a, e) ↦ elim (Option-cases (get_elem? heap j)) [
        | inl g ↦ rw (e, get_elem?-map f heap i a e, g, get_elem?-map-none f heap j g, test_at) refl
        | inr (b, g) ↦
            rw (e, get_elem?-map f heap i a e, g, get_elem?-map f heap j b g, test_at) (agrees a b)
      ]
    ]

    pick-map :
        (heap : List A) (child largest : ℕ)
        → pick test_image (map f heap) child largest ≡ pick test heap child largest
    pick-map heap child largest = rw (length-map f heap, test_at-map heap child largest, pick) refl

    largest_of-map :
        (heap : List A) (c : ℕ) → largest_of test_image (map f heap) c ≡ largest_of test heap c
    largest_of-map heap c =
        pick-map heap (c * 2 + 1 + 1) _
        ∙ ap (pick test heap (c * 2 + 1 + 1)) (pick-map heap (c * 2 + 1) c)

    sift_up-map :
        (fuel : ℕ) (heap : List A) (c : ℕ)
        → sift_up test_image fuel (map f heap) c ≡ map f (sift_up test fuel heap c)
    unfolding sift_up
    sift_up-map zero heap c = refl
    sift_up-map (suc fuel) heap c = elim (Bool-cases (c == 0)) [
      | inl e ↦ rw (e, sift_up) refl
      | inr e ↦
          let read = test_at-map heap c ((c - 1) / 2) in
          elim (Bool-cases (test_at test heap c ((c - 1) / 2))) [
            | inl t ↦
                let t' : test_at test_image (map f heap) c ((c - 1) / 2) ≡ true = read ∙ t in
                rw (e, t, t', sift_up)
                  (ap (λ (h : List B). sift_up test_image fuel h ((c - 1) / 2))
                      (map-swap_heap heap ((c - 1) / 2) c)
                    ∙ sift_up-map fuel (swap_heap heap ((c - 1) / 2) c) ((c - 1) / 2))
            | inr t ↦
                let t' : test_at test_image (map f heap) c ((c - 1) / 2) ≡ false = read ∙ t in
                rw (e, t, t', sift_up) refl
          ]
    ]

    sift_down-map :
        (fuel : ℕ) (heap : List A) (c : ℕ)
        → sift_down test_image fuel (map f heap) c ≡ map f (sift_down test fuel heap c)
    unfolding sift_down
    sift_down-map zero heap c = refl
    sift_down-map (suc fuel) heap c =
        let w = largest_of-map heap c in
        elim (Bool-cases (largest_of test heap c == c)) [
          | inl e ↦
              let e' : (largest_of test_image (map f heap) c == c) ≡ true =
                ap (λ (w : ℕ). w == c) w ∙ e in
              rw (e, e', sift_down) refl
          | inr e ↦
              let e' : (largest_of test_image (map f heap) c == c) ≡ false =
                ap (λ (w : ℕ). w == c) w ∙ e in
              rw (e, e', sift_down)
                (ap (λ (w : ℕ). sift_down test_image fuel (swap_heap (map f heap) c w) w) w
                  ∙ ap (λ (h : List B). sift_down test_image fuel h (largest_of test heap c))
                      (map-swap_heap heap c (largest_of test heap c))
                  ∙ sift_down-map fuel (swap_heap heap c (largest_of test heap c))
                      (largest_of test heap c))
        ]

  module _ (rises larger better : A → A → Bool) (rises' larger' better' : B → B → Bool)
      (r : (a b : A) → rises' (f a) (f b) ≡ rises a b)
      (l : (a b : A) → larger' (f a) (f b) ≡ larger a b)
      (t : (a b : A) → better' (f a) (f b) ≡ better a b) where
    pub retain_bounded-map :
        (window_end : ℕ) (heap : List A) (x : A)
        → retain_bounded rises' larger' better' window_end (map f heap) (f x)
          ≡ map f (retain_bounded rises larger better window_end heap x)
    retain_bounded-map window_end heap x = elim (Bool-cases (ltb (length heap) window_end)) [
      | inl e ↦
          let e' : ltb (length (map f heap)) window_end ≡ true =
            ap (λ (n : ℕ). ltb n window_end) (length-map f heap) ∙ e in
          rw (e, e', retain_bounded)
            (ap (λ (n : ℕ). sift_up rises' n (map f heap ++ f x ∷ []) n) (length-map f heap)
              ∙ ap (λ (h : List B). sift_up rises' (length heap) h (length heap))
                  (sym (map-append heap x))
              ∙ sift_up-map rises rises' r (length heap) (heap ++ x ∷ []) (length heap))
      | inr e ↦
          let e' : ltb (length (map f heap)) window_end ≡ false =
            ap (λ (n : ℕ). ltb n window_end) (length-map f heap) ∙ e in
          elim (Option-cases (get_elem? heap 0)) [
            | inl g ↦ rw (e, e', g, get_elem?-map-none f heap 0 g, retain_bounded) refl
            | inr (root, g) ↦ elim (Bool-cases (better x root)) [
              | inl b ↦
                  let b' : better' (f x) (f root) ≡ true = t x root ∙ b in
                  rw (e, e', g, get_elem?-map f heap 0 root g, b, b', retain_bounded)
                    (ap (λ (n : ℕ). sift_down larger' n (set (map f heap) 0 (f x)) 0)
                        (length-map f heap)
                      ∙ ap (λ (h : List B). sift_down larger' (length heap) h 0)
                          (sym (map-set f heap 0 x))
                      ∙ sift_down-map larger larger' l (length heap) (set heap 0 x) 0)
              | inr b ↦
                  let b' : better' (f x) (f root) ≡ false = t x root ∙ b in
                  rw (e, e', g, get_elem?-map f heap 0 root g, b, b', retain_bounded) refl
            ]
          ]
    ]
