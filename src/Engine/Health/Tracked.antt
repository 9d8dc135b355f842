-- ===== src/Engine/Health/Tracked.antt =====
-- The map of a ledger's subscriptions: sums and bounds under set and delete.
use view_server_smart.Shared.{
  ℕ, ◌+◌, ◌≤◌, ◌≡◌, refl, ap, false, none, some, List, [], ◌∷◌, ◌++◌, arith, length, contains,
  Distinct, ite,
}
use view_server_smart.Shared.Arrays.{keys_of}
use view_server_smart.Engine.Health.{
  TopicHealthSubscription, get_tracked, set_tracked, delete_tracked,
}

module _ {S : Type 0} where
  abbrev pub sum_of : (TopicHealthSubscription → ℕ) → List (S × TopicHealthSubscription) → ℕ
  sum_of f [] = 0
  sum_of f ((s, tracked) ∷ rest) = f tracked + sum_of f rest

  -- Each subscription's queue is within its own maximum, and that within the topic's.
  abbrev pub AllWithin : ℕ → List (S × TopicHealthSubscription) → Type 0
  AllWithin depth [] = Unit
  AllWithin depth ((s, tracked) ∷ rest) =
      (tracked.queued_events ≤ tracked.max_queue_depth)
      × (tracked.max_queue_depth ≤ depth)
      × AllWithin depth rest

  pub AllWithin-more :
      (depth more : ℕ) (subs : List (S × TopicHealthSubscription))
      → AllWithin depth subs
      → depth ≤ more
      → AllWithin more subs
  AllWithin-more depth more [] w le = tt
  AllWithin-more depth more ((s, tracked) ∷ rest) w le =
      (w.0, omega (arith, w.1, le), AllWithin-more depth more rest w.2 le)

module _ {S : Type 0} (dec : Discrete S) where
  pub get_tracked-none :
      (s : S) (subs : List (S × TopicHealthSubscription))
      → get_tracked dec s subs ≡ none
      → contains dec s (keys_of subs) ≡ false
  unfolding get_tracked
  get_tracked-none s [] h = refl
  get_tracked-none s ((k, t) ∷ rest) h = ground (arith, get_tracked-none s rest)

  pub set_tracked-new :
      (s : S) (t : TopicHealthSubscription) (subs : List (S × TopicHealthSubscription))
      → contains dec s (keys_of subs) ≡ false
      → set_tracked dec s t subs ≡ subs ++ (s, t) ∷ []
  unfolding set_tracked
  set_tracked-new s t [] h = refl
  set_tracked-new s t ((k, old) ∷ rest) h = elim (dec s k) [
    | yes e ↦ absurd (ground (arith, e, h))
    | no n ↦
        let later : contains dec s (keys_of rest) ≡ false = ground (arith, n, h) in
        let rest_new = set_tracked-new s t rest later in ground (arith, n, rest_new)
  ]

  pub set_tracked-old :
      (s : S) (t old : TopicHealthSubscription) (subs : List (S × TopicHealthSubscription))
      (f : TopicHealthSubscription → ℕ)
      → get_tracked dec s subs ≡ some old
      → sum_of f (set_tracked dec s t subs) + f old ≡ sum_of f subs + f t
  unfolding set_tracked get_tracked
  set_tracked-old s t old [] f h = cc
  set_tracked-old s t old ((k, x) ∷ rest) f h = go (set_tracked-old s t old rest f) (dec s k) h
    where
      go :
          (get_tracked dec s rest ≡ some old
            → sum_of f (set_tracked dec s t rest) + f old ≡ sum_of f rest + f t)
          → (d : Dec (s ≡ k)) → ite d (some x) (get_tracked dec s rest) ≡ some old
          → sum_of f (ite d ((k, t) ∷ rest) ((k, x) ∷ set_tracked dec s t rest)) + f old
            ≡ f x + sum_of f rest + f t
      go later (yes e) g = let same : f x ≡ f old = ap f (ground (arith, g)) in omega (arith, same)
      go later (no n) g = omega (arith, later g)

  pub set_tracked-keys :
      (s : S) (t old : TopicHealthSubscription) (subs : List (S × TopicHealthSubscription))
      → get_tracked dec s subs ≡ some old
      → keys_of (set_tracked dec s t subs) ≡ keys_of subs
  unfolding set_tracked get_tracked
  set_tracked-keys s t old [] h = cc
  set_tracked-keys s t old ((k, x) ∷ rest) h = ground (arith, set_tracked-keys s t old rest)

  pub set_tracked-AllWithin :
      (s : S) (t old : TopicHealthSubscription) (subs : List (S × TopicHealthSubscription))
      (depth : ℕ)
      → AllWithin depth subs
      → t.queued_events ≤ t.max_queue_depth
      → t.max_queue_depth ≤ depth
      → AllWithin depth (set_tracked dec s t subs)
  unfolding set_tracked
  set_tracked-AllWithin s t old [] depth w le le' = (le, le', tt)
  set_tracked-AllWithin s t old ((k, x) ∷ rest) depth w le le' =
      ground (arith, set_tracked-AllWithin s t old rest depth w.2 le le', w.2)

  pub tracked_within :
      (s : S) (old : TopicHealthSubscription) (subs : List (S × TopicHealthSubscription))
      (depth : ℕ)
      → AllWithin depth subs
      → get_tracked dec s subs ≡ some old
      → (old.queued_events ≤ old.max_queue_depth) × (old.max_queue_depth ≤ depth)
  unfolding get_tracked
  tracked_within s old [] depth w h = cc
  tracked_within s old ((k, x) ∷ rest) depth w h =
      go (tracked_within s old rest depth w.2) (dec s k) h
    where
      go :
          (get_tracked dec s rest ≡ some old
            → (old.queued_events ≤ old.max_queue_depth) × (old.max_queue_depth ≤ depth))
          → (d : Dec (s ≡ k)) → ite d (some x) (get_tracked dec s rest) ≡ some old
          → (old.queued_events ≤ old.max_queue_depth) × (old.max_queue_depth ≤ depth)
      go later (yes e) g =
          let same : x ≡ old = ground (arith, g) in ((rw same at w.0), (rw same at w.1))
      go later (no n) g = later g

  pub delete_tracked-sum :
      (s : S) (old : TopicHealthSubscription) (subs : List (S × TopicHealthSubscription))
      (f : TopicHealthSubscription → ℕ)
      → get_tracked dec s subs ≡ some old
      → sum_of f (delete_tracked dec s subs) + f old ≡ sum_of f subs
  unfolding delete_tracked get_tracked
  delete_tracked-sum s old [] f h = cc
  delete_tracked-sum s old ((k, x) ∷ rest) f h = go (delete_tracked-sum s old rest f) (dec s k) h
    where
      go :
          (get_tracked dec s rest ≡ some old
            → sum_of f (delete_tracked dec s rest) + f old ≡ sum_of f rest)
          → (d : Dec (s ≡ k)) → ite d (some x) (get_tracked dec s rest) ≡ some old
          → sum_of f (ite d rest ((k, x) ∷ delete_tracked dec s rest)) + f old ≡ f x + sum_of f rest
      go later (yes e) g = let same : f x ≡ f old = ap f (ground (arith, g)) in omega (arith, same)
      go later (no n) g = omega (arith, later g)

  pub delete_tracked-length :
      (s : S) (old : TopicHealthSubscription) (subs : List (S × TopicHealthSubscription))
      → get_tracked dec s subs ≡ some old
      → length (delete_tracked dec s subs) + 1 ≡ length subs
  unfolding delete_tracked get_tracked
  delete_tracked-length s old [] h = cc
  delete_tracked-length s old ((k, x) ∷ rest) h = ground (arith, delete_tracked-length s old rest)

  pub delete_tracked-contains :
      (j s : S) (subs : List (S × TopicHealthSubscription))
      → contains dec j (keys_of subs) ≡ false
      → contains dec j (keys_of (delete_tracked dec s subs)) ≡ false
  unfolding delete_tracked
  delete_tracked-contains j s [] h = refl
  delete_tracked-contains j s ((k, x) ∷ rest) h = ground (arith, delete_tracked-contains j s rest)

  pub delete_tracked-Distinct :
      (s : S) (subs : List (S × TopicHealthSubscription))
      → Distinct dec (keys_of subs)
      → Distinct dec (keys_of (delete_tracked dec s subs))
  unfolding delete_tracked
  delete_tracked-Distinct s [] d = tt
  delete_tracked-Distinct s ((k, x) ∷ rest) d =
      go (delete_tracked-contains k s rest d.0, delete_tracked-Distinct s rest d.1) (dec s k)
    where
      go :
          (contains dec k (keys_of (delete_tracked dec s rest)) ≡ false)
            × Distinct dec (keys_of (delete_tracked dec s rest))
          → (e : Dec (s ≡ k))
          → Distinct dec (keys_of (ite e rest ((k, x) ∷ delete_tracked dec s rest)))
      go later (yes e) = d.1
      go later (no n) = later

  pub delete_tracked-AllWithin :
      (s : S) (subs : List (S × TopicHealthSubscription)) (depth : ℕ)
      → AllWithin depth subs
      → AllWithin depth (delete_tracked dec s subs)
  unfolding delete_tracked
  delete_tracked-AllWithin s [] depth w = tt
  delete_tracked-AllWithin s ((k, x) ∷ rest) depth w =
      go (delete_tracked-AllWithin s rest depth w.2) (dec s k)
    where
      go :
          AllWithin depth (delete_tracked dec s rest)
          → (e : Dec (s ≡ k)) → AllWithin depth (ite e rest ((k, x) ∷ delete_tracked dec s rest))
      go later (yes e) = w.2
      go later (no n) = (w.0, w.1, later)

  pub sum_of-append :
      (f : TopicHealthSubscription → ℕ) (subs : List (S × TopicHealthSubscription)) (s : S)
      (t : TopicHealthSubscription)
      → sum_of f (subs ++ (s, t) ∷ []) ≡ sum_of f subs + f t
  sum_of-append f [] s t = omega arith
  sum_of-append f ((k, x) ∷ rest) s t = omega (arith, sum_of-append f rest s t)

  pub AllWithin-append :
      (depth : ℕ) (subs : List (S × TopicHealthSubscription)) (s : S) (t : TopicHealthSubscription)
      → AllWithin depth subs
      → t.queued_events ≤ t.max_queue_depth
      → t.max_queue_depth ≤ depth
      → AllWithin depth (subs ++ (s, t) ∷ [])
  AllWithin-append depth [] s t w le le' = (le, le', tt)
  AllWithin-append depth ((k, x) ∷ rest) s t w le le' =
      (w.0, w.1, AllWithin-append depth rest s t w.2 le le')

  pub contains-append :
      (j : S) (subs : List (S × TopicHealthSubscription)) (s : S) (t : TopicHealthSubscription)
      → contains dec j (keys_of subs) ≡ false
      → ¬ (j ≡ s)
      → contains dec j (keys_of (subs ++ (s, t) ∷ [])) ≡ false
  contains-append j [] s t h n = ground (arith, n)
  contains-append j ((k, x) ∷ rest) s t h n = ground (arith, n, contains-append j rest s t)

  pub append-Distinct :
      (subs : List (S × TopicHealthSubscription)) (s : S) (t : TopicHealthSubscription)
      → Distinct dec (keys_of subs)
      → contains dec s (keys_of subs) ≡ false
      → Distinct dec (keys_of (subs ++ (s, t) ∷ []))
  append-Distinct [] s t d new = (refl, tt)
  append-Distinct ((k, x) ∷ rest) s t d new =
      let other : ¬ (k ≡ s) = λ e. ground (arith, e, new) in
      let later : contains dec s (keys_of rest) ≡ false = ground (arith, new) in
      (contains-append k rest s t d.0 other, append-Distinct rest s t d.1 later)
