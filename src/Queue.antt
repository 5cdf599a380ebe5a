-- ===== src/Queue.antt =====
-- A list of objects, each of which may be a list of objects again, taken from a queue: the loop of the two
-- importers of reports. Each round takes the first object off the queue and puts the items of a list at its
-- end.
use clusterproof.Prelude.{
  ℕ, zero, suc, ◌+◌, ◌≤◌, ◌≡◌, ◌≢◌, refl, Bool, List, [], ◌∷◌, ◌++◌, arith, if◌then◌else◌, Result,
  ok, err, Bool-cases, Result-cases, subst, inl, inr,
}

mutual
  pub data Tree (A : Type 0) : Type 0 where
    node : A → Forest A → Tree A

  pub data Forest (A : Type 0) : Type 0 where
    nil : Forest A
    cons : Tree A → Forest A → Forest A

abbrev items : {A : Type 0} → Forest A → List (Tree A)
items nil = []
items (cons t ts) = t ∷ items ts

unfoldable mutual
  pub size : {A : Type 0} → Tree A → ℕ
  size (node a ts) = suc (size_forest ts)

  size_forest : {A : Type 0} → Forest A → ℕ
  size_forest nil = 0
  size_forest (cons t ts) = size t + size_forest ts

abbrev size_queue : {A : Type 0} → List (Tree A) → ℕ
size_queue [] = 0
size_queue (t ∷ ts) = size t + size_queue ts

-- How a loop ended.
pub data Ending (E : Type 0) (S : Type 0) : Type 0 where
  done : S → Ending E S
  failed : E → Ending E S
  out_of_fuel : Ending E S

module _ {A : Type 0} (is_list : A → Bool) where
  -- The objects that are no lists.
  unfoldable mutual
    pub leaves : Tree A → List A
    leaves (node a ts) = let inner = leaves_forest ts in if is_list a then inner else a ∷ []

    leaves_forest : Forest A → List A
    leaves_forest nil = []
    leaves_forest (cons t ts) = leaves t ++ leaves_forest ts

  abbrev leaves_queue : List (Tree A) → List A
  leaves_queue [] = []
  leaves_queue (t ∷ ts) = leaves t ++ leaves_queue ts

module _ {A E S : Type 0} (is_list : A → Bool) (check_list : A → Result E (Unit {0}))
    (handle : S → A → Result E S) where
  -- The loop, in at most as many rounds as there is fuel.
  unfoldable pub walk : ℕ → S → List (Tree A) → Ending E S
  walk fuel s [] = done s
  walk zero s (t ∷ queue) = out_of_fuel
  walk (suc fuel) s (node a ts ∷ queue) =
      let nested = walk fuel s (queue ++ items ts) in
      if is_list a
      then elim (check_list a) [ ok u ↦ nested | err e ↦ failed e ]
      else elim (handle s a) [ ok s' ↦ walk fuel s' queue | err e ↦ failed e ]

size_queue-append :
    {A : Type 0} (xs ys : List (Tree A)) → size_queue (xs ++ ys) ≡ size_queue xs + size_queue ys
size_queue-append [] ys = omega arith
size_queue-append (x ∷ xs) ys = omega (arith, size_queue-append xs ys)

size_queue-items : {A : Type 0} (ts : Forest A) → size_queue (items ts) ≡ size_forest ts
unfolding size
size_queue-items nil = refl
size_queue-items (cons t ts) = omega (arith, size_queue-items ts)

module _ {A E S : Type 0} (is_list : A → Bool) (check_list : A → Result E (Unit {0}))
    (handle : S → A → Result E S) where
  -- As many rounds as there are objects are enough.
  pub walk_ends :
      (fuel : ℕ) (s : S) (queue : List (Tree A))
      → size_queue queue ≤ fuel
      → walk is_list check_list handle fuel s queue ≢ out_of_fuel
  unfolding walk size
  walk_ends zero s [] h = ground arith
  walk_ends (suc fuel) s [] h = ground arith
  walk_ends zero s (node a ts ∷ queue) h = absurd (omega arith)
  walk_ends (suc fuel) s (node a ts ∷ queue) h = elim (Bool-cases (is_list a)) [
    | inl list ↦ ground (
      arith,
      list,
      walk_ends fuel s (queue ++ items ts)
          (omega (arith, size_queue-append queue (items ts), size_queue-items ts)),
    )
    | inr leaf ↦ elim (Result-cases (handle s a)) [
      | inl (s', handled) ↦ ground (arith, leaf, handled, walk_ends fuel s' queue (omega arith))
      | inr (e, refused) ↦ ground (arith, leaf, refused)
    ]
  ]

-- The sum of a measure over a list.
abbrev pub sum_of : {A : Type 0} → (A → ℕ) → List A → ℕ
sum_of c [] = 0
sum_of c (x ∷ xs) = c x + sum_of c xs

sum_of-append :
    {A : Type 0} (c : A → ℕ) (xs ys : List A) → sum_of c (xs ++ ys) ≡ sum_of c xs + sum_of c ys
sum_of-append c [] ys = omega arith
sum_of-append c (x ∷ xs) ys = omega (arith, sum_of-append c xs ys)

module _ {A : Type 0} (is_list : A → Bool) (c : A → ℕ) where
  sum_of-leaves_items :
      (ts : Forest A)
      → sum_of c (leaves_queue is_list (items ts)) ≡ sum_of c (leaves_forest is_list ts)
  unfolding leaves
  sum_of-leaves_items nil = refl
  sum_of-leaves_items (cons t ts) = omega (
    arith,
    sum_of-append c (leaves is_list t) (leaves_queue is_list (items ts)),
    sum_of-append c (leaves is_list t) (leaves_forest is_list ts),
    sum_of-leaves_items ts,
  )

  pub sum_of-leaves_root :
      (t : Tree A) → sum_of c (leaves_queue is_list (t ∷ [])) ≡ sum_of c (leaves is_list t)
  sum_of-leaves_root t = omega (arith, sum_of-append c (leaves is_list t) [])

  sum_of-leaves_queue-append :
      (xs ys : List (Tree A))
      → sum_of c (leaves_queue is_list (xs ++ ys))
        ≡ sum_of c (leaves_queue is_list xs) + sum_of c (leaves_queue is_list ys)
  sum_of-leaves_queue-append [] ys = omega arith
  sum_of-leaves_queue-append (x ∷ xs) ys = omega (
    arith,
    sum_of-append c (leaves is_list x) (leaves_queue is_list (xs ++ ys)),
    sum_of-append c (leaves is_list x) (leaves_queue is_list xs),
    sum_of-leaves_queue-append xs ys,
  )

module _ {A E S : Type 0} (is_list : A → Bool) (check_list : A → Result E (Unit {0}))
    (handle : S → A → Result E S) (m : S → ℕ) (c : A → ℕ)
    (adds : (s : S) (a : A) (s' : S) → handle s a ≡ ok s' → m s' ≡ m s + c a) where
  -- What each handled object adds to a measure of the state, the loop adds for all objects below the queue.
  pub walk_adds :
      (fuel : ℕ) (s : S) (queue : List (Tree A)) {end : S}
      → walk is_list check_list handle fuel s queue ≡ done end
      → m end ≡ m s + sum_of c (leaves_queue is_list queue)
  unfolding walk leaves
  walk_adds zero s [] h = ground (arith, h)
  walk_adds (suc fuel) s [] h = ground (arith, h)
  walk_adds zero s (node a ts ∷ queue) h = absurd (ground (arith, h))
  walk_adds (suc fuel) s (node a ts ∷ queue) {end} h = elim (Bool-cases (is_list a)) [
    | inl list ↦ elim (Result-cases (check_list a)) [
      | inl (u, checked) ↦ ground (
        arith,
        list,
        walk_adds fuel s (queue ++ items ts) {end = end} (ground (arith, list, checked, h)),
        sum_of-leaves_queue-append is_list c queue (items ts),
        sum_of-leaves_items is_list c ts,
        sum_of-append c (leaves_forest is_list ts) (leaves_queue is_list queue),
      )
      | inr (e, refused) ↦ absurd (ground (arith, list, refused, h))
    ]
    | inr leaf ↦ elim (Result-cases (handle s a)) [
      | inl (s', handled) ↦ ground (
        arith,
        leaf,
        walk_adds fuel s' queue {end = end} (ground (arith, leaf, handled, h)),
        adds s a s' handled,
      )
      | inr (e, refused) ↦ absurd (ground (arith, leaf, refused, h))
    ]
  ]

-- A property of the state that each round keeps holds at the end.
module _ {A E S : Type 0} (is_list : A → Bool) (check_list : A → Result E (Unit {0}))
    (handle : S → A → Result E S) (P : S → Type 0)
    (keeps : (s : S) (a : A) (s' : S) → handle s a ≡ ok s' → P s → P s') where
  pub walk_keeps :
      (fuel : ℕ) (s : S) (queue : List (Tree A)) {end : S}
      → walk is_list check_list handle fuel s queue ≡ done end
      → P s
      → P end
  unfolding walk
  walk_keeps zero s [] h p = subst P (cc) p
  walk_keeps (suc fuel) s [] h p = subst P (cc) p
  walk_keeps zero s (node a ts ∷ queue) h p = absurd (ground (arith, h))
  walk_keeps (suc fuel) s (node a ts ∷ queue) {end} h p = elim (Bool-cases (is_list a)) [
    | inl list ↦ elim (Result-cases (check_list a)) [
      | inl (u, checked) ↦
          walk_keeps fuel s (queue ++ items ts) {end = end} (ground (arith, list, checked, h)) p
      | inr (e, refused) ↦ absurd (ground (arith, list, refused, h))
    ]
    | inr leaf ↦ elim (Result-cases (handle s a)) [
      | inl (s', handled) ↦
          walk_keeps fuel s' queue {end = end} (ground (arith, leaf, handled, h))
            (keeps s a s' handled p)
      | inr (e, refused) ↦ absurd (ground (arith, leaf, refused, h))
    ]
  ]
