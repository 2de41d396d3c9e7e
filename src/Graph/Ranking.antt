-- ===== src/Graph/Ranking.antt =====
-- The exchange sort behind the two rankings of the graph (internal/core/memory_graph.go).
use mathlib.Core.List.{Perm}
use mathlib.Core.List.Perm
use feishu_agent_mem.Prelude.{
  ℕ, zero, suc, ◌≤◌, List, [], ◌∷◌, ◌≡◌, refl, Bool, true, false, ltb, length, All, arith,
  if◌then◌else◌, Bool-cases, inl, inr,
}
use feishu_agent_mem.Graph.Access.{bubble, exchange_rounds, exchange_sort}

module _ {A : Type 0} (less : A → A → Bool) where
  swapped-perm :
      (x y : A) (rest : List A)
      → Perm ((if less x y then x else y) ∷ (if less x y then y else x) ∷ rest) (x ∷ y ∷ rest)
  swapped-perm x y rest = elim (Bool-cases (less x y)) [
    | inl h ↦ rw h (Perm.refl (x ∷ y ∷ rest))
    | inr h ↦ rw h (Perm.swap x y rest)
  ]

  bubble-perm : (x : A) (xs : List A) → Perm ((bubble less x xs).0 ∷ (bubble less x xs).1) (x ∷ xs)
  unfolding bubble
  bubble-perm x [] = Perm.refl (x ∷ [])
  bubble-perm x (y ∷ ys) =
      let m = if less x y then y else x in
      let o = if less x y then x else y in
      let (top, rest) = bubble less m ys in
      Perm.trans (Perm.swap o top rest)
        (Perm.trans (Perm.cons o (bubble-perm m ys)) (swapped-perm x y ys))

  rounds-perm : (n : ℕ) (xs : List A) → Perm (exchange_rounds less n xs) xs
  unfolding exchange_rounds
  rounds-perm zero xs = Perm.refl xs
  rounds-perm (suc n) [] = Perm.refl []
  rounds-perm (suc n) (x ∷ xs) =
      let (top, rest) = bubble less x xs in
      Perm.trans (Perm.cons top (rounds-perm n rest)) (bubble-perm x xs)

module _ {A : Type 0} (key : A → ℕ) where
  abbrev by_key : A → A → Bool
  by_key a b = ltb (key a) (key b)

  -- Every item has a key that is at most those before it.
  abbrev pub IsDescending : List A → Type 0
  IsDescending [] = Unit
  IsDescending (x ∷ xs) = All (λ y. key y ≤ key x) xs × IsDescending xs

  abbrev Below : A → List A → Type 0
  Below x xs = All (λ y. key y ≤ key x) xs

  Below-trans : (x y : A) (xs : List A) → key x ≤ key y → Below x xs → Below y xs
  Below-trans x y [] h b = tt
  Below-trans x y (z ∷ xs) h b = (omega arith, Below-trans x y xs h b.1)

  bubble-length : (x : A) (xs : List A) → length (bubble by_key x xs).1 ≡ length xs
  unfolding bubble
  bubble-length x [] = refl
  bubble-length x (y ∷ ys) = omega (arith, bubble-length (if by_key x y then y else x) ys)

  bubble_max :
      (x : A) (xs : List A)
      → (key x ≤ key (bubble by_key x xs).0) × Below (bubble by_key x xs).0 (bubble by_key x xs).1
  unfolding bubble
  bubble_max x [] = (omega arith, tt)
  bubble_max x (y ∷ ys) =
      let ih = bubble_max (if by_key x y then y else x) ys in
      (ground (arith, ih.0), (ground (arith, ih.0), ih.1))

  -- An item that bounds all items bounds what the rounds leave.
  bubble-Below :
      (m x : A) (xs : List A)
      → key x ≤ key m
      → Below m xs
      → (key (bubble by_key x xs).0 ≤ key m) × Below m (bubble by_key x xs).1
  unfolding bubble
  bubble-Below m x [] h b = (h, tt)
  bubble-Below m x (y ∷ ys) h b =
      let ih = bubble-Below m (if by_key x y then y else x) ys (ground arith) b.1 in
      (ih.0, (ground arith, ih.1))

  rounds-Below : (m : A) (n : ℕ) (xs : List A) → Below m xs → Below m (exchange_rounds by_key n xs)
  unfolding exchange_rounds
  rounds-Below m zero xs b = b
  rounds-Below m (suc n) [] b = tt
  rounds-Below m (suc n) (x ∷ xs) b =
      let h = bubble-Below m x xs b.0 b.1 in (h.0, rounds-Below m n (bubble by_key x xs).1 h.1)

  rounds-IsDescending :
      (n : ℕ) (xs : List A) → length xs ≤ n → IsDescending (exchange_rounds by_key n xs)
  unfolding exchange_rounds
  rounds-IsDescending zero [] h = tt
  rounds-IsDescending zero (x ∷ xs) h = absurd (omega arith)
  rounds-IsDescending (suc n) [] h = tt
  rounds-IsDescending (suc n) (x ∷ xs) h = (
    rounds-Below (bubble by_key x xs).0 n (bubble by_key x xs).1 (bubble_max x xs).1,
    rounds-IsDescending n (bubble by_key x xs).1 (omega (arith, bubble-length x xs)),
  )

-- The sort behind GetDecisionsByHotScore and GetRecentDecisions returns a permutation of its input in
-- descending order of the key.
pub exchange_sort_correct :
    {A : Type 0} (key : A → ℕ) (xs : List A)
    → let sorted = exchange_sort (λ a b. ltb (key a) (key b)) xs in
      Perm sorted xs × IsDescending key sorted
unfolding exchange_sort
exchange_sort_correct key xs = (
  rounds-perm (λ a b. ltb (key a) (key b)) (length xs) xs,
  rounds-IsDescending key (length xs) xs (omega arith),
)

module _ {A : Type 0} (less : A → A → Bool) (P : A → Type 0) where
  pick : (b : Bool) (x y : A) → P x → P y → P (if b then x else y)
  pick true x y p q = p
  pick false x y p q = q

  bubble-All :
      (x : A) (xs : List A) → P x → All P xs → P (bubble less x xs).0 × All P (bubble less x xs).1
  unfolding bubble
  bubble-All x [] p h = (p, tt)
  bubble-All x (y ∷ ys) p h =
      let ih = bubble-All (if less x y then y else x) ys (pick (less x y) y x h.0 p) h.1 in
      (ih.0, (pick (less x y) x y p h.0, ih.1))

  rounds-All : (n : ℕ) (xs : List A) → All P xs → All P (exchange_rounds less n xs)
  unfolding exchange_rounds
  rounds-All zero xs h = h
  rounds-All (suc n) [] h = tt
  rounds-All (suc n) (x ∷ xs) h =
      let kept = bubble-All x xs h.0 h.1 in (kept.0, rounds-All n (bubble less x xs).1 kept.1)

  -- What holds of every item holds of every item of the sorted list.
  pub exchange_sort-All : (xs : List A) → All P xs → All P (exchange_sort less xs)
  unfolding exchange_sort
  exchange_sort-All xs h = rounds-All (length xs) xs h
