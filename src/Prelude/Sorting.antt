-- ===== src/Prelude/Sorting.antt =====
-- Python's stable `sorted` as an insertion sort, and membership by recursion.
use mathlib.Core.Path.{◌≡◌, refl}
use mathlib.Core.Bool.{Bool, true, false}
use mathlib.Core.Logic.{◌⊎◌, inl, inr}
use mathlib.Core.List.{List, [], ◌∷◌, ◌++◌}
use native.Mathlib.Omega.{arith}
use stock_analyser.Prelude.Tests.{if◌then◌else◌, Bool-cases}
use stock_analyser.Prelude.Lists.{All}

module _ {A : Type 0} where
  pub List-cases : (xs : List A) → (xs ≡ []) ⊎ ((y : A) × (ys : List A) × (xs ≡ y ∷ ys))
  List-cases [] = inl refl
  List-cases (y ∷ ys) = inr (y, ys, refl)

  abbrev pub Member : A → List A → Type 0
  Member x [] = ⊥
  Member x (y ∷ ys) = (x ≡ y) ⊎ Member x ys

  pub Member-append : (x : A) (xs ys : List A) → Member x xs ⊎ Member x ys → Member x (xs ++ ys)
  Member-append x [] ys (inr m) = m
  Member-append x [] ys (inl m) = absurd m
  Member-append x (y ∷ xs) ys (inl (inl e)) = inl e
  Member-append x (y ∷ xs) ys (inl (inr m)) = inr (Member-append x xs ys (inl m))
  Member-append x (y ∷ xs) ys (inr m) = inr (Member-append x xs ys (inr m))

  pub append-Member : (x : A) (xs ys : List A) → Member x (xs ++ ys) → Member x xs ⊎ Member x ys
  append-Member x [] ys m = inr m
  append-Member x (y ∷ xs) ys (inl e) = inl (inl e)
  append-Member x (y ∷ xs) ys (inr m) = elim (append-Member x xs ys m) [
    | inl k ↦ inl (inr k)
    | inr k ↦ inr k
  ]

  -- `x` stands before everything that it ties with.
  abbrev pub insert_by : (A → A → Bool) → A → List A → List A
  insert_by before x [] = x ∷ []
  insert_by before x (y ∷ ys) =
      let rest = insert_by before x ys in if before y x then y ∷ rest else x ∷ y ∷ ys

  -- `sorted(xs, key=...)`, with `before a b` for `key(a) < key(b)`.
  abbrev pub sort_by : (A → A → Bool) → List A → List A
  sort_by before [] = []
  sort_by before (x ∷ xs) = insert_by before x (sort_by before xs)

  pub All-Member {κ} : (P : A → Type κ) (xs : List A) (x : A) → All P xs → Member x xs → P x
  All-Member P [] x h m = absurd m
  All-Member P (y ∷ ys) x (p, ps) (inl e) = rw e p
  All-Member P (y ∷ ys) x (p, ps) (inr m) = All-Member P ys x ps m

  pub Member-All {κ} : (P : A → Type κ) (xs : List A) → ((x : A) → Member x xs → P x) → All P xs
  Member-All P [] h = tt
  Member-All P (y ∷ ys) h = (h y (inl refl), Member-All P ys (λ x m. h x (inr m)))

  pub Member-insert_by :
      (before : A → A → Bool) (z x : A) (ys : List A)
      → Member z (insert_by before x ys)
      → (z ≡ x) ⊎ Member z ys
  Member-insert_by before z x [] m = m
  Member-insert_by before z x (y ∷ ys) m = ground (arith, Member-insert_by before z x ys)

  pub insert_by-Member :
      (before : A → A → Bool) (z x : A) (ys : List A)
      → (z ≡ x) ⊎ Member z ys
      → Member z (insert_by before x ys)
  insert_by-Member before z x [] m = m
  insert_by-Member before z x (y ∷ ys) m = ground (arith, insert_by-Member before z x ys)

  pub Member-sort_by :
      (before : A → A → Bool) (z : A) (xs : List A) → Member z (sort_by before xs) → Member z xs
  Member-sort_by before z [] m = m
  Member-sort_by before z (x ∷ xs) m =
      ground (arith, Member-insert_by before z x (sort_by before xs) m, Member-sort_by before z xs)

  pub sort_by-Member :
      (before : A → A → Bool) (z : A) (xs : List A) → Member z xs → Member z (sort_by before xs)
  sort_by-Member before z [] m = m
  sort_by-Member before z (x ∷ xs) m =
      ground (arith, insert_by-Member before z x (sort_by before xs), sort_by-Member before z xs)

  -- Nothing stands behind an element that should come before it.
  abbrev pub IsOrderedBy : (A → A → Bool) → List A → Type 0
  IsOrderedBy before [] = Unit
  IsOrderedBy before (x ∷ xs) = All (λ y. before y x ≡ false) xs × IsOrderedBy before xs

  module _ (before : A → A → Bool) (asym : (a b : A) → before a b ≡ true → before b a ≡ false)
      (chain : (a b c : A) → before b a ≡ false → before c b ≡ false → before c a ≡ false) where
    All-after :
        (a b : A) (xs : List A)
        → before b a ≡ false
        → All (λ y. before y b ≡ false) xs
        → All (λ y. before y a ≡ false) xs
    All-after a b [] h q = tt
    All-after a b (x ∷ xs) h (p, q) = (chain a b x h p, All-after a b xs h q)

    All-insert_by :
        (P : A → Type 0) (x : A) (ys : List A) → P x → All P ys → All P (insert_by before x ys)
    All-insert_by P x [] p q = (p, tt)
    All-insert_by P x (y ∷ ys) p (h, q) = elim (Bool-cases (before y x)) [
      | inl e ↦ rw e (h, All-insert_by P x ys p q)
      | inr e ↦ rw e (p, (h, q))
    ]

    insert_by-IsOrderedBy :
        (x : A) (ys : List A) → IsOrderedBy before ys → IsOrderedBy before (insert_by before x ys)
    insert_by-IsOrderedBy x [] h = (tt, tt)
    insert_by-IsOrderedBy x (y ∷ ys) (h, q) = elim (Bool-cases (before y x)) [
      | inl e ↦ rw e (
        All-insert_by (λ z. before z y ≡ false) x ys (asym y x e) h,
        insert_by-IsOrderedBy x ys q,
      )
      | inr e ↦ rw e ((e, All-after x y ys e h), (h, q))
    ]

    pub sort_by-IsOrderedBy : (xs : List A) → IsOrderedBy before (sort_by before xs)
    sort_by-IsOrderedBy [] = tt
    sort_by-IsOrderedBy (x ∷ xs) =
        insert_by-IsOrderedBy x (sort_by before xs) (sort_by-IsOrderedBy xs)
