-- ===== src/Prelude/Sorting.antt =====
-- Python's `sorted` and `list.sort`: a stable sort by a strict order.
use Prim.Native.Nat.{suc}
use mathlib.Core.Path.{◌≡◌, refl, ap, sym, ◌∙◌}
use mathlib.Core.Bool.{Bool, true, false}
use mathlib.Core.Logic.{◌⊎◌, inl, inr}
use mathlib.Core.List.{List, [], ◌∷◌}
use native.Mathlib.Omega.{arith}
use mad_edge.Prelude.Lists.{count, keep, length, All, All-keep, Member}
use mad_edge.Prelude.Tests.{if◌then◌else◌, Bool-cases}

module _ {A : Type 0} (less : A → A → Bool) where
  unfoldable pub insert_by : A → List A → List A
  insert_by x [] = x ∷ []
  insert_by x (y ∷ ys) = if less y x then y ∷ insert_by x ys else x ∷ y ∷ ys

  unfoldable pub sort_by : List A → List A
  unfolding insert_by
  sort_by [] = []
  sort_by (x ∷ xs) = insert_by x (sort_by xs)

  -- No later element is less than an earlier one.
  abbrev pub IsSorted : List A → Type 0
  IsSorted [] = Unit
  IsSorted (x ∷ xs) = All (λ y. less y x ≡ false) xs × IsSorted xs

  Member-insert_by : (z x : A) (ys : List A) → Member z (insert_by x ys) → (z ≡ x) ⊎ Member z ys
  unfolding insert_by
  Member-insert_by z x [] (inl e) = inl e
  Member-insert_by z x [] (inr m) = absurd m
  Member-insert_by z x (y ∷ ys) m = go (less y x) m (Member-insert_by z x ys)
    where
      go :
          (b : Bool)
          → Member z (if b then y ∷ insert_by x ys else x ∷ y ∷ ys)
          → (Member z (insert_by x ys) → (z ≡ x) ⊎ Member z ys)
          → (z ≡ x) ⊎ Member z (y ∷ ys)
      go false m ih = m
      go true (inl e) ih = inr (inl e)
      go true (inr m) ih = later (ih m)
        where
          later : (z ≡ x) ⊎ Member z ys → (z ≡ x) ⊎ Member z (y ∷ ys)
          later (inl e) = inl e
          later (inr m) = inr (inr m)

  pub Member-sort_by : (z : A) (xs : List A) → Member z (sort_by xs) → Member z xs
  unfolding sort_by
  Member-sort_by z [] m = m
  Member-sort_by z (x ∷ xs) m = go (Member-insert_by z x (sort_by xs) m) (Member-sort_by z xs)
    where
      go :
          (z ≡ x) ⊎ Member z (sort_by xs)
          → (Member z (sort_by xs) → Member z xs)
          → Member z (x ∷ xs)
      go (inl e) ih = inl e
      go (inr m) ih = inr (ih m)

  Member-insert_by_rev : (z x : A) (ys : List A) → (z ≡ x) ⊎ Member z ys → Member z (insert_by x ys)
  unfolding insert_by
  Member-insert_by_rev z x [] m = m
  Member-insert_by_rev z x (y ∷ ys) m = go (less y x) m (Member-insert_by_rev z x ys)
    where
      go :
          (b : Bool)
          → (z ≡ x) ⊎ Member z (y ∷ ys)
          → ((z ≡ x) ⊎ Member z ys → Member z (insert_by x ys))
          → Member z (if b then y ∷ insert_by x ys else x ∷ y ∷ ys)
      go false m ih = m
      go true (inl e) ih = inr (ih (inl e))
      go true (inr (inl e)) ih = inl e
      go true (inr (inr m)) ih = inr (ih (inr m))

  pub sort_by-Member : (z : A) (xs : List A) → Member z xs → Member z (sort_by xs)
  unfolding sort_by
  sort_by-Member z [] m = m
  sort_by-Member z (x ∷ xs) (inl e) = Member-insert_by_rev z x (sort_by xs) (inl e)
  sort_by-Member z (x ∷ xs) (inr m) =
      Member-insert_by_rev z x (sort_by xs) (inr (sort_by-Member z xs m))

  count-insert_by :
      (p : A → Bool) (x : A) (ys : List A) → count p (insert_by x ys) ≡ count p (x ∷ ys)
  unfolding insert_by
  count-insert_by p x [] = refl
  count-insert_by p x (y ∷ ys) = ground (arith, count-insert_by p x ys)

  count-sort_by : (p : A → Bool) (xs : List A) → count p (sort_by xs) ≡ count p xs
  unfolding sort_by
  count-sort_by p [] = refl
  count-sort_by p (x ∷ xs) = ground (arith, count-insert_by p x (sort_by xs), count-sort_by p xs)

  length-insert_by : (x : A) (ys : List A) → length (insert_by x ys) ≡ suc (length ys)
  unfolding insert_by
  length-insert_by x [] = refl
  length-insert_by x (y ∷ ys) = ground (arith, length-insert_by x ys)

  pub length-sort_by : (xs : List A) → length (sort_by xs) ≡ length xs
  unfolding sort_by
  length-sort_by [] = refl
  length-sort_by (x ∷ xs) = ground (arith, length-insert_by x (sort_by xs), length-sort_by xs)

  pub All-insert_by :
      (P : A → Type 0) (x : A) (ys : List A) → P x → All P ys → All P (insert_by x ys)
  unfolding insert_by
  All-insert_by P x [] p h = (p, tt)
  All-insert_by P x (y ∷ ys) p h = go (less y x) (All-insert_by P x ys p h.1)
    where
      go :
          (b : Bool) → All P (insert_by x ys) → All P (if b then y ∷ insert_by x ys else x ∷ y ∷ ys)
      go true ih = (h.0, ih)
      go false ih = (p, h)

  pub All-sort_by : (P : A → Type 0) (xs : List A) → All P xs → All P (sort_by xs)
  unfolding sort_by
  All-sort_by P [] h = tt
  All-sort_by P (x ∷ xs) h = All-insert_by P x (sort_by xs) h.0 (All-sort_by P xs h.1)

  -- A strict order whose incomparable elements are interchangeable.
  pub record IsWeakOrder : Type 0 where
    pub asym : (x y : A) → less x y ≡ true → less y x ≡ false
    pub not_less_trans : (x y z : A) → less y x ≡ false → less z y ≡ false → less z x ≡ false

  All-not_less :
      (o : IsWeakOrder) (x y : A) (ys : List A)
      → less y x ≡ false
      → All (λ z. less z y ≡ false) ys
      → All (λ z. less z x ≡ false) ys
  All-not_less o x y [] h k = tt
  All-not_less o x y (z ∷ zs) h k = (o.not_less_trans x y z h k.0, All-not_less o x y zs h k.1)

  insert_by-IsSorted :
      (o : IsWeakOrder) (x : A) (ys : List A) → IsSorted ys → IsSorted (insert_by x ys)
  unfolding insert_by
  insert_by-IsSorted o x [] h = (tt, tt)
  insert_by-IsSorted o x (y ∷ ys) h = go (less y x) refl (insert_by-IsSorted o x ys h.1)
    where
      go :
          (b : Bool)
          → less y x ≡ b
          → IsSorted (insert_by x ys)
          → IsSorted (if b then y ∷ insert_by x ys else x ∷ y ∷ ys)
      go true e ih = (All-insert_by (λ z. less z y ≡ false) x ys (o.asym y x e) h.0, ih)
      go false e ih = ((e, All-not_less o x y ys e h.0), h)

  pub sort_by-IsSorted : (o : IsWeakOrder) (xs : List A) → IsSorted (sort_by xs)
  unfolding sort_by
  sort_by-IsSorted o [] = tt
  sort_by-IsSorted o (x ∷ xs) = insert_by-IsSorted o x (sort_by xs) (sort_by-IsSorted o xs)

  front : (x : A) (ys : List A) → All (λ z. less z x ≡ false) ys → insert_by x ys ≡ x ∷ ys
  unfolding insert_by
  front x [] h = refl
  front x (y ∷ ys) h = rw h.0 refl

  keep-insert_by :
      (o : IsWeakOrder) (p : A → Bool) (x : A) (ys : List A)
      → IsSorted ys
      → keep p (insert_by x ys) ≡ (if p x then insert_by x (keep p ys) else keep p ys)
  unfolding insert_by
  keep-insert_by o p x [] s = ground arith
  keep-insert_by o p x (y ∷ ys) s = elim (Bool-cases (less y x)) [
    | inl e ↦ ground (arith, keep-insert_by o p x ys s.1)
    | inr e ↦
        let behind = All-keep (λ z. less z x ≡ false) p (y ∷ ys) (e, All-not_less o x y ys e s.0) in
        rw (e, front x (keep p (y ∷ ys)) behind) refl
  ]

  -- Filtering and sorting commute.
  pub sort_by-keep :
      (o : IsWeakOrder) (p : A → Bool) (xs : List A) → sort_by (keep p xs) ≡ keep p (sort_by xs)
  unfolding sort_by
  sort_by-keep o p [] = refl
  sort_by-keep o p (x ∷ xs) =
      let ih = sort_by-keep o p xs in
      let moved = keep-insert_by o p x (sort_by xs) (sort_by-IsSorted o xs) in
      go (p x) ih ∙ sym moved
    where
      go :
          (b : Bool)
          → sort_by (keep p xs) ≡ keep p (sort_by xs)
          → sort_by (if b then x ∷ keep p xs else keep p xs)
            ≡ (if b then insert_by x (keep p (sort_by xs)) else keep p (sort_by xs))
      go true ih = ap (insert_by x) ih
      go false ih = ih

  -- A sorted list stays as it is.
  pub sort_by_self : (xs : List A) → IsSorted xs → sort_by xs ≡ xs
  unfolding sort_by
  sort_by_self [] h = refl
  sort_by_self (x ∷ xs) h = ap (insert_by x) (sort_by_self xs h.1) ∙ front x xs h.0
