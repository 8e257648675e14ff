-- ===== src/Base/Counts.antt =====
-- How often a test holds in a list, sub-multisets, and lists without two elements of one identifier.
use Prim.Native.Nat.{ℕ, zero, suc, ◌+◌, ◌≤◌, min}
use mathlib.Core.Path.{◌≡◌, refl}
use mathlib.Core.Bool.{Bool, true, false, not, ◌&&◌, ◌||◌}
use mathlib.Core.List.{List, [], ◌∷◌, ◌++◌}
use native.Mathlib.Omega.{arith}
use vpn_control_api.Base.Tests.{◌==◌, if◌then◌else◌, ==_refl}
use vpn_control_api.Base.Lists.{length}

module _ {A : Type 0} where
  unfoldable pub count : (A → Bool) → List A → ℕ
  count p [] = 0
  count p (x ∷ xs) = (if p x then 1 else 0) + count p xs

  -- `[x for x in xs if p(x)]`
  unfoldable pub filter : (A → Bool) → List A → List A
  filter p [] = []
  filter p (x ∷ xs) = let rest = filter p xs in if p x then x ∷ rest else rest

  -- `xs[:n]`
  unfoldable pub take : ℕ → List A → List A
  take zero xs = []
  take (suc n) [] = []
  take (suc n) (x ∷ xs) = x ∷ take n xs

  -- Every test holds at most as often in the first list as in the second.
  abbrev pub Sub : List A → List A → Type 0
  Sub xs ys = (p : A → Bool) → count p xs ≤ count p ys

  abbrev pub always : A → Bool
  always x = true

  pub count-always : (xs : List A) → count always xs ≡ length xs
  unfolding count
  count-always [] = refl
  count-always (x ∷ xs) = omega (arith, count-always xs)

  pub count-nil : (p : A → Bool) → count p [] ≡ 0
  unfolding count
  count-nil p = refl

  pub count-cons :
      (p : A → Bool) (x : A) (xs : List A) → count p (x ∷ xs) ≡ count p (x ∷ []) + count p xs
  unfolding count
  count-cons p x xs = omega arith

  pub count-append : (p : A → Bool) (xs ys : List A) → count p (xs ++ ys) ≡ count p xs + count p ys
  unfolding count
  count-append p [] ys = omega arith
  count-append p (x ∷ xs) ys = omega (arith, count-append p xs ys)

  pub count-filter :
      (p q : A → Bool) (xs : List A) → count p (filter q xs) ≡ count (λ x. q x && p x) xs
  unfolding count filter
  count-filter p q [] = refl
  count-filter p q (x ∷ xs) = ground (arith, count-filter p q xs)

  -- A test that implies another holds no more often.
  pub count_mono :
      (p q : A → Bool) (xs : List A) → ((x : A) → p x ≡ true → q x ≡ true) → count p xs ≤ count q xs
  unfolding count
  count_mono p q [] h = omega arith
  count_mono p q (x ∷ xs) h = ground (arith, h x, count_mono p q xs h)

  -- The elements divide between those that pass a test and those that do not.
  pub count_split :
      (p q : A → Bool) (xs : List A)
      → count p xs ≡ count (λ x. q x && p x) xs + count (λ x. not (q x) && p x) xs
  unfolding count
  count_split p q [] = refl
  count_split p q (x ∷ xs) = ground (arith, count_split p q xs)

  pub count_comm :
      (p q : A → Bool) (xs : List A) → count (λ x. p x && q x) xs ≡ count (λ x. q x && p x) xs
  unfolding count
  count_comm p q [] = refl
  count_comm p q (x ∷ xs) = ground (arith, count_comm p q xs)

  pub count-never : (xs : List A) → count (λ x. false) xs ≤ 0
  unfolding count
  count-never [] = omega arith
  count-never (x ∷ xs) = omega (arith, count-never xs)

  pub count_either :
      (p q : A → Bool) (xs : List A) → count (λ x. p x || q x) xs ≤ count p xs + count q xs
  unfolding count
  count_either p q [] = omega arith
  count_either p q (x ∷ xs) = ground (arith, count_either p q xs)

  pub count-take-le : (p : A → Bool) (n : ℕ) (xs : List A) → count p (take n xs) ≤ count p xs
  unfolding count take
  count-take-le p zero xs = omega arith
  count-take-le p (suc n) [] = omega arith
  count-take-le p (suc n) (x ∷ xs) = omega (arith, count-take-le p n xs)

  pub length-take : (n : ℕ) (xs : List A) → length (take n xs) ≡ min n (length xs)
  unfolding take
  length-take zero xs = omega arith
  length-take (suc n) [] = omega arith
  length-take (suc n) (x ∷ xs) = omega (arith, length-take n xs)

  pub length-filter-le : (p : A → Bool) (xs : List A) → length (filter p xs) ≤ length xs
  unfolding filter
  length-filter-le p [] = omega arith
  length-filter-le p (x ∷ xs) = ground (arith, length-filter-le p xs)

  pub Sub-length : (xs ys : List A) → Sub xs ys → length xs ≤ length ys
  Sub-length xs ys s = omega (arith, s always, count-always xs, count-always ys)

  pub length-append : (xs ys : List A) → length (xs ++ ys) ≡ length xs + length ys
  length-append [] ys = omega arith
  length-append (x ∷ xs) ys = omega (arith, length-append xs ys)

  pub count_left_comm :
      (p q r : A → Bool) (xs : List A)
      → count (λ x. p x && (q x && r x)) xs ≡ count (λ x. q x && (p x && r x)) xs
  unfolding count
  count_left_comm p q r [] = refl
  count_left_comm p q r (x ∷ xs) = ground (arith, count_left_comm p q r xs)

  -- What a filter keeps passes its test.
  pub count-filter_none :
      (p q : A → Bool) (xs : List A) → count (λ x. not (q x) && p x) (filter q xs) ≡ 0
  unfolding count filter
  count-filter_none p q [] = refl
  count-filter_none p q (x ∷ xs) = ground (arith, count-filter_none p q xs)

  pub count-filter-not_none :
      (p q : A → Bool) (xs : List A) → count (λ x. q x && p x) (filter (λ x. not (q x)) xs) ≡ 0
  unfolding count filter
  count-filter-not_none p q [] = refl
  count-filter-not_none p q (x ∷ xs) = ground (arith, count-filter-not_none p q xs)

  pub Sub-filter : (q : A → Bool) (xs : List A) → Sub (filter q xs) xs
  unfolding count filter
  Sub-filter q [] p = omega arith
  Sub-filter q (x ∷ xs) p = ground (arith, Sub-filter q xs p)

module _ {A : Type 0} (id_of : A → ℕ) where
  -- No two elements have one identifier.
  abbrev pub HasDistinctIds : List A → Type 0
  HasDistinctIds xs = (k : ℕ) → count (λ x. id_of x == k) xs ≤ 1

  -- `id_of(x) in {id_of(y) for y in ys}`
  unfoldable pub is_among : List A → A → Bool
  is_among [] x = false
  is_among (y ∷ ys) x = (id_of x == id_of y) || is_among ys x

  -- The elements whose identifiers are not among the given ones.
  abbrev pub fresh : List A → List A → List A
  fresh ys = filter (λ x. not (is_among ys x))

  pub HasDistinctIds-Sub : (xs ys : List A) → Sub xs ys → HasDistinctIds ys → HasDistinctIds xs
  HasDistinctIds-Sub xs ys s d k = omega (arith, s (λ x. id_of x == k), d k)

  count-is_among-le : (ys xs : List A) → HasDistinctIds xs → count (is_among ys) xs ≤ length ys
  unfolding is_among
  count-is_among-le [] xs d = count-never xs
  count-is_among-le (y ∷ ys) xs d = omega (
    arith,
    count_either (λ (x : A). id_of x == id_of y) (is_among ys) xs,
    d (id_of y),
    count-is_among-le ys xs d,
  )

  among-cons :
      (p : A → Bool) (y : A) (ys : List A) (x : A)
      → (is_among ys x && p x) ≡ true
      → (is_among (y ∷ ys) x && p x) ≡ true
  unfolding is_among
  among-cons p y ys x h = ground arith

  -- Every element is among the list itself.
  count_own : (p : A → Bool) (ys : List A) → count p ys ≤ count (λ x. is_among ys x && p x) ys
  unfolding count
  count_own p [] = omega arith
  count_own p (y ∷ ys) =
      let own : is_among (y ∷ ys) y ≡ true = unfold is_among in ground (arith, ==_refl (id_of y)) in
      ground (
        arith,
        count_own p ys,
        count_mono (λ (x : A). is_among ys x && p x) (λ (x : A). is_among (y ∷ ys) x && p x) ys
            (among-cons p y ys),
      )

  -- In a list with distinct identifiers, only the part itself is among it.
  among_exact :
      (p : A → Bool) (ys xs : List A)
      → HasDistinctIds xs
      → Sub ys xs
      → count (λ x. is_among ys x && p x) xs ≡ count p ys
  among_exact p ys xs d s = omega (
    arith,
    s (λ x. is_among ys x && p x),
    count_own p ys,
    s (λ x. is_among ys x && not (p x)),
    count_own (λ (x : A). not (p x)) ys,
    count-is_among-le ys xs d,
    count_split (is_among ys) p xs,
    count_comm p (is_among ys) xs,
    count_comm (λ (x : A). not (p x)) (is_among ys) xs,
    count_split always p ys,
    count_comm p always ys,
    count_comm (λ (x : A). not (p x)) always ys,
    count-always ys,
  )

  -- What a part of a list leaves fresh and the part itself make up the list.
  pub count-fresh :
      (p : A → Bool) (ys xs : List A)
      → HasDistinctIds xs
      → Sub ys xs
      → count p (fresh ys xs) + count p ys ≡ count p xs
  count-fresh p ys xs d s = omega (
    arith,
    count-filter p (λ (x : A). not (is_among ys x)) xs,
    count_split p (is_among ys) xs,
    among_exact p ys xs d s,
  )

  pub fresh_one :
      (y : A) (xs : List A) → filter (λ x. not (id_of x == id_of y)) xs ≡ fresh (y ∷ []) xs
  unfolding filter is_among
  fresh_one y [] = refl
  fresh_one y (x ∷ xs) = ground (arith, fresh_one y xs)
