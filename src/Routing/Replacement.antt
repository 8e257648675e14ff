-- ===== src/Routing/Replacement.antt =====
-- Single steps of `_ensure_transport_insurance`: `next`, the index that it replaces, the assignment.
use vpn_control_api.Base.{
  ℕ, zero, suc, ◌+◌, ◌-◌, ◌≤◌, ◌<◌, ◌≡◌, refl, inl, inr, Bool, true, some, List, [], ◌∷◌, arith,
  length, count, Sub, count-cons, if_both, Option-cases,
}
use vpn_control_api.Routing.Selector.{RouteSelector, any, next, last_index, set_at, replace_idx}

module _ {A : Type 0} where
  pub length-set_at : (i : ℕ) (x : A) (xs : List A) → length (set_at i x xs) ≡ length xs
  unfolding set_at
  length-set_at i x [] = refl
  length-set_at zero x (y ∷ ys) = refl
  length-set_at (suc i) x (y ∷ ys) = omega (arith, length-set_at i x ys)

  pub count-set_at-le :
      (p : A → Bool) (i : ℕ) (x : A) (xs : List A)
      → count p (set_at i x xs) ≤ count p xs + count p (x ∷ [])
  unfolding set_at count
  count-set_at-le p i x [] = omega arith
  count-set_at-le p zero x (y ∷ ys) = omega arith
  count-set_at-le p (suc i) x (y ∷ ys) = omega (arith, count-set_at-le p i x ys)

  pub count-set_at-ge :
      (p : A → Bool) (i : ℕ) (x : A) (xs : List A)
      → i < length xs
      → count p (x ∷ []) ≤ count p (set_at i x xs)
  unfolding set_at count
  count-set_at-ge p i x [] h = absurd (omega arith)
  count-set_at-ge p zero x (y ∷ ys) h = omega arith
  count-set_at-ge p (suc i) x (y ∷ ys) h = omega (arith, count-set_at-ge p i x ys (omega arith))

  -- What `next` gives stands where its list and its default stand.
  pub next_hits :
      (q : A → Bool) (xs : List A) (c : A) (ys : List A)
      → Sub xs ys
      → Sub (c ∷ []) ys
      → Sub (next q xs c ∷ []) ys
  unfolding next
  next_hits q [] c ys h k = k
  next_hits q (x ∷ xs) c ys h k =
      if_both (λ y. Sub (y ∷ []) ys) (q x) (λ p. omega (arith, h p, count-cons p x xs))
        (next_hits q xs c ys (λ p. omega (arith, h p, count-cons p x xs)) k)

  pub count-any : (p : A → Bool) (xs : List A) → any p xs ≡ true → 1 ≤ count p xs
  unfolding any count
  count-any p [] h = ground arith
  count-any p (x ∷ xs) h = ground (arith, count-any p xs)

module _ {A : Type 0} (sel : RouteSelector A) where
  last_index_range :
      (t : ℕ) (xs : List A) (k i : ℕ) → last_index sel t xs k ≡ some i → (1 ≤ i) × (i ≤ k)
  unfolding last_index
  last_index_range t xs zero i e = ground arith
  last_index_range t xs (suc k) i e = ground (arith, last_index_range t xs k i)

  -- The replaced route is never the first.
  pub replace_idx_range :
      (t : ℕ) (x y : A) (xs : List A)
      → (1 ≤ replace_idx sel t (x ∷ y ∷ xs))
        × (replace_idx sel t (x ∷ y ∷ xs) < length (x ∷ y ∷ xs))
  unfolding replace_idx
  replace_idx_range t x y xs =
      elim (Option-cases (last_index sel t (x ∷ y ∷ xs) (length (x ∷ y ∷ xs) - 1))) [
        | inl none_found ↦ ground arith
        | inr (i, e) ↦ ground (arith, last_index_range t (x ∷ y ∷ xs) (length (x ∷ y ∷ xs) - 1) i e)
      ]
