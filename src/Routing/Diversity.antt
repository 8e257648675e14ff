-- ===== src/Routing/Diversity.antt =====
-- How `_select_fallback_with_backend_diversity` spreads its picks over the backends.
use vpn_control_api.Base.{
  ℕ, zero, suc, ◌+◌, ◌≤◌, ◌≡◌, refl, ◌⊎◌, inl, inr, Bool, true, false, not, ◌&&◌, Option, some,
  List, [], ◌∷◌, arith, filter, count, Sub, HasDistinctIds, HasDistinctIds-Sub, ◌==◌, ==_iff,
  Bool-cases, if◌then◌else◌, ap, ◌∙◌, always, if_both, count-filter_none, count-filter, count_split,
  count_mono, count-never, count-nil, Sub-filter,
}
use vpn_control_api.Routing.Selector.{
  RouteSelector, Random, is_on, has_key, or_else, bucket, weighted_pick, without, pick_loop,
  select_fallback_with_backend_diversity,
}
use vpn_control_api.Routing.Picks.{loop, loop_step, weighted_pick_hits, count-without}

filter_cases : {A : Type 0} (xs : List A) → (xs ≡ []) ⊎ ((y : A) × (ys : List A) × (xs ≡ y ∷ ys))
filter_cases [] = inl refl
filter_cases (x ∷ xs) = inr (x, xs, refl)

module _ {A : Type 0} (sel : RouteSelector A) (rng : Option Random) where
  -- A backend is picked again, or a used one is.
  abbrev Repeats : List ℕ → List A → Type 0
  Repeats used picked =
      (k : ℕ) × (2 ≤ (if has_key ◌==◌ k used then 1 else 0) + count (is_on sel k) picked)

  -- Every backend of the pool is used or picked.
  abbrev Covers : List ℕ → List A → List A → Type 0
  Covers used pool picked =
      (b : ℕ)
      → 1 ≤ count (is_on sel b) pool
      → 1 ≤ (if has_key ◌==◌ b used then 1 else 0) + count (is_on sel b) picked

  is_new : List ℕ → A → Bool
  is_new used r = not (has_key ◌==◌ (sel.get_backend_id r) used)

  old_lem :
      (b : ℕ) (used : List ℕ)
      → has_key ◌==◌ b used ≡ false
      → (r : A) → (not (is_new used r) && is_on sel b r) ≡ true
      → false ≡ true
  unfolding is_new
  old_lem b used e r h = ground (arith, ==_iff (sel.get_backend_id r) b)

  -- Where nothing new is in the pool, all its backends are used.
  nothing_new :
      (used : List ℕ) (pool : List A)
      → filter (is_new used) pool ≡ []
      → (picked : List A) → Covers used pool picked
  nothing_new used pool e picked b some_on = elim (Bool-cases (has_key ◌==◌ b used)) [
    | inl old ↦ ground arith
    | inr new ↦ absurd (
        omega (
          arith,
          ap (count (is_on sel b)) e,
          count-nil (is_on sel b),
          count-filter (is_on sel b) (is_new used) pool,
          count_split (is_on sel b) (is_new used) pool,
          count_mono (λ (r : A). not (is_new used r) && is_on sel b r) (λ _. false) pool
              (old_lem b used new),
          count-never pool,
        ))
  ]

  passes_lem :
      (used : List ℕ) (x : A)
      → count (λ r. not (is_new used r) && true) (x ∷ []) ≤ 0
      → has_key ◌==◌ (sel.get_backend_id x) used ≡ false
  unfolding count is_new
  passes_lem used x h = ground arith

  -- Where something new is in the pool, something new is picked.
  something_new :
      (used : List ℕ) (n : ℕ) (c : A) (cs : List A) (d : A) (ds : List A)
      → filter (is_new used) (c ∷ cs) ≡ d ∷ ds
      → (x : A) × (weighted_pick sel rng n (bucket sel.get_backend_id ◌==◌ used (c ∷ cs)) ≡ some x)
        × Sub (x ∷ []) (c ∷ cs)
        × (has_key ◌==◌ (sel.get_backend_id x) used ≡ false)
  unfolding bucket is_new
  something_new used n c cs d ds e =
      let (x, picked, hit) = weighted_pick_hits sel rng n d ds in
      (
        x,
        ap (λ xs. weighted_pick sel rng n (or_else xs (c ∷ cs))) e ∙ picked,
        λ p. omega (arith, hit p, ap (count p) e, Sub-filter (is_new used) (c ∷ cs) p),
        passes_lem used x (
            omega (
              arith,
              hit (λ r. not (is_new used r) && true),
              ap (count (λ r. not (is_new used r) && true)) e,
              count-filter_none always (is_new used) (c ∷ cs),
            )),
      )

  -- A new pick makes its backend a used one.
  Repeats-step :
      (used : List ℕ) (x : A) (picked : List A)
      → has_key ◌==◌ (sel.get_backend_id x) used ≡ false
      → Repeats used (x ∷ picked)
      → Repeats (sel.get_backend_id x ∷ used) picked
  unfolding has_key count
  Repeats-step used x picked new (k, h) = (k, ground (arith, ==_iff (sel.get_backend_id x) k))

  Covers-step :
      (used : List ℕ) (x : A) (pool rest picked : List A)
      → ((p : A → Bool) → count p rest + count p (x ∷ []) ≡ count p pool)
      → Covers (sel.get_backend_id x ∷ used) rest picked
      → Covers used pool (x ∷ picked)
  unfolding has_key count
  Covers-step used x pool rest picked split ih b some_on =
      ground (arith, split (is_on sel b), ih b, ==_iff (sel.get_backend_id x) b)

  nothing_picked :
      (pool : List A) (used : List ℕ) (n : ℕ)
      → ¬ (Repeats used (loop sel sel.get_backend_id ◌==◌ rng zero pool used n).0)
  unfolding pick_loop count
  nothing_picked pool used n (k, h) =
      if_both (λ m. ¬ (2 ≤ m + 0)) (has_key ◌==◌ k used) (λ h. omega arith) (λ h. omega arith) h

  loop-Covers :
      (limit : ℕ) (pool : List A) (used : List ℕ) (n : ℕ)
      → HasDistinctIds sel.get_route_id pool
      → Repeats used (loop sel sel.get_backend_id ◌==◌ rng limit pool used n).0
      → Covers used pool (loop sel sel.get_backend_id ◌==◌ rng limit pool used n).0
  loop-Covers zero pool used n d r = absurd (nothing_picked pool used n r)
  loop-Covers (suc limit) [] used n d r = λ b h. absurd (omega (arith, count-nil (is_on sel b)))
  loop-Covers (suc limit) (c ∷ cs) used n d r =
      elim (filter_cases (filter (is_new used) (c ∷ cs))) [
        | inl e ↦ nothing_new used (c ∷ cs) e _
        | inr (y, ys, e) ↦
            let (x, picked, hit, new) = something_new used n c cs y ys e in
            let split = λ (p : A → Bool). count-without sel p x (c ∷ cs) d hit in
            let rest = without sel x (c ∷ cs) in
            let step = loop_step sel sel.get_backend_id ◌==◌ rng limit (c ∷ cs) used n x picked in
            let d' =
              HasDistinctIds-Sub sel.get_route_id rest (c ∷ cs) (λ p. omega (arith, split p)) d in
            let r' = Repeats-step used x _ new (rw step at r) in
            let ih = loop-Covers limit rest (sel.get_backend_id x ∷ used) (n + 1) d' r' in
            rw step (Covers-step used x (c ∷ cs) rest _ split ih)
      ]

-- Where no two fallback routes share an identifier, the fallback picks take two routes on one backend only if they
-- take one on every backend that the fallback routes are on, whatever the bound, the weights and the draws.
pub select_fallback_with_backend_diversity-covers :
    {A : Type 0} (sel : RouteSelector A) (fallback : List A) (limit : ℕ) (rng : Option Random)
    (drawn k b : ℕ)
    → HasDistinctIds sel.get_route_id fallback
    → 2
      ≤ count (is_on sel k) (select_fallback_with_backend_diversity sel fallback limit rng drawn).0
    → 1 ≤ count (is_on sel b) fallback
    → 1
      ≤ count (is_on sel b) (select_fallback_with_backend_diversity sel fallback limit rng drawn).0
unfolding select_fallback_with_backend_diversity has_key
select_fallback_with_backend_diversity-covers sel fallback limit rng drawn k b d twice offered =
    omega (arith, loop-Covers sel rng limit fallback [] drawn d (k, omega (arith, twice)) b offered)
