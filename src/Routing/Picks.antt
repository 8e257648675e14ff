-- ===== src/Routing/Picks.antt =====
-- What the picks of services/routing/selector.py take out of a pool.
use vpn_control_api.Base.{
  ℕ, zero, suc, ◌+◌, ◌-◌, ◌%◌, ◌<◌, ◌≡◌, refl, inl, inr, min, Bool, not, Option, none, some, List,
  [], ◌∷◌, ltb, ◌==◌, arith, length, get_elem?, get_elem?-some, filter, count, Sub, HasDistinctIds,
  HasDistinctIds-Sub, fresh_one, count-fresh, count-cons, Sub-filter, Bool-cases, always,
  count-always,
}
use vpn_control_api.Routing.Selector.{
  RouteSelector, Random, bucket, has_key, or_else, weight_of, total_weight, choices, weighted_pick,
  pick_loop, without,
}
use native.Mathlib.Nat.{mod-lt}

module _ {A : Type 0} where
  Sub-get_elem? : (xs : List A) (i : ℕ) {x : A} → get_elem? xs i ≡ some x → Sub (x ∷ []) xs
  unfolding count
  Sub-get_elem? [] i e p = ground arith
  Sub-get_elem? (y ∷ ys) zero e p = ground arith
  Sub-get_elem? (y ∷ ys) (suc i) e p = omega (arith, Sub-get_elem? ys i e p)

module _ {A : Type 0} (sel : RouteSelector A) where
  -- A draw below the total weight hits a candidate.
  choices_hits :
      (d : ℕ) (cs : List A)
      → d < total_weight sel cs
      → (x : A) × (choices sel d cs ≡ some x) × Sub (x ∷ []) cs
  unfolding choices total_weight count
  choices_hits d [] h = absurd (omega arith)
  choices_hits d (c ∷ cs) h = elim (Bool-cases (ltb d (weight_of sel c))) [
    | inl below ↦ (c, ground arith, λ p. omega arith)
    | inr above ↦
        let (x, e, s) = choices_hits (d - weight_of sel c) cs (ground arith) in
        (x, ground arith, λ p. omega (arith, s p))
  ]

  -- A pick from a list that is not empty gives one of its elements.
  pub weighted_pick_hits :
      (rng : Option Random) (n : ℕ) (c : A) (cs : List A)
      → (x : A) × (weighted_pick sel rng n (c ∷ cs) ≡ some x) × Sub (x ∷ []) (c ∷ cs)
  unfolding weighted_pick count
  weighted_pick_hits none n c cs = (c, refl, λ p. omega arith)
  weighted_pick_hits (some rng) n c cs = elim (Bool-cases (total_weight sel (c ∷ cs) == 0)) [
    | inl weightless ↦
        let (x, e) =
          get_elem?-some (c ∷ cs) (rng n % length (c ∷ cs)) (mod-lt (rng n) (omega arith)) in
        (x, ground arith, Sub-get_elem? (c ∷ cs) (rng n % length (c ∷ cs)) e)
    | inr weighty ↦
        let (x, e, s) =
          choices_hits (rng n % total_weight sel (c ∷ cs)) (c ∷ cs)
            (mod-lt (rng n) (ground arith)) in
        (x, ground arith, s)
  ]

  -- Of a pool that is not empty, the preferred elements or all, something is picked.
  pick_hits :
      (rng : Option Random) (n : ℕ) (preferred : List A) (c : A) (cs : List A)
      → Sub preferred (c ∷ cs)
      → (x : A) × (weighted_pick sel rng n (or_else preferred (c ∷ cs)) ≡ some x)
        × Sub (x ∷ []) (c ∷ cs)
  pick_hits rng n [] c cs s = weighted_pick_hits rng n c cs
  pick_hits rng n (d ∷ ds) c cs s =
      let (x, e, hit) = weighted_pick_hits rng n d ds in (x, e, λ p. omega (arith, s p, hit p))

  -- A selection from a pool and what it leaves of it.
  pub record IsPick (limit : ℕ) (pool : List A) (r : List A × List A) : Type 0 where
    pub parts : (p : A → Bool) → count p r.0 + count p r.1 ≡ count p pool
    pub size : length r.0 ≡ min limit (length pool)

  pub count-without :
      (p : A → Bool) (x : A) (pool : List A)
      → HasDistinctIds sel.get_route_id pool
      → Sub (x ∷ []) pool
      → count p (without sel x pool) + count p (x ∷ []) ≡ count p pool
  unfolding without
  count-without p x pool d s =
      let e = fresh_one sel.get_route_id x pool in
      rw e (count-fresh sel.get_route_id p (x ∷ []) pool d s)

  module _ {K : Type 0} (get_key : A → K) (same : K → K → Bool) (rng : Option Random) where
    abbrev pub loop : ℕ → List A → List K → ℕ → List A × List A
    loop = pick_loop sel get_key same rng

    bucket_hits :
        (used : List K) (n : ℕ) (c : A) (cs : List A)
        → (x : A) × (weighted_pick sel rng n (bucket get_key same used (c ∷ cs)) ≡ some x)
          × Sub (x ∷ []) (c ∷ cs)
    unfolding bucket
    bucket_hits used n c cs =
        let q = λ (r : A). not (has_key same (get_key r) used) in
        pick_hits rng n (filter q (c ∷ cs)) c cs (Sub-filter q (c ∷ cs))

    pub loop_done : (limit : ℕ) (used : List K) (n : ℕ) → loop limit [] used n ≡ ([], [])
    unfolding pick_loop weighted_pick filter bucket
    loop_done zero used n = refl
    loop_done (suc limit) used n = refl

    -- A round of the loop.
    pub loop_step :
        (limit : ℕ) (pool : List A) (used : List K) (n : ℕ) (x : A)
        → weighted_pick sel rng n (bucket get_key same used pool) ≡ some x
        → loop (suc limit) pool used n ≡ (
          x ∷ (loop limit (without sel x pool) (get_key x ∷ used) (n + 1)).0,
          (loop limit (without sel x pool) (get_key x ∷ used) (n + 1)).1,
        )
    unfolding pick_loop
    loop_step limit pool used n x e = rw (e, pick_loop) refl

    -- The loop selects as many as it is asked for, or all, and splits the pool.
    pub loop-IsPick :
        (limit : ℕ) (pool : List A) (used : List K) (n : ℕ)
        → HasDistinctIds sel.get_route_id pool
        → IsPick limit pool (loop limit pool used n)
    loop-IsPick zero pool used n d =
        unfold pick_loop count in record { parts = λ p. omega arith; size = omega arith }
    loop-IsPick (suc limit) [] used n d =
        rw (loop_done (suc limit) used n)
          (record { parts = λ p. (unfold count in omega arith); size = omega arith })
    loop-IsPick (suc limit) (c ∷ cs) used n d =
        let (x, e, hit) = bucket_hits used n c cs in
        let pool = without sel x (c ∷ cs) in
        let split = λ (p : A → Bool). count-without p x (c ∷ cs) d hit in
        let fewer : Sub pool (c ∷ cs) = λ p. omega (arith, split p) in
        let ih =
          loop-IsPick limit pool (get_key x ∷ used) (n + 1)
            (HasDistinctIds-Sub sel.get_route_id pool (c ∷ cs) fewer d) in
        rw (loop_step limit (c ∷ cs) used n x e) (record {
          parts = λ p. omega (arith, ih.parts p, split p, count-cons p x);
          size = omega (
            arith,
            ih.size,
            split always,
            count-always (x ∷ []),
            count-always pool,
            count-always (c ∷ cs),
          );
        })
