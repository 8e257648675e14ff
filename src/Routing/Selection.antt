-- ===== src/Routing/Selection.antt =====
-- What `select` promises: as many routes as asked for, no route twice, the preferred backend first.
use vpn_control_api.Base.{
  ℕ, suc, ◌+◌, ◌-◌, ◌≤◌, ◌≡◌, refl, min, Bool, true, not, ◌&&◌, Option, some, List, [], ◌∷◌, ◌++◌,
  arith, length, get_elem?, filter, take, count, Sub, HasDistinctIds, HasDistinctIds-Sub, fresh,
  is_among, count-fresh, count-filter, count-append, count_split, count-take-le, length-take,
  length-append, count_left_comm, count-filter_none, count-filter-not_none, always, count-always,
  count_comm, ◌==◌,
}
use vpn_control_api.Routing.Selector.{
  RouteSelector, Random, is_on, same_entry, weighted_entry_diversity_pick,
  select_fallback_with_backend_diversity, fill, select_most,
}
use vpn_control_api.Routing.Picks.{IsPick, loop-IsPick}

-- The first element that a test is about.
abbrev pub HeadHas : {A : Type 0} → (A → Bool) → List A → Type 0
HeadHas {A} p xs = (r : A) × (get_elem? xs 0 ≡ some r) × (p r ≡ true)

module _ {A : Type 0} (p : A → Bool) where
  HeadHas-append : (xs ys : List A) → HeadHas p xs → HeadHas p (xs ++ ys)
  HeadHas-append [] ys h = ground arith
  HeadHas-append (x ∷ xs) ys h = h

  HeadHas-take : (n : ℕ) (xs : List A) → HeadHas p xs → HeadHas p (take (suc n) xs)
  unfolding take
  HeadHas-take n [] h = h
  HeadHas-take n (x ∷ xs) h = h

  -- A list that is not empty, without elements that fail the test.
  HeadHas-of_none :
      (xs : List A) → 1 ≤ length xs → count (λ x. not (p x) && true) xs ≡ 0 → HeadHas p xs
  unfolding count
  HeadHas-of_none [] h e = absurd (omega arith)
  HeadHas-of_none (x ∷ xs) h e = (x, refl, ground arith)

-- What the two picks and the fills give, for a bound of at least two.
pub record IsChoice {A : Type 0} (sel : RouteSelector A) (routes : List A) (backend max_routes : ℕ)
    (result : List A) : Type 0 where
  pub size : length result ≡ min max_routes (length routes)
  pub part : Sub result routes
  pub preferred : 1 ≤ count (is_on sel backend) routes → HeadHas (is_on sel backend) result

module _ {A : Type 0} (sel : RouteSelector A) (routes : List A) (backend : ℕ) where
  primary : List A
  primary = filter (is_on sel backend) routes

  fallback : List A
  fallback = filter (λ r. not (is_on sel backend r)) routes

  primary_target : ℕ → ℕ
  primary_target max_routes = min 2 (min (max_routes - 1) (length primary))

  fallback_target : ℕ → ℕ
  fallback_target max_routes = min (max_routes - primary_target max_routes) (length fallback)

  count-halves : (p : A → Bool) → count p primary + count p fallback ≡ count p routes
  unfolding primary fallback
  count-halves p = omega (
    arith,
    count-filter p (is_on sel backend) routes,
    count-filter p (λ (r : A). not (is_on sel backend r)) routes,
    count_split p (is_on sel backend) routes,
  )

  module _ (d : HasDistinctIds sel.get_route_id routes) (picked left more rest : List A)
      (from_primary : (p : A → Bool) → count p picked + count p left ≡ count p primary)
      (from_fallback : (p : A → Bool) → count p more + count p rest ≡ count p fallback) where
    picks-Sub : Sub (picked ++ more) routes
    picks-Sub p =
        omega (arith, count-halves p, from_primary p, from_fallback p, count-append p picked more)

    -- What is not picked of the routes on the preferred backend is left for the first fill.
    count-primary_remainder :
        (p : A → Bool)
        → count p (fresh sel.get_route_id (picked ++ more) primary) + count p picked
          ≡ count p primary
    unfolding primary fallback
    count-primary_remainder p =
        let on = λ (x : A). is_on sel backend x in
        let kept = λ (x : A). not (is_among sel.get_route_id (picked ++ more) x) in
        omega (
          arith,
          count-filter p kept primary,
          count-filter (λ (x : A). kept x && p x) on routes,
          count_left_comm on kept p routes,
          count-filter (λ (x : A). on x && p x) kept routes,
          count-fresh sel.get_route_id (λ (x : A). on x && p x) (picked ++ more) routes d picks-Sub,
          count-filter p on routes,
          count-append (λ (x : A). on x && p x) picked more,
          count_split p on picked,
          from_primary (λ x. not (on x) && p x),
          count-filter_none p on routes,
          from_fallback (λ x. on x && p x),
          count-filter-not_none p on routes,
        )

    count-fill :
        (p : A → Bool) (max_routes : ℕ)
        → count p (fill sel (picked ++ more) primary rest max_routes) ≤ count p routes
    unfolding fill
    count-fill p m =
        let free = m - length (picked ++ more) in
        let remainder = fresh sel.get_route_id (picked ++ more) primary in
        let with_primary = (picked ++ more) ++ take free remainder in
        omega (
          arith,
          count-halves p,
          from_primary p,
          from_fallback p,
          count-append p picked more,
          count-append p (picked ++ more) (take free remainder),
          count-append p with_primary (take (m - length with_primary) rest),
          count-take-le p free remainder,
          count-take-le p (m - length with_primary) rest,
          count-primary_remainder p,
        )

    length-fill :
        (max_routes : ℕ)
        → length picked + length more ≤ max_routes
        → length (fill sel (picked ++ more) primary rest max_routes)
          ≡ min max_routes (length routes)
    unfolding fill
    length-fill m room =
        let free = m - length (picked ++ more) in
        let remainder = fresh sel.get_route_id (picked ++ more) primary in
        let with_primary = (picked ++ more) ++ take free remainder in
        omega (
          arith,
          length-append picked more,
          length-append (picked ++ more) (take free remainder),
          length-append with_primary (take (m - length with_primary) rest),
          length-take free remainder,
          length-take (m - length with_primary) rest,
          count-primary_remainder always,
          count-halves always,
          from_primary always,
          from_fallback always,
          count-always remainder,
          count-always picked,
          count-always more,
          count-always rest,
          count-always primary,
          count-always fallback,
          count-always routes,
        )

  head_of_fill :
      (picked left more rest : List A) (m : ℕ)
      → IsPick sel (primary_target (suc (suc m))) primary (picked, left)
      → 1 ≤ count (is_on sel backend) routes
      → HeadHas (is_on sel backend) (fill sel (picked ++ more) primary rest (suc (suc m)))
  unfolding fill primary_target primary
  head_of_fill picked left more rest m f some_on =
      let on = λ (x : A). is_on sel backend x in
      let head =
        HeadHas-of_none on picked
          (omega (
            arith,
            f.size,
            count-filter always on routes,
            count-always primary,
            count_comm on always routes,
            count_split on always routes,
          ))
          (omega (arith, f.parts (λ x. not (on x) && true), count-filter_none always on routes)) in
      HeadHas-append on ((picked ++ more) ++ _) _
        (HeadHas-append on (picked ++ more) _ (HeadHas-append on picked more head))

  targets_fit :
      (m : ℕ) (first second : List A × List A)
      → IsPick sel (primary_target (suc (suc m))) primary first
      → IsPick sel (fallback_target (suc (suc m))) fallback second
      → length first.0 + length second.0 ≤ suc (suc m)
  unfolding primary_target fallback_target
  targets_fit m first second f s = omega (arith, f.size, s.size)

  fill-IsChoice :
      (m : ℕ) (first second : List A × List A)
      → HasDistinctIds sel.get_route_id routes
      → IsPick sel (primary_target (suc (suc m))) primary first
      → IsPick sel (fallback_target (suc (suc m))) fallback second
      → IsChoice sel routes backend
          (suc (suc m))
          (take (suc (suc m)) (fill sel (first.0 ++ second.0) primary second.1 (suc (suc m))))
  fill-IsChoice m (picked, left) (more, rest) d f s =
      let on = λ (x : A). is_on sel backend x in
      let filled = fill sel (picked ++ more) primary rest (suc (suc m)) in
      let fits = targets_fit m (picked, left) (more, rest) f s in
      record {
        size = omega (
          arith,
          length-take (suc (suc m)) filled,
          length-fill d picked left more rest f.parts s.parts (suc (suc m)) fits,
        );
        part = λ p. omega (
          arith,
          count-take-le p (suc (suc m)) filled,
          count-fill d picked left more rest f.parts s.parts p (suc (suc m)),
        );
        preferred = λ some_on.
            HeadHas-take on (suc m) filled (head_of_fill picked left more rest m f some_on);
      }

pub select_most-IsChoice :
    {A : Type 0} (sel : RouteSelector A) (routes : List A) (backend m : ℕ) (rng : Option Random)
    → HasDistinctIds sel.get_route_id routes
    → IsChoice sel routes backend (suc (suc m)) (select_most sel routes backend (suc (suc m)) rng)
unfolding select_most weighted_entry_diversity_pick select_fallback_with_backend_diversity primary
    fallback primary_target fallback_target
select_most-IsChoice sel routes backend m rng d =
    let halves = count-halves sel routes backend in
    let ps = primary sel routes backend in
    let fs = fallback sel routes backend in
    let ps-distinct =
      HasDistinctIds-Sub sel.get_route_id ps routes (λ p. omega (arith, halves p)) d in
    let fs-distinct =
      HasDistinctIds-Sub sel.get_route_id fs routes (λ p. omega (arith, halves p)) d in
    let picked = loop-IsPick sel sel.get_entry_key same_entry rng _ ps [] 0 ps-distinct in
    let more = loop-IsPick sel sel.get_backend_id ◌==◌ rng _ fs [] _ fs-distinct in
    fill-IsChoice sel routes backend m _ _ d picked more
