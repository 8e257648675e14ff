-- ===== src/Routing/Selector.antt =====
-- services/routing/selector.py, method by method. Identifiers and transport keys are numbers. The
-- random generator that a seed makes is the stream of its draws, one for each pick: any stream of
-- numbers, each reduced to the range that the pick asks for. Weights are whole.
use vpn_control_api.Base.{
  ℕ, zero, suc, ◌+◌, ◌-◌, ◌%◌, min, Bool, true, false, not, Option, none, some, List, [], ◌∷◌, ◌++◌,
  ltb, ◌==◌, if◌then◌else◌, ℤ, pos_part, length, get_elem?, filter, take, fresh,
}

-- `RouteSelector`, its five getters.
pub record RouteSelector (A : Type 0) : Type 0 where
  pub get_backend_id : A → ℕ
  pub get_transport_key : A → ℕ
  pub get_route_id : A → ℕ
  pub get_weight : A → ℤ
  pub get_entry_key : A → Option ℕ

-- `random.Random`: what the n-th draw gives.
abbrev pub Random : Type 0
Random = ℕ → ℕ

-- `key in used_keys`, by an equality of keys.
unfoldable pub has_key : {K : Type 0} → (K → K → Bool) → K → List K → Bool
has_key same k [] = false
has_key same k (u ∷ us) = if same k u then true else has_key same k us

abbrev pub same_entry : Option ℕ → Option ℕ → Bool
same_entry none none = true
same_entry (some a) (some b) = a == b
same_entry _ _ = false

-- `xs or ys`, on lists.
abbrev pub or_else : {A : Type 0} → List A → List A → List A
or_else [] ys = ys
or_else (x ∷ xs) ys = x ∷ xs

-- `preferred if preferred else pool`: the elements of the pool whose keys are not used yet, or all.
unfoldable pub bucket : {A K : Type 0} → (A → K) → (K → K → Bool) → List K → List A → List A
unfolding has_key
bucket get_key same used pool =
    or_else (filter (λ r. not (has_key same (get_key r) used)) pool) pool

module _ {A : Type 0} where
  unfoldable pub any : (A → Bool) → List A → Bool
  any p [] = false
  any p (x ∷ xs) = if p x then true else any p xs

  -- `next((x for x in xs if p(x)), default)`
  unfoldable pub next : (A → Bool) → List A → A → A
  next p [] default = default
  next p (x ∷ xs) default = if p x then x else next p xs default

  -- `xs[i] = x`
  unfoldable pub set_at : ℕ → A → List A → List A
  set_at i x [] = []
  set_at zero x (y ∷ ys) = x ∷ ys
  set_at (suc i) x (y ∷ ys) = y ∷ set_at i x ys

module _ {A : Type 0} (sel : RouteSelector A) where
  -- `max(0.0, float(self._get_weight(c)))`
  abbrev pub weight_of : A → ℕ
  weight_of c = pos_part (sel.get_weight c)

  unfoldable pub total_weight : List A → ℕ
  total_weight [] = 0
  total_weight (c ∷ cs) = weight_of c + total_weight cs

  -- `rng.choices(candidates, weights=weights, k=1)[0]`: the first candidate whose cumulated weight
  -- lies above the draw.
  unfoldable pub choices : ℕ → List A → Option A
  choices d [] = none
  choices d (c ∷ cs) =
      let rest = choices (d - weight_of c) cs in if ltb d (weight_of c) then some c else rest

  -- `_weighted_pick`; `n` is the number of draws before this one.
  unfoldable pub weighted_pick : Option Random → ℕ → List A → Option A
  unfolding choices total_weight
  weighted_pick rng n [] = none
  weighted_pick none n (c ∷ cs) = some c
  weighted_pick (some rng) n (c ∷ cs) =
      if total_weight (c ∷ cs) == 0
      then get_elem? (c ∷ cs) (rng n % length (c ∷ cs))
      else choices (rng n % total_weight (c ∷ cs)) (c ∷ cs)

  -- `[r for r in pool if self._get_route_id(r) != pick_id]`
  unfoldable pub without : A → List A → List A
  without pick = filter (λ r. not (sel.get_route_id r == sel.get_route_id pick))

  -- The loop that `_weighted_entry_diversity_pick` and `_select_fallback_with_backend_diversity`
  -- share, each with its key: `limit` is what is left to select. It gives what it selects and the
  -- pool that remains.
  unfoldable pub pick_loop :
      {K : Type 0}
      → (A → K)
      → (K → K → Bool)
      → Option Random
      → ℕ
      → List A
      → List K
      → ℕ
      → List A × List A
  unfolding weighted_pick without bucket
  pick_loop get_key same rng zero pool used n = ([], pool)
  pick_loop get_key same rng (suc limit) pool used n =
      elim (weighted_pick rng n (bucket get_key same used pool)) [
        | none ↦ ([], pool)
        | some pick ↦
            let rest =
              pick_loop get_key same rng limit (without pick pool) (get_key pick ∷ used) (n + 1) in
            (pick ∷ rest.0, rest.1)
      ]

  -- `_weighted_entry_diversity_pick`
  unfoldable pub weighted_entry_diversity_pick : List A → ℕ → Option Random → List A
  unfolding pick_loop
  weighted_entry_diversity_pick candidates limit rng =
      (pick_loop sel.get_entry_key same_entry rng limit candidates [] 0).0

  -- `_select_fallback_with_backend_diversity`, after `drawn` draws.
  unfoldable pub select_fallback_with_backend_diversity :
      List A → ℕ → Option Random → ℕ → List A × List A
  unfolding pick_loop
  select_fallback_with_backend_diversity fallback limit rng drawn =
      pick_loop sel.get_backend_id ◌==◌ rng limit fallback [] drawn

  abbrev pub has_transport : ℕ → A → Bool
  has_transport transport r = sel.get_transport_key r == transport

  abbrev pub is_on : ℕ → A → Bool
  is_on backend r = sel.get_backend_id r == backend

  -- `for idx in range(k, 0, -1)`: the first index whose route has the transport.
  unfoldable pub last_index : ℕ → List A → ℕ → Option ℕ
  last_index transport selected zero = none
  last_index transport selected (suc k) =
      let rest = last_index transport selected k in
      elim (get_elem? selected (suc k)) [
        | none ↦ rest
        | some r ↦ if has_transport transport r then some (suc k) else rest
      ]

  unfoldable pub replace_idx : ℕ → List A → ℕ
  unfolding last_index
  replace_idx transport selected = elim (last_index transport selected (length selected - 1)) [
    | none ↦ length selected - 1
    | some i ↦ i
  ]

  -- The part of `_ensure_transport_insurance` below its two returns, with the candidates.
  unfoldable pub insure : List A → List A → ℕ → ℕ → ℕ → List A
  unfolding next set_at replace_idx
  insure selected [] preferred_backend_id max_routes transport = selected
  insure selected (c ∷ cs) preferred_backend_id max_routes transport =
      let insurance = next (λ r. not (is_on preferred_backend_id r)) (c ∷ cs) c in
      if ltb (length selected) max_routes
      then selected ++ (insurance ∷ [])
      else set_at (replace_idx transport selected) insurance selected

  -- `_ensure_transport_insurance`
  unfoldable pub ensure_transport_insurance : List A → List A → ℕ → ℕ → List A
  unfolding insure any
  ensure_transport_insurance [] all_routes preferred_backend_id max_routes = []
  ensure_transport_insurance (s ∷ []) all_routes preferred_backend_id max_routes = s ∷ []
  ensure_transport_insurance (s ∷ s' ∷ ss) all_routes preferred_backend_id max_routes =
      let transport = sel.get_transport_key s in
      let selected = s ∷ s' ∷ ss in
      if any (λ r. not (has_transport transport r)) (s' ∷ ss)
      then selected
      else insure selected
          (filter (λ r. not (has_transport transport r))
            (fresh sel.get_route_id selected all_routes))
          preferred_backend_id max_routes transport

  -- The fills of `select` after the two picks.
  unfoldable pub fill : List A → List A → List A → ℕ → List A
  fill selected primary fallback_remainder max_routes =
      let primary_remainder = fresh sel.get_route_id selected primary in
      let with_primary = selected ++ take (max_routes - length selected) primary_remainder in
      with_primary ++ take (max_routes - length with_primary) fallback_remainder

  -- The two picks and the fills, for `max_routes` of at least two.
  unfoldable pub select_most : List A → ℕ → ℕ → Option Random → List A
  unfolding weighted_entry_diversity_pick select_fallback_with_backend_diversity fill
  select_most routes preferred_backend_id max_routes rng =
      let primary = filter (is_on preferred_backend_id) routes in
      let fallback = filter (λ r. not (is_on preferred_backend_id r)) routes in
      let primary_target = min 2 (min (max_routes - 1) (length primary)) in
      let fallback_target = min (max_routes - primary_target) (length fallback) in
      let picked = weighted_entry_diversity_pick primary primary_target rng in
      let more =
        select_fallback_with_backend_diversity fallback fallback_target rng (length picked) in
      take max_routes (fill (picked ++ more.0) primary more.1 max_routes)

  -- `select`, with the generator of its seed.
  unfoldable pub select : List A → ℕ → ℕ → Option Random → List A
  unfolding select_most ensure_transport_insurance
  select routes preferred_backend_id zero rng = []
  select routes preferred_backend_id (suc zero) rng = take 1 routes
  select routes preferred_backend_id (suc (suc m)) rng =
      ensure_transport_insurance (select_most routes preferred_backend_id (suc (suc m)) rng) routes
        preferred_backend_id (suc (suc m))
