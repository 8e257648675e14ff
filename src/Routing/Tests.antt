-- ===== src/Routing/Tests.antt =====
-- Runs of the route selector, and its theorems at concrete routes.
use vpn_control_api.Base.{
  ℕ, ◌+◌, ◌≤◌, ◌≡◌, refl, none, some, List, [], ◌∷◌, arith, pos, count, HasDistinctIds, take,
  filter, is_among,
}
use vpn_control_api.Routing.Selector.{
  RouteSelector, Random, is_on, select, select_fallback_with_backend_diversity,
}
use vpn_control_api.Routing.Insurance.{IsSelection, select-IsSelection}
use vpn_control_api.Routing.Diversity.{select_fallback_with_backend_diversity-covers}

-- A route: its identifier, backend and transport.
abbrev Item : Type 0
Item = ℕ × ℕ × ℕ

abbrev selector : RouteSelector Item
selector = record {
  get_backend_id = λ r. r.1;
  get_transport_key = λ r. r.2;
  get_route_id = λ r. r.0;
  get_weight = λ r. pos (r.0 + 1);
  get_entry_key = λ r. none;
}

abbrev draws : Random
draws n = n + 7

-- Two routes on backend 1 and two on others; only the last has another transport.
abbrev routes : List Item
routes = (10, 1, 0) ∷ (11, 2, 0) ∷ (12, 1, 0) ∷ (13, 3, 5) ∷ []

routes-HasDistinctIds : HasDistinctIds (λ (r : Item). r.0) routes
unfolding count
routes-HasDistinctIds k = ground arith

-- The third place, on backend 2, goes to the route with the other transport.
select_run : select selector routes 1 3 none ≡ (10, 1, 0) ∷ (12, 1, 0) ∷ (13, 3, 5) ∷ []
unfolding select take filter is_among
select_run = refl

-- With one place the preferred backend is not asked for.
select_one : select selector routes 2 1 none ≡ (10, 1, 0) ∷ []
unfolding select take filter is_among
select_one = refl

select-IsSelection_example :
    IsSelection selector routes 1 3 (select selector routes 1 3 (some draws))
select-IsSelection_example =
    select-IsSelection selector routes 1 3 (some draws) routes-HasDistinctIds

select_fallback_with_backend_diversity-covers_example :
    1
    ≤ count
        (is_on selector 3)
        (select_fallback_with_backend_diversity selector routes 4 (some draws) 0).0
unfolding select_fallback_with_backend_diversity count filter
select_fallback_with_backend_diversity-covers_example =
    select_fallback_with_backend_diversity-covers selector routes 4 (some draws) 0 1 3
      routes-HasDistinctIds (omega arith) (omega arith)
