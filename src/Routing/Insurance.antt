-- ===== src/Routing/Insurance.antt =====
-- The second transport that `_ensure_transport_insurance` puts into a selection, and `select` as a whole.
use vpn_control_api.Base.{
  ℕ, zero, suc, ◌+◌, ◌≤◌, ◌<◌, ◌≡◌, refl, min, Bool, true, not, ◌&&◌, Option, List, [], ◌∷◌, arith,
  length, filter, count, Sub, HasDistinctIds, fresh, count-fresh, count-filter, count-cons,
  count-take-le, length-take, always, Sub-filter, count_comm, count-always, if_split,
  count-filter-not_none, ==_iff,
}
use mathlib.Core.Path.{ap, subst}
use vpn_control_api.Routing.Selector.{
  RouteSelector, Random, is_on, has_transport, any, next, set_at, replace_idx, insure,
  ensure_transport_insurance, select,
}
use vpn_control_api.Routing.Selection.{HeadHas, IsChoice, select_most-IsChoice}
use vpn_control_api.Routing.Replacement.{
  length-set_at, count-set_at-le, count-set_at-ge, next_hits, count-any, replace_idx_range,
}

module _ {A : Type 0} (sel : RouteSelector A) where
  abbrev pub other_transport : ℕ → A → Bool
  other_transport t r = not (has_transport sel t r)

  -- What a caller of `select` may rely on.
  pub record IsSelection (routes : List A) (backend max_routes : ℕ) (result : List A) : Type 0 where
    pub size : length result ≡ min max_routes (length routes)
    pub part : Sub result routes
    pub preferred :
        2 ≤ max_routes → 1 ≤ count (is_on sel backend) routes → HeadHas (is_on sel backend) result
    pub insured :
        (t : ℕ)
        → 2 ≤ length result
        → HeadHas (has_transport sel t) result
        → 1 ≤ count (other_transport t) routes
        → 1 ≤ count (other_transport t) result

  module _ (routes : List A) (backend max_routes : ℕ) (s s' : A) (ss : List A)
      (d : HasDistinctIds sel.get_route_id routes) where
    selected : List A
    selected = s ∷ s' ∷ ss

    left : List A
    left = fresh sel.get_route_id selected routes

    transport : ℕ
    transport = sel.get_transport_key s

    offers : List A
    offers = filter (other_transport transport) left

    -- The head of the selection has its own transport.
    head_transport : (t : ℕ) (xs : List A) → HeadHas (has_transport sel t) (s ∷ xs) → transport ≡ t
    unfolding transport
    head_transport t xs (r, e, h) = ground (arith, ==_iff (sel.get_transport_key s) t)

    insured_at :
        (xs : List A)
        → (1 ≤ count (other_transport transport) routes
            → 1 ≤ count (other_transport transport) (s ∷ xs))
        → (t : ℕ) → HeadHas (has_transport sel t) (s ∷ xs)
        → 1 ≤ count (other_transport t) routes
        → 1 ≤ count (other_transport t) (s ∷ xs)
    insured_at xs h t head =
        subst (λ u. 1 ≤ count (other_transport u) routes → 1 ≤ count (other_transport u) (s ∷ xs))
          (head_transport t xs head) h

    unchanged :
        IsChoice sel routes backend max_routes selected
        → (1 ≤ count (other_transport transport) routes
            → 1 ≤ count (other_transport transport) selected)
        → IsSelection routes backend max_routes selected
    unfolding selected
    unchanged c enough = record {
      size = c.size;
      part = c.part;
      preferred = λ _. c.preferred;
      insured = λ t two head. insured_at (s' ∷ ss) enough t head;
    }

    replaced :
        (i : ℕ) (x : A)
        → IsChoice sel routes backend max_routes selected
        → Sub (x ∷ []) left
        → 1 ≤ count (other_transport transport) (x ∷ [])
        → suc i < length selected
        → IsSelection routes backend max_routes (set_at (suc i) x selected)
    unfolding selected left set_at
    replaced i x c spare other inside = record {
      size = omega (arith, c.size, length-set_at (suc i) x selected);
      part = λ p. omega (
        arith,
        count-set_at-le p (suc i) x selected,
        spare p,
        count-fresh sel.get_route_id p selected routes d c.part,
      );
      preferred = λ _. c.preferred;
      insured = λ t two head.
          insured_at (set_at i x (s' ∷ ss))
            (λ _.
              omega (
                arith,
                other,
                count-set_at-ge (other_transport transport) (suc i) x selected inside,
              ))
            t head;
    }

    count-left :
        (p : A → Bool) → Sub selected routes → count p left + count p selected ≡ count p routes
    unfolding left
    count-left p part = count-fresh sel.get_route_id p selected routes d part

    offers-Sub : Sub offers left
    unfolding offers
    offers-Sub = Sub-filter (other_transport transport) left

    -- Where no route is missing there is nothing to insure with.
    offers_room :
        (c : A) (cs : List A)
        → offers ≡ c ∷ cs
        → IsChoice sel routes backend max_routes selected
        → max_routes ≤ length selected
    offers_room c cs e choice = omega (
      arith,
      choice.size,
      ap (count always) e,
      count-cons always c cs,
      count-always (c ∷ []),
      offers-Sub always,
      count-always selected,
      count-always routes,
      count-left always choice.part,
    )

    any_in_selection :
        any (other_transport transport) (s' ∷ ss) ≡ true
        → 1 ≤ count (other_transport transport) selected
    unfolding selected
    any_in_selection found = omega (
      arith,
      count-any (other_transport transport) (s' ∷ ss) found,
      count-cons (other_transport transport) s (s' ∷ ss),
    )

    range :
        (1 ≤ replace_idx sel transport selected)
        × (replace_idx sel transport selected < length selected)
    unfolding selected
    range = replace_idx_range sel transport s s' ss

    replaced_later :
        (i : ℕ) (x : A)
        → IsChoice sel routes backend max_routes selected
        → Sub (x ∷ []) left
        → 1 ≤ count (other_transport transport) (x ∷ [])
        → (1 ≤ i) × (i < length selected)
        → IsSelection routes backend max_routes (set_at i x selected)
    replaced_later zero x c spare other range = absurd (omega arith)
    replaced_later (suc i) x c spare other range = replaced i x c spare other range.1

    insure_full :
        (c : A) (cs : List A)
        → max_routes ≤ length selected
        → insure sel selected (c ∷ cs) backend max_routes transport
          ≡ set_at
              (replace_idx sel transport selected)
              (next (λ r. not (is_on sel backend r)) (c ∷ cs) c)
              selected
    unfolding insure
    insure_full c cs full = ground arith

    -- An offered route is unselected, and has another transport.
    offered :
        (x : A)
        → Sub (x ∷ []) offers
        → Sub (x ∷ []) left × (count (other_transport transport) (x ∷ []) ≡ 1)
    unfolding offers count
    offered x h = (
      λ p. omega (arith, h p, offers-Sub p),
      ground (
        arith,
        h (λ r. has_transport sel transport r && true),
        count-filter-not_none always (has_transport sel transport) left,
      ),
    )

    none_offered :
        offers ≡ []
        → Sub selected routes
        → 1 ≤ count (other_transport transport) routes
        → 1 ≤ count (other_transport transport) selected
    unfolding offers left
    none_offered e part some_other = omega (
      arith,
      ap (count always) e,
      count-always {A = A} [],
      count-filter always (other_transport transport) left,
      count_comm always (other_transport transport) left,
      count-fresh sel.get_route_id (other_transport transport) selected routes d part,
    )

    insure_lem :
        (os : List A)
        → offers ≡ os
        → IsChoice sel routes backend max_routes selected
        → IsSelection routes backend max_routes
            (insure sel selected os backend max_routes transport)
    insure_lem [] e choice = unfold insure in unchanged choice (none_offered e choice.part)
    insure_lem (c ∷ cs) e choice =
        let insurance = next (λ r. not (is_on sel backend r)) (c ∷ cs) c in
        let spare = offered insurance (
          next_hits (λ r. not (is_on sel backend r)) (c ∷ cs) c offers
            (λ p. omega (arith, ap (count p) e))
            (λ p. omega (arith, ap (count p) e, count-cons p c cs))) in
        rw (insure_full c cs (offers_room c cs e choice)) (
          replaced_later (replace_idx sel transport selected) insurance choice spare.0
            (omega (arith, spare.1)) (range))

    insured_lem :
        IsChoice sel routes backend max_routes (s ∷ s' ∷ ss)
        → IsSelection routes backend max_routes
            (ensure_transport_insurance sel (s ∷ s' ∷ ss) routes backend max_routes)
    unfolding ensure_transport_insurance selected left offers transport
    insured_lem c =
        let others = any (other_transport transport) (s' ∷ ss) in
        if_split (IsSelection routes backend max_routes) others
          (λ found. unchanged c (λ _. any_in_selection found)) (λ _. insure_lem _ refl c)

ensure_transport_insurance-IsSelection :
    {A : Type 0} (sel : RouteSelector A) (routes : List A) (backend max_routes : ℕ)
    (selected : List A)
    → HasDistinctIds sel.get_route_id routes
    → IsChoice sel routes backend max_routes selected
    → IsSelection sel routes backend max_routes
        (ensure_transport_insurance sel selected routes backend max_routes)
unfolding ensure_transport_insurance
ensure_transport_insurance-IsSelection sel routes backend m [] d c = record {
  size = c.size;
  part = c.part;
  preferred = λ _. c.preferred;
  insured = λ t two. absurd (omega arith);
}
ensure_transport_insurance-IsSelection sel routes backend m (s ∷ []) d c = record {
  size = c.size;
  part = c.part;
  preferred = λ _. c.preferred;
  insured = λ t two. absurd (omega arith);
}
ensure_transport_insurance-IsSelection sel routes backend m (s ∷ s' ∷ ss) d c =
    insured_lem sel routes backend m s s' ss d c

-- Where no two routes share an identifier, whatever the weights and the draws of the generator, `select` gives
-- exactly as many routes as `max_routes` and the routes allow; no test holds of the selection more often than of the
-- routes, so that none is invented or selected twice; with `max_routes` of two or more a route on the preferred
-- backend comes first if any route is on it; and a selection of two or more has a transport other than its first
-- route's if any route has.
pub select-IsSelection :
    {A : Type 0} (sel : RouteSelector A) (routes : List A) (backend max_routes : ℕ)
    (rng : Option Random)
    → HasDistinctIds sel.get_route_id routes
    → IsSelection sel routes backend max_routes (select sel routes backend max_routes rng)
unfolding select
select-IsSelection sel routes backend zero rng d = record {
  size = omega arith;
  part = λ p. (unfold count in omega arith);
  preferred = λ two. absurd (omega arith);
  insured = λ t two. absurd (omega arith);
}
select-IsSelection sel routes backend (suc zero) rng d = record {
  size = length-take 1 routes;
  part = λ p. count-take-le p 1 routes;
  preferred = λ two. absurd (omega arith);
  insured = λ t two. absurd (omega (arith, length-take 1 routes));
}
select-IsSelection sel routes backend (suc (suc m)) rng d =
    ensure_transport_insurance-IsSelection sel routes backend (suc (suc m)) _ d
      (select_most-IsChoice sel routes backend m rng d)
