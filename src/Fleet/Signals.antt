-- ===== src/Fleet/Signals.antt =====
-- The queries of services/probe/repository.py, on signals that stand the newest first.
use vpn_control_api.Base.{
  ℕ, ◌+◌, Bool, true, false, ◌&&◌, Option, none, some, List, [], ◌∷◌, ltb, ◌==◌, is_id,
  if◌then◌else◌, filter, take,
}
use vpn_control_api.Base.Table.{Table, lookup}
use vpn_control_api.Routes.Schemas.{Route}
use vpn_control_api.Fleet.Rows.{ProbeKind, tcp_connect, synthetic_vpn, ProbeSignal}

abbrev pub is_synthetic : ProbeKind → Bool
is_synthetic tcp_connect = false
is_synthetic synthetic_vpn = true

abbrev pub is_none : Option ℕ → Bool
is_none none = true
is_none (some x) = false

-- `.limit(1)` and `scalar_one_or_none()`
abbrev pub first : {A : Type 0} → List A → Option A
first [] = none
first (x ∷ xs) = some x

-- `create`: the new row has the latest `created_at`, and goes before the rows that were not checked
-- later.
unfoldable pub create_signal : ProbeSignal → List ProbeSignal → List ProbeSignal
create_signal s [] = s ∷ []
create_signal s (t ∷ ts) =
    let rest = create_signal s ts in if ltb s.checked_at t.checked_at then t ∷ rest else s ∷ t ∷ ts

-- The `where` of `get_latest_for_node`, with a source.
abbrev pub of_node : ℕ → ℕ → ProbeSignal → Bool
of_node node_id source s =
    s.is_active && ((s.node_id == node_id) && (is_none s.route_id && (s.source == source)))

unfoldable pub get_latest_for_node : ℕ → ℕ → List ProbeSignal → Option ProbeSignal
get_latest_for_node node_id source signals = first (filter (of_node node_id source) signals)

abbrev pub of_route : ℕ → ℕ → ProbeSignal → Bool
of_route route_id source s = s.is_active && (is_id s.route_id route_id && (s.source == source))

unfoldable pub get_latest_for_route : ℕ → ℕ → List ProbeSignal → Option ProbeSignal
get_latest_for_route route_id source signals = first (filter (of_route route_id source) signals)

-- The loop that counts up to the first reachable signal.
unfoldable pub count_failures : List ProbeSignal → ℕ
count_failures [] = 0
count_failures (s ∷ ss) = let rest = count_failures ss in if s.is_reachable then 0 else rest + 1

-- The `where` of `count_consecutive_route_failures`, with the kind `synthetic_vpn`.
abbrev pub synthetic_of_route : ℕ → ProbeSignal → Bool
synthetic_of_route route_id s =
    s.is_active && (is_id s.route_id route_id && is_synthetic s.probe_kind)

unfoldable pub count_consecutive_route_failures : ℕ → ℕ → List ProbeSignal → ℕ
unfolding count_failures
count_consecutive_route_failures route_id limit signals =
    count_failures (take limit (filter (synthetic_of_route route_id) signals))

abbrev pub of_node_itself : ℕ → ProbeSignal → Bool
of_node_itself node_id s = s.is_active && ((s.node_id == node_id) && is_none s.route_id)

unfoldable pub count_consecutive_node_failures : ℕ → ℕ → List ProbeSignal → ℕ
unfolding count_failures
count_consecutive_node_failures node_id limit signals =
    count_failures (take limit (filter (of_node_itself node_id) signals))

-- The join of `get_latest_mesh_for_backend`: the signal is about a route to the backend, and comes
-- from the entry of that route.
abbrev pub is_mesh_route : ℕ → ℕ → Option Route → Bool
is_mesh_route backend_node_id node_id none = false
is_mesh_route backend_node_id node_id (some r) =
    (r.node_id == backend_node_id) && is_id r.entry_node_id node_id

abbrev pub route_of : Option ℕ → Table Route → Option Route
route_of none routes = none
route_of (some route_id) routes = lookup route_id routes

unfoldable pub is_mesh_signal : ℕ → Table Route → ProbeSignal → Bool
is_mesh_signal backend_node_id routes s =
    s.is_active
    && (is_synthetic s.probe_kind
        && is_mesh_route backend_node_id s.node_id (route_of s.route_id routes))

unfoldable pub get_latest_mesh_for_backend : ℕ → Table Route → List ProbeSignal → Option ProbeSignal
unfolding is_mesh_signal
get_latest_mesh_for_backend backend_node_id routes signals =
    first (filter (is_mesh_signal backend_node_id routes) signals)
