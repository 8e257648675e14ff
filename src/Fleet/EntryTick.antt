-- ===== src/Fleet/EntryTick.antt =====
-- `run` of services/entry/drain_service.py: one tick over the candidates.
use vpn_control_api.Base.{
  ℕ, ◌+◌, Bool, true, false, ◌&&◌, none, some, List, [], ◌∷◌, leb, if◌then◌else◌, Result, ok, err,
}
use vpn_control_api.Routes.Service.{RouteServiceError}
use vpn_control_api.Fleet.Rows.{FleetDb}
use vpn_control_api.Fleet.EntryDrain.{
  EntryAutoDrainService, EntryAutoDrainResult, Candidate, list_entry_candidates, unhealthy_reason,
  drain_entry, try_undrain_entry, unblock_routes_for_entry, block_routes_for_entry,
}

abbrev pub one_if : Bool → ℕ
one_if true = 1
one_if false = 0

-- The branch of a healthy entry.
unfoldable pub tick_healthy :
    EntryAutoDrainService
    → Candidate
    → ℕ
    → FleetDb
    → EntryAutoDrainResult
    → Result RouteServiceError (FleetDb × EntryAutoDrainResult)
unfolding try_undrain_entry unblock_routes_for_entry
tick_healthy self c now db result =
    let skip = record result { skipped = result.skipped + 1 } in
    let tried = try_undrain_entry self c db in
    if self.auto_undrain_enabled && c.entry.is_draining
    then if tried.1
      then elim (unblock_routes_for_entry c.id now tried.0) [
        | err e ↦ err e
        | ok (after, n) ↦ ok (
          after,
          record result {
            undrained = result.undrained + 1;
            routes_unblocked = result.routes_unblocked + n;
          },
        )
      ]
      else ok (tried.0, skip)
    else ok (db, skip)

-- The branch of an unhealthy one.
unfoldable pub tick_unhealthy :
    Candidate → ℕ → FleetDb → EntryAutoDrainResult → FleetDb × EntryAutoDrainResult
unfolding drain_entry block_routes_for_entry
tick_unhealthy c now db result =
    let drained = drain_entry c now db in
    let routed = block_routes_for_entry c.id now drained.0 in
    (
      routed.0,
      record result {
        drained = result.drained + one_if drained.1;
        routes_blocked = result.routes_blocked + routed.1;
      },
    )

-- The body of the loop.
unfoldable pub tick_entry :
    EntryAutoDrainService
    → Candidate
    → ℕ
    → FleetDb
    → EntryAutoDrainResult
    → Result RouteServiceError (FleetDb × EntryAutoDrainResult)
unfolding tick_healthy tick_unhealthy
tick_entry self c now db before =
    let result = record before { processed = before.processed + 1 } in
    elim (unhealthy_reason self c db) [
      | none ↦ tick_healthy self c now db result
      | some reason ↦ ok (tick_unhealthy c now db result)
    ]

-- The loop, with its break.
unfoldable pub tick_entries :
    EntryAutoDrainService
    → List Candidate
    → ℕ
    → FleetDb
    → EntryAutoDrainResult
    → Result RouteServiceError (FleetDb × EntryAutoDrainResult)
unfolding tick_entry
tick_entries self [] now db result = ok (db, result)
tick_entries self (c ∷ cs) now db result = elim (leb self.max_nodes result.processed) [
  | true ↦ ok (db, result)
  | false ↦ elim (tick_entry self c now db result) [
    | err e ↦ err e
    | ok (after, counted) ↦ tick_entries self cs now after counted
  ]
]

-- `run`
unfoldable pub run :
    EntryAutoDrainService → ℕ → FleetDb → Result RouteServiceError (FleetDb × EntryAutoDrainResult)
unfolding tick_entries list_entry_candidates
run self now db = tick_entries self (list_entry_candidates db.nodes db.agents) now db (record {
  processed = 0;
  drained = 0;
  routes_blocked = 0;
  skipped = 0;
  undrained = 0;
  routes_unblocked = 0;
})
