-- ===== src/Fleet/EntryTotal.antt =====
-- A run of services/entry/drain_service.py over all the candidates of its query.
use vpn_control_api.Base.{
  ℕ, ◌+◌, ◌≤◌, ◌≡◌, ◌≢◌, inl, inr, ◌⊎◌, true, none, some, List, [], ◌∷◌, leb, ◌==◌, ==_iff, ok,
  arith, Bool-cases, length, if_both, if_split, sym, ◌∙◌, All,
}
use mathlib.Core.Path.{subst, ap}
use vpn_control_api.Base.Table.{Table, lookup, Distinct}
use vpn_control_api.Fleet.Rows.{VpnNode, NodeAgentState, FleetDb}
use vpn_control_api.Fleet.EntryDrain.{
  EntryAutoDrainService, EntryAutoDrainResult, Candidate, list_entry_candidates, is_candidate,
  unhealthy_reason, UnhealthyReason,
}
use vpn_control_api.Fleet.EntryTick.{tick_entry, tick_entries, run}
use vpn_control_api.Fleet.EntryLaws.{IsOut, IsCurrent}
use vpn_control_api.Fleet.EntryRun.{
  Result-cases, tick_entry-IsTick, tick_entry-keeps_IsOut, tick_entry-IsOut,
}

abbrev Listed : Candidate → List Candidate → Type 0
Listed c [] = ⊥
Listed c (d ∷ ds) = (c ≡ d) ⊎ Listed c ds

abbrev Others : ℕ → List Candidate → Type 0
Others id = All (λ d. id ≢ d.id)

abbrev DistinctIds : List Candidate → Type 0
DistinctIds [] = Unit
DistinctIds (d ∷ ds) = Others d.id ds × DistinctIds ds

Others-Listed :
    (id : ℕ) (c : Candidate) (cs : List Candidate) → Others id cs → Listed c cs → id ≢ c.id
Others-Listed id c [] o l = absurd l
Others-Listed id c (d ∷ ds) o (inl e) = λ h. o.0 (h ∙ ap (λ x. x.id) e)
Others-Listed id c (d ∷ ds) o (inr l) = Others-Listed id c ds o.1 l

module _ (self : EntryAutoDrainService) (now : ℕ) where
  -- A round of the loop is one of its break, or a tick and the rest.
  entries_step :
      (c : Candidate) (cs : List Candidate) (db : FleetDb) (result : EntryAutoDrainResult)
      (p : FleetDb × EntryAutoDrainResult)
      → tick_entries self (c ∷ cs) now db result ≡ ok p
      → ((self.max_nodes ≤ result.processed) × (p.0 ≡ db))
        ⊎ ((q : FleetDb × EntryAutoDrainResult) × (tick_entry self c now db result ≡ ok q)
            × (tick_entries self cs now q.0 q.1 ≡ ok p))
  unfolding tick_entries
  entries_step c cs db result p e = elim (Bool-cases (leb self.max_nodes result.processed)) [
    | inl full ↦ inl (ground arith, ground arith)
    | inr free ↦ elim (Result-cases (tick_entry self c now db result)) [
      | inl (x, failed) ↦ absurd (ground arith)
      | inr (q, done) ↦ inr (q, done, ground arith)
    ]
  ]

  ended :
      (db : FleetDb) (result : EntryAutoDrainResult) (p : FleetDb × EntryAutoDrainResult)
      → tick_entries self [] now db result ≡ ok p
      → db ≡ p.0
  unfolding tick_entries
  ended db result p e = ground arith

  tick_entries-keep_IsOut :
      (id : ℕ) (cs : List Candidate) (db : FleetDb) (result : EntryAutoDrainResult)
      (p : FleetDb × EntryAutoDrainResult)
      → tick_entries self cs now db result ≡ ok p
      → Others id cs
      → IsOut id db
      → IsOut id p.0
  tick_entries-keep_IsOut id [] db result p e o out = subst (IsOut id) (ended db result p e) out
  tick_entries-keep_IsOut id (c ∷ cs) db result p e o out = elim (entries_step c cs db result p e) [
    | inl (full, same) ↦ subst (IsOut id) (sym same) out
    | inr (q, tick, rest) ↦
        tick_entries-keep_IsOut id cs q.0 q.1 p rest o.1
          (tick_entry-keeps_IsOut self c now db id result q tick o.0 out)
  ]

  unhealthy_lem :
      (c : Candidate) (db after : FleetDb)
      → after.signals ≡ db.signals
      → unhealthy_reason self c after ≡ unhealthy_reason self c db
  unfolding unhealthy_reason
  unhealthy_lem c db after e = ground arith

  tick_entries-IsOut :
      (c : Candidate) (cs : List Candidate) (db : FleetDb) (result : EntryAutoDrainResult)
      (p : FleetDb × EntryAutoDrainResult) {reason : UnhealthyReason}
      → tick_entries self cs now db result ≡ ok p
      → DistinctIds cs
      → Listed c cs
      → IsCurrent c db
      → unhealthy_reason self c db ≡ some reason
      → length cs + result.processed ≤ self.max_nodes
      → IsOut c.id p.0
  tick_entries-IsOut c [] db result p e d l current why room = absurd l
  tick_entries-IsOut c (h ∷ cs) db result p e d l current why room =
      elim (entries_step h cs db result p e) [
        | inl (full, same) ↦ absurd (omega arith)
        | inr (q, tick, rest) ↦ elim l [
          | inl mine ↦
              let out =
                tick_entry-IsOut self h now db result q tick
                  (ap (λ x. unhealthy_reason self x db) (sym mine) ∙ why)
                  (subst (λ x. IsCurrent x db) mine current) in
              tick_entries-keep_IsOut c.id cs q.0 q.1 p rest
                (subst (λ x. Others x.id cs) (sym mine) d.0)
                (subst (λ x. IsOut x.id q.0) (sym mine) out)
          | inr later ↦
              let t = tick_entry-IsTick self h now db result q tick in
              let other = Others-Listed h.id c cs d.0 later in
              tick_entries-IsOut c cs q.0 q.1 p rest d.1 later
                (t.others c.id (λ same. other (sym same)) ∙ current)
                (unhealthy_lem c db q.0 t.signals ∙ why) (omega (arith, t.processed))
        ]
      ]

-- The candidate of a node in the query.
abbrev candidate_of : ℕ → VpnNode → Table NodeAgentState → Candidate
candidate_of id node agents = record { id = id; entry = node; agent_state = lookup id agents }

list_entry_candidates-Others :
    (id : ℕ) (nodes : Table VpnNode) (agents : Table NodeAgentState)
    → lookup id nodes ≡ none
    → Others id (list_entry_candidates nodes agents)
unfolding list_entry_candidates lookup
list_entry_candidates-Others id [] agents e = tt
list_entry_candidates-Others id ((k, n) ∷ t) agents e = elim (Bool-cases (id == k)) [
  | inl same ↦ absurd (ground arith)
  | inr other ↦
      let rest = list_entry_candidates-Others id t agents (ground arith) in
      if_both (Others id) (is_candidate n) (ground (arith, ==_iff id k), rest) rest
]

list_entry_candidates-DistinctIds :
    (nodes : Table VpnNode) (agents : Table NodeAgentState)
    → Distinct nodes
    → DistinctIds (list_entry_candidates nodes agents)
unfolding list_entry_candidates
list_entry_candidates-DistinctIds [] agents d = tt
list_entry_candidates-DistinctIds ((k, n) ∷ t) agents d =
    let rest = list_entry_candidates-DistinctIds t agents d.1 in
    if_both DistinctIds (is_candidate n) (list_entry_candidates-Others k t agents d.0, rest) rest

list_lists :
    (id : ℕ) (node : VpnNode) (nodes : Table VpnNode) (agents : Table NodeAgentState)
    → lookup id nodes ≡ some node
    → is_candidate node ≡ true
    → Listed (candidate_of id node agents) (list_entry_candidates nodes agents)
unfolding list_entry_candidates lookup
list_lists id node [] agents e c = absurd (ground arith)
list_lists id node ((k, n) ∷ t) agents e c = elim (Bool-cases (id == k)) [
  | inl same ↦
      if_split (Listed (candidate_of id node agents)) (is_candidate n)
        (λ _. inl (ground (arith, ==_iff id k))) (λ no_entry. absurd (ground arith))
  | inr other ↦
      let rest = list_lists id node t agents (ground arith) c in
      if_both (Listed (candidate_of id node agents)) (is_candidate n) (inr rest) rest
]

-- Let no two nodes share an identifier, and let `max_nodes` allow for all the candidates. If a run succeeds, then
-- every active, enabled, physical entry node whose agent reports itself unhealthy or whose own probes have failed
-- often enough in a row is draining after it, and every active route through it is blocked.
pub run-IsOut :
    (self : EntryAutoDrainService) (now id : ℕ) (node : VpnNode) (db : FleetDb)
    (p : FleetDb × EntryAutoDrainResult) {reason : UnhealthyReason}
    → Distinct db.nodes
    → length (list_entry_candidates db.nodes db.agents) ≤ self.max_nodes
    → run self now db ≡ ok p
    → lookup id db.nodes ≡ some node
    → is_candidate node ≡ true
    → unhealthy_reason self (record { id = id; entry = node; agent_state = lookup id db.agents }) db
      ≡ some reason
    → IsOut id p.0
unfolding run
run-IsOut self now id node db p d room e found entry why =
    tick_entries-IsOut self now (candidate_of id node db.agents)
      (list_entry_candidates db.nodes db.agents) db _ p e
      (list_entry_candidates-DistinctIds db.nodes db.agents d)
      (list_lists id node db.nodes db.agents found entry) found why (omega arith)
