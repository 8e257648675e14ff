-- ===== src/Fleet/EntryRun.antt =====
-- The whole tick of services/entry/drain_service.py: which entries it takes out of service.
use vpn_control_api.Base.{
  ℕ, ◌+◌, ◌≡◌, ◌≢◌, refl, inl, inr, ◌⊎◌, true, false, ◌&&◌, some, ==_iff, if_both, if_split,
  option_split, Result, ok, err, arith, ap, sym, ◌∙◌,
}
use mathlib.Core.Path.{subst}
use vpn_control_api.Base.Table.{lookup, lookup-modify}
use vpn_control_api.Routes.Service.{RouteServiceError}
use vpn_control_api.Fleet.Rows.{FleetDb}
use vpn_control_api.Fleet.EntryDrain.{
  EntryAutoDrainService, EntryAutoDrainResult, Candidate, unhealthy_reason, UnhealthyReason,
  drain_entry, try_undrain_entry, unblock_routes_for_entry, block_routes_for_entry,
}
use vpn_control_api.Fleet.EntryTick.{tick_healthy, tick_unhealthy, tick_entry}
use vpn_control_api.Fleet.EntryLaws.{
  IsOut, IsCurrent, set_draining, tick_unhealthy-IsOut, tick_unhealthy-keeps_IsOut,
  undrain-keeps_IsOut,
}

pub Result-cases :
    {E A : Type 0} (r : Result E A) → ((e : E) × (r ≡ err e)) ⊎ ((a : A) × (r ≡ ok a))
Result-cases (err e) = inl (e, refl)
Result-cases (ok a) = inr (a, refl)

-- What a tick on one entry leaves alone, and what it counts.
pub record IsTick (c : Candidate) (db : FleetDb) (before : EntryAutoDrainResult)
    (p : FleetDb × EntryAutoDrainResult) : Type 0 where
  pub signals : p.0.signals ≡ db.signals
  pub processed : p.1.processed ≡ before.processed + 1
  pub others : (k : ℕ) → k ≢ c.id → lookup k p.0.nodes ≡ lookup k db.nodes

module _ (self : EntryAutoDrainService) (c : Candidate) (now : ℕ) (db : FleetDb) where
  undrain_others :
      (k : ℕ) → k ≢ c.id → lookup k (try_undrain_entry self c db).0.nodes ≡ lookup k db.nodes
  unfolding try_undrain_entry
  undrain_others k other =
      ground (arith, lookup-modify k c.id (set_draining false) db.nodes, ==_iff k c.id)

  drain_others : (k : ℕ) → k ≢ c.id → lookup k (drain_entry c now db).0.nodes ≡ lookup k db.nodes
  unfolding drain_entry
  drain_others k other =
      ground (arith, lookup-modify k c.id (set_draining true) db.nodes, ==_iff k c.id)

  unblock_leaves :
      (d after : FleetDb) (m : ℕ)
      → unblock_routes_for_entry c.id now d ≡ ok (after, m)
      → (after.signals ≡ d.signals) × (after.nodes ≡ d.nodes)
  unfolding unblock_routes_for_entry
  unblock_leaves d after m e = ground arith

  undrain_signals : (try_undrain_entry self c db).0.signals ≡ db.signals
  unfolding try_undrain_entry
  undrain_signals = ground arith

  undrain_failed : (try_undrain_entry self c db).1 ≡ false → (try_undrain_entry self c db).0 ≡ db
  unfolding try_undrain_entry
  undrain_failed e = ground arith

  -- A healthy entry is left as it is, or restored with its routes.
  tick_healthy_cases :
      (result : EntryAutoDrainResult) (p : FleetDb × EntryAutoDrainResult)
      → tick_healthy self c now db result ≡ ok p
      → (p.1.processed ≡ result.processed)
        × ((p.0 ≡ db)
            ⊎ ((m : ℕ) × (unblock_routes_for_entry c.id now (try_undrain_entry self c db).0
                  ≡ ok (p.0, m))))
  unfolding tick_healthy
  tick_healthy_cases result p =
      let Goal = λ (r : Result RouteServiceError (FleetDb × EntryAutoDrainResult)).
        r ≡ ok p
        → (p.1.processed ≡ result.processed)
          × ((p.0 ≡ db)
              ⊎ ((m : ℕ) × (unblock_routes_for_entry c.id now (try_undrain_entry self c db).0
                    ≡ ok (p.0, m)))) in
      if_both Goal (self.auto_undrain_enabled && c.entry.is_draining)
        (if_split Goal (try_undrain_entry self c db).1
          (λ _.
            elim (Result-cases
              (unblock_routes_for_entry c.id now (try_undrain_entry self c db).0)) [
                | inl (e, failed) ↦ rw failed (λ h. absurd (ground arith))
                | inr ((d, m), done) ↦ rw done (λ h. (ground arith, inr (m, ground arith)))
              ])
          (λ none_done h. (ground arith, inl (ground (arith, undrain_failed none_done)))))
        (λ h. (ground arith, inl (ground arith)))

  unhealthy_tick :
      (before : EntryAutoDrainResult) (p : FleetDb × EntryAutoDrainResult)
      → tick_unhealthy c now db (record before { processed = before.processed + 1 }) ≡ p
      → (p.1.processed ≡ before.processed + 1) × (p.0 ≡ (tick_unhealthy c now db before).0)
  unfolding tick_unhealthy
  unhealthy_tick before p e = ground arith

  tick_entry_cases :
      (before : EntryAutoDrainResult) (p : FleetDb × EntryAutoDrainResult)
      → tick_entry self c now db before ≡ ok p
      → (p.1.processed ≡ before.processed + 1)
        × ((p.0 ≡ db)
            ⊎ ((m : ℕ) × (unblock_routes_for_entry c.id now (try_undrain_entry self c db).0
                  ≡ ok (p.0, m)))
            ⊎ (p.0 ≡ (tick_unhealthy c now db before).0))
  unfolding tick_entry
  tick_entry_cases before p =
      let counted = record before { processed = before.processed + 1 } in
      option_split
        (λ (r : Result RouteServiceError (FleetDb × EntryAutoDrainResult)).
          r ≡ ok p
          → (p.1.processed ≡ before.processed + 1)
            × ((p.0 ≡ db)
                ⊎ ((m : ℕ) × (unblock_routes_for_entry c.id now (try_undrain_entry self c db).0
                      ≡ ok (p.0, m)))
                ⊎ (p.0 ≡ (tick_unhealthy c now db before).0)))
        (unhealthy_reason self c db)
        (λ _ e.
          let (n, w) = tick_healthy_cases counted p e in
          (n, elim w [ inl same ↦ inl same | inr restored ↦ inr (inl restored) ]))
        (λ _ _ e. let (n, w) = unhealthy_tick before p (ground arith) in (n, inr (inr w)))

  tick_unhealthy-IsTick :
      (before : EntryAutoDrainResult)
      → ((tick_unhealthy c now db before).0.signals ≡ db.signals)
        × ((k : ℕ)
            → k ≢ c.id
            → lookup k (tick_unhealthy c now db before).0.nodes ≡ lookup k db.nodes)
  unfolding tick_unhealthy block_routes_for_entry
  tick_unhealthy-IsTick before =
      (unfold drain_entry in ground arith, λ k other. ground (arith, drain_others k other))

  pub tick_entry-IsTick :
      (before : EntryAutoDrainResult) (p : FleetDb × EntryAutoDrainResult)
      → tick_entry self c now db before ≡ ok p
      → IsTick c db before p
  tick_entry-IsTick before p e =
      let (n, w) = tick_entry_cases before p e in
      elim w [
        | inl same ↦ record {
          signals = ground arith;
          processed = n;
          others = λ k other. ground arith;
        }
        | inr (inl (m, restored)) ↦
            let (signals, nodes) = unblock_leaves (try_undrain_entry self c db).0 p.0 m restored in
            record {
              signals = signals ∙ undrain_signals;
              processed = n;
              others = λ k other. ap (lookup k) nodes ∙ undrain_others k other;
            }
        | inr (inr drained) ↦
            let (signals, others) = tick_unhealthy-IsTick before in
            record {
              signals = ap (λ d. d.signals) drained ∙ signals;
              processed = n;
              others = λ k other. ap (λ d. lookup k d.nodes) drained ∙ others k other;
            }
      ]

  pub tick_entry-keeps_IsOut :
      (id : ℕ) (before : EntryAutoDrainResult) (p : FleetDb × EntryAutoDrainResult)
      → tick_entry self c now db before ≡ ok p
      → id ≢ c.id
      → IsOut id db
      → IsOut id p.0
  tick_entry-keeps_IsOut id before p e other out =
      let (n, w) = tick_entry_cases before p e in
      elim w [
        | inl same ↦ subst (IsOut id) (sym same) out
        | inr (inl (m, restored)) ↦ undrain-keeps_IsOut self id c now db p.0 m other restored out
        | inr (inr drained) ↦
            subst (IsOut id) (sym drained) (tick_unhealthy-keeps_IsOut id c now db before out)
      ]

  pub tick_entry-IsOut :
      (before : EntryAutoDrainResult) (p : FleetDb × EntryAutoDrainResult)
      {reason : UnhealthyReason}
      → tick_entry self c now db before ≡ ok p
      → unhealthy_reason self c db ≡ some reason
      → IsCurrent c db
      → IsOut c.id p.0
  unfolding tick_entry
  tick_entry-IsOut before p e why current =
      let done : tick_unhealthy c now db (record before { processed = before.processed + 1 }) ≡ p =
        ground arith in
      subst (IsOut c.id) (sym (unhealthy_tick before p done).1)
        (tick_unhealthy-IsOut c now db before current)
