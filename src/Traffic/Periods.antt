-- ===== src/Traffic/Periods.antt =====
-- How often services/traffic/users/reconcilers/reset.py resets a subscription.
use vpn_control_api.Base.{ℕ, ◌≤◌, ◌≡◌, refl, false, some, List, [], ◌∷◌, arith, sym}
use vpn_control_api.Base.Table.{Table}
use vpn_control_api.Traffic.Ingest.{
  VpnKey, ResetStrategy, no_reset, day, week, month, SubscriptionUsage,
}
use vpn_control_api.Traffic.Reset.{
  Calendar, reset_cutoff, needs_reset, reset_subscription, reset_all, tick_resets,
}
use mathlib.Core.Path.{subst}
use mathlib.Core.Option.{some-injective}
use vpn_control_api.Base.{if_split, if_both}

-- No subscription needs a reset.
abbrev pub Settled : ResetStrategy → ℕ → Table SubscriptionUsage → Type 0
Settled strategy cutoff [] = Unit
Settled strategy cutoff ((id, sub) ∷ t) =
    (needs_reset strategy cutoff sub ≡ false) × Settled strategy cutoff t

-- A row that was reset at the cutoff or later needs no reset.
reset_row :
    (strategy : ResetStrategy) (cutoff now : ℕ) (sub : SubscriptionUsage)
    → cutoff ≤ now
    → needs_reset strategy cutoff (reset_subscription now sub) ≡ false
reset_row strategy cutoff now sub le = ground arith

reset_all-Settled :
    (strategy : ResetStrategy) (cutoff now : ℕ) (t : Table SubscriptionUsage) (keys : Table VpnKey)
    → cutoff ≤ now
    → Settled strategy cutoff (reset_all strategy cutoff now t keys).subscriptions
unfolding reset_all
reset_all-Settled strategy cutoff now [] keys le = tt
reset_all-Settled strategy cutoff now ((id, sub) ∷ t) keys le = (
  if_split (λ (r : SubscriptionUsage). needs_reset strategy cutoff r ≡ false)
      (needs_reset strategy cutoff sub) (λ _. reset_row strategy cutoff now sub le) (λ e. e),
  reset_all-Settled strategy cutoff now t _ le,
)

reset_all-keeps_Settled :
    (strategy other : ResetStrategy) (cutoff c now : ℕ) (t : Table SubscriptionUsage)
    (keys : Table VpnKey)
    → cutoff ≤ now
    → Settled strategy cutoff t
    → Settled strategy cutoff (reset_all other c now t keys).subscriptions
unfolding reset_all
reset_all-keeps_Settled strategy other cutoff c now [] keys le settled = tt
reset_all-keeps_Settled strategy other cutoff c now ((id, sub) ∷ t) keys le (here, there) = (
  if_both (λ (r : SubscriptionUsage). needs_reset strategy cutoff r ≡ false)
      (needs_reset other c sub) (reset_row strategy cutoff now sub le) here,
  reset_all-keeps_Settled strategy other cutoff c now t _ le there,
)

-- There is nothing to do.
reset_all_idle :
    (strategy : ResetStrategy) (cutoff now : ℕ) (t : Table SubscriptionUsage) (keys : Table VpnKey)
    → Settled strategy cutoff t
    → reset_all strategy cutoff now t keys
      ≡ record { keys = keys; subscriptions = t; reinstated = []; total_reset = 0 }
unfolding reset_all
reset_all_idle strategy cutoff now [] keys settled = refl
reset_all_idle strategy cutoff now ((id, sub) ∷ t) keys (here, there) =
    ground (arith, reset_all_idle strategy cutoff now t keys there)

reset_all-at_cutoff :
    (strategy : ResetStrategy) {c cutoff : ℕ} (now : ℕ) (t : Table SubscriptionUsage)
    (keys : Table VpnKey)
    → some c ≡ some cutoff
    → cutoff ≤ now
    → Settled strategy cutoff (reset_all strategy c now t keys).subscriptions
reset_all-at_cutoff strategy {c} {cutoff} now t keys e le =
    subst (λ (x : ℕ). Settled strategy cutoff (reset_all strategy x now t keys).subscriptions)
      (sym (some-injective c cutoff e)) (reset_all-Settled strategy cutoff now t keys le)

tick_resets-Settled :
    (calendar : Calendar) (strategy : ResetStrategy) {cutoff : ℕ} (now : ℕ)
    (t : Table SubscriptionUsage) (keys : Table VpnKey)
    → reset_cutoff calendar now strategy ≡ some cutoff
    → cutoff ≤ now
    → Settled strategy cutoff (tick_resets calendar now t keys).subscriptions
unfolding tick_resets
tick_resets-Settled calendar no_reset now t keys e le = absurd (ground arith)
tick_resets-Settled calendar day {cutoff} now t keys e le =
    reset_all-keeps_Settled day month cutoff _ now _ _ le (
      reset_all-keeps_Settled day week cutoff _ now _ _ le
        (reset_all-at_cutoff day now t keys e le))
tick_resets-Settled calendar week {cutoff} now t keys e le =
    reset_all-keeps_Settled week month cutoff _ now _ _ le (reset_all-at_cutoff week now _ _ e le)
tick_resets-Settled calendar month {cutoff} now t keys e le = reset_all-at_cutoff month now _ _ e le

tick_resets-keeps_Settled :
    (calendar : Calendar) (strategy : ResetStrategy) (cutoff now : ℕ) (t : Table SubscriptionUsage)
    (keys : Table VpnKey)
    → cutoff ≤ now
    → Settled strategy cutoff t
    → Settled strategy cutoff (tick_resets calendar now t keys).subscriptions
unfolding tick_resets
tick_resets-keeps_Settled calendar strategy cutoff now t keys le settled =
    reset_all-keeps_Settled strategy month cutoff _ now _ _ le (
      reset_all-keeps_Settled strategy week cutoff _ now _ _ le
        (reset_all-keeps_Settled strategy day cutoff _ now t keys le settled))

-- Ticks at a sequence of instants.
unfoldable pub run_ticks :
    Calendar
    → List ℕ
    → Table SubscriptionUsage
    → Table VpnKey
    → Table SubscriptionUsage × Table VpnKey
unfolding tick_resets
run_ticks calendar [] t keys = (t, keys)
run_ticks calendar (now ∷ instants) t keys =
    let first = tick_resets calendar now t keys in
    run_ticks calendar instants first.subscriptions first.keys

abbrev pub AllFrom : ℕ → List ℕ → Type 0
AllFrom cutoff [] = Unit
AllFrom cutoff (now ∷ instants) = (cutoff ≤ now) × AllFrom cutoff instants

run_ticks-Settled :
    (calendar : Calendar) (strategy : ResetStrategy) (cutoff : ℕ) (instants : List ℕ)
    (t : Table SubscriptionUsage) (keys : Table VpnKey)
    → AllFrom cutoff instants
    → Settled strategy cutoff t
    → Settled strategy cutoff (run_ticks calendar instants t keys).0
unfolding run_ticks
run_ticks-Settled calendar strategy cutoff [] t keys from settled = settled
run_ticks-Settled calendar strategy cutoff (now ∷ instants) t keys (le, rest) settled =
    run_ticks-Settled calendar strategy cutoff instants _ _ rest
      (tick_resets-keeps_Settled calendar strategy cutoff now t keys le settled)

-- A strategy resets a subscription at most once in a period: after a tick in the period that starts at its cutoff, and
-- any number of ticks from the cutoff on, the loop over the subscriptions with that cutoff resets none, reinstates no
-- key and changes no row.
pub once_per_period :
    (calendar : Calendar) (strategy : ResetStrategy) {cutoff : ℕ} (now : ℕ) (instants : List ℕ)
    (later : ℕ) (t : Table SubscriptionUsage) (keys : Table VpnKey)
    → reset_cutoff calendar now strategy ≡ some cutoff
    → cutoff ≤ now
    → AllFrom cutoff instants
    → reset_all strategy cutoff later
        (run_ticks calendar (now ∷ instants) t keys).0
        (run_ticks calendar (now ∷ instants) t keys).1
      ≡ record {
        keys = (run_ticks calendar (now ∷ instants) t keys).1;
        subscriptions = (run_ticks calendar (now ∷ instants) t keys).0;
        reinstated = [];
        total_reset = 0;
      }
unfolding run_ticks
once_per_period calendar strategy {cutoff} now instants later t keys e le from =
    reset_all_idle strategy cutoff later _ _ (
      run_ticks-Settled calendar strategy cutoff instants _ _ from
        (tick_resets-Settled calendar strategy now t keys e le))
