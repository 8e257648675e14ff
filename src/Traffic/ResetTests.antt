-- ===== src/Traffic/ResetTests.antt =====
-- Ticks of services/traffic/users/reconcilers/reset.py, and the theorems on them.
use vpn_control_api.Base.{◌*◌, ◌-◌, ◌≡◌, refl, true, false, some, [], ◌∷◌, arith, pos, ◌%◌, ◌/◌}
use vpn_control_api.Base.Table.{Table, lookup, modify}
use vpn_control_api.Traffic.Ingest.{VpnKey, day, SubscriptionUsage, revoked_key}
use vpn_control_api.Traffic.Reset.{
  Calendar, reset_key, reset_subscription, reset_all, tick_resets, revoke_key,
}
use vpn_control_api.Traffic.Periods.{run_ticks, once_per_period}
use vpn_control_api.Traffic.Reinstated.{revoke_key-reinstated}

-- Seconds from a Monday on, with months of 28 days.
abbrev calendar : Calendar
calendar = record {
  midnight = λ n. n - n % 86400;
  weekday = λ n. (n / 86400) % 7;
  first_of_month = λ n. n - ((n / 86400) % 28) * 86400;
}

abbrev key : VpnKey
key = record {
  client_id = 71;
  subscription_id = some 5;
  traffic_limit_mb = pos 0;
  used_traffic_bytes = 33;
  is_revoked = false;
  is_active = true;
  valid_until = 900000;
}

abbrev daily : SubscriptionUsage
daily = record {
  used_traffic_bytes = 33;
  lifetime_used_traffic_bytes = 53;
  is_active = true;
  last_traffic_reset_at = some 100000;
  traffic_warning_threshold_pct = 80;
  plan = some (record { traffic_limit_bytes = 50; reset_strategy = day; is_active = true });
}

abbrev keys : Table VpnKey
keys = (1, revoked_key key) ∷ (2, key) ∷ []

abbrev subscriptions : Table SubscriptionUsage
subscriptions = (5, daily) ∷ []

tick_run : tick_resets calendar 200000 subscriptions keys ≡ record {
  keys = (1, reset_key key) ∷ (2, reset_key key) ∷ [];
  subscriptions = (5, reset_subscription 200000 daily) ∷ [];
  reinstated = 1 ∷ [];
  total_reset = 1;
}
unfolding tick_resets
tick_run = refl

-- A second tick on the same day.
tick_run_again :
    (tick_resets calendar 210000 ((5, reset_subscription 200000 daily) ∷ []) keys).total_reset ≡ 0
unfolding tick_resets
tick_run_again = refl

once_per_period_example :
    reset_all day 172800 220000
      (run_ticks calendar (200000 ∷ 210000 ∷ []) subscriptions keys).0
      (run_ticks calendar (200000 ∷ 210000 ∷ []) subscriptions keys).1
    ≡ record {
      keys = (run_ticks calendar (200000 ∷ 210000 ∷ []) subscriptions keys).1;
      subscriptions = (run_ticks calendar (200000 ∷ 210000 ∷ []) subscriptions keys).0;
      reinstated = [];
      total_reset = 0;
    }
once_per_period_example =
    once_per_period calendar day {cutoff = 172800} 200000 (210000 ∷ []) 220000 subscriptions keys
      refl (omega arith) (omega arith, tt)

revoke_key-reinstated_example :
    (lookup 2 ((1, revoked_key key) ∷ (2, revoked_key key) ∷ [])
      ≡ some (record key { is_revoked = true }))
    × (lookup 2
          (tick_resets calendar 200000 subscriptions
            ((1, revoked_key key) ∷ (2, revoked_key key) ∷ [])).keys
        ≡ some (record key { used_traffic_bytes = 0; is_revoked = false }))
unfolding lookup modify revoke_key
revoke_key-reinstated_example =
    revoke_key-reinstated calendar 200000 2 5 key daily day {cutoff = 172800} subscriptions keys
      ((1, revoked_key key) ∷ (2, revoked_key key) ∷ []) {withdrawn = 2 ∷ []} refl refl refl refl
      refl refl refl
