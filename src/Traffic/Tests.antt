-- ===== src/Traffic/Tests.antt =====
-- A batch of traffic reports, and the theorems on it.
use vpn_control_api.Base.{ℕ, ◌+◌, ◌≡◌, refl, true, false, none, some, List, [], ◌∷◌, arith, pos}
use vpn_control_api.Base.Table.{lookup, modify}
use vpn_control_api.Traffic.Ingest.{
  VpnKey, month, SubscriptionUsage, UserTrafficIn, TrafficDb, revoked_key, use_key,
  ingest_users_traffic,
}
use vpn_control_api.Traffic.Limits.{IsCut, ingest_users_traffic-IsCut}
use vpn_control_api.Traffic.Usage.{key_total, subscription_total, ingest_users_traffic-counts}

-- A key of subscription 5 that ends at the instant 100.
abbrev key_of : ℕ → VpnKey
key_of client_id = record {
  client_id = client_id;
  subscription_id = some 5;
  traffic_limit_mb = pos 0;
  used_traffic_bytes = 10;
  is_revoked = false;
  is_active = true;
  valid_until = 100;
}

abbrev sub : SubscriptionUsage
sub = record {
  used_traffic_bytes = 20;
  lifetime_used_traffic_bytes = 20;
  is_active = true;
  last_traffic_reset_at = none;
  traffic_warning_threshold_pct = 80;
  plan = some (record { traffic_limit_bytes = 50; reset_strategy = month; is_active = true });
}

abbrev charged_sub : SubscriptionUsage
charged_sub = record sub { used_traffic_bytes = 53; lifetime_used_traffic_bytes = 53 }

abbrev db : TrafficDb
db = record {
  keys = (1, key_of 71) ∷ (2, key_of 72) ∷ [];
  subscriptions = (5, sub) ∷ [];
  history = [];
  withdrawn = [];
}

abbrev items : List UserTrafficIn
items =
    record { identifier = 71; delta_bytes = 30 }
    ∷ record { identifier = 99; delta_bytes = 1000 }
    ∷ record { identifier = 71; delta_bytes = 3 }
    ∷ []

ingest_run : ingest_users_traffic 40 items db ≡ (
  record {
    keys = (1, revoked_key (use_key 33 (key_of 71))) ∷ (2, revoked_key (key_of 72)) ∷ [];
    subscriptions = (5, charged_sub) ∷ [];
    history = (1, 30) ∷ (1, 3) ∷ [];
    withdrawn = 1 ∷ 2 ∷ [];
  },
  2,
  2,
)
unfolding ingest_users_traffic lookup modify
ingest_run = refl

ingest_users_traffic-IsCut_example : IsCut 40 5 (ingest_users_traffic 40 items db).0.keys
unfolding ingest_users_traffic lookup modify
ingest_users_traffic-IsCut_example =
    ingest_users_traffic-IsCut 40 items db 5 {before = sub} {after = charged_sub} refl refl
      (omega arith) refl

ingest_users_traffic-counts_example :
    ((k : ℕ) (key : VpnKey)
      → lookup k db.keys ≡ some key
      → (key' : VpnKey) × (lookup k (ingest_users_traffic 40 items db).0.keys ≡ some key')
        × (key'.used_traffic_bytes ≡ key.used_traffic_bytes + key_total 40 db.keys items k))
    × ((s : ℕ) (sub : SubscriptionUsage)
        → lookup s db.subscriptions ≡ some sub
        → (sub' : SubscriptionUsage) × (lookup s (ingest_users_traffic 40 items db).0.subscriptions
            ≡ some sub')
          × (sub'.used_traffic_bytes
              ≡ sub.used_traffic_bytes + subscription_total 40 db.keys items s)
          × (sub'.lifetime_used_traffic_bytes
              ≡ sub.lifetime_used_traffic_bytes + subscription_total 40 db.keys items s))
ingest_users_traffic-counts_example = ingest_users_traffic-counts 40 items db
