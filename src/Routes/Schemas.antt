-- ===== src/Routes/Schemas.antt =====
-- The data of a route: services/routes/schemas.py and the health columns of services/routes/models.py.
-- Instants and durations are whole microseconds, the resolution of Python's datetime.
use vpn_control_api.Base.{ℕ, ◌*◌, Bool, Option, none, some, List, [], ◌∷◌}

-- `RouteHealthStatus`
pub data RouteHealthStatus : Type 0 where
  healthy degraded suspected blocked warming_up : RouteHealthStatus

-- `RouteHealthAction`
pub data RouteHealthAction : Type 0 where
  block recover set_healthy set_degraded set_suspected : RouteHealthAction

-- `RouteWarmupTickResult`
pub data RouteWarmupTickResult : Type 0 where
  advanced finalized : RouteWarmupTickResult

-- `RouteWarmupStage`
pub record RouteWarmupStage : Type 0 where
  pub target_weight : ℕ
  pub hold_minutes : ℕ

-- A datetime without a time zone, or with one; the number is the instant that it denotes when its
-- own zone is read, and UTC where it has none.
pub data Datetime : Type 0 where
  naive aware : ℕ → Datetime

-- The columns of `Route` that the health state machine, the probes and the drains read and write.
pub record Route : Type 0 where
  pub node_id : ℕ
  pub entry_node_id : Option ℕ
  pub health_status : RouteHealthStatus
  pub base_weight : ℕ
  pub effective_weight : ℕ
  pub cooldown_until : Option Datetime
  pub warmup_stage : Option ℕ
  pub warmup_started_at : Option Datetime
  pub is_active : Bool
  pub updated_at : ℕ

-- `RouteStateResolution`; the instants in it are UTC.
pub record RouteStateResolution : Type 0 where
  pub health_status : RouteHealthStatus
  pub effective_weight : ℕ
  pub cooldown_until : Option ℕ
  pub warmup_stage : Option ℕ
  pub warmup_started_at : Option ℕ

-- `DEFAULT_WARMUP_STAGES`
abbrev pub default_warmup_stages : List RouteWarmupStage
default_warmup_stages =
    record { target_weight = 10; hold_minutes = 30 }
    ∷ record { target_weight = 25; hold_minutes = 60 }
    ∷ []

-- `timedelta(hours=h)` and `timedelta(minutes=m)`.
abbrev pub hours : ℕ → ℕ
hours h = h * 3600000000

abbrev pub minutes : ℕ → ℕ
minutes m = m * 60000000

-- `_to_utc_or_none`
abbrev pub to_utc_or_none : Option Datetime → Option ℕ
to_utc_or_none none = none
to_utc_or_none (some (naive t)) = some t
to_utc_or_none (some (aware t)) = some t
