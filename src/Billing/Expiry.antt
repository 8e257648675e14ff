-- ===== src/Billing/Expiry.antt =====
-- services/billing/repository.py: `bulk_expire_pending`, which the expiration reconciler calls on each
-- of its ticks. `updated_at` is left out.
use vpn_control_api.Base.{
  ℕ, zero, suc, ◌+◌, ◌≡◌, Bool, true, false, ◌&&◌, Option, none, some, [], ◌∷◌, ltb, leb,
  if◌then◌else◌, ◌⊎◌,
}
use vpn_control_api.Base.Table.{Table, modify}
use vpn_control_api.Store.{PaymentOrder, expired}
use vpn_control_api.Billing.Entry.{is_pending}

-- `expires_at.isnot(None), expires_at < now`
abbrev pub expires_before : ℕ → Option ℕ → Bool
expires_before now none = false
expires_before now (some t) = ltb t now

abbrev pub is_overdue : ℕ → PaymentOrder → Bool
is_overdue now o = is_pending o.status && expires_before now o.expires_at

abbrev pub ends_after : ℕ → Option ℕ → Bool
ends_after a none = true
ends_after a (some b) = leb a b

abbrev pub no_later : Option ℕ → Option (ℕ × PaymentOrder) → Bool
no_later end none = true
no_later none (some (_, other)) = false
no_later (some a) (some (_, other)) = ends_after a other.expires_at

abbrev pub expire : PaymentOrder → PaymentOrder
expire o = record o { status = expired }

-- The first overdue order in the order of `expires_at`.
unfoldable pub earliest_overdue : ℕ → Table PaymentOrder → Option (ℕ × PaymentOrder)
earliest_overdue now [] = none
earliest_overdue now ((id, o) ∷ t) =
    let rest = earliest_overdue now t in
    if is_overdue now o && no_later o.expires_at rest then some (id, o) else rest

abbrev pub counted : Table PaymentOrder × ℕ → Table PaymentOrder × ℕ
counted (t, n) = (t, n + 1)

-- `bulk_expire_pending`: the first overdue orders, up to the limit, are expired and counted.
unfoldable pub bulk_expire_pending : ℕ → ℕ → Table PaymentOrder → Table PaymentOrder × ℕ
bulk_expire_pending now zero t = (t, 0)
bulk_expire_pending now (suc limit) t = elim (earliest_overdue now t) [
  | none ↦ (t, 0)
  | some (id, o) ↦ counted (bulk_expire_pending now limit (modify id expire t))
]

-- The number of overdue orders.
pub overdue : ℕ → Table PaymentOrder → ℕ
overdue now [] = 0
overdue now ((id, o) ∷ t) = let rest = overdue now t in if is_overdue now o then rest + 1 else rest

-- What a batch may do to a row.
unfoldable pub MayExpire : ℕ → Option PaymentOrder → Option PaymentOrder → Type 0
MayExpire now before after =
    (after ≡ before)
    ⊎ ((o : PaymentOrder) × (before ≡ some o)
        × (is_overdue now o ≡ true)
        × (after ≡ some (expire o)))
