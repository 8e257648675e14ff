-- ===== src/Billing/Subscriptions.antt =====
-- How services/billing/service.py picks, extends and creates the subscription that an order pays for
-- (the second half of `_auto_purchase`), and `SubscriptionService.activate`. Logs are left out. `now`
-- is the instant that the caller read; `new_id` is the identifier that a new row gets.
use vpn_control_api.Base.{
  ℕ, ◌+◌, ◌*◌, ℤ, pos, ◌+ℤ◌, ltb_ℤ, Bool, true, false, not, ◌&&◌, Option, none, some, [], ◌∷◌, ltb,
  leb, ◌==◌, is_id, if◌then◌else◌,
}
use vpn_control_api.Base.Table.{Table, lookup, modify}
use vpn_control_api.Store.{
  Db, Plan, Subscription, Key, PaymentOrder, validation_error, subscription_not_found, Run, done,
  raised, ◌then_run◌, create,
}
use vpn_control_api.Promo.Service.{is_renewal}

-- `PERIOD_DAYS.get(months, PERIOD_DAYS[1])`
abbrev pub period_days : ℕ → ℕ
period_days months =
    if months == 1
    then 30
    else if months == 3
    then 90
    else if months == 6
    then 180
    else if months == 12
    then 365
    else 30

-- `period_months or 1`; the days of a period are the same for 0 as for 1.
abbrev pub months_or_one : ℕ → ℕ
months_or_one months = if months == 0 then 1 else months

-- `timedelta(days=n)`, in seconds.
abbrev pub days : ℕ → ℕ
days n = n * 86400

-- `order_repo.update_by_id(order.id, OrderInternalUpdate(subscription_id=…))`
abbrev pub link_subscription : ℕ → ℕ → Db → Db
link_subscription order_id sub_id db = record db {
  orders = modify order_id (λ o. record o { subscription_id = some sub_id }) db.orders;
}

abbrev pub update_subscription : ℕ → (Subscription → Subscription) → Db → Db
update_subscription sub_id f db = record db { subscriptions = modify sub_id f db.subscriptions }

-- `_find_active_subscription_for_plan`: the first active subscription of the user for the plan.
unfoldable pub find_active_subscription_for_plan :
    ℕ → ℕ → Table Subscription → Option (ℕ × Subscription)
find_active_subscription_for_plan user_id plan_id [] = none
find_active_subscription_for_plan user_id plan_id ((id, s) ∷ t) =
    let rest = find_active_subscription_for_plan user_id plan_id t in
    if s.user_id == user_id && (s.is_active && is_id s.plan_id plan_id) then some (id, s) else rest

abbrev pub expires_later : Option ℕ → Option ℕ → Bool
expires_later (some a) (some b) = leb b a
expires_later (some a) none = true
expires_later none b = false

abbrev pub expiry_of : Option (ℕ × Subscription) → Option ℕ
expiry_of none = none
expiry_of (some (_, s)) = s.expires_at

-- `SubscriptionRepository.get_latest_for_user`: of the user's subscriptions that expire at all, the
-- one that expires last.
unfoldable pub get_latest_for_user : ℕ → Table Subscription → Option (ℕ × Subscription)
get_latest_for_user user_id [] = none
get_latest_for_user user_id ((id, s) ∷ t) =
    let rest = get_latest_for_user user_id t in
    if s.user_id == user_id && expires_later s.expires_at (expiry_of rest)
    then some (id, s)
    else rest

-- `SubscriptionInternalCreate` bounds `max_devices` by 1 and 100; then the row is created.
unfoldable pub create_subscription : ℕ → Subscription → ℤ → Db → Run
create_subscription new_id sub max_devices db =
    if ltb_ℤ (pos 0) max_devices && not (ltb_ℤ (pos 100) max_devices)
    then done (record db {
      subscriptions =
          create new_id (record sub { max_devices = some max_devices }) db.subscriptions;
    })
    else raised validation_error db

abbrev pub ends_before : Option ℕ → ℕ → Bool
ends_before none t = true
ends_before (some v) t = ltb v t

-- The new end of a key's validity under a subscription that ends at the given instant.
abbrev pub valid_for : Option ℕ → Option ℕ → Option ℕ
valid_for none valid_until = valid_until
valid_for (some end) valid_until = if ends_before valid_until end then some end else valid_until

abbrev pub restore : Option ℕ → Key → Key
restore end k = record k { is_revoked = false; valid_until = valid_for end k.valid_until }

unfoldable pub restore_keys : ℕ → Option ℕ → Table Key → Table Key
restore_keys sub_id end [] = []
restore_keys sub_id end ((id, k) ∷ t) =
    (if k.subscription_id == sub_id then (id, restore end k) else (id, k))
    ∷ restore_keys sub_id end t

-- `SubscriptionService.activate` (services/vpn/subscriptions/service.py), without the placements of
-- the keys on nodes.
unfoldable pub activate : ℕ → Db → Run
unfolding restore_keys
activate sub_id db = elim (lookup sub_id db.subscriptions) [
  | none ↦ raised subscription_not_found db
  | some sub ↦ done (record db {
    subscriptions = modify sub_id (λ s. record s { is_active = true }) db.subscriptions;
    keys = restore_keys sub_id sub.expires_at db.keys;
  })
]

-- The subscription that a purchase extends, and whether the plan changes with it.
pub record Target : Type 0 where
  pub id : ℕ
  pub sub : Subscription
  pub plan_changed : Bool

abbrev pub owned_target : ℕ → ℕ → ℕ → Option Subscription → Option Target
owned_target user_id plan_id id none = none
owned_target user_id plan_id id (some s) =
    if s.user_id == user_id && is_id s.plan_id plan_id
    then some (record { id = id; sub = s; plan_changed = false })
    else none

abbrev pub renewal_target : ℕ → ℕ → Option ℕ → Table Subscription → Option Target
renewal_target user_id plan_id none subs = none
renewal_target user_id plan_id (some id) subs = owned_target user_id plan_id id (lookup id subs)

abbrev pub same_plan_target : Option (ℕ × Subscription) → Option Target
same_plan_target none = none
same_plan_target (some (id, s)) = some (record { id = id; sub = s; plan_changed = false })

abbrev pub latest_target : ℕ → Option (ℕ × Subscription) → Option Target
latest_target plan_id none = none
latest_target plan_id (some (id, s)) =
    some (record { id = id; sub = s; plan_changed = not (is_id s.plan_id plan_id) })

abbrev pub first_some : Option Target → Option Target → Option Target
first_some none other = other
first_some (some t) other = some t

-- First the renewed subscription, then an active one for the plan, then the user's latest one.
unfoldable pub choose_target : ℕ → ℕ → PaymentOrder → Table Subscription → Option Target
choose_target user_id plan_id order subs =
    first_some
      (if is_renewal order.order_type
        then renewal_target user_id plan_id order.subscription_id subs
        else none)
      (first_some (same_plan_target (find_active_subscription_for_plan user_id plan_id subs))
        (latest_target plan_id (get_latest_for_user user_id subs)))

-- `existing.expires_at if existing.expires_at and existing.expires_at > now else now`
abbrev pub base_expires : Option ℕ → ℕ → ℕ
base_expires none now = now
base_expires (some t) now = if ltb now t then t else now

-- The update of the chosen subscription: a changed plan starts anew from now, and takes the device
-- slots along that were paid for; otherwise the time is added to what is left.
unfoldable pub extended : Target → ℕ → Plan → ℕ → ℤ → ℕ → Subscription → Subscription
extended t plan_id plan period_months extra_devices now s =
    if t.plan_changed
    then record s {
      expires_at = some (now + days (period_days period_months));
      is_active = true;
      period_months = months_or_one period_months;
      plan_id = some plan_id;
      paid_device_slots = t.sub.paid_device_slots +ℤ extra_devices;
      max_devices = some (pos plan.included_devices +ℤ t.sub.paid_device_slots +ℤ extra_devices);
    }
    else record s {
      expires_at = some (base_expires t.sub.expires_at now + days (period_days period_months));
      is_active = true;
      period_months = months_or_one period_months;
      paid_device_slots =
          if ltb_ℤ (pos 0) extra_devices
          then t.sub.paid_device_slots +ℤ extra_devices
          else s.paid_device_slots;
    }

-- The second half of `_auto_purchase`: extend the chosen subscription, or create one.
unfoldable pub grant_subscription : ℕ → ℕ → ℕ → Plan → ℕ → PaymentOrder → ℕ → Db → Run
unfolding choose_target extended activate create_subscription
grant_subscription new_id user_id plan_id plan order_id order now db =
    elim (choose_target user_id plan_id order db.subscriptions) [
      | some t ↦ activate t.id (
          link_subscription order_id t.id (
            update_subscription t.id
              (extended t plan_id plan order.period_months order.device_slots_qty now) db))
      | none ↦
          create_subscription new_id
            (record {
              user_id = user_id;
              plan_id = some plan_id;
              is_active = true;
              expires_at = some (now + days (period_days order.period_months));
              paid_device_slots = order.device_slots_qty;
              max_devices = none;
              period_months = months_or_one order.period_months;
            })
            (pos plan.included_devices +ℤ order.device_slots_qty) db
          then_run (λ db'. done (link_subscription order_id new_id db'))
    ]
