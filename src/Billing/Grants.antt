-- ===== src/Billing/Grants.antt =====
-- What a purchase leaves: a subscription of the user, linked to the order.
use vpn_control_api.Base.{
  ℕ, ◌+◌, ◌≤◌, ◌≡◌, refl, ℤ, pos, ◌+ℤ◌, ◌≤ℤ◌, ◌<ℤ◌, true, Option, none, some, arith, ==_refl,
  option_split, ap, ◌∙◌,
}
use vpn_control_api.Base.Table.{Table, lookup, modify, lookup-modify, lookup-append, Distinct}
use vpn_control_api.Store.{Db, Plan, Subscription, PaymentOrder, done, ◌then_run◌, create}
use vpn_control_api.Billing.Subscriptions.{
  months_or_one, choose_target, Target, extended, days, period_days, activate, create_subscription,
  grant_subscription, restore_keys, update_subscription, link_subscription,
}
use vpn_control_api.Billing.Targets.{IsOwned, choose_target-IsOwned}
use vpn_control_api.Billing.Extensions.{LastsUntil, extended-lasts, extended-active}

-- The rows after the update and the activation of a subscription.
modify-LastsUntil :
    (sub_id user_id until : ℕ) (s : Subscription) (end : ℕ) (f : Subscription → Subscription)
    (subs : Table Subscription)
    → lookup sub_id subs ≡ some s
    → (f s).user_id ≡ user_id
    → (f s).expires_at ≡ some end
    → until ≤ end
    → LastsUntil user_id sub_id until
        (modify sub_id (λ y. record y { is_active = true }) (modify sub_id f subs))
unfolding LastsUntil
modify-LastsUntil sub_id user_id until s end f subs found owner ends late = (
  record (f s) { is_active = true },
  end,
  ground (
    arith,
    ==_refl sub_id,
    lookup-modify sub_id sub_id f subs,
    lookup-modify sub_id sub_id (λ (y : Subscription). record y { is_active = true })
        (modify sub_id f subs),
  ),
  owner,
  refl,
  ends,
  late,
)

create-LastsUntil :
    (new_id user_id until : ℕ) (s : Subscription) (end : ℕ) (subs : Table Subscription)
    → lookup new_id subs ≡ none
    → s.user_id ≡ user_id
    → s.is_active ≡ true
    → s.expires_at ≡ some end
    → until ≤ end
    → LastsUntil user_id new_id until (create new_id s subs)
unfolding LastsUntil
create-LastsUntil new_id user_id until s end subs fresh owner active ends late = (
  s,
  end,
  ground (arith, ==_refl new_id, lookup-append new_id new_id s subs),
  owner,
  active,
  ends,
  late,
)

-- The database after an activation.
abbrev activated : ℕ → Option ℕ → Db → Db
activated sub_id end db = record db {
  subscriptions = modify sub_id (λ s. record s { is_active = true }) db.subscriptions;
  keys = restore_keys sub_id end db.keys;
}

activate-done :
    (sub_id : ℕ) (db : Db) {s : Subscription}
    → lookup sub_id db.subscriptions ≡ some s
    → activate sub_id db ≡ done (activated sub_id s.expires_at db)
unfolding activate
activate-done sub_id db {s} found = ground arith

lookup-updated :
    (id : ℕ) (f : Subscription → Subscription) (t : Table Subscription) {s : Subscription}
    → lookup id t ≡ some s
    → lookup id (modify id f t) ≡ some (f s)
lookup-updated id f t {s} found = ground (arith, ==_refl id, lookup-modify id id f t)

-- What a purchase for a user leaves: a subscription that lasts, linked to the order.
unfoldable pub IsGranted : ℕ → ℕ → ℕ → Db → Db → Type 0
IsGranted user_id order_id until db after =
    (id : ℕ) × LastsUntil user_id id until after.subscriptions
    × ((o : PaymentOrder)
        → lookup order_id db.orders ≡ some o
        → lookup order_id after.orders ≡ some (record o { subscription_id = some id }))

linked :
    (order_id id : ℕ) (db : Db) (o : PaymentOrder)
    → lookup order_id db.orders ≡ some o
    → lookup order_id (link_subscription order_id id db).orders
      ≡ some (record o { subscription_id = some id })
linked order_id id db o found = ground (
  arith,
  ==_refl order_id,
  lookup-modify order_id order_id (λ (x : PaymentOrder). record x { subscription_id = some id })
      db.orders,
)

extend-IsGranted :
    (t : Target) (user_id plan_id : ℕ) (plan : Plan) (order_id : ℕ) (order : PaymentOrder) (now : ℕ)
    (db : Db)
    → IsOwned user_id db.subscriptions t
    → (after : Db) × (activate t.id (
          link_subscription order_id t.id (
            update_subscription t.id
              (extended t plan_id plan order.period_months order.device_slots_qty now)
              db))
        ≡ done after)
      × IsGranted user_id order_id (now + days (period_days order.period_months)) db after
unfolding IsGranted IsOwned
extend-IsGranted t user_id plan_id plan order_id order now db (found, owner) =
    let f = extended t plan_id plan order.period_months order.device_slots_qty now in
    let linked_db = link_subscription order_id t.id (update_subscription t.id f db) in
    let (end, ends, late) =
      extended-lasts t plan_id plan order.period_months order.device_slots_qty now t.sub in
    (
      activated t.id (f t.sub).expires_at linked_db,
      activate-done t.id linked_db (lookup-updated t.id f db.subscriptions found),
      (
        t.id,
        modify-LastsUntil t.id user_id (now + days (period_days order.period_months)) t.sub end f
            db.subscriptions found
            ((extended-active t plan_id plan order.period_months order.device_slots_qty now t.sub).1
              ∙ owner)
            ends late,
        linked order_id t.id db,
      ),
    )

create_subscription-done :
    (new_id : ℕ) (s : Subscription) (max_devices : ℤ) (db : Db)
    → pos 0 <ℤ max_devices
    → max_devices ≤ℤ pos 100
    → create_subscription new_id s max_devices db
      ≡ done (record db {
        subscriptions =
            create new_id (record s { max_devices = some max_devices }) db.subscriptions;
      })
unfolding create_subscription
create_subscription-done new_id s max_devices db least most = ground arith

-- `create_subscription` within its bounds, as a purchase calls it.
create-IsGranted :
    (new_id user_id : ℕ) (s : Subscription) (max_devices : ℤ) (order_id until : ℕ) (end : ℕ)
    (db : Db)
    → lookup new_id db.subscriptions ≡ none
    → pos 0 <ℤ max_devices
    → max_devices ≤ℤ pos 100
    → s.user_id ≡ user_id
    → s.is_active ≡ true
    → s.expires_at ≡ some end
    → until ≤ end
    → (after : Db) × ((create_subscription new_id s max_devices db
          then_run (λ db'. done (link_subscription order_id new_id db')))
        ≡ done after)
      × IsGranted user_id order_id until db after
unfolding IsGranted
create-IsGranted new_id user_id s max_devices order_id until end db fresh least most owner active
      ends late =
    (
      link_subscription order_id new_id (record db {
        subscriptions =
            create new_id (record s { max_devices = some max_devices }) db.subscriptions;
      }),
      ap (λ r. r then_run (λ db'. done (link_subscription order_id new_id db')))
          (create_subscription-done new_id s max_devices db least most),
      (
        new_id,
        create-LastsUntil new_id user_id until (record s { max_devices = some max_devices }) end
            db.subscriptions fresh owner active ends late,
        linked order_id new_id db,
      ),
    )

-- A purchase, where no two subscriptions share an identifier, the identifier for a new one is free, and
-- the plan's devices and the ordered slots are between 1 and 100: it succeeds, and it leaves the user
-- with an active subscription that lasts for at least the bought period from now, with the order linked
-- to it.
pub grant_subscription-IsGranted :
    (new_id user_id plan_id : ℕ) (plan : Plan) (order_id : ℕ) (order : PaymentOrder) (now : ℕ)
    (db : Db)
    → Distinct db.subscriptions
    → lookup new_id db.subscriptions ≡ none
    → pos 0 <ℤ pos plan.included_devices +ℤ order.device_slots_qty
    → pos plan.included_devices +ℤ order.device_slots_qty ≤ℤ pos 100
    → (after : Db) × (grant_subscription new_id user_id plan_id plan order_id order now db
        ≡ done after)
      × IsGranted user_id order_id (now + days (period_days order.period_months)) db after
unfolding grant_subscription
grant_subscription-IsGranted new_id user_id plan_id plan order_id order now db distinct fresh least
      most =
    option_split
      (λ r.
        (after : Db) × (r ≡ done after)
        × IsGranted user_id order_id (now + days (period_days order.period_months)) db after)
      (choose_target user_id plan_id order db.subscriptions)
      (λ missing.
        create-IsGranted new_id user_id
          (record {
            user_id = user_id;
            plan_id = some plan_id;
            is_active = true;
            expires_at = some (now + days (period_days order.period_months));
            paid_device_slots = order.device_slots_qty;
            max_devices = none;
            period_months = months_or_one order.period_months;
          })
          (pos plan.included_devices +ℤ order.device_slots_qty) order_id
          (now + days (period_days order.period_months))
          (now + days (period_days order.period_months)) db fresh least most refl refl refl
          (omega arith))
      λ t found.
        extend-IsGranted t user_id plan_id plan order_id order now db
          (choose_target-IsOwned user_id plan_id order db.subscriptions distinct found)
