-- ===== src/Billing/Samples.antt =====
-- A small database for the tests.
use vpn_control_api.Base.{pos, true, none, some, [], ◌∷◌}
use vpn_control_api.Store.{
  Db, User, Plan, Subscription, PaymentOrder, pending, freekassa, plan_purchase,
}

abbrev pub client : User
client = record { balance = pos 5000; referral_code = none }

abbrev pub basic : Plan
basic = record {
  is_active = true;
  price_rub = 20000;
  device_price_rub = 5000;
  included_devices = 3;
  max_devices = 5;
  duration_days = 30;
  periods = [];
}

abbrev pub current : Subscription
current = record {
  user_id = 1;
  plan_id = some 2;
  is_active = true;
  expires_at = some 2000;
  paid_device_slots = pos 0;
  max_devices = some (pos 3);
  period_months = 1;
}

abbrev pub bought : PaymentOrder
bought = record {
  user_id = 1;
  plan_id = some 2;
  amount_rub = pos 20000;
  provider = freekassa;
  status = pending;
  external_id = 77;
  paid_at = none;
  completed_at = none;
  expires_at = some 9000;
  subscription_id = none;
  order_type = plan_purchase;
  device_slots_qty = pos 0;
  period_months = 1;
  fee_rub = none;
  net_rub = none;
  promo_code_id = none;
  discount_rub = none;
}

abbrev pub shop : Db
shop = record {
  users = (1, client) ∷ [];
  plans = (2, basic) ∷ [];
  subscriptions = (3, current) ∷ [];
  keys = [];
  orders = (4, bought) ∷ [];
  transactions = [];
  fees = [];
  promos = [];
  activations = [];
  referrals = [];
}
