-- ===== src/Lib.antt =====
-- The control API of a VPN service (services/ and shared/): the health of nodes and routes and the choice
-- of routes for a user, and the money of the users, from the order to the subscription.
--
-- Base      numbers, tables, lists, results: what the other modules share.
-- Routes    services/routes: the health state machine of a route (state_machine.py: StateMachine,
--           policy.py and schemas.py: Schemas) and the two operations of service.py that store its
--           states (Service: update_route_health, advance_warmup). Health, Warmup and Advance hold
--           the proofs.
-- Routing   services/routing/selector.py: the choice of the routes of a user (Selector, method by
--           method). Picks, Selection, Replacement, Insurance and Diversity hold the proofs.
-- Fleet     nodes, probes and drains. Rows: the columns of services/nodes/models.py,
--           services/probe/models.py and the policies. Signals: the queries of
--           services/probe/repository.py. Probes: services/probe/ingestion_service.py from the
--           creation of a signal on, with the route health policy. Heartbeat: handle_heartbeat of
--           services/nodes/service.py, and the drain cooldown of auto_heal_service.py. EntryDrain and
--           EntryTick: services/entry/drain_service.py. Streaks, Escalation, Blocks and Weightless hold
--           the proofs on probes, Beats those on heartbeats, EntryLaws, EntryRun, EntryTotal and
--           Restore those on the entry drain.
-- Traffic   services/traffic/users/service.py: the ingestion of a batch of traffic reports (Ingest), which
--           charges keys and subscriptions and revokes the keys over a limit; the periodic reset of
--           services/traffic/users/reconcilers/reset.py, and revoke_key of services/vpn/keys/service.py
--           (Reset). Usage, Limits, Periods and Reinstated hold the proofs. The calendar is a parameter.
-- Store     the tables that billing, promo and referral share (their models.py), the exceptions, and
--           a session that commits or rolls back (shared/database/session.py).
-- Promo     services/promo: quotes and activations (Service), the operations of the administrator
--           (Admin). Audience, Quote, Ledger and Validation hold the proofs.
-- Billing   services/billing/service.py: the subscription that a purchase extends or creates
--           (Subscriptions), the debits (Purchase), the fulfilment of an order (Fulfillment), the calls
--           from outside (Entry), new orders (Checkout, PlanCheckout) and the expiry of unpaid ones (Expiry, after
--           billing/repository.py). Ledger, Conservation and History hold the proofs on the
--           ledger, Orders and Idempotence those on repeated reports, Payments, Refunds, Debits and Rounding those on
--           balances, Targets, Extensions and Grants those on subscriptions, and Slots, SlotOrders, PlanOrders and
--           Trials those on new orders. Samples, Tests and CheckoutTests hold runs at small databases.
-- Referral  services/referral/service.py: applying a code, and the reward (Service). Rewards holds the
--           proofs.
--
-- A route is a record of its health columns; a table is a list of rows under identifiers; a call takes
-- the database and returns it with an answer, or with an exception and what had been written by then.
-- The functions have the names of the source, in its order of tests and writes; a name that is not in
-- the source is a part of a longer function. A billing call reads its order and its user under row locks, so
-- one call is one step, and the interleaving of calls is a list of requests.
--
-- The probes, the heartbeat and the entry drain share one database (FleetDb), and the routes in it are those of
-- Routes: a probe report and a drain change the columns that the state machine of Routes resolves. An update that
-- breaks the check constraint on the weights of a route is an error, which rolls the call back.
--
-- Instants are natural numbers (microseconds for routes, nodes and probes, seconds elsewhere). Money is in
-- hundredths of a rouble, an integer where it can be negative. Amounts that a request may give with
-- more decimal places (manual operations, quotes) come with their number of digits beyond the hundredths, and the
-- columns of the database round them. Numbers too large for their columns are an error only where a code is
-- created or updated; elsewhere the model has no such bound. Every loop is a recursion on a list,
-- on the limit of a batch, or on the number of routes that are left to pick, so there is no fuel. The new identifier of a row, the time and the
-- settings are arguments.
--
-- Parameters and limits: payment providers and their signature checks (a webhook arrives verified and
-- parsed; create_payment is an argument), messages, metrics, logs, audit, caches and the texts of
-- provider_meta are left out, as is the placement of keys on nodes. The pricing in create_order
-- (period prices, proration, the downgrade guard) and automatic renewal are not modelled: the plan
-- orders of PlanCheckout take the amount that it computes. The random generator of the selector is any
-- stream of draws. Of nodes, probes and entries, the tables of pools and placements, the snapshots that a change
-- enqueues, alerts and notifications are left out, as are the checks of a report and the targets of probes. The other
-- services (bot, admin, authentication) are not modelled.
pub mod Base
pub mod Routes
pub mod Routing
pub mod Fleet
pub mod Traffic
pub mod Store
pub mod Promo
pub mod Billing
pub mod Referral
