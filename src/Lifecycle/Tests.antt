-- ===== src/Lifecycle/Tests.antt =====
-- A run of the service and of the cron over an order.
use aether_dex.Prelude.{ℕ, arith, false, some, Option}
use aether_dex.Orders.{OrderStatus, OrderStore}
use aether_dex.Orders.Samples.{store_of, message, clock, runtime, worker, confirms}
use aether_dex.Orders.Service.{cancel_order}
use aether_dex.Orders.Evaluate.{evaluate, commit}
use aether_dex.Orders.Keeps.{KeepsOrders}
use aether_dex.Orders.Keys.{IsKeyed}
use aether_dex.Lifecycle.{Reaches, OrderStep, Reaches-KeepsOrders}

abbrev reported : ℕ → Option ℕ
reported n = some n

abbrev pending_store : OrderStore
pending_store = store_of OrderStatus.pending

pending_store-IsKeyed : IsKeyed pending_store
pending_store-IsKeyed = record { below = omega arith; ascending = omega arith }

-- The owner cancels, and the queue handles a message that was sent before.
abbrev cancelled_store : OrderStore
cancelled_store = (cancel_order reported false 1 "0xuser" 1 pending_store).1

abbrev handled_store : OrderStore
handled_store =
    commit false (clock 1000) message
      (evaluate runtime worker confirms (clock 1000) message cancelled_store).0 cancelled_store

Reaches-KeepsOrders_example : KeepsOrders pending_store handled_store
Reaches-KeepsOrders_example = Reaches-KeepsOrders {changes = reported} pending_store-IsKeyed (
    Reaches.next (Reaches.next Reaches.here (OrderStep.cancelled false 1 "0xuser" 1))
      (OrderStep.handled runtime worker confirms (clock 1000) message false))
