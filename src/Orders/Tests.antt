-- ===== src/Orders/Tests.antt =====
-- Runs of the queue's handler, and its properties at concrete inputs.
use aether_dex.Prelude.{ℕ, ◌≡◌, refl, false, Option, none, some, List, All}
use aether_dex.Prelude.Result.{ok, ◌>>=◌, or_err, demand}
use aether_dex.Prelude.Text.{is_decimal, is_positive_decimal, decimal_value}
use aether_dex.Prelude.Table.{find_where}
use aether_dex.Orders.{OrderStatus, TpSlOrder}
use aether_dex.Orders.Service.{get_triggerable_orders}
use aether_dex.Orders.Access.{IsTriggerable, get_triggerable_orders-IsSorted}
use aether_dex.Prelude.{Among, leb}
use aether_dex.Prelude.Sort.{IsSorted}
use aether_dex.Orders.Trigger.{
  parse_chain_id, is_triggered, read_integer_cache_value, can_execute_tp_sl_order,
  resolve_tpsl_address, encode_execute_order,
}
use aether_dex.Orders.Evaluate.{
  Stop, Plan, read_twap, load_order, read_prices, check_trigger, build_submission, authorise,
  plan_of, evaluate, commit,
}
use aether_dex.Orders.Samples.{runtime, store_of, message, worker, confirms, clock, transaction}
use aether_dex.Orders.Keeps.{KeepsOrders, commit-KeepsOrders}
use aether_dex.Orders.Soundness.{Authorised, evaluate-Authorised}

breached :
    evaluate runtime worker confirms (clock 1000) message (store_of OrderStatus.pending)
    ≡ (Plan.confirmed "0xhash", some transaction)
unfolding evaluate authorise load_order read_prices check_trigger build_submission ◌>>=◌ or_err
    demand find_where read_integer_cache_value read_twap is_triggered parse_chain_id
    can_execute_tp_sl_order resolve_tpsl_address encode_execute_order plan_of is_decimal
    is_positive_decimal decimal_value
breached = refl

past_deadline :
    evaluate runtime worker confirms (clock 3000) message (store_of OrderStatus.pending)
    ≡ (Plan.stop Stop.expire, none)
unfolding evaluate authorise load_order ◌>>=◌ or_err demand find_where
past_deadline = refl

evaluate-Authorised_example :
    Authorised runtime worker (clock 1000) message (store_of OrderStatus.pending) transaction
evaluate-Authorised_example =
    evaluate-Authorised runtime worker confirms (clock 1000) message (store_of OrderStatus.pending)
      transaction breached

commit-KeepsOrders_example :
    KeepsOrders
      (store_of OrderStatus.cancelled)
      (commit false (clock 1000) message (Plan.confirmed "0xhash") (store_of OrderStatus.cancelled))
commit-KeepsOrders_example =
    commit-KeepsOrders false (clock 1000) message (Plan.confirmed "0xhash")
      (store_of OrderStatus.cancelled) cc

abbrev reported : ℕ → Option ℕ
reported n = some n

get_triggerable_orders-IsSorted_example :
    (orders : List TpSlOrder) × (get_triggerable_orders false 1000 "0xpool" 1
        (store_of OrderStatus.pending)
      ≡ ok orders)
    × All (λ o. Among o (store_of OrderStatus.pending).orders) orders
    × All (IsTriggerable 1000 "0xpool" 1) orders
    × ((o : TpSlOrder)
        → Among o (store_of OrderStatus.pending).orders
        → IsTriggerable 1000 "0xpool" 1 o
        → Among o orders)
    × IsSorted (λ a b. leb a.created_at b.created_at) orders
get_triggerable_orders-IsSorted_example =
    get_triggerable_orders-IsSorted 1000 "0xpool" 1 (store_of OrderStatus.pending)
