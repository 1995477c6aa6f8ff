-- ===== src/Cron/Tests.antt =====
-- The keeper's tick over one order, live or overdue.
use aether_dex.Prelude.{refl, inl, arith, Bool, false, some, [], All}
use aether_dex.Orders.{OrderStatus}
use aether_dex.Orders.Samples.{store_of, order_of}
use aether_dex.Cron.{QueueMessage, TickFaults, run_keeper_tick}
use aether_dex.Cron.Expiry.{IsInTime, IsLiveRow, run_keeper_tick-expires}
use aether_dex.Cron.Due.{IsDue, run_keeper_tick-IsDue}

abbrev no_faults : TickFaults
no_faults = record { orders_down = false; update_down = false; positions_down = false }

abbrev accepts : QueueMessage → Bool
accepts m = false

live_row : IsLiveRow 1 1000 (store_of OrderStatus.pending).orders (order_of OrderStatus.pending)
live_row = record { row = inl refl; chain = refl; pending = refl; in_time = ground arith }

run_keeper_tick-expires_example :
    All
      (IsInTime 1 1000)
      (run_keeper_tick accepts no_faults
        (some 1)
        1000
        []
        []
        (store_of OrderStatus.pending)).1.orders
run_keeper_tick-expires_example =
    run_keeper_tick-expires accepts no_faults (some 1) 1000 [] [] (store_of OrderStatus.pending)
      (order_of OrderStatus.pending) refl refl live_row

run_keeper_tick-IsDue_example :
    All
      (IsDue 1 1000 (store_of OrderStatus.pending).orders [] [])
      (run_keeper_tick accepts no_faults (some 1) 1000 [] [] (store_of OrderStatus.pending)).0
run_keeper_tick-IsDue_example =
    run_keeper_tick-IsDue accepts no_faults (some 1) 1000 [] [] (store_of OrderStatus.pending)
