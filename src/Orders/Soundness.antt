-- ===== src/Orders/Soundness.antt =====
-- When the keeper sends a transaction, and when it takes an order for executed
-- (`handleTpSlEvaluate`).
use aether_dex.Prelude.{
  ℕ, ◌<◌, ◌≤◌, ◌≡◌, refl, sym, ap, ◌∙◌, arith, Bool, true, false, not, Option, none, some, String,
  ltb,
}
use aether_dex.Prelude.Int.{ℤ, ◌≤ℤ◌}
use aether_dex.Prelude.Result.{Result, ok, err, or_err-ok, demand, demand-ok, bind-ok, ok-injective}
use aether_dex.Prelude.Text.{is_decimal}
use aether_dex.Prelude.Table.{find_where}
use aether_dex.Orders.{OrderType, OrderStatus, is_pending, TpSlOrder, OrderStore, is_open}
use aether_dex.Orders.Trigger.{
  Runtime, TpSlExecutableLike, parse_chain_id, is_triggered, can_execute_tp_sl_order,
  resolve_tpsl_address, encode_execute_order, read_integer_cache_value,
}
use aether_dex.Orders.Evaluate.{
  TpSlEvaluateMessage, QueueEnv, SendTransactionInput, SubmissionResult, Clock, Stop, Plan,
  CacheKey, load_order, read_prices, check_trigger, build_submission, authorise, evaluate, after,
  plan_of, read_twap, nonempty,
}

-- Both prices lie on the side of the trigger that the order waits for.
abbrev pub Breached : OrderType → Bool → ℤ → ℤ → ℤ → Type 0
Breached OrderType.take_profit true trigger spot twap = (spot ≤ℤ trigger) × (twap ≤ℤ trigger)
Breached OrderType.take_profit false trigger spot twap = (trigger ≤ℤ spot) × (trigger ≤ℤ twap)
Breached OrderType.stop_loss true trigger spot twap = (trigger ≤ℤ spot) × (trigger ≤ℤ twap)
Breached OrderType.stop_loss false trigger spot twap = (spot ≤ℤ trigger) × (twap ≤ℤ trigger)

pub is_triggered-Breached :
    (t : OrderType) (zero_for_one : Bool) (trigger spot twap : ℤ)
    → is_triggered t zero_for_one trigger spot twap ≡ true
    → Breached t zero_for_one trigger spot twap
unfolding is_triggered
is_triggered-Breached OrderType.take_profit true trigger spot twap h = ground arith
is_triggered-Breached OrderType.take_profit false trigger spot twap h = ground arith
is_triggered-Breached OrderType.stop_loss true trigger spot twap h = ground arith
is_triggered-Breached OrderType.stop_loss false trigger spot twap h = ground arith

-- The row behind a transaction.
pub record Loaded (clock : Clock) (msg : TpSlEvaluateMessage) (s : OrderStore) (order : TpSlOrder)
    (onchain_id : String) : Type 0 where
  pub found : find_where (is_open msg.order_id msg.chain_id) s.orders ≡ some order
  pub not_expired : clock.at_expiry ≤ msg.deadline
  pub onchain : order.onchain_order_id ≡ some onchain_id
  pub decimal : is_decimal onchain_id ≡ true

-- The prices behind it: the spot price is the cached one, and the average is the cached one or the
-- hook's own.
pub record Priced (rt : Runtime) (env : QueueEnv) (msg : TpSlEvaluateMessage)
    (spot_text twap_text : String) : Type 0 where
  pub spot_payload : String
  pub spot_cached : env.cache_get (CacheKey.pool_spot msg.pool_id) ≡ some (some spot_payload)
  pub spot_read : read_integer_cache_value rt spot_payload ≡ some spot_text
  pub twap_cached : Option String
  pub twap_found : env.cache_get (CacheKey.twap msg.pool_id msg.twap_window) ≡ some twap_cached
  pub average_read : read_twap rt env msg.pool_id msg.twap_window twap_cached ≡ some twap_text

pub record Triggered (rt : Runtime) (msg : TpSlEvaluateMessage) (spot_text twap_text : String)
    : Type 0 where
  pub trigger : ℤ
  pub spot : ℤ
  pub average : ℤ
  pub trigger_price : rt.big_int msg.trigger_price_x18 ≡ some trigger
  pub spot_price : rt.big_int spot_text ≡ some spot
  pub twap_price : rt.big_int twap_text ≡ some average
  pub breached : Breached msg.order_type msg.zero_for_one trigger spot average

-- The gate that the transaction passed, and what it holds.
pub record Gated (rt : Runtime) (env : QueueEnv) (clock : Clock) (msg : TpSlEvaluateMessage)
    (order : TpSlOrder) (onchain_id : String) (input : SendTransactionInput) : Type 0 where
  pub pending : order.status ≡ OrderStatus.pending
  pub live : clock.at_gate < msg.deadline
  pub chain : parse_chain_id env.signer.chain_id ≡ some msg.chain_id
  pub address : resolve_tpsl_address rt env.signer ≡ some input.to
  pub payload : encode_execute_order rt onchain_id ≡ some input.data_hex
  pub same_chain : input.chain_id ≡ some msg.chain_id

-- What holds of a transaction that is sent.
pub record Authorised (rt : Runtime) (env : QueueEnv) (clock : Clock) (msg : TpSlEvaluateMessage)
    (s : OrderStore) (input : SendTransactionInput) : Type 0 where
  pub order : TpSlOrder
  pub onchain_id : String
  pub spot_text : String
  pub twap_text : String
  pub loaded : Loaded clock msg s order onchain_id
  pub priced : Priced rt env msg spot_text twap_text
  pub triggered : Triggered rt msg spot_text twap_text
  pub gated : Gated rt env clock msg order onchain_id input

nonempty-some : (o : Option String) (t : String) → nonempty o ≡ some t → o ≡ some t
nonempty-some none t h = cc
nonempty-some (some String.[]) t h = cc
nonempty-some (some (String.◌∷◌ c cs)) t h = h

not_later : (a b : ℕ) → not (ltb b a) ≡ true → a ≤ b
not_later a b h = ground arith

plan_of-confirmed :
    (r : SubmissionResult) (hash : String)
    → plan_of r ≡ Plan.confirmed hash
    → r ≡ SubmissionResult.submitted hash (some true)
unfolding plan_of
plan_of-confirmed (SubmissionResult.failed true) hash h = cc
plan_of-confirmed (SubmissionResult.failed false) hash h = cc
plan_of-confirmed SubmissionResult.submission_disabled hash h = cc
plan_of-confirmed (SubmissionResult.submitted t (some true)) hash h = cc
plan_of-confirmed (SubmissionResult.submitted t (some false)) hash h = cc
plan_of-confirmed (SubmissionResult.submitted t none) hash h = cc

demanded : (e : Stop) (c : Bool) {u : Unit {0}} → demand e c ≡ ok u → c ≡ true
unfolding demand
demanded e true h = refl
demanded e false h = cc

module _ (rt : Runtime) where
  can_execute_tp_sl_order-live :
      (o : TpSlExecutableLike) (c : ℕ) (now : ℕ)
      → can_execute_tp_sl_order rt o (record { expected_chain_id = c; max_amount_in = none }) now
        ≡ true
      → (is_pending o.status ≡ true) × (now < o.deadline) × (o.chain_id ≡ c)
  unfolding can_execute_tp_sl_order
  can_execute_tp_sl_order-live o c now h = ground arith

  is_pending-pending : (t : OrderStatus) → is_pending t ≡ true → t ≡ OrderStatus.pending
  is_pending-pending OrderStatus.pending h = refl
  is_pending-pending OrderStatus.triggered h = cc
  is_pending-pending OrderStatus.executed h = cc
  is_pending-pending OrderStatus.cancelled h = cc
  is_pending-pending OrderStatus.expired h = cc

  load_order-Loaded :
      (env : QueueEnv) (clock : Clock) (msg : TpSlEvaluateMessage) (s : OrderStore)
      (loaded : TpSlOrder × String)
      → load_order rt env clock msg s ≡ ok loaded
      → Loaded clock msg s loaded.0 loaded.1
  unfolding load_order
  load_order-Loaded env clock msg s loaded h =
      let (up, h1) = demand-ok _ _ _ _ h in
      let (order, found, h2) = or_err-ok _ _ _ _ h1 in
      let (in_time, h3) = demand-ok _ _ _ _ h2 in
      let (onchain_id, onchain, h4) = or_err-ok _ _ _ _ h3 in
      let (decimal, h5) = demand-ok _ _ _ _ h4 in
      rw (sym (ok-injective (order, onchain_id) loaded h5)) (record {
        found = found;
        not_expired = not_later clock.at_expiry msg.deadline in_time;
        onchain = onchain;
        decimal = decimal;
      })

  read_prices-Priced :
      (env : QueueEnv) (msg : TpSlEvaluateMessage) (prices : String × String)
      → read_prices rt env msg ≡ ok prices
      → Priced rt env msg prices.0 prices.1
  unfolding read_prices
  read_prices-Priced env msg prices h =
      let (spot_read, cached, h1) = or_err-ok _ _ _ _ h in
      let (spot_payload, full, h2) = or_err-ok _ _ _ _ h1 in
      let (spot_text, spot, h3) = or_err-ok _ _ _ _ h2 in
      let (twap_cached, twap_found, h4) = or_err-ok _ _ _ _ h3 in
      let (twap_text, average, h5) = or_err-ok _ _ _ _ h4 in
      rw (sym (ok-injective (spot_text, twap_text) prices h5)) (record {
        spot_payload = spot_payload;
        spot_cached = cached ∙ ap some (nonempty-some spot_read spot_payload full);
        spot_read = spot;
        twap_cached = twap_cached;
        twap_found = twap_found;
        average_read = average;
      })

  check_trigger-Triggered :
      (msg : TpSlEvaluateMessage) (spot_text twap_text : String) (u : Unit {0})
      → check_trigger rt msg spot_text twap_text ≡ ok u
      → Triggered rt msg spot_text twap_text
  unfolding check_trigger
  check_trigger-Triggered msg spot_text twap_text u h =
      let (trigger, trigger_price, h1) = or_err-ok _ _ _ _ h in
      let (spot, spot_price, h2) = or_err-ok _ _ _ _ h1 in
      let (average, twap_price, h3) = or_err-ok _ _ _ _ h2 in
      record {
        trigger = trigger;
        spot = spot;
        average = average;
        trigger_price = trigger_price;
        spot_price = spot_price;
        twap_price = twap_price;
        breached = is_triggered-Breached msg.order_type msg.zero_for_one trigger spot average (
            demanded Stop.skip (is_triggered msg.order_type msg.zero_for_one trigger spot average)
              h3);
      }

  build_submission-Gated :
      (env : QueueEnv) (clock : Clock) (msg : TpSlEvaluateMessage) (order : TpSlOrder)
      (onchain_id : String) (input : SendTransactionInput)
      → build_submission rt env clock msg order onchain_id ≡ ok input
      → Gated rt env clock msg order onchain_id input
  unfolding build_submission
  build_submission-Gated env clock msg order onchain_id input h =
      let (expected, chain, h1) = or_err-ok _ _ _ _ h in
      let (gate, h2) = demand-ok _ _ _ _ h1 in
      let (address, resolved, h3) = or_err-ok _ _ _ _ h2 in
      let (payload, encoded, h4) = or_err-ok _ _ _ _ h3 in
      let (waiting, alive, same) = can_execute_tp_sl_order-live _ expected clock.at_gate gate in
      rw (sym (ok-injective _ input h4)) (record {
        pending = is_pending-pending order.status waiting;
        live = alive;
        chain = chain ∙ ap some (sym same);
        address = resolved;
        payload = encoded;
        same_chain = refl;
      })

  authorise-Authorised :
      (env : QueueEnv) (clock : Clock) (msg : TpSlEvaluateMessage) (s : OrderStore)
      (input : SendTransactionInput)
      → authorise rt env clock msg s ≡ ok input
      → Authorised rt env clock msg s input
  unfolding authorise
  authorise-Authorised env clock msg s input h =
      let (loaded, h0, h1) = bind-ok _ _ _ h in
      let (prices, h2, h3) = bind-ok _ _ _ h1 in
      let (u, h4, h5) = bind-ok _ _ _ h3 in
      record {
        order = loaded.0;
        onchain_id = loaded.1;
        spot_text = prices.0;
        twap_text = prices.1;
        loaded = load_order-Loaded env clock msg s loaded h0;
        priced = read_prices-Priced env msg prices h2;
        triggered = check_trigger-Triggered msg prices.0 prices.1 u h4;
        gated = build_submission-Gated env clock msg loaded.0 loaded.1 input h5;
      }

  sends_nothing :
      (send : SendTransactionInput → SubmissionResult) (r : Result Stop SendTransactionInput)
      (plan : Plan) (input : SendTransactionInput)
      → after send r ≡ (plan, some input)
      → r ≡ ok input
  sends_nothing send (ok i) plan input h = cc
  sends_nothing send (err p) plan input h = cc

  -- A transaction is sent only for a pending row of the message's key, before the message's
  -- deadline, on the chain that the worker is configured for, to the configured contract, for the
  -- row's own on-chain id, and only where the cached spot price and the average both lie on the
  -- side of the trigger that the order waits for.
  pub evaluate-Authorised :
      (env : QueueEnv) (send : SendTransactionInput → SubmissionResult) (clock : Clock)
      (msg : TpSlEvaluateMessage) (s : OrderStore) {plan : Plan} (input : SendTransactionInput)
      → evaluate rt env send clock msg s ≡ (plan, some input)
      → Authorised rt env clock msg s input
  unfolding evaluate
  evaluate-Authorised env send clock msg s {plan} input h =
      authorise-Authorised env clock msg s input
        (sends_nothing send (authorise rt env clock msg s) plan input h)

  confirmed_by :
      (send : SendTransactionInput → SubmissionResult) (r : Result Stop SendTransactionInput)
      (hash : String) (sent : Option SendTransactionInput)
      → after send r ≡ (Plan.confirmed hash, sent)
      → (input : SendTransactionInput) × (sent ≡ some input)
        × (send input ≡ SubmissionResult.submitted hash (some true))
  confirmed_by send (err p) hash sent h = cc
  confirmed_by send (ok i) hash sent h = (i, cc, plan_of-confirmed (send i) hash cc)

  -- The handler writes `executed` only where it sent a transaction and the keeper's signer
  -- answered that it is confirmed; the hash that it writes is that transaction's.
  pub evaluate-confirmed :
      (env : QueueEnv) (send : SendTransactionInput → SubmissionResult) (clock : Clock)
      (msg : TpSlEvaluateMessage) (s : OrderStore) {sent : Option SendTransactionInput}
      (hash : String)
      → evaluate rt env send clock msg s ≡ (Plan.confirmed hash, sent)
      → (input : SendTransactionInput) × (sent ≡ some input)
        × (send input ≡ SubmissionResult.submitted hash (some true))
  unfolding evaluate
  evaluate-confirmed env send clock msg s {sent} hash h =
      confirmed_by send (authorise rt env clock msg s) hash sent h
