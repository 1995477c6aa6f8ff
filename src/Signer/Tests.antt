-- ===== src/Signer/Tests.antt =====
-- Runs of the relayer over the relay and in public.
use aether_dex.Prelude.{
  ◌≡◌, refl, true, false, none, some, List, [], ◌∷◌, String, str_eq, if◌then◌else◌,
}
use aether_dex.Prelude.Int.{pos}
use aether_dex.Prelude.Result.{ok, ◌>>=◌, or_err, demand}
use aether_dex.Prelude.Table.{find_where}
use aether_dex.Prelude.Text.{is_tx_hash, is_hex_key, is_decimal, is_positive_decimal, decimal_value}
use aether_dex.Safety.{parse_positive_float}
use aether_dex.Orders.{OrderStatus}
use aether_dex.Orders.Trigger.{
  KeeperSignerEnv, parse_chain_id, resolve_tpsl_address, is_triggered, read_integer_cache_value,
  can_execute_tp_sl_order, encode_execute_order,
}
use aether_dex.Orders.Evaluate.{
  QueueEnv, Plan, evaluate, authorise, load_order, read_prices, read_twap, check_trigger,
  build_submission, plan_of,
}
use aether_dex.Orders.Samples.{runtime, store_of, message, worker, clock, transaction}
use aether_dex.Signer.{
  SignerRuntime, parse_hex_private_key, parse_relay_url, is_flag_enabled, parse_min_balance_wei,
  read_keeper_signer_config,
}
use aether_dex.Signer.Send.{
  read_node, check_ceiling, preflight, await_confirmation, sign_for_relay, relay_answer,
  send_transaction, create_keeper_signer, outcome_of,
}
use aether_dex.Signer.World.{
  SubmissionChannel, Submission, KeeperTransactionReceipt, Transaction, World, Wire,
}
use aether_dex.Signer.Confirm.{keeper_send}
use aether_dex.Signer.Nonces.{Call, accepted_nonces, IncreasingFrom, accepted_nonces-IncreasingFrom}

abbrev signer_runtime : SignerRuntime
signer_runtime = record {
  base = runtime;
  reader = record {
    parse_int = λ s. some (pos 30);
    parse_float = λ s. some (pos 30);
    http_url = λ s. none;
  };
  to_lower = λ s. s;
  without_prefix = λ s. s;
  url_protocol = λ s. if str_eq s "https://relay" then some "https:" else none;
  parse_ether = λ s. some 20;
  parse_gwei = λ n. some 30000000000;
  keccak = λ s. "0xexecuted";
}

abbrev hash : String
hash = "0xabababababababababababababababababababababababababababababababab"

abbrev signer_env : KeeperSignerEnv
signer_env = record {
  chain_id = some "1";
  keeper_private_key = some "1111111111111111111111111111111111111111111111111111111111111111";
  keeper_rpc_url = some "https://node";
  keeper_max_gas_price_gwei = some "30";
  keeper_min_balance_eth = none;
  keeper_allow_public_submission = none;
  private_tx_relay_url = some "https://relay";
  tpsl_address = none;
  aether_tpsl_address = some "0xtpsl";
}

abbrev receipt : KeeperTransactionReceipt
receipt = record {
  reverted = false;
  logs = record { address = "0xtpsl"; topics = "0xexecuted" ∷ [] } ∷ [];
}

-- A world where all goes well.
abbrev world : World
world = record {
  pending_count = some 7;
  balance = some 60000000000000000;
  gas_price = some 20000000000;
  estimate_gas = λ input. some 100000;
  wait_receipt = some (λ h. some receipt);
  sign = λ tx. some "0xsigned";
  fetch = λ url signed. some (record {
    is_ok = true;
    status = 200;
    body = some (record { error = none; result_text = some hash });
  });
  wallet_send = λ tx. some hash;
}

-- The node does not count what is pending, and a relay whose answer has no hash.
abbrev later_world : World
later_world = record world { pending_count = some 3 }

abbrev refusing_world : World
refusing_world = record world { fetch = λ url signed. none }

abbrev posted_transaction : Transaction
posted_transaction = record {
  chain_id = some 1;
  to = "0xtpsl";
  data_hex = "0xdata";
  value = none;
  nonce = 7;
  gas = 100000;
  gas_price = 20000000000;
}

relayed :
    (let config = read_keeper_signer_config signer_runtime signer_env in
      send_transaction signer_runtime config (create_keeper_signer config) world none transaction)
    ≡ record {
      answer = ok (Submission.submitted SubmissionChannel.private_relay hash (some true));
      sent = some (Wire.posted "https://relay" posted_transaction);
      accepted = some 7;
      next_nonce = some 8;
    }
unfolding send_transaction create_keeper_signer read_keeper_signer_config parse_hex_private_key
    parse_relay_url is_flag_enabled parse_min_balance_wei preflight read_node check_ceiling
    await_confirmation sign_for_relay relay_answer ◌>>=◌ or_err demand is_tx_hash is_hex_key
    parse_positive_float parse_chain_id is_positive_decimal decimal_value
relayed = refl

abbrev keeper_worker : QueueEnv
keeper_worker = record worker { signer = signer_env }

executed :
    evaluate runtime keeper_worker
      (keeper_send signer_runtime keeper_worker world)
      (clock 1000)
      message
      (store_of OrderStatus.pending)
    ≡ (Plan.confirmed hash, some transaction)
unfolding evaluate authorise load_order read_prices check_trigger build_submission ◌>>=◌ or_err
    demand find_where read_integer_cache_value read_twap is_triggered parse_chain_id
    can_execute_tp_sl_order resolve_tpsl_address encode_execute_order plan_of is_decimal
    is_positive_decimal decimal_value keeper_send outcome_of send_transaction create_keeper_signer
    read_keeper_signer_config parse_hex_private_key parse_relay_url is_flag_enabled
    parse_min_balance_wei preflight read_node check_ceiling await_confirmation sign_for_relay
    relay_answer is_tx_hash is_hex_key parse_positive_float
executed = refl

abbrev calls_in_turn : List Call
calls_in_turn =
    record { world = world; input = transaction }
    ∷ record { world = refusing_world; input = transaction }
    ∷ record { world = later_world; input = transaction }
    ∷ []

-- The node's count falls behind, and the second call is not accepted.
accepted_in_turn :
    (let config = read_keeper_signer_config signer_runtime signer_env in
      accepted_nonces signer_runtime config (create_keeper_signer config) none calls_in_turn)
    ≡ 7 ∷ 8 ∷ []
unfolding accepted_nonces send_transaction create_keeper_signer read_keeper_signer_config
    parse_hex_private_key parse_relay_url is_flag_enabled parse_min_balance_wei preflight read_node
    check_ceiling await_confirmation sign_for_relay relay_answer ◌>>=◌ or_err demand is_tx_hash
    is_hex_key parse_positive_float parse_chain_id is_positive_decimal decimal_value
accepted_in_turn = refl

accepted_nonces-IncreasingFrom_example :
    (let config = read_keeper_signer_config signer_runtime signer_env in
      IncreasingFrom 0
        (accepted_nonces signer_runtime config (create_keeper_signer config) none calls_in_turn))
accepted_nonces-IncreasingFrom_example =
    let config = read_keeper_signer_config signer_runtime signer_env in
    accepted_nonces-IncreasingFrom signer_runtime config (create_keeper_signer config) none
      calls_in_turn
