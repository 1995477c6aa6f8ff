-- ===== src/Signer/Checks.antt =====
-- What the relayer checks before it signs anything.
use aether_dex.Prelude.{ℕ, ◌≤◌, ◌≡◌, refl, sym, arith, true, not, Option, none, some, ltb}
use aether_dex.Prelude.Result.{ok, demand, or_err-ok, demand-ok, bind-ok, ok-injective}
use aether_dex.Prelude.Int.{ℤ}
use aether_dex.Orders.Evaluate.{SendTransactionInput}
use aether_dex.Signer.{SignerRuntime, KeeperSignerConfig}
use aether_dex.Signer.Send.{nonce_from, chain_allowed, Reading, read_node, check_ceiling, preflight}
use aether_dex.Signer.World.{Transaction, World}

-- The price is under the ceiling, where one is configured.
pub data Affordable (rt : SignerRuntime) (price : ℕ) : Option ℤ → Type 0 where
  no_ceiling : Affordable rt price none
  under :
      (gwei : ℤ) (ceiling : ℕ)
      → rt.parse_gwei gwei ≡ some ceiling
      → price ≤ ceiling
      → Affordable rt price (some gwei)

-- What the preflight settles.
pub record Checked (rt : SignerRuntime) (config : KeeperSignerConfig) (chain_id : ℕ) (world : World)
    (next_nonce : Option ℕ) (input : SendTransactionInput) (tx : Transaction) : Type 0 where
  pub same_chain : chain_allowed chain_id input.chain_id ≡ true
  pub pending : ℕ
  pub counted : world.pending_count ≡ some pending
  pub nonce : tx.nonce ≡ nonce_from next_nonce pending
  pub balance : ℕ
  pub funds : world.balance ≡ some balance
  pub funded : config.min_balance_wei ≤ balance
  pub price : world.gas_price ≡ some tx.gas_price
  pub affordable : Affordable rt tx.gas_price config.max_gas_price_gwei
  pub to : tx.to ≡ input.to
  pub data_hex : tx.data_hex ≡ input.data_hex
  pub value : tx.value ≡ input.value

-- What the node answered.
record Read (world : World) (next_nonce : Option ℕ) (r : Reading) : Type 0 where
  pending : ℕ
  counted : world.pending_count ≡ some pending
  nonce : r.nonce ≡ nonce_from next_nonce pending
  funds : world.balance ≡ some r.balance
  price : world.gas_price ≡ some r.gas_price

not_less : (a b : ℕ) → not (ltb a b) ≡ true → b ≤ a
not_less a b h = ground arith

read_node-Read :
    (world : World) (next_nonce : Option ℕ) (input : SendTransactionInput) (r : Reading)
    → read_node world next_nonce input ≡ ok r
    → Read world next_nonce r
unfolding read_node
read_node-Read world next_nonce input r h =
    let (pending, e2, h2) = or_err-ok _ _ _ _ h in
    let (balance, e3, h3) = or_err-ok _ _ _ _ h2 in
    let (price, e4, h4) = or_err-ok _ _ _ _ h3 in
    let (gas, e5, h5) = or_err-ok _ _ _ _ h4 in
    rw (sym (ok-injective _ r h5))
      (record { pending = pending; counted = e2; nonce = refl; funds = e3; price = e4 })

check_ceiling-Affordable :
    (rt : SignerRuntime) (price : ℕ) (limit : Option ℤ) (u : Unit {0})
    → check_ceiling rt price limit ≡ ok u
    → Affordable rt price limit
unfolding check_ceiling demand
check_ceiling-Affordable rt price none u h = no_ceiling
check_ceiling-Affordable rt price (some gwei) u h =
    let (ceiling, parsed, h1) = or_err-ok _ _ _ _ h in under gwei ceiling parsed (ground arith)

pub preflight-Checked :
    (rt : SignerRuntime) (config : KeeperSignerConfig) (chain_id : ℕ) (world : World)
    (next_nonce : Option ℕ) (input : SendTransactionInput) (tx : Transaction)
    → preflight rt config chain_id world next_nonce input ≡ ok tx
    → Checked rt config chain_id world next_nonce input tx
unfolding preflight
preflight-Checked rt config chain_id world next_nonce input tx h =
    let (same, h1) = demand-ok _ _ _ _ h in
    let (r, e2, h2) = bind-ok _ _ _ h1 in
    let (funded, h3) = demand-ok _ _ _ _ h2 in
    let (u, e4, h4) = bind-ok _ _ _ h3 in
    let answers = read_node-Read world next_nonce input r e2 in
    rw (sym (ok-injective _ tx h4)) (record {
      same_chain = same;
      pending = answers.pending;
      counted = answers.counted;
      nonce = answers.nonce;
      balance = r.balance;
      funds = answers.funds;
      funded = not_less r.balance config.min_balance_wei funded;
      price = answers.price;
      affordable = check_ceiling-Affordable rt r.gas_price config.max_gas_price_gwei u e4;
      to = refl;
      data_hex = refl;
      value = refl;
    })

pub preflight-chain_id :
    (rt : SignerRuntime) (config : KeeperSignerConfig) (chain_id : ℕ) (world : World)
    (next_nonce : Option ℕ) (input : SendTransactionInput) (tx : Transaction)
    → preflight rt config chain_id world next_nonce input ≡ ok tx
    → tx.chain_id ≡ some chain_id
unfolding preflight
preflight-chain_id rt config chain_id world next_nonce input tx h =
    let (same, h1) = demand-ok _ _ _ _ h in
    let (r, e2, h2) = bind-ok _ _ _ h1 in
    let (funded, h3) = demand-ok _ _ _ _ h2 in
    let (u, e4, h4) = bind-ok _ _ _ h3 in rw (sym (ok-injective _ tx h4)) refl
