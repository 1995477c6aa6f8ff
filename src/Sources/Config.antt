-- ===== src/Sources/Config.antt =====
-- The configuration of the indexer of three sources (apps/api/src/workers/indexer-config.ts).
use aether_dex.Prelude.{
  ℕ, Bool, true, false, not, ◌&&◌, Option, none, some, List, [], ◌∷◌, String, leb, str_eq, filter,
  map, if◌then◌else◌,
}
use aether_dex.Prelude.Chain.{◌>>=◌}
use aether_dex.Prelude.Text.{is_positive_decimal, decimal_value, is_hex_address}
use aether_dex.Orders.Trigger.{parse_chain_id, max_safe_integer}

-- The JavaScript runtime's `trim`, `toLowerCase` and `split(",")`.
pub record Texts : Type 0 where
  pub trim : String → String
  pub to_lower : String → String
  pub split_commas : String → List String

pub record IndexerEnvConfig : Type 0 where
  pub chain_id : Option String
  pub rpc_url : Option String
  pub indexer_enabled : Option String
  pub indexer_batch_size : Option String
  pub v3_position_manager_address : Option String
  pub v3_indexed_pool_addresses : Option String
  pub v4_pool_manager_address : Option String

pub record IndexerChainConfig : Type 0 where
  pub chain_id : ℕ
  pub rpc_url : String
  pub batch_size : Option ℕ
  pub v3_position_manager : Option String
  -- `contracts.v3Pools ?? []`
  pub v3_pools : List String
  pub v4_pool_manager : Option String
  pub genesis_block : Option ℕ

abbrev address_of : Option String → Option String
address_of none = none
address_of (some raw) = if is_hex_address raw then some raw else none

abbrev is_present : Option String → Bool
is_present none = false
is_present (some _) = true

abbrev is_empty : List String → Bool
is_empty [] = true
is_empty (_ ∷ _) = false

abbrev text_or_empty : Option String → String
text_or_empty none = ""
text_or_empty (some s) = s

abbrev text_or_none : Option String → Option String
text_or_none none = none
text_or_none (some String.[]) = none
text_or_none (some s) = some s

module _ (texts : Texts) where
  unfoldable pub is_indexer_enabled : IndexerEnvConfig → Bool
  is_indexer_enabled env = elim env.indexer_enabled [
    | none ↦ false
    | some raw ↦ str_eq (texts.to_lower (texts.trim raw)) "true"
  ]

  unfoldable pub parse_batch_size : Option String → Option ℕ
  parse_batch_size none = none
  parse_batch_size (some value) =
      let trimmed = texts.trim value in
      if not (is_positive_decimal trimmed)
      then none
      else if leb (decimal_value trimmed) max_safe_integer
      then some (decimal_value trimmed)
      else none

  -- The addresses of the three sources; `none` where there is none at all.
  abbrev with_contracts :
      ℕ
      → String
      → Option ℕ
      → Option String
      → List String
      → Option String
      → Option IndexerChainConfig
  with_contracts chain_id rpc_url batch manager pools v4_manager =
      if not (is_present manager) && is_empty pools && not (is_present v4_manager)
      then none
      else some (record {
        chain_id = chain_id;
        rpc_url = rpc_url;
        batch_size = batch;
        v3_position_manager = manager;
        v3_pools = pools;
        v4_pool_manager = v4_manager;
        genesis_block = none;
      })

  unfoldable pub build_indexer_chain_config : IndexerEnvConfig → Option IndexerChainConfig
  build_indexer_chain_config env = do
    chain_id ← parse_chain_id env.chain_id
    rpc_url ← text_or_none env.rpc_url
    with_contracts chain_id rpc_url (parse_batch_size env.indexer_batch_size)
        (address_of env.v3_position_manager_address)
        (filter is_hex_address
          (map texts.trim (texts.split_commas (text_or_empty env.v3_indexed_pool_addresses))))
        (address_of env.v4_pool_manager_address)
