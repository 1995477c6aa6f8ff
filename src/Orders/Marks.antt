-- ===== src/Orders/Marks.antt =====
-- Which rows the queue's handler marks executed, on the store as it is when it writes.
use aether_dex.Prelude.{
  ℕ, ◌≡◌, refl, arith, Bool, true, false, some, String, ◌⊎◌, inl, inr, if◌then◌else◌,
}
use aether_dex.Prelude.Table.{Grows, Grows-update_where, Grows-refl}
use aether_dex.Orders.{TpSlOrder, OrderStatus, OrderStore, is_open}
use aether_dex.Orders.Evaluate.{TpSlEvaluateMessage, Clock, Stop, Plan, has_key, commit}

module _ (msg : TpSlEvaluateMessage) (Backs : String → Type 0) where
  -- A row that is executed now and was not is the pending one of the message, holds a hash, and the
  -- hash is backed.
  pub record IsMarked (old new : TpSlOrder) : Type 0 where
    pub hash : String
    pub written : new.execution_tx_hash ≡ some hash
    pub id : old.id ≡ msg.order_id
    pub chain : old.chain_id ≡ msg.chain_id
    pub pending : old.status ≡ OrderStatus.pending
    pub backed : Backs hash

  abbrev pub MarksBacked : TpSlOrder → TpSlOrder → Type 0
  MarksBacked old new =
      new.status ≡ OrderStatus.executed → (old.status ≡ OrderStatus.executed) ⊎ IsMarked old new

  unexecuted :
      (b : Bool) (old new : TpSlOrder)
      → (new.status ≡ OrderStatus.executed → old.status ≡ OrderStatus.executed)
      → MarksBacked old (if b then new else old)
  unexecuted true old new h e = inl (h e)
  unexecuted false old new h e = inl e

  executed :
      (b : Bool) (old : TpSlOrder) (hash : String) (now : ℕ)
      → is_open msg.order_id msg.chain_id old ≡ b
      → Backs hash
      → MarksBacked old (
          if b
          then record old {
            status = OrderStatus.executed;
            execution_tx_hash = some hash;
            executed_at = some now;
            updated_at = some now;
          }
          else old)
  executed false old hash now same backed e = inl e
  executed true old hash now same backed e = inr (record {
    hash = hash;
    written = refl;
    id = ground arith;
    chain = ground arith;
    pending = ground arith;
    backed = backed;
  })

  -- Where the hash of a confirming plan is backed, no write of the plan marks any other row.
  pub commit-MarksBacked :
      (down : Bool) (clock : Clock) (plan : Plan) (s : OrderStore)
      → ((hash : String) → plan ≡ Plan.confirmed hash → Backs hash)
      → Grows MarksBacked s.orders (commit down clock msg plan s).orders
  unfolding commit
  commit-MarksBacked true clock plan s backed = Grows-refl MarksBacked s.orders (λ o e. inl e)
  commit-MarksBacked false clock (Plan.stop Stop.skip) s backed =
      Grows-refl MarksBacked s.orders (λ o e. inl e)
  commit-MarksBacked false clock (Plan.stop Stop.retry) s backed =
      Grows-refl MarksBacked s.orders (λ o e. inl e)
  commit-MarksBacked false clock (Plan.stop Stop.expire) s backed =
      Grows-update_where MarksBacked (has_key msg) _ s.orders
        (λ o. unexecuted (has_key msg o) o _ (λ e. cc))
  commit-MarksBacked false clock (Plan.unconfirmed hash) s backed =
      Grows-update_where MarksBacked (is_open msg.order_id msg.chain_id) _ s.orders
        (λ o. unexecuted (is_open msg.order_id msg.chain_id o) o _ (λ e. e))
  commit-MarksBacked false clock (Plan.confirmed hash) s backed =
      Grows-update_where MarksBacked (is_open msg.order_id msg.chain_id) _ s.orders (λ o.
        executed (is_open msg.order_id msg.chain_id o) o hash clock.at_write refl
          (backed hash refl))
