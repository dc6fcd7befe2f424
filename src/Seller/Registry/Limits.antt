-- ===== src/Seller/Registry/Limits.antt =====
-- internal/seller/auth_registry.go: when a seller's tokens are counted.
use knowledge_mesh.Base.{ℕ, ◌≡◌, Bool, true, false, arith, not}
use knowledge_mesh.Base.Int.{ℤ}
use knowledge_mesh.Base.Result.{ok, ◌>>◌, refuse_if, ok_injective, bind-ok}
use knowledge_mesh.Buyer.Limits.{WithinLimits, not_exceeds}
use knowledge_mesh.Buyer.Manager.{reset_if_bucket_changed, exceeds, count_request}
use knowledge_mesh.Seller.Registry.{
  seller_off_duty, over_hourly_limit, over_daily_limit, over_total_limit, refuse_tokens,
  consume_tokens,
}
use knowledge_mesh.Types.{SellerNode}
use mathlib.Core.Path.{subst}

allowed :
    (off a b c : Bool) (u : Unit {0})
    → (refuse_if off seller_off_duty
        >> refuse_if a over_hourly_limit
        >> refuse_if b over_daily_limit
        >> refuse_if c over_total_limit)
      ≡ ok u
    → (off ≡ false) × (a ≡ false) × (b ≡ false) × (c ≡ false)
allowed off a b c u h = ground (arith, h)

module _ {F : Type 0} where
  -- When the tokens of a request are counted for a node, the node is on duty, and each of its counters is
  -- then at most its limit, or that limit is not positive.
  pub consume_tokens-WithinLimits :
      (tokens : ℤ) (now : ℕ) (node : SellerNode F) {node' : SellerNode F}
      → consume_tokens tokens now node ≡ ok node'
      → (node.on_duty ≡ true) × WithinLimits node'.token_limits node'.usage
  unfolding consume_tokens refuse_tokens count_request
  consume_tokens-WithinLimits tokens now node {node'} h =
      let usage = reset_if_bucket_changed node.usage now in
      let limits = node.token_limits in
      let counted : SellerNode F = record node { usage = count_request usage tokens } in
      let (u, e, h1) = bind-ok (refuse_tokens tokens now node) (λ (_ : Unit {0}). ok counted) h in
      let (on, a, b, c) =
        allowed (not node.on_duty) (exceeds limits.hourly_tokens usage.hourly_tokens tokens)
          (exceeds limits.daily_tokens usage.daily_tokens tokens)
          (exceeds limits.total_tokens usage.total_tokens tokens) u e in
      let kept : WithinLimits counted.token_limits counted.usage = record {
        hourly = not_exceeds limits.hourly_tokens usage.hourly_tokens tokens a;
        daily = not_exceeds limits.daily_tokens usage.daily_tokens tokens b;
        total = not_exceeds limits.total_tokens usage.total_tokens tokens c;
      } in
      (
        ground (arith, on),
        subst (λ (n : SellerNode F). WithinLimits n.token_limits n.usage) (ok_injective h1) kept,
      )
