-- ===== src/Network/Router.antt =====
-- internal/network/message_router.go: the route of a request by its size and by the peer's connections.
-- The send itself is libp2p's and a parameter; what isDirect answers at each look is given as a list,
-- which ends when the wait times out.
use knowledge_mesh.Base.{
  if◌then◌else◌, length, select, any, ℕ, ◌+◌, ◌*◌, ◌%◌, ◌^◌, ◌≡◌, refl, Bool, true, false, not,
  ◌&&◌, ◌||◌, Option, none, some, List, [], ◌∷◌, arith,
}
use knowledge_mesh.Base.Int.{ℤ, pos, ltb_ℤ}
use knowledge_mesh.Network.Connections.{ConnType, conn_direct, conn_relay}

pub record MessageRouterConfig : Type 0 where
  pub large_message_threshold_bytes : ℤ
  pub direct_wait_timeout : ℤ

abbrev pub default_threshold : ℤ
default_threshold = pos (3200 * 1024)

-- In nanoseconds.
abbrev pub default_wait : ℤ
default_wait = pos 3000000000

unfoldable pub normalize_message_router_config : MessageRouterConfig → MessageRouterConfig
normalize_message_router_config cfg = record {
  large_message_threshold_bytes =
      if ltb_ℤ (pos 0) cfg.large_message_threshold_bytes
      then cfg.large_message_threshold_bytes
      else default_threshold;
  direct_wait_timeout =
      if ltb_ℤ (pos 0) cfg.direct_wait_timeout then cfg.direct_wait_timeout else default_wait;
}

-- The counters are 64-bit words.
pub record MessageRouterMetrics : Type 0 where
  pub total_sent : ℕ
  pub direct_sent : ℕ
  pub relay_sent : ℕ

abbrev pub next_word : ℕ → ℕ
next_word n = (n + 1) % 2 ^ 64

-- recordRoute, less the log and the shared observer. `none` is a route of another name.
unfoldable pub record_route : Option ConnType → MessageRouterMetrics → MessageRouterMetrics
record_route none m = record m { total_sent = next_word m.total_sent }
record_route (some conn_direct) m = record m {
  total_sent = next_word m.total_sent;
  direct_sent = next_word m.direct_sent;
}
record_route (some conn_relay) m = record m {
  total_sent = next_word m.total_sent;
  relay_sent = next_word m.relay_sent;
}

-- Which dial the request is sent with, and whether hole punching was triggered before.
pub record Plan : Type 0 where
  pub force_direct : Bool
  pub punches : Bool

-- The waiting loop: it sends directly at the first look that finds a direct path, and on any path when
-- the wait is over.
unfoldable pub wait_for_direct : List Bool → Bool
wait_for_direct [] = false
wait_for_direct (direct ∷ looks) =
    let later = wait_for_direct looks in if direct then true else later

-- The route that SendRequest takes for a request of a size: `first` is the answer of isDirect before the
-- wait, `has_puncher` whether there is a hole-punch manager.
unfoldable pub plan_request : MessageRouterConfig → ℕ → Bool → Bool → List Bool → Plan
unfolding wait_for_direct
plan_request cfg size has_puncher first looks =
    if ltb_ℤ (pos size) cfg.large_message_threshold_bytes
    then record { force_direct = first; punches = false }
    else if first
    then record { force_direct = true; punches = false }
    else record { force_direct = wait_for_direct looks; punches = has_puncher }

module _ {R : Type 0} (send : Bool → R × Option ConnType) where
  -- SendRequest: one send, whose route is recorded.
  unfoldable pub send_request :
      MessageRouterConfig
      → ℕ
      → Bool
      → Bool
      → List Bool
      → MessageRouterMetrics
      → R × MessageRouterMetrics
  unfolding plan_request record_route
  send_request cfg size has_puncher first looks m =
      let (reply, route) = send ((plan_request cfg size has_puncher first looks).force_direct) in
      (reply, record_route route m)

-- A path is direct at some look.
abbrev pub seen_direct : List Bool → Bool
seen_direct looks = any (λ (direct : Bool). direct) looks

wait_for_direct-eq-seen_direct : (looks : List Bool) → wait_for_direct looks ≡ seen_direct looks
unfolding wait_for_direct
wait_for_direct-eq-seen_direct [] = refl
wait_for_direct-eq-seen_direct (direct ∷ looks) =
    ground (arith, wait_for_direct-eq-seen_direct looks)

-- A request is sent with a forced direct dial exactly when a direct path is
-- found at the first look, or the request is large and one is found while it waits; hole punching is
-- triggered exactly when there is a manager for it, the request is large, and the first look finds none.
plan_request_lem :
    (cfg : MessageRouterConfig) (size : ℕ) (has_puncher first : Bool) (looks : List Bool)
    → let large = not (ltb_ℤ (pos size) cfg.large_message_threshold_bytes) in
      let plan = plan_request cfg size has_puncher first looks in
      (plan.force_direct ≡ (first || large && seen_direct looks))
      × (plan.punches ≡ (has_puncher && large && not first))
unfolding plan_request
plan_request_lem cfg size has_puncher first looks =
    ground (arith, wait_for_direct-eq-seen_direct looks)

-- The counters after some routes, as numbers that do not wrap.
abbrev pub count_routes : (Option ConnType → Bool) → List (Option ConnType) → ℕ
count_routes test routes = length (select test routes)

abbrev pub is_route : ConnType → Option ConnType → Bool
is_route conn_direct (some conn_direct) = true
is_route conn_relay (some conn_relay) = true
is_route _ _ = false

abbrev pub record_routes : List (Option ConnType) → MessageRouterMetrics → MessageRouterMetrics
record_routes [] m = m
record_routes (route ∷ rest) m = record_routes rest (record_route route m)

-- Recording routes one after another adds their number to the total, the number of direct ones to the
-- direct counter and that of relayed ones to the relay counter, each modulo 2 ^ 64.
pub record_routes_lem :
    (routes : List (Option ConnType)) (m : MessageRouterMetrics)
    → let after = record_routes routes m in
      (after.total_sent % 2 ^ 64 ≡ (m.total_sent + length routes) % 2 ^ 64)
      × (after.direct_sent % 2 ^ 64
          ≡ (m.direct_sent + count_routes (is_route conn_direct) routes) % 2 ^ 64)
      × (after.relay_sent % 2 ^ 64
          ≡ (m.relay_sent + count_routes (is_route conn_relay) routes) % 2 ^ 64)
unfolding record_route
record_routes_lem [] m = (omega arith, omega arith, omega arith)
record_routes_lem (none ∷ rest) m =
    let (t, d, r) = record_routes_lem rest (record_route none m) in
    (omega (arith, t), omega (arith, d), omega (arith, r))
record_routes_lem (some conn_direct ∷ rest) m =
    let (t, d, r) = record_routes_lem rest (record_route (some conn_direct) m) in
    (omega (arith, t), omega (arith, d), omega (arith, r))
record_routes_lem (some conn_relay ∷ rest) m =
    let (t, d, r) = record_routes_lem rest (record_route (some conn_relay) m) in
    (omega (arith, t), omega (arith, d), omega (arith, r))
