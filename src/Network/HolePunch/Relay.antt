-- ===== src/Network/HolePunch/Relay.antt =====
-- internal/network/relay_upgrade.go: relayed connections are closed once there is a direct one. Which
-- close succeeds is libp2p's and a parameter.
use knowledge_mesh.Base.{
  if◌then◌else◌, Bool-cases, length, select, any, ℕ, ◌+◌, ◌≡◌, refl, sym, ap, ◌∙◌, ◌⊎◌, inl, inr,
  Bool, true, not, ◌&&◌, List, [], ◌∷◌, arith,
}
use knowledge_mesh.Base.Text.{Text, text_beq}
use knowledge_mesh.Network.Connections.{Conn}
use knowledge_mesh.Network.HolePunch.{has_direct_connection, has_relay_connection}

abbrev is_direct_to : Text → Conn → Bool
is_direct_to peer c = text_beq c.remote_peer peer && not c.relayed

abbrev pub not_pruned : Text → Conn → Bool
not_pruned peer c = not (text_beq c.remote_peer peer && c.relayed)

direct_of_kept :
    (peer : Text) (xs ys : List Conn)
    → select (not_pruned peer) xs ≡ select (not_pruned peer) ys
    → has_direct_connection peer xs ≡ has_direct_connection peer ys
direct_of_kept peer xs ys e =
    direct_of_select xs ∙ (ap (any (is_direct_to peer)) e ∙ sym (direct_of_select ys))
  where
    direct_of_select :
        (zs : List Conn)
        → has_direct_connection peer zs ≡ any (is_direct_to peer) (select (not_pruned peer) zs)
    direct_of_select [] = refl
    direct_of_select (z ∷ zs) = ground (arith, direct_of_select zs)

module _ (closes : Conn → Bool) where
  -- closeRelayConnectionsToPeer: the number of those closed, and the connections that are left.
  unfoldable pub close_relay_connections : Text → List Conn → ℕ × List Conn
  close_relay_connections peer [] = (0, [])
  close_relay_connections peer (c ∷ rest) =
      let others = close_relay_connections peer rest in
      if text_beq c.remote_peer peer && c.relayed && closes c
      then (others.0 + 1, others.1)
      else (others.0, c ∷ others.1)

  -- The goroutine of scheduleRelayCloseAfterDirect, after its delay.
  unfoldable pub prune_relays : Text → List Conn → List Conn
  unfolding close_relay_connections
  prune_relays peer conns =
      if not (has_direct_connection peer conns)
      then conns
      else if not (has_relay_connection peer conns)
      then conns
      else (close_relay_connections peer conns).1

  close_relay_connections-kept :
      (peer : Text) (conns : List Conn)
      → (select (not_pruned peer) (close_relay_connections peer conns).1
          ≡ select (not_pruned peer) conns)
        × (length (close_relay_connections peer conns).1 + (close_relay_connections peer conns).0
            ≡ length conns)
  unfolding close_relay_connections
  close_relay_connections-kept peer [] = (refl, refl)
  close_relay_connections-kept peer (c ∷ rest) =
      let (kept, counted) = close_relay_connections-kept peer rest in (ground arith, ground arith)

  -- After a prune for a peer, the connections that are direct or to other peers are those before, in their
  -- order; the peer has a direct connection exactly if it had one; and if a connection is gone, it has one.
  pub prune_relays_lem :
      (peer : Text) (conns : List Conn)
      → (select (not_pruned peer) (prune_relays peer conns) ≡ select (not_pruned peer) conns)
        × (has_direct_connection peer (prune_relays peer conns) ≡ has_direct_connection peer conns)
        × ((prune_relays peer conns ≡ conns)
            ⊎ (has_direct_connection peer (prune_relays peer conns) ≡ true))
  unfolding prune_relays
  prune_relays_lem peer conns = elim (Bool-cases (has_direct_connection peer conns)) [
    | inr e ↦ rw e (refl, e, inl refl)
    | inl e ↦ elim (Bool-cases (has_relay_connection peer conns)) [
      | inr n ↦ rw (e, n) (refl, e, inl refl)
      | inl r ↦
          let (kept, counted) = close_relay_connections-kept peer conns in
          let direct : has_direct_connection peer (close_relay_connections peer conns).1 ≡ true =
            direct_of_kept peer (close_relay_connections peer conns).1 conns kept ∙ e in
          rw (e, r) (kept, direct, inr direct)
    ]
  ]
