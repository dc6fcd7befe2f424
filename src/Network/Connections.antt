-- ===== src/Network/Connections.antt =====
-- internal/network/connection_type.go: direct and relayed peers. libp2p's open connections are given as
-- a list; of a connection only its peer and whether its address is a relay's (P_CIRCUIT) is read.
use knowledge_mesh.Base.{
  if◌then◌else◌, select, any, ℕ, ◌≡◌, Bool, true, false, not, Option, none, some, List, [], ◌∷◌,
}
use knowledge_mesh.Base.Assoc.{Assoc, get, put, remove}
use knowledge_mesh.Base.Text.{Text, text_beq}

pub record Conn : Type 0 where
  pub remote_peer : Text
  pub relayed : Bool

-- ConnsToPeer
abbrev pub conns_to_peer : Text → List Conn → List Conn
conns_to_peer peer conns = select (λ (c : Conn). text_beq c.remote_peer peer) conns

unfoldable pub is_direct_connection : Text → List Conn → Bool
is_direct_connection peer conns = any (λ (c : Conn). not c.relayed) (conns_to_peer peer conns)

-- The loop of IsRelayConnection.
unfoldable pub all_relayed : List Conn → Bool
all_relayed [] = true
all_relayed (c ∷ rest) = let others = all_relayed rest in if not c.relayed then false else others

abbrev pub no_conns : List Conn → Bool
no_conns [] = true
no_conns (c ∷ rest) = false

unfoldable pub is_relay_connection : Text → List Conn → Bool
unfolding all_relayed
is_relay_connection peer conns =
    let own = conns_to_peer peer conns in if no_conns own then false else all_relayed own

pub data ConnType : Type 0 where
  conn_direct conn_relay : ConnType

-- `none` is the empty text.
unfoldable pub classify : Text → List Conn → Option ConnType
unfolding is_direct_connection is_relay_connection
classify peer conns =
    if is_direct_connection peer conns
    then some conn_direct
    else if is_relay_connection peer conns
    then some conn_relay
    else none

-- The tags of the tracker, and those of libp2p's connection manager: 100 for a direct peer, 50 for a
-- relayed one.
pub record Tracker : Type 0 where
  pub tags : Assoc ConnType
  pub direct_tags : Assoc ℕ
  pub relay_tags : Assoc ℕ

abbrev pub tag_as : Text → Option ConnType → Tracker → Tracker
tag_as peer none t = record {
  tags = remove t.tags peer;
  direct_tags = remove t.direct_tags peer;
  relay_tags = remove t.relay_tags peer;
}
tag_as peer (some conn_direct) t = record {
  tags = put t.tags peer conn_direct;
  direct_tags = put (remove t.direct_tags peer) peer 100;
  relay_tags = remove t.relay_tags peer;
}
tag_as peer (some conn_relay) t = record {
  tags = put t.tags peer conn_relay;
  direct_tags = remove t.direct_tags peer;
  relay_tags = put (remove t.relay_tags peer) peer 50;
}

-- updateTag, less the metrics. Connected and Disconnected call it for the peer of the connection.
unfoldable pub update_tag : Text → List Conn → Tracker → Tracker
unfolding classify
update_tag peer conns t = tag_as peer (classify peer conns) t

-- The loop of HandleNetworkChange over the connected peers.
unfoldable pub handle_network_change : List Text → List Conn → Tracker → Tracker
unfolding update_tag
handle_network_change [] conns t = t
handle_network_change (peer ∷ rest) conns t =
    handle_network_change rest conns (update_tag peer conns t)

-- What the tags say of a peer is what its connections are.
pub record Agrees (peer : Text) (conns : List Conn) (t : Tracker) : Type 0 where
  pub tag : get t.tags peer ≡ classify peer conns
  pub direct_tag :
      get t.direct_tags peer ≡ (if is_direct_connection peer conns then some 100 else none)
  pub relay_tag : get t.relay_tags peer ≡ (if is_relay_connection peer conns then some 50 else none)

abbrev direct_weight : Option ConnType → Option ℕ
direct_weight (some conn_direct) = some 100
direct_weight _ = none

abbrev relay_weight : Option ConnType → Option ℕ
relay_weight (some conn_relay) = some 50
relay_weight _ = none
