-- ===== src/Network/HolePunch.antt =====
-- internal/network/holepunch_manager.go and relay_upgrade.go: the workers that dial relayed peers directly.
-- A goroutine is a value; what is done under the manager's lock, or between two waits of a goroutine, is
-- one step. Connections, times and the results of DirectConnect come from libp2p and are given to a step.
pub mod Config
pub mod Relay
pub mod Kept
pub mod Workers
pub mod Sound
pub mod Turns
pub mod Safety
pub mod Retry
pub mod Stranded
use knowledge_mesh.Base.{
  nat_beq, if◌then◌else◌, length, any, ℕ, ◌+◌, ◌%◌, ◌^◌, Bool, true, false, not, ◌||◌, Option, none,
  some, List, [], ◌∷◌, ◌++◌, map,
}
use knowledge_mesh.Base.Assoc.{Assoc, get, put}
use knowledge_mesh.Base.Int.{ℤ}
use knowledge_mesh.Base.Text.{Text}
use knowledge_mesh.Control.Matching.{present}
use knowledge_mesh.Network.Connections.{Conn, conns_to_peer, all_relayed, no_conns}

abbrev pub has_connection : Text → List Conn → Bool
has_connection peer conns = not (no_conns (conns_to_peer peer conns))

abbrev pub has_direct_connection : Text → List Conn → Bool
has_direct_connection peer conns = any (λ (c : Conn). not c.relayed) (conns_to_peer peer conns)

abbrev pub has_relay_connection : Text → List Conn → Bool
has_relay_connection peer conns = any (λ (c : Conn). c.relayed) (conns_to_peer peer conns)

unfoldable pub relay_only_to_peer : Text → List Conn → Bool
unfolding all_relayed
relay_only_to_peer peer conns =
    let own = conns_to_peer peer conns in if no_conns own then false else all_relayed own

-- Where a goroutine of runPeer stands: before its select, in DirectConnect, after its return but before
-- the deferred function, or at its end.
pub data Phase : Type 0 where
  waiting dialling returned ended : Phase

-- `number` stands for the pointer of a peerWorker.
pub record PeerWorker : Type 0 where
  pub number : ℕ
  pub peer : Text
  pub cancelled : Bool
  pub last_attempt : Option ℤ
  pub phase : Phase

pub data Source : Type 0 where
  by_worker by_worker_detected by_message_router : Source

-- HolePunchResultInfo, less its time.
pub record HolePunchResultInfo : Type 0 where
  pub success : Bool
  pub error : Text
  pub source : Source

-- HolePunchManager with the goroutines that it has started: `triggers` are those of TriggerDirectConnect,
-- `prunes` those of scheduleRelayCloseAfterDirect. The counters are 64-bit words.
pub record HolePunchManager : Type 0 where
  pub started : Bool
  pub closed : Bool
  pub root_done : Bool
  pub peers : Assoc ℕ
  pub workers : List PeerWorker
  pub triggers : List Text
  pub prunes : List Text
  pub attempts : ℕ
  pub successes : ℕ
  pub last_results : Assoc HolePunchResultInfo

-- NewHolePunchManager
unfoldable pub new_hole_punch_manager : HolePunchManager
new_hole_punch_manager = record {
  started = false;
  closed = false;
  root_done = false;
  peers = [];
  workers = [];
  triggers = [];
  prunes = [];
  attempts = 0;
  successes = 0;
  last_results = [];
}

abbrev pub is_number : ℕ → PeerWorker → Bool
is_number i w = nat_beq w.number i

abbrev pub change_worker : ℕ → (PeerWorker → PeerWorker) → List PeerWorker → List PeerWorker
change_worker i change ws = map (λ (w : PeerWorker). if is_number i w then change w else w) ws

abbrev pub cancel : PeerWorker → PeerWorker
cancel w = record w { cancelled = true }

-- The goroutines after the cancel of every worker in the map.
unfoldable pub cancel_all : Assoc ℕ → List PeerWorker → List PeerWorker
cancel_all [] ws = ws
cancel_all ((p, i) ∷ rest) ws = cancel_all rest (change_worker i cancel ws)

-- startPeerLocked
unfoldable pub start_peer_locked : List Conn → Text → HolePunchManager → HolePunchManager
unfolding relay_only_to_peer
start_peer_locked conns peer m =
    if m.closed || present (get m.peers peer) || not (relay_only_to_peer peer conns)
    then m
    else record m {
      peers = put m.peers peer (length m.workers);
      workers =
          record {
            number = length m.workers;
            peer = peer;
            cancelled = false;
            last_attempt = none;
            phase = waiting;
          }
          ∷ m.workers;
    }

unfoldable pub start_peers : List Conn → List Text → HolePunchManager → HolePunchManager
unfolding start_peer_locked
start_peers conns [] m = m
start_peers conns (peer ∷ rest) m = start_peers conns rest (start_peer_locked conns peer m)

-- The two critical sections of bumpPeers: all workers are cancelled, then workers are started for the
-- peers that are connected. In between, others may take the lock.
unfoldable pub bump_clear : HolePunchManager → HolePunchManager
unfolding cancel_all
bump_clear m =
    if m.started then record m { peers = []; workers = cancel_all m.peers m.workers } else m

unfoldable pub bump_restart : List Conn → List Text → HolePunchManager → HolePunchManager
unfolding start_peers
bump_restart conns connected m = if m.started then start_peers conns connected m else m

-- The callbacks of netNotifee.
unfoldable pub connected : List Conn → Text → HolePunchManager → HolePunchManager
unfolding start_peer_locked
connected conns peer m = if m.started then start_peer_locked conns peer m else m

abbrev pub cancel_entry : Option ℕ → HolePunchManager → HolePunchManager
cancel_entry none m = m
cancel_entry (some i) m = record m { workers = change_worker i cancel m.workers }

unfoldable pub disconnected : Text → HolePunchManager → HolePunchManager
disconnected peer m = cancel_entry (get m.peers peer) m

-- Close, whose body runs once.
unfoldable pub close : HolePunchManager → HolePunchManager
unfolding cancel_all
close m =
    if m.closed
    then m
    else record m { closed = true; peers = []; workers = cancel_all m.peers m.workers }

abbrev pub next_count : ℕ → ℕ
next_count n = (n + 1) % 2 ^ 64

-- recordHolePunchResult
abbrev pub record_result : Text → HolePunchResultInfo → HolePunchManager → HolePunchManager
record_result peer info m = record m { last_results = put m.last_results peer info }

abbrev pub succeeded : Text → Source → HolePunchManager → HolePunchManager
succeeded peer source m =
    record_result peer (record { success = true; error = []; source = source })
      (record m { successes = next_count m.successes; prunes = m.prunes ++ (peer ∷ []) })

abbrev pub failed : Text → Text → Source → HolePunchManager → HolePunchManager
failed peer error source m =
    record_result peer (record { success = false; error = error; source = source }) m
