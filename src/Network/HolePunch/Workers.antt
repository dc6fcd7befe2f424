-- ===== src/Network/HolePunch/Workers.antt =====
-- internal/network/holepunch_manager.go and relay_upgrade.go: the steps of the manager and its goroutines.
-- What a turn of runPeer does when its timer has fired.
use knowledge_mesh.Base.{
  nat_beq, if◌then◌else◌, any, find, ℕ, Bool, true, false, not, ◌&&◌, ◌||◌, Option, none, some,
  List, [], ◌∷◌, ◌++◌,
}
use knowledge_mesh.Base.Assoc.{get, remove}
use knowledge_mesh.Base.Int.{ℤ, ◌-ℤ◌, ltb_ℤ}
use knowledge_mesh.Base.Text.{Text, text_beq}
use knowledge_mesh.Control.Matching.{present}
use knowledge_mesh.Network.Connections.{Conn}
use knowledge_mesh.Network.HolePunch.{
  has_connection, has_direct_connection, has_relay_connection, relay_only_to_peer, Phase, waiting,
  dialling, returned, ended, PeerWorker, by_worker, by_worker_detected, by_message_router,
  HolePunchManager, new_hole_punch_manager, is_number, change_worker, start_peer_locked, bump_clear,
  bump_restart, connected, disconnected, close, next_count, succeeded, failed,
}
use knowledge_mesh.Network.HolePunch.Config.{HolePunchManagerConfig}

pub data Verdict : Type 0 where
  stop stop_and_prune wait dial : Verdict

module _ (cfg : HolePunchManagerConfig) where
  -- The zero time of the first turn lies far in the past.
  abbrev gap_left : ℤ → Option ℤ → Bool
  gap_left now none = false
  gap_left now (some last) = ltb_ℤ (now -ℤ last) cfg.min_gap_between_attempts

  unfoldable pub turn : List Conn → ℤ → PeerWorker → Verdict
  turn conns now w =
      if not (has_connection w.peer conns)
      then stop
      else if has_direct_connection w.peer conns
      then (if has_relay_connection w.peer conns then stop_and_prune else stop)
      else if not (relay_only_to_peer w.peer conns)
      then stop
      else if gap_left now w.last_attempt
      then wait
      else dial

abbrev pub find_worker : ℕ → List PeerWorker → Option PeerWorker
find_worker i ws = find (is_number i) ws

abbrev pub at_phase : Phase → PeerWorker → PeerWorker
at_phase phase w = record w { phase = phase }

abbrev pub moved_to : ℕ → Phase → HolePunchManager → HolePunchManager
moved_to i phase m = record m { workers = change_worker i (at_phase phase) m.workers }

abbrev pub add_prune : Text → HolePunchManager → HolePunchManager
add_prune peer m = record m { prunes = m.prunes ++ (peer ∷ []) }

unfoldable pub act_on : ℤ → PeerWorker → Verdict → HolePunchManager → HolePunchManager
act_on now w stop m = moved_to w.number returned m
act_on now w stop_and_prune m = add_prune w.peer (moved_to w.number returned m)
act_on now w wait m = m
act_on now w dial m = record m {
  attempts = next_count m.attempts;
  workers =
      change_worker w.number
        (λ (v : PeerWorker). record v { last_attempt = some now; phase = dialling }) m.workers;
}

-- The return of DirectConnect, with its error, and a look at the connections then.
unfoldable pub dialled : List Conn → Option Text → PeerWorker → HolePunchManager → HolePunchManager
dialled conns none w m = succeeded w.peer by_worker (moved_to w.number returned m)
dialled conns (some error) w m =
    if has_direct_connection w.peer conns
    then succeeded w.peer by_worker_detected (moved_to w.number returned m)
    else failed w.peer error by_worker (moved_to w.number waiting m)

abbrev pub is_entry : Option ℕ → ℕ → Bool
is_entry none i = false
is_entry (some j) i = nat_beq j i

-- The deferred function: the map is cleaned only of this worker.
unfoldable pub cleaned : PeerWorker → HolePunchManager → HolePunchManager
cleaned w m =
    let ended_m = moved_to w.number ended m in
    if is_entry (get m.peers w.peer) w.number
    then record ended_m { peers = remove m.peers w.peer }
    else ended_m

-- One turn of the loop of runOpportunisticSweep, for a connected peer. The sweep may have begun before the
-- manager was closed.
unfoldable pub sweep_peer : List Conn → Text → HolePunchManager → HolePunchManager
sweep_peer conns peer m =
    if not m.started
    then m
    else if has_direct_connection peer conns && has_relay_connection peer conns
    then add_prune peer m
    else if relay_only_to_peer peer conns && not (present (get m.peers peer))
    then start_peer_locked conns peer m
    else m

-- upgradeNotifee.Connected
unfoldable pub upgrade_connected : List Conn → Text → HolePunchManager → HolePunchManager
upgrade_connected conns peer m =
    if has_direct_connection peer conns && has_relay_connection peer conns
    then add_prune peer m
    else m

-- What happens next: a call from outside, or a step of the goroutine with the number.
pub data Event : Type 0 where
  on_start on_bump_clear on_close on_root_done : Event
  on_bump_restart : List Conn → List Text → Event
  on_connected on_sweep on_upgrade : List Conn → Text → Event
  on_disconnected on_trigger : Text → Event
  on_triggered : Text → Option Text → Event
  on_cancelled on_cleaned : ℕ → Event
  on_timer : List Conn → ℤ → ℕ → Event
  on_dialled : List Conn → Option Text → ℕ → Event

abbrev drop_first : Text → List Text → List Text
drop_first peer [] = []
drop_first peer (p ∷ rest) =
    let others = drop_first peer rest in if text_beq p peer then rest else p ∷ others

abbrev pub same_phase : Phase → Phase → Bool
same_phase waiting waiting = true
same_phase dialling dialling = true
same_phase returned returned = true
same_phase ended ended = true
same_phase _ _ = false

-- A step of a goroutine, if it stands there.
abbrev pub if_at :
    Phase
    → (PeerWorker → HolePunchManager → HolePunchManager)
    → HolePunchManager
    → Option PeerWorker
    → HolePunchManager
if_at phase act m none = m
if_at phase act m (some w) = if same_phase w.phase phase then act w m else m

abbrev pub when_at :
    ℕ
    → Phase
    → (PeerWorker → HolePunchManager → HolePunchManager)
    → HolePunchManager
    → HolePunchManager
when_at i phase act m = if_at phase act m (find_worker i m.workers)

abbrev pub if_cancelled : PeerWorker → HolePunchManager → HolePunchManager
if_cancelled w m = if w.cancelled || m.root_done then moved_to w.number returned m else m

-- TriggerDirectConnect, and the end of its goroutine
unfoldable pub trigger_direct_connect : Text → HolePunchManager → HolePunchManager
trigger_direct_connect peer m = record m {
  attempts = next_count m.attempts;
  triggers = peer ∷ m.triggers;
}

unfoldable pub triggered : Text → Option Text → HolePunchManager → HolePunchManager
triggered peer none m =
    succeeded peer by_message_router (record m { triggers = drop_first peer m.triggers })
triggered peer (some error) m =
    failed peer error by_message_router (record m { triggers = drop_first peer m.triggers })

module _ (cfg : HolePunchManagerConfig) where
  unfoldable pub step : Event → HolePunchManager → HolePunchManager
  unfolding turn
  step on_start m = record m { started = true }
  step on_bump_clear m = bump_clear m
  step on_close m = close m
  step on_root_done m = record m { root_done = true }
  step (on_bump_restart conns connected_peers) m = bump_restart conns connected_peers m
  step (on_connected conns peer) m = connected conns peer m
  step (on_sweep conns peer) m = sweep_peer conns peer m
  step (on_upgrade conns peer) m = upgrade_connected conns peer m
  step (on_disconnected peer) m = disconnected peer m
  step (on_trigger peer) m = trigger_direct_connect peer m
  step (on_triggered peer error) m =
      if any (λ p. text_beq p peer) m.triggers then triggered peer error m else m
  step (on_cancelled i) m = when_at i waiting if_cancelled m
  step (on_cleaned i) m = when_at i returned cleaned m
  step (on_timer conns now i) m = when_at i waiting (λ w. act_on now w (turn cfg conns now w)) m
  step (on_dialled conns error i) m = when_at i dialling (dialled conns error) m

  -- The states that a sequence of events leads to from a new manager.
  pub data Reachable : HolePunchManager → Type 0 where
    initially : Reachable new_hole_punch_manager
    after_event : {m : HolePunchManager} (e : Event) → Reachable m → Reachable (step e m)
