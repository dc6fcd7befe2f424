-- ===== src/Network/Examples.antt =====
-- A peer with two connections, for the theorems on the network.
use knowledge_mesh.Base.{
  ◌≡◌, true, false, some, List, [], ◌∷◌, All, Member, select, ◌-◌, refl, ◌⊎◌, inl, none, arith,
}
use knowledge_mesh.Base.Assoc.{get, put}
use knowledge_mesh.Base.Int.{pos, ◌≤ℤ◌}
use knowledge_mesh.Base.Text.{Text, codes, text_beq}
use knowledge_mesh.Network.Connections.{Conn, Tracker, all_relayed}
use knowledge_mesh.Network.HolePunch.{
  has_direct_connection, relay_only_to_peer, waiting, PeerWorker, HolePunchManager,
  new_hole_punch_manager, start_peer_locked, connected,
}
use knowledge_mesh.Network.HolePunch.Config.{
  HolePunchManagerConfig, normalize_hole_punch_config, jitter_duration, jitter_duration_bounds,
}
use knowledge_mesh.Network.HolePunch.Relay.{prune_relays, not_pruned, prune_relays_lem}
use knowledge_mesh.Network.HolePunch.Retry.{Idle, connects_again, swept_again, run_events}
use knowledge_mesh.Network.HolePunch.Safety.{Reachable-IsSound}
use knowledge_mesh.Network.HolePunch.Sound.{IsSound}
use knowledge_mesh.Network.HolePunch.Stranded.{
  HasEnded, timer_and_clean-HasEnded, disconnected_strands,
}
use knowledge_mesh.Network.HolePunch.Workers.{
  find_worker, on_start, on_connected, on_sweep, on_disconnected, on_cleaned, on_timer, step,
  Reachable, initially, after_event, Event, on_cancelled,
}

abbrev peer_1 : Text
peer_1 = codes "p1"

abbrev two_conns : List Conn
two_conns =
    record { remote_peer = peer_1; relayed = true }
    ∷ record { remote_peer = peer_1; relayed = false }
    ∷ []

abbrev no_tags : Tracker
no_tags = record { tags = []; direct_tags = []; relay_tags = [] }

abbrev no_settings : HolePunchManagerConfig
no_settings = record {
  retry_interval_min = pos 0;
  retry_interval_max = pos 7000000000;
  min_gap_between_attempts = pos 0;
  opportunistic_sweep_interval = pos 0;
  relay_close_delay = pos 0;
}

jitter_duration_bounds_example :
    let cfg = normalize_hole_punch_config no_settings in
    let d = jitter_duration (λ n. n - 1) cfg.retry_interval_min cfg.retry_interval_max in
    (pos 1 ≤ℤ d) × (cfg.retry_interval_min ≤ℤ d) × (d ≤ℤ cfg.retry_interval_max)
jitter_duration_bounds_example =
    jitter_duration_bounds (λ n. n - 1) no_settings (λ n h. omega arith) (omega arith) (omega arith)

abbrev two_relays : List Conn
two_relays =
    record { remote_peer = codes "p"; relayed = true }
    ∷ record { remote_peer = codes "p"; relayed = true }
    ∷ []

abbrev mixed : List Conn
mixed = record { remote_peer = codes "p"; relayed = false } ∷ two_relays

prune_relays_lem_example :
    (select (not_pruned (codes "p")) (prune_relays (λ c. true) (codes "p") mixed)
      ≡ select (not_pruned (codes "p")) mixed)
    × (has_direct_connection (codes "p") (prune_relays (λ c. true) (codes "p") mixed)
        ≡ has_direct_connection (codes "p") mixed)
    × ((prune_relays (λ c. true) (codes "p") mixed ≡ mixed)
        ⊎ (has_direct_connection (codes "p") (prune_relays (λ c. true) (codes "p") mixed) ≡ true))
prune_relays_lem_example = prune_relays_lem (λ c. true) (codes "p") mixed

abbrev working : HolePunchManager
working =
    step no_settings (on_connected two_relays (codes "p"))
      (step no_settings on_start new_hole_punch_manager)

working-Reachable : Reachable no_settings working
working-Reachable =
    after_event (on_connected two_relays (codes "p")) (after_event on_start initially)

abbrev worker_p : PeerWorker
worker_p = record {
  number = 0;
  peer = codes "p";
  cancelled = false;
  last_attempt = none;
  phase = waiting;
}

working_now : (working.workers ≡ worker_p ∷ []) × (get working.peers (codes "p") ≡ some 0)
unfolding step connected start_peer_locked relay_only_to_peer all_relayed new_hole_punch_manager
    text_beq get put
working_now = (refl, refl)

worker_listed : Member worker_p working.workers
worker_listed = rw (working_now.0) (inl refl)

Reachable-IsSound_example : IsSound working
Reachable-IsSound_example = Reachable-IsSound no_settings working-Reachable

worker_there : find_worker 0 working.workers ≡ some worker_p
worker_there = rw (working_now.0) refl

not_relay_only : relay_only_to_peer (codes "p") mixed ≡ false
unfolding relay_only_to_peer all_relayed text_beq
not_relay_only = refl

timer_and_clean-HasEnded_example :
    HasEnded worker_p
      (step no_settings (on_cleaned 0) (step no_settings (on_timer mixed (pos 9) 0) working))
timer_and_clean-HasEnded_example =
    timer_and_clean-HasEnded no_settings mixed (pos 9) worker_p working worker_there refl
      not_relay_only

abbrev retried : List Event
retried = on_connected two_relays (codes "p") ∷ on_sweep two_relays (codes "p") ∷ []

abbrev lost : HolePunchManager
lost = run_events no_settings retried (step no_settings (on_disconnected (codes "p")) working)

disconnected_strands_example :
    All (Idle (codes "p")) lost.workers
    × All
        (Idle (codes "p"))
        (step no_settings (on_cleaned 0) (step no_settings (on_cancelled 0) lost)).workers
disconnected_strands_example =
    disconnected_strands no_settings (codes "p") 0 retried working
      (Reachable-IsSound no_settings working-Reachable) working_now.1
      (connects_again two_relays, (swept_again two_relays, tt))
