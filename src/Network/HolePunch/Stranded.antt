-- ===== src/Network/HolePunch/Stranded.antt =====
-- internal/network/holepunch_manager.go: how a worker ends, and what follows when one of several relayed
-- connections is closed.
use knowledge_mesh.Base.{
  Bool-cases, ℕ, ◌≡◌, ap, ◌⊎◌, inl, inr, false, some, List, [], ◌∷◌, arith, refl, true, All,
  if◌then◌else◌, Bool, sym, ◌∙◌,
}
use knowledge_mesh.Base.Assoc.{get, get-remove}
use knowledge_mesh.Base.Int.{ℤ}
use knowledge_mesh.Base.Text.{text_beq_refl, Text}
use knowledge_mesh.Network.Connections.{Conn}
use knowledge_mesh.Network.HolePunch.{
  relay_only_to_peer, PeerWorker, is_number, change_worker, waiting, returned, ended,
  HolePunchManager, disconnected, cancel_entry, Phase,
}
use knowledge_mesh.Network.HolePunch.Config.{HolePunchManagerConfig}
use knowledge_mesh.Network.HolePunch.Retry.{
  cancelled-Idle, retries-Idle, cancelled_step-Idle, cleaned_step-Idle, Idle, IsRetry, run_events,
}
use knowledge_mesh.Network.HolePunch.Sound.{IsSound}
use knowledge_mesh.Network.HolePunch.Workers.{
  stop, stop_and_prune, turn, find_worker, at_phase, act_on, is_entry, cleaned, on_cleaned,
  on_timer, step, on_disconnected, same_phase, if_at, when_at, Event, on_cancelled,
}
use mathlib.Core.Path.{subst}

find-change_worker :
    (i : ℕ) (change : PeerWorker → PeerWorker) (ws : List PeerWorker) {w : PeerWorker}
    → ((v : PeerWorker) → (change v).number ≡ v.number)
    → find_worker i ws ≡ some w
    → find_worker i (change_worker i change ws) ≡ some (change w)
find-change_worker i change [] same h = cc
find-change_worker i change (v ∷ ws) {w} same h = elim (Bool-cases (is_number i v)) [
  | inl e ↦
      let hit : v ≡ w = ground arith in
      let still : is_number i (change v) ≡ true = rw (same v) e in
      rw (e, still) (ap (λ (u : PeerWorker). some (change u)) hit)
  | inr e ↦ rw (e, e) (find-change_worker i change ws same (ground arith))
]

unreachable_turn :
    (cfg : HolePunchManagerConfig) (conns : List Conn) (now : ℤ) (w : PeerWorker)
    → relay_only_to_peer w.peer conns ≡ false
    → (turn cfg conns now w ≡ stop) ⊎ (turn cfg conns now w ≡ stop_and_prune)
unfolding turn
unreachable_turn cfg conns now w h = ground arith

-- What is left of a worker whose loop has ended: its goroutine is at its end, and the map does not lead to
-- it.
pub record HasEnded (w : PeerWorker) (m : HolePunchManager) : Type 0 where
  pub goroutine : find_worker w.number m.workers ≡ some (record w { phase = ended })
  pub unlisted : is_entry (get m.peers w.peer) w.number ≡ false

cleaned-HasEnded :
    (w : PeerWorker) (m : HolePunchManager)
    → find_worker w.number m.workers ≡ some (record w { phase = returned })
    → HasEnded w (cleaned (record w { phase = returned }) m)
unfolding cleaned
cleaned-HasEnded w m here = elim (Bool-cases (is_entry (get m.peers w.peer) w.number)) [
  | inr e ↦ rw e (record {
    goroutine = find-change_worker w.number (at_phase ended) m.workers (λ v. refl) here;
    unlisted = e;
  })
  | inl e ↦ rw e (record {
    goroutine = find-change_worker w.number (at_phase ended) m.workers (λ v. refl) here;
    unlisted = rw (get-remove m.peers w.peer w.peer, text_beq_refl w.peer) refl;
  })
]

when_at_lem :
    (phase : Phase) (act : PeerWorker → HolePunchManager → HolePunchManager) (w : PeerWorker)
    (m : HolePunchManager)
    → find_worker w.number m.workers ≡ some w
    → same_phase w.phase phase ≡ true
    → when_at w.number phase act m ≡ act w m
when_at_lem phase act w m here at =
    ap (if_at phase act m) here ∙ if-then (same_phase w.phase phase) at
  where
    if-then : (b : Bool) → b ≡ true → (if b then act w m else m) ≡ act w m
    if-then b e = rw e refl

module _ (cfg : HolePunchManagerConfig) where
  clean_step-HasEnded :
      (w : PeerWorker) (m : HolePunchManager)
      → find_worker w.number m.workers ≡ some (record w { phase = returned })
      → HasEnded w (step cfg (on_cleaned w.number) m)
  unfolding step
  clean_step-HasEnded w m here =
      subst (HasEnded w)
        (sym (when_at_lem returned cleaned (record w { phase = returned }) m here refl))
        (cleaned-HasEnded w m here)

  timer_step-returned :
      (conns : List Conn) (now : ℤ) (w : PeerWorker) (m : HolePunchManager)
      → find_worker w.number m.workers ≡ some w
      → w.phase ≡ waiting
      → relay_only_to_peer w.peer conns ≡ false
      → find_worker w.number (step cfg (on_timer conns now w.number) m).workers
        ≡ some (record w { phase = returned })
  unfolding step act_on
  timer_step-returned conns now w m here at gone =
      subst
        (λ (n : HolePunchManager).
          find_worker w.number n.workers ≡ some (record w { phase = returned }))
        (sym (when_at_lem waiting (λ v. act_on now v (turn cfg conns now v)) w m here (rw at refl)))
        (elim (unreachable_turn cfg conns now w gone) [ inl e ↦ rw e there | inr e ↦ rw e there ])
    where
      there :
          find_worker w.number (change_worker w.number (at_phase returned) m.workers)
          ≡ some (record w { phase = returned })
      there = find-change_worker w.number (at_phase returned) m.workers (λ v. refl) here

  -- A worker that waits, and whose peer is no longer reached by relays only, ends at its next turn: when
  -- its timer fires and its deferred function has run, its goroutine is at its end and the map does not
  -- lead to it.
  pub timer_and_clean-HasEnded :
      (conns : List Conn) (now : ℤ) (w : PeerWorker) (m : HolePunchManager)
      → find_worker w.number m.workers ≡ some w
      → w.phase ≡ waiting
      → relay_only_to_peer w.peer conns ≡ false
      → HasEnded w (step cfg (on_cleaned w.number) (step cfg (on_timer conns now w.number) m))
  timer_and_clean-HasEnded conns now w m here at gone =
      clean_step-HasEnded w (step cfg (on_timer conns now w.number) m)
        (timer_step-returned conns now w m here at gone)

module _ (cfg : HolePunchManagerConfig) where
  -- One connection to a peer is closed, whatever others stay open, and its worker is cancelled in the map.
  -- Any number of connections to the peer and of turns of a sweep for it that follow at once start no
  -- other worker, and neither do then the end of the worker's loop and its deferred function: before
  -- these two and after both, no worker for the peer is active.
  pub disconnected_strands :
      (peer : Text) (i : ℕ) (events : List Event) (m : HolePunchManager)
      → IsSound m
      → get m.peers peer ≡ some i
      → All (IsRetry peer) events
      → (let lost = run_events cfg events (step cfg (on_disconnected peer) m) in
          All (Idle peer) lost.workers
          × All (Idle peer) (step cfg (on_cleaned i) (step cfg (on_cancelled i) lost)).workers)
  unfolding step disconnected
  disconnected_strands peer i events m s entry retries =
      let d = cancel_entry (some i) m in
      let e1 : step cfg (on_disconnected peer) m ≡ d = rw entry refl in
      let idle : All (Idle peer)
          (run_events cfg events (step cfg (on_disconnected peer) m)).workers =
        rw e1
          (retries-Idle cfg peer i events d retries entry (cancelled-Idle cfg peer i m s entry)) in
      (idle, cleaned_step-Idle cfg peer i _ (cancelled_step-Idle cfg peer i _ idle))
