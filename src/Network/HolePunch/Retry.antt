-- ===== src/Network/HolePunch/Retry.antt =====
-- internal/network/holepunch_manager.go: a peer whose worker is cancelled in the map.
use knowledge_mesh.Base.{
  Bool-cases, ℕ, ◌≡◌, ap, ◌⊎◌, inl, inr, false, some, List, [], ◌∷◌, arith, refl, true, All, ◌≢◌,
  if◌then◌else◌, Bool, not, ◌&&◌, if-both, ◌||◌, Option, none,
}
use knowledge_mesh.Base.Assoc.{get}
use knowledge_mesh.Base.Text.{Text, text_beq, text_beq_iff}
use knowledge_mesh.Control.Matching.{present}
use knowledge_mesh.Network.Connections.{Conn}
use knowledge_mesh.Network.HolePunch.{
  relay_only_to_peer, PeerWorker, is_number, change_worker, waiting, returned, ended,
  HolePunchManager, cancel, start_peer_locked, connected, has_direct_connection,
  has_relay_connection, Phase,
}
use knowledge_mesh.Network.HolePunch.Config.{HolePunchManagerConfig}
use knowledge_mesh.Network.HolePunch.Kept.{is_active, Registered, All-change, in_loop}
use knowledge_mesh.Network.HolePunch.Sound.{IsSound}
use knowledge_mesh.Network.HolePunch.Workers.{
  find_worker, at_phase, is_entry, cleaned, on_cleaned, step, sweep_peer, on_connected, on_sweep,
  add_prune, same_phase, if_at, Event, on_cancelled, if_cancelled,
}

-- No worker for the peer is active.
abbrev pub Idle : Text → PeerWorker → Type 0
Idle peer w = (is_active w ≡ false) ⊎ (text_beq w.peer peer ≡ false)

if-same :
    {A : Type 0} (field : HolePunchManager → A) (b : Bool) (x y m : HolePunchManager)
    → field x ≡ field m
    → field y ≡ field m
    → field (if b then x else y) ≡ field m
if-same field true x y m e e' = e
if-same field false x y m e e' = e'

-- A connection to the peer or a turn of a sweep for it, whatever the connections are.
pub data IsRetry (peer : Text) : Event → Type 0 where
  connects_again : (conns : List Conn) → IsRetry peer (on_connected conns peer)
  swept_again : (conns : List Conn) → IsRetry peer (on_sweep conns peer)

change-Idle :
    (peer : Text) (i : ℕ) (phase : Phase) (ws : List PeerWorker)
    → in_loop phase ≡ false
    → All (Idle peer) ws
    → All (Idle peer) (change_worker i (at_phase phase) ws)
change-Idle peer i phase [] out h = tt
change-Idle peer i phase (w ∷ ws) out (h, rest) =
    (one (is_number i w) h, change-Idle peer i phase ws out rest)
  where
    one : (b : Bool) → Idle peer w → Idle peer (if b then at_phase phase w else w)
    one false k = k
    one true k = inl (ground (arith, out))

module _ (cfg : HolePunchManagerConfig) where
  pub cancelled-Idle :
      (peer : Text) (i : ℕ) (m : HolePunchManager)
      → IsSound m
      → get m.peers peer ≡ some i
      → All (Idle peer) (change_worker i cancel m.workers)
  cancelled-Idle peer i m s entry =
      All-change (Registered m.peers) (Idle peer) i cancel m.workers (λ w member e r. inl refl)
        (λ w member n r. idle w n r) s.registered
    where
      idle : (w : PeerWorker) → w.number ≢ i → Registered m.peers w → Idle peer w
      idle w n (inl e) = inl e
      idle w n (inr e) = inr (elim (Bool-cases (text_beq w.peer peer)) [
        | inr other ↦ other
        | inl same ↦
            let p : w.peer ≡ peer = (text_beq_iff w.peer peer).0 same in
            absurd (n (number_is (rw (p, entry) at e)))
      ])
        where
          number_is : some i ≡ some w.number → w.number ≡ i
          number_is h = cc

  listed_stays :
      (conns : List Conn) (peer : Text) (i : ℕ) (m : HolePunchManager)
      → get m.peers peer ≡ some i
      → start_peer_locked conns peer m ≡ m
  unfolding start_peer_locked
  listed_stays conns peer i m entry = elim (Bool-cases m.closed) [
    | inl e ↦ rw e refl
    | inr e ↦ rw (e, entry) refl
  ]

  connected_stays :
      (conns : List Conn) (peer : Text) (i : ℕ) (m : HolePunchManager)
      → get m.peers peer ≡ some i
      → connected conns peer m ≡ m
  unfolding connected
  connected_stays conns peer i m entry =
      if-both m.started _ m m (listed_stays conns peer i m entry) refl

  sweep_stays :
      {A : Type 0} (field : HolePunchManager → A) (conns : List Conn) (peer : Text) (i : ℕ)
      (m : HolePunchManager)
      → ((n : HolePunchManager) → field (add_prune peer n) ≡ field n)
      → get m.peers peer ≡ some i
      → field (sweep_peer conns peer m) ≡ field m
  unfolding sweep_peer
  sweep_stays field conns peer i m pruned entry = if-same field (not m.started) m _ m refl (
      if-same field (has_direct_connection peer conns && has_relay_connection peer conns)
        (add_prune peer m) _ m (pruned m)
        (if-same field (relay_only_to_peer peer conns && not (present (get m.peers peer)))
          (start_peer_locked conns peer m) m m (ap field (listed_stays conns peer i m entry)) refl))

  abbrev pub run_events : List Event → HolePunchManager → HolePunchManager
  run_events [] m = m
  run_events (e ∷ rest) m = run_events rest (step cfg e m)

  retry_stays :
      {A : Type 0} (field : HolePunchManager → A) (peer : Text) (i : ℕ) (e : Event)
      (m : HolePunchManager)
      → ((n : HolePunchManager) → field (add_prune peer n) ≡ field n)
      → IsRetry peer e
      → get m.peers peer ≡ some i
      → field (step cfg e m) ≡ field m
  unfolding step
  retry_stays field peer i e m pruned (connects_again conns) entry =
      ap field (connected_stays conns peer i m entry)
  retry_stays field peer i e m pruned (swept_again conns) entry =
      sweep_stays field conns peer i m pruned entry

  pub retries-Idle :
      (peer : Text) (i : ℕ) (events : List Event) (m : HolePunchManager)
      → All (IsRetry peer) events
      → get m.peers peer ≡ some i
      → All (Idle peer) m.workers
      → All (Idle peer) (run_events events m).workers
  retries-Idle peer i [] m retries entry idle = idle
  retries-Idle peer i (e ∷ rest) m (retry, retries) entry idle =
      retries-Idle peer i rest (step cfg e m) retries
        (rw (retry_stays (λ n. n.peers) peer i e m (λ n. refl) retry entry) entry)
        (rw (retry_stays (λ n. n.workers) peer i e m (λ n. refl) retry entry) idle)

  if-Idle :
      (peer : Text) (b : Bool) (x y : HolePunchManager)
      → All (Idle peer) x.workers
      → All (Idle peer) y.workers
      → All (Idle peer) (if b then x else y).workers
  if-Idle peer true x y h k = h
  if-Idle peer false x y h k = k

  pub cancelled_step-Idle :
      (peer : Text) (i : ℕ) (m : HolePunchManager)
      → All (Idle peer) m.workers
      → All (Idle peer) (step cfg (on_cancelled i) m).workers
  unfolding step
  cancelled_step-Idle peer i m idle = go (find_worker i m.workers)
    where
      go : (o : Option PeerWorker) → All (Idle peer) (if_at waiting if_cancelled m o).workers
      go none = idle
      go (some w) =
          if-Idle peer (same_phase w.phase waiting) _ m
            (if-Idle peer (w.cancelled || m.root_done) _ m
              (change-Idle peer w.number returned m.workers refl idle) idle)
            idle

  pub cleaned_step-Idle :
      (peer : Text) (i : ℕ) (m : HolePunchManager)
      → All (Idle peer) m.workers
      → All (Idle peer) (step cfg (on_cleaned i) m).workers
  unfolding step cleaned
  cleaned_step-Idle peer i m idle = go (find_worker i m.workers)
    where
      go : (o : Option PeerWorker) → All (Idle peer) (if_at returned cleaned m o).workers
      go none = idle
      go (some w) =
          let still = change-Idle peer w.number ended m.workers refl idle in
          if-Idle peer (same_phase w.phase returned) _ m
            (if-Idle peer (is_entry (get m.peers w.peer) w.number) _ _ still still) idle
