-- ===== src/Network/HolePunch/Safety.antt =====
-- internal/network/holepunch_manager.go: what holds of the manager in every state that events lead to.
-- The map leads to every active worker, the goroutines are numbered in the order of their start, and a
-- closed manager has no active worker.
use knowledge_mesh.Base.{
  Member, ℕ, ◌≡◌, refl, ◌∙◌, inl, inr, true, not, ◌&&◌, ◌||◌, none, Option, some, any, All-member,
  sym, ap,
}
use knowledge_mesh.Base.Assoc.{get}
use knowledge_mesh.Base.Text.{Text, text_beq}
use knowledge_mesh.Control.Matching.{present}
use knowledge_mesh.Network.HolePunch.{
  relay_only_to_peer, PeerWorker, HolePunchManager, has_direct_connection, waiting, dialling,
  returned, cancel, bump_clear, bump_restart, connected, disconnected, close, has_relay_connection,
  new_hole_punch_manager, cancel_entry,
}
use knowledge_mesh.Network.HolePunch.Config.{HolePunchManagerConfig}
use knowledge_mesh.Network.HolePunch.Kept.{is_active, Registered, Numbered-unique}
use knowledge_mesh.Network.HolePunch.Sound.{
  if-IsSound, change-IsSound, cleared-IsSound, start_peer_locked-IsSound, start_peers-IsSound,
  IsSound,
}
use knowledge_mesh.Network.HolePunch.Turns.{
  when_at-IsSound, leaves_loop, reread, act_on-IsSound, dialled-IsSound, cleaned-IsSound,
}
use knowledge_mesh.Network.HolePunch.Workers.{
  moved_to, act_on, dialled, cleaned, sweep_peer, upgrade_connected, Event, on_start, on_bump_clear,
  on_close, on_root_done, on_bump_restart, on_connected, on_sweep, on_upgrade, on_disconnected,
  on_trigger, on_triggered, on_cancelled, on_cleaned, on_timer, on_dialled, trigger_direct_connect,
  triggered, step, add_prune, if_cancelled, Reachable, initially, after_event, turn,
}

cancel_entry-IsSound :
    (entry : Option ℕ) (m : HolePunchManager) → IsSound m → IsSound (cancel_entry entry m)
cancel_entry-IsSound none m s = s
cancel_entry-IsSound (some i) m s =
    change-IsSound i cancel m (λ w. refl) (λ w. refl) (λ w member n. inl refl) s

triggered-IsSound :
    (peer : Text) (error : Option Text) (m : HolePunchManager)
    → IsSound m
    → IsSound (triggered peer error m)
unfolding triggered
triggered-IsSound peer none m s = reread _ refl refl refl s
triggered-IsSound peer (some error) m s = reread _ refl refl refl s

module _ (cfg : HolePunchManagerConfig) where
  step-IsSound : (e : Event) (m : HolePunchManager) → IsSound m → IsSound (step cfg e m)
  unfolding step bump_clear bump_restart connected disconnected close sweep_peer upgrade_connected
      trigger_direct_connect triggered
  step-IsSound on_start m s = reread _ refl refl refl s
  step-IsSound on_bump_clear m s = if-IsSound m.started _ m (cleared-IsSound m m.closed s) s
  step-IsSound on_close m s = if-IsSound m.closed m _ s (cleared-IsSound m true s)
  step-IsSound on_root_done m s = reread _ refl refl refl s
  step-IsSound (on_bump_restart conns peers) m s =
      if-IsSound m.started _ m (start_peers-IsSound conns peers m s) s
  step-IsSound (on_connected conns peer) m s =
      if-IsSound m.started _ m (start_peer_locked-IsSound conns peer m s) s
  step-IsSound (on_sweep conns peer) m s = if-IsSound (not m.started) m _ s (
      if-IsSound (has_direct_connection peer conns && has_relay_connection peer conns)
        (add_prune peer m) _ (reread _ refl refl refl s)
        (if-IsSound (relay_only_to_peer peer conns && not (present (get m.peers peer))) _ m
          (start_peer_locked-IsSound conns peer m s) s))
  step-IsSound (on_upgrade conns peer) m s =
      if-IsSound (has_direct_connection peer conns && has_relay_connection peer conns)
        (add_prune peer m) m (reread _ refl refl refl s) s
  step-IsSound (on_disconnected peer) m s = cancel_entry-IsSound (get m.peers peer) m s
  step-IsSound (on_trigger peer) m s = reread _ refl refl refl s
  step-IsSound (on_triggered peer error) m s =
      if-IsSound (any (λ p. text_beq p peer) m.triggers) (triggered peer error m) m
        (triggered-IsSound peer error m s) s
  step-IsSound (on_cancelled i) m s =
      when_at-IsSound i waiting if_cancelled m
        (λ w member n e.
          if-IsSound (w.cancelled || m.root_done) (moved_to w.number returned m) m
            (leaves_loop w.number returned m refl s) s)
        s
  step-IsSound (on_cleaned i) m s =
      when_at-IsSound i returned cleaned m (λ w member n e. cleaned-IsSound w m s) s
  step-IsSound (on_timer conns now i) m s =
      when_at-IsSound i waiting (λ w. act_on now w (turn cfg conns now w)) m
        (λ w member n e. act_on-IsSound now w (turn cfg conns now w) m member e s) s
  step-IsSound (on_dialled conns error i) m s =
      when_at-IsSound i dialling (dialled conns error) m
        (λ w member n e. dialled-IsSound conns error w m member e s) s

  -- In every state that events lead to, the map leads to every active worker, the goroutines have distinct
  -- numbers, and a closed manager has no active worker.
  pub Reachable-IsSound : {m : HolePunchManager} → Reachable cfg m → IsSound m
  unfolding new_hole_punch_manager
  Reachable-IsSound initially = record { registered = tt; numbered = tt; shut = inl refl }
  Reachable-IsSound (after_event {m = m} e r) = step-IsSound e m (Reachable-IsSound r)

  registered_of :
      (m : HolePunchManager) (w : PeerWorker)
      → IsSound m
      → Member w m.workers
      → is_active w ≡ true
      → get m.peers w.peer ≡ some w.number
  registered_of m w s member active =
      elim (All-member (Registered m.peers) m.workers s.registered member) [
        | inl idle ↦ absurd (cc (idle, active))
        | inr there ↦ there
      ]

  -- In every state that events lead to, two active workers for one peer are the same.
  Reachable-one_worker :
      {m : HolePunchManager} (v w : PeerWorker)
      → Reachable cfg m
      → Member v m.workers
      → Member w m.workers
      → is_active v ≡ true
      → is_active w ≡ true
      → v.peer ≡ w.peer
      → v ≡ w
  Reachable-one_worker {m} v w r mv mw av aw same =
      let s = Reachable-IsSound r in
      Numbered-unique m.workers v w s.numbered mv mw (
        some_number
          (sym (registered_of m v s mv av) ∙ (ap (get m.peers) same ∙ registered_of m w s mw aw)))
    where
      some_number : {a b : ℕ} → some a ≡ some b → a ≡ b
      some_number h = cc
