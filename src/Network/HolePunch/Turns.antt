-- ===== src/Network/HolePunch/Turns.antt =====
-- internal/network/holepunch_manager.go: the steps of one goroutine from a sound state.
use knowledge_mesh.Base.{
  Bool-cases, Member, ℕ, ◌≡◌, refl, inl, inr, true, false, not, ◌&&◌, none, List, arith, nat_beq,
  nat_beq_iff, ◌≢◌, Option, some,
}
use knowledge_mesh.Base.Assoc.{get, remove, get-remove}
use knowledge_mesh.Base.Int.{ℤ}
use knowledge_mesh.Base.Text.{Text, text_beq_iff, text_beq}
use knowledge_mesh.Network.Connections.{Conn}
use knowledge_mesh.Network.HolePunch.{
  Phase, PeerWorker, HolePunchManager, has_direct_connection, waiting, dialling, returned, ended,
}
use knowledge_mesh.Network.HolePunch.Kept.{
  in_loop, is_active, Registered, Numbered-unique, All-change, find_worker-Member,
}
use knowledge_mesh.Network.HolePunch.Sound.{change-IsSound, IsSound}
use knowledge_mesh.Network.HolePunch.Workers.{
  Verdict, stop, stop_and_prune, wait, dial, moved_to, act_on, dialled, is_entry, cleaned, when_at,
  find_worker, at_phase, same_phase, if_at,
}

-- The worker that was found, and its phase, for every goroutine with its number.
stays_active :
    (m : HolePunchManager) (w v : PeerWorker) (phase : Phase)
    → IsSound m
    → Member w m.workers
    → in_loop w.phase ≡ true
    → in_loop phase ≡ true
    → Member v m.workers
    → v.number ≡ w.number
    → (not v.cancelled && in_loop phase) ≡ is_active v
stays_active m w v phase s member e e' member' same =
    rw (Numbered-unique m.workers v w s.numbered member' member same) (rw (e, e') refl)

-- A step of a goroutine that stands at a phase.
pub when_at-IsSound :
    (i : ℕ) (phase : Phase) (act : PeerWorker → HolePunchManager → HolePunchManager)
    (m : HolePunchManager)
    → ((w : PeerWorker)
        → Member w m.workers
        → w.number ≡ i
        → same_phase w.phase phase ≡ true
        → IsSound (act w m))
    → IsSound m
    → IsSound (when_at i phase act m)
when_at-IsSound i phase act m acts s = go (find_worker i m.workers) refl
  where
    go : (o : Option PeerWorker) → find_worker i m.workers ≡ o → IsSound (if_at phase act m o)
    go none e = s
    go (some w) e = elim (Bool-cases (same_phase w.phase phase)) [
      | inl there ↦
          let (member, number) = find_worker-Member i m.workers e in
          rw there (acts w member number there)
      | inr elsewhere ↦ rw elsewhere s
    ]

pub leaves_loop :
    (i : ℕ) (phase : Phase) (m : HolePunchManager)
    → in_loop phase ≡ false
    → IsSound m
    → IsSound (moved_to i phase m)
leaves_loop i phase m e s =
    change-IsSound i (at_phase phase) m (λ w. refl) (λ w. refl) (λ w member n. inl (idle w)) s
  where
    idle : (w : PeerWorker) → (not w.cancelled && in_loop phase) ≡ false
    idle w = rw e (ground arith)

-- What soundness does not read may change.
pub reread :
    {m : HolePunchManager} (n : HolePunchManager)
    → n.peers ≡ m.peers
    → n.workers ≡ m.workers
    → n.closed ≡ m.closed
    → IsSound m
    → IsSound n
reread {m} n e1 e2 e3 s = record {
  registered = rw (e1, e2) s.registered;
  numbered = rw e2 s.numbered;
  shut = rw (e2, e3) s.shut;
}

pub act_on-IsSound :
    (now : ℤ) (w : PeerWorker) (v : Verdict) (m : HolePunchManager)
    → Member w m.workers
    → same_phase w.phase waiting ≡ true
    → IsSound m
    → IsSound (act_on now w v m)
unfolding act_on
act_on-IsSound now w stop m member e s = leaves_loop w.number returned m refl s
act_on-IsSound now w stop_and_prune m member e s =
    reread _ refl refl refl (leaves_loop w.number returned m refl s)
act_on-IsSound now w wait m member e s = s
act_on-IsSound now w dial m member e s = reread _ refl refl refl (
    change-IsSound w.number
      (λ (v : PeerWorker). record v { last_attempt = some now; phase = dialling }) m (λ v. refl)
      (λ v. refl)
      (λ v member' n. inr (stays_active m w v dialling s member (looping w.phase e) refl member' n))
      s)
  where
    looping : (p : Phase) → same_phase p waiting ≡ true → in_loop p ≡ true
    looping waiting h = refl
    looping dialling h = cc
    looping returned h = cc
    looping ended h = cc

pub dialled-IsSound :
    (conns : List Conn) (error : Option Text) (w : PeerWorker) (m : HolePunchManager)
    → Member w m.workers
    → same_phase w.phase dialling ≡ true
    → IsSound m
    → IsSound (dialled conns error w m)
unfolding dialled
dialled-IsSound conns none w m member e s =
    reread _ refl refl refl (leaves_loop w.number returned m refl s)
dialled-IsSound conns (some error) w m member e s =
    elim (Bool-cases (has_direct_connection w.peer conns)) [
      | inl direct ↦ rw direct (reread _ refl refl refl (leaves_loop w.number returned m refl s))
      | inr still ↦ rw still (
          reread _ refl refl refl (
            change-IsSound w.number (at_phase waiting) m (λ v. refl) (λ v. refl)
              (λ v member' n.
                inr (stays_active m w v waiting s member (looping w.phase e) refl member' n))
              s))
    ]
  where
    looping : (p : Phase) → same_phase p dialling ≡ true → in_loop p ≡ true
    looping waiting h = cc
    looping dialling h = refl
    looping returned h = cc
    looping ended h = cc

pub cleaned-IsSound : (w : PeerWorker) (m : HolePunchManager) → IsSound m → IsSound (cleaned w m)
unfolding cleaned
cleaned-IsSound w m s = elim (Bool-cases (is_entry (get m.peers w.peer) w.number)) [
  | inr e ↦ rw e (leaves_loop w.number ended m refl s)
  | inl e ↦
      let t : IsSound (moved_to w.number ended m) = leaves_loop w.number ended m refl s in
      rw e (record {
        registered =
            All-change (Registered m.peers) (Registered (remove m.peers w.peer)) w.number
              (at_phase ended) m.workers (λ v member n r. inl (ground arith))
              (λ v member n r. unentered v n e r) s.registered;
        numbered = t.numbered;
        shut = t.shut;
      })
]
  where
    unentered :
        (v : PeerWorker)
        → v.number ≢ w.number
        → is_entry (get m.peers w.peer) w.number ≡ true
        → Registered m.peers v
        → Registered (remove m.peers w.peer) v
    unentered v n e (inl idle) = inl idle
    unentered v n e (inr there) = inr (elim (Bool-cases (text_beq w.peer v.peer)) [
      | inr other ↦ rw (get-remove m.peers w.peer v.peer, other) there
      | inl same ↦
          let p : w.peer ≡ v.peer = (text_beq_iff w.peer v.peer).0 same in
          let entry : nat_beq v.number w.number ≡ true = rw (p, there) at e in
          absurd (n ((nat_beq_iff v.number w.number).0 entry))
    ])
