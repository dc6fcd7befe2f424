-- ===== src/Network/HolePunch/Sound.antt =====
-- internal/network/holepunch_manager.go: a sound state of the manager, and the changes of its map.
use knowledge_mesh.Base.{
  Bool-cases, Option-cases, All, Member, length, ℕ, ◌≡◌, refl, ◌∙◌, ◌⊎◌, inl, inr, Bool, true,
  false, not, ◌||◌, none, List, [], ◌∷◌, arith, if◌then◌else◌,
}
use knowledge_mesh.Base.Assoc.{get, put, get-put}
use knowledge_mesh.Base.Text.{Text, text_beq_iff, text_beq_refl}
use knowledge_mesh.Control.Matching.{present}
use knowledge_mesh.Network.Connections.{Conn}
use knowledge_mesh.Network.HolePunch.{
  relay_only_to_peer, PeerWorker, HolePunchManager, change_worker, cancel_all, start_peer_locked,
  start_peers,
}
use knowledge_mesh.Network.HolePunch.Kept.{
  is_active, Registered, Numbered, All-change, change_worker-Numbered, cancel_all-inactive,
  Registered-CancelledOr, cancel_all-Numbered,
}

pub record IsSound (m : HolePunchManager) : Type 0 where
  pub registered : All (Registered m.peers) m.workers
  pub numbered : Numbered m.workers
  pub shut : (m.closed ≡ false) ⊎ All (λ w. is_active w ≡ false) m.workers

pub if-IsSound :
    (b : Bool) (m n : HolePunchManager) → IsSound m → IsSound n → IsSound (if b then m else n)
if-IsSound true m n h k = h
if-IsSound false m n h k = k

-- A change of one goroutine that does not make it active.
pub change-IsSound :
    (i : ℕ) (change : PeerWorker → PeerWorker) (m : HolePunchManager)
    → ((w : PeerWorker) → (change w).number ≡ w.number)
    → ((w : PeerWorker) → (change w).peer ≡ w.peer)
    → ((w : PeerWorker)
        → Member w m.workers
        → w.number ≡ i
        → (is_active (change w) ≡ false) ⊎ (is_active (change w) ≡ is_active w))
    → IsSound m
    → IsSound (record m { workers = change_worker i change m.workers })
change-IsSound i change m number_same peer_same calms s = record {
  registered =
      All-change (Registered m.peers) (Registered m.peers) i change m.workers
        (λ w member e r. kept w (calms w member e) r) (λ w member n r. r) s.registered;
  numbered = change_worker-Numbered i change m.workers number_same s.numbered;
  shut = elim s.shut [
    | inl still_open ↦ inl still_open
    | inr none_active ↦ inr (
        All-change (λ w. is_active w ≡ false) (λ w. is_active w ≡ false) i change m.workers
          (λ w member e r. calmed w (calms w member e) r) (λ w member n r. r) none_active)
  ];
}
  where
    kept :
        (w : PeerWorker)
        → (is_active (change w) ≡ false) ⊎ (is_active (change w) ≡ is_active w)
        → Registered m.peers w
        → Registered m.peers (change w)
    kept w (inl e) r = inl e
    kept w (inr e) (inl idle) = inl (e ∙ idle)
    kept w (inr e) (inr there) = inr (rw (peer_same w, number_same w) there)

    calmed :
        (w : PeerWorker)
        → (is_active (change w) ≡ false) ⊎ (is_active (change w) ≡ is_active w)
        → is_active w ≡ false
        → is_active (change w) ≡ false
    calmed w (inl e) idle = e
    calmed w (inr e) idle = e ∙ idle

-- All workers of the map are cancelled and the map is emptied.
pub cleared-IsSound :
    (m : HolePunchManager) (shut : Bool)
    → IsSound m
    → IsSound (record m { closed = shut; peers = []; workers = cancel_all m.peers m.workers })
cleared-IsSound m shut s = record {
  registered = idle_registered (cancel_all m.peers m.workers) idle;
  numbered = cancel_all-Numbered m.peers m.workers s.numbered;
  shut = inr idle;
}
  where
    idle : All (λ w. is_active w ≡ false) (cancel_all m.peers m.workers)
    idle =
        cancel_all-inactive m.peers m.workers
          (Registered-CancelledOr m.peers m.workers s.registered)

    idle_registered :
        (ws : List PeerWorker) → All (λ w. is_active w ≡ false) ws → All (Registered []) ws
    idle_registered [] h = tt
    idle_registered (w ∷ ws) (e, h) = (inl e, idle_registered ws h)

pub start_peer_locked-IsSound :
    (conns : List Conn) (peer : Text) (m : HolePunchManager)
    → IsSound m
    → IsSound (start_peer_locked conns peer m)
unfolding start_peer_locked
start_peer_locked-IsSound conns peer m s =
    elim (Bool-cases
      (m.closed || present (get m.peers peer) || not (relay_only_to_peer peer conns))) [
        | inl e ↦ rw e s
        | inr e ↦ rw e (record {
          registered = (
            inr (rw (get-put m.peers peer (length m.workers) peer, text_beq_refl peer) refl),
            others m.workers (free e) s.registered,
          );
          numbered = (refl, s.numbered);
          shut = inl (ground arith);
        })
      ]
  where
    free :
        (m.closed || present (get m.peers peer) || not (relay_only_to_peer peer conns)) ≡ false
        → get m.peers peer ≡ none
    free e = elim (Option-cases (get m.peers peer)) [
      | inl n ↦ n
      | inr (i, there) ↦ absurd (ground (arith, e, there))
    ]

    other :
        (w : PeerWorker)
        → get m.peers peer ≡ none
        → Registered m.peers w
        → Registered (put m.peers peer (length m.workers)) w
    other w n (inl idle) = inl idle
    other w n (inr there) =
        inr
          (ground (arith, get-put m.peers peer (length m.workers) w.peer, text_beq_iff peer w.peer))

    others :
        (ws : List PeerWorker)
        → get m.peers peer ≡ none
        → All (Registered m.peers) ws
        → All (Registered (put m.peers peer (length m.workers))) ws
    others [] n h = tt
    others (w ∷ ws) n (r, h) = (other w n r, others ws n h)

pub start_peers-IsSound :
    (conns : List Conn) (peers : List Text) (m : HolePunchManager)
    → IsSound m
    → IsSound (start_peers conns peers m)
unfolding start_peers
start_peers-IsSound conns [] m s = s
start_peers-IsSound conns (peer ∷ rest) m s =
    start_peers-IsSound conns rest (start_peer_locked conns peer m)
      (start_peer_locked-IsSound conns peer m s)
