-- ===== src/Network/HolePunch/Kept.antt =====
-- internal/network/holepunch_manager.go: the goroutines of the workers and the map of the active ones.
-- A worker that goes on: its context is open, and it has not left its loop.
use knowledge_mesh.Base.{
  nat_beq, if◌then◌else◌, nat_beq_iff, Bool-cases, All, Member, length, any, find, ℕ, suc, ◌<◌, ◌≡◌,
  refl, sym, ap, ◌∙◌, ◌≢◌, ◌⊎◌, inl, inr, Bool, true, false, not, ◌&&◌, some, List, [], ◌∷◌, map,
  arith,
}
use knowledge_mesh.Base.Assoc.{Assoc, get}
use knowledge_mesh.Base.Text.{Text, text_beq}
use knowledge_mesh.Network.HolePunch.{
  Phase, waiting, dialling, PeerWorker, is_number, change_worker, cancel, cancel_all,
}

abbrev pub in_loop : Phase → Bool
in_loop waiting = true
in_loop dialling = true
in_loop _ = false

abbrev pub is_active : PeerWorker → Bool
is_active w = not w.cancelled && in_loop w.phase

-- It is not active, or the map leads to it.
abbrev pub Registered : Assoc ℕ → PeerWorker → Type 0
Registered peers w = (is_active w ≡ false) ⊎ (get peers w.peer ≡ some w.number)

abbrev pub Numbered : List PeerWorker → Type 0
Numbered [] = Unit
Numbered (w ∷ ws) = (w.number ≡ length ws) × Numbered ws

pub All-change :
    (P Q : PeerWorker → Type 0) (i : ℕ) (change : PeerWorker → PeerWorker) (ws : List PeerWorker)
    → ((w : PeerWorker) → Member w ws → w.number ≡ i → P w → Q (change w))
    → ((w : PeerWorker) → Member w ws → w.number ≢ i → P w → Q w)
    → All P ws
    → All Q (change_worker i change ws)
All-change P Q i change [] hit miss h = tt
All-change P Q i change (w ∷ ws) hit miss (p, rest) = (
  elim (Bool-cases (is_number i w)) [
    | inl e ↦ rw e (hit w (inl refl) ((nat_beq_iff w.number i).0 e) p)
    | inr e ↦ rw e (miss w (inl refl) (λ same. absurd (ground (arith, nat_beq_iff w.number i))) p)
  ],
  All-change P Q i change ws (λ v m. hit v (inr m)) (λ v m. miss v (inr m)) rest,
)

length-map : {A B : Type 0} (f : A → B) (xs : List A) → length (map f xs) ≡ length xs
length-map f [] = refl
length-map f (x ∷ xs) = ap suc (length-map f xs)

pub change_worker-Numbered :
    (i : ℕ) (change : PeerWorker → PeerWorker) (ws : List PeerWorker)
    → ((w : PeerWorker) → (change w).number ≡ w.number)
    → Numbered ws
    → Numbered (change_worker i change ws)
change_worker-Numbered i change [] same h = tt
change_worker-Numbered i change (w ∷ ws) same (n, rest) = (
  elim (Bool-cases (is_number i w)) [
    | inl e ↦ rw (e, same w, length-map (λ v. if is_number i v then change v else v) ws) n
    | inr e ↦ rw (e, length-map (λ v. if is_number i v then change v else v) ws) n
  ],
  change_worker-Numbered i change ws same rest,
)

number_bound :
    (ws : List PeerWorker) (w : PeerWorker) → Numbered ws → Member w ws → w.number < length ws
number_bound [] w h m = absurd m
number_bound (v ∷ ws) w (n, rest) (inl e) = rw (e, n) (omega arith)
number_bound (v ∷ ws) w (n, rest) (inr m) = omega (arith, number_bound ws w rest m)

-- Two goroutines do not have the same number.
pub Numbered-unique :
    (ws : List PeerWorker) (v w : PeerWorker)
    → Numbered ws
    → Member v ws
    → Member w ws
    → v.number ≡ w.number
    → v ≡ w
Numbered-unique [] v w h m k e = absurd m
Numbered-unique (u ∷ ws) v w (n, rest) (inl a) (inl b) e = a ∙ sym b
Numbered-unique (u ∷ ws) v w (n, rest) (inl a) (inr b) e =
    absurd (ground (arith, number_bound ws w rest b, ap (λ (x : PeerWorker). x.number) a, n, e))
Numbered-unique (u ∷ ws) v w (n, rest) (inr a) (inl b) e =
    absurd (ground (arith, number_bound ws v rest a, ap (λ (x : PeerWorker). x.number) b, n, e))
Numbered-unique (u ∷ ws) v w (n, rest) (inr a) (inr b) e = Numbered-unique ws v w rest a b e

pub find_worker-Member :
    (i : ℕ) (ws : List PeerWorker) {w : PeerWorker}
    → find (is_number i) ws ≡ some w
    → Member w ws × (w.number ≡ i)
find_worker-Member i [] h = cc
find_worker-Member i (v ∷ ws) {w} h = elim (Bool-cases (is_number i v)) [
  | inl e ↦
      let same : v ≡ w = ground arith in
      (inl (sym same), ap (λ (x : PeerWorker). x.number) (sym same) ∙ (nat_beq_iff v.number i).0 e)
  | inr e ↦ let (m, n) = find_worker-Member i ws (ground arith) in (inr m, n)
]

-- The cancel of every worker in the map leaves no active one.
abbrev pub CancelledOr : Assoc ℕ → PeerWorker → Type 0
CancelledOr peers w =
    (is_active w ≡ false) ⊎ (any (λ (e : Text × ℕ). nat_beq e.1 w.number) peers ≡ true)

pub cancel_all-inactive :
    (peers : Assoc ℕ) (ws : List PeerWorker)
    → All (CancelledOr peers) ws
    → All (λ w. is_active w ≡ false) (cancel_all peers ws)
unfolding cancel_all
cancel_all-inactive [] [] h = tt
cancel_all-inactive [] (w ∷ ws) (inl e, h) = (e, cancel_all-inactive [] ws h)
cancel_all-inactive [] (w ∷ ws) (inr e, h) = cc
cancel_all-inactive ((p, i) ∷ rest) ws h = cancel_all-inactive rest (change_worker i cancel ws) (
    All-change (CancelledOr ((p, i) ∷ rest)) (CancelledOr rest) i cancel ws (λ w m e c. inl refl)
      (λ w m e c. passed w e c) h)
  where
    passed :
        (w : PeerWorker)
        → w.number ≢ i
        → (is_active w ≡ false)
          ⊎ ((if nat_beq i w.number
                then true
                else any (λ (e : Text × ℕ). nat_beq e.1 w.number) rest)
              ≡ true)
        → (is_active w ≡ false) ⊎ (any (λ (e : Text × ℕ). nat_beq e.1 w.number) rest ≡ true)
    passed w n (inl e) = inl e
    passed w n (inr e) = inr (ground (arith, nat_beq_iff i w.number))

get-any :
    (peers : Assoc ℕ) (p : Text) (i : ℕ)
    → get peers p ≡ some i
    → any (λ (e : Text × ℕ). nat_beq e.1 i) peers ≡ true
unfolding get
get-any [] p i h = cc
get-any ((q, j) ∷ rest) p i h = elim (Bool-cases (text_beq q p)) [
  | inl e ↦ ground (arith, nat_beq_iff j i)
  | inr e ↦ ground (arith, get-any rest p i (ground arith))
]

pub Registered-CancelledOr :
    (peers : Assoc ℕ) (ws : List PeerWorker)
    → All (Registered peers) ws
    → All (CancelledOr peers) ws
Registered-CancelledOr peers [] h = tt
Registered-CancelledOr peers (w ∷ ws) (inl e, rest) = (inl e, Registered-CancelledOr peers ws rest)
Registered-CancelledOr peers (w ∷ ws) (inr e, rest) =
    (inr (get-any peers w.peer w.number e), Registered-CancelledOr peers ws rest)

pub cancel_all-Numbered :
    (peers : Assoc ℕ) (ws : List PeerWorker) → Numbered ws → Numbered (cancel_all peers ws)
unfolding cancel_all
cancel_all-Numbered [] ws h = h
cancel_all-Numbered ((p, i) ∷ rest) ws h =
    cancel_all-Numbered rest (change_worker i cancel ws)
      (change_worker-Numbered i cancel ws (λ w. refl) h)
