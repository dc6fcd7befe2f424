-- ===== src/Control/Billing/Funds.antt =====
-- postgres_billing.go: the sum of all wallets under a settlement.
use knowledge_mesh.Base.{
  Bool-cases, All, ◌≡◌, inl, inr, some, [], ◌∷◌, arith, Option-cases, refl, sym, Bool, not, ◌||◌,
}
use knowledge_mesh.Base.Assoc.{Assoc, get, update}
use knowledge_mesh.Base.Int.{
  ℤ, pos, ◌+ℤ◌, ◌≤ℤ◌, int_laws, ◌-ℤ◌, add64, sub64, max64, add64_exact, sub64_exact, ◌≈ℤ◌, to_parts,
  Fits64-of_nonneg, beq_ℤ,
}
use knowledge_mesh.Base.Result.{ok}
use knowledge_mesh.Base.Text.{Text, text_beq}
use knowledge_mesh.Control.Billing.{
  set_balance, clamp, match_of, mark_settled, settle_inference_match,
}
use knowledge_mesh.Control.Billing.Atomic.{settle_either}
use knowledge_mesh.Control.Billing.Outcome.{
  moved, match_outcome, settle_outcome, Transfer, transfer_outcome-ok, Settles,
}
use knowledge_mesh.Control.Db.{Billing, Db, InferenceMatch}
use knowledge_mesh.Control.Session.{Session}
use mathlib.Core.Path.{subst}

abbrev pub total : Assoc Billing → ℤ
total [] = pos 0
total ((k, b) ∷ m) = b.wallet_balance +ℤ total m

-- No wallet in the table is below zero.
abbrev pub NonNegative : Assoc Billing → Type 0
NonNegative = All λ (row : Text × Billing). pos 0 ≤ℤ row.1.wallet_balance

total-update :
    (m : Assoc Billing) (k : Text) (b : Billing) (change : Billing → Billing)
    → get m k ≡ some b
    → total (update m k change) +ℤ b.wallet_balance ≈ℤ total m +ℤ (change b).wallet_balance
unfolding get update
total-update [] k b change h = cc
total-update ((j, c) ∷ m) k b change h = elim (Bool-cases (text_beq j k)) [
  | inl hit ↦ let e : c ≡ b = ground arith in rw (hit, ← e) (omega int_laws)
  | inr miss ↦ rw miss (omega (int_laws, total-update m k b change (ground arith)))
]

total-nonneg : (m : Assoc Billing) → NonNegative m → pos 0 ≤ℤ total m
total-nonneg [] n = omega arith
total-nonneg ((j, c) ∷ m) n = omega (int_laws, total-nonneg m n.1)

wallet-le-total :
    (m : Assoc Billing) (k : Text) (b : Billing)
    → NonNegative m
    → get m k ≡ some b
    → (pos 0 ≤ℤ b.wallet_balance) × (b.wallet_balance ≤ℤ total m)
unfolding get
wallet-le-total [] k b n h = cc
wallet-le-total ((j, c) ∷ m) k b n h = elim (Bool-cases (text_beq j k)) [
  | inl hit ↦ let e : c ≡ b = ground arith in rw (← e) (omega (int_laws, total-nonneg m n.1))
  | inr miss ↦ omega (int_laws, total-nonneg m n.1, wallet-le-total m k b n.1 (ground arith))
]

update-NonNegative :
    (m : Assoc Billing) (k : Text) (change : Billing → Billing)
    → ((b : Billing) → pos 0 ≤ℤ (change b).wallet_balance)
    → NonNegative m
    → NonNegative (update m k change)
unfolding update
update-NonNegative [] k change c n = tt
update-NonNegative ((j, b) ∷ m) k change c n = elim (Bool-cases (text_beq j k)) [
  | inl hit ↦ rw hit (c b, n.1)
  | inr miss ↦ rw miss (n.0, update-NonNegative m k change c n.1)
]

clamp-nonneg : (tokens : ℤ) → pos 0 ≤ℤ clamp tokens
clamp-nonneg tokens = ground arith

module _ {F : Type 0} where
  -- All the tokens in wallets.
  unfoldable pub funds : Db F → ℤ
  funds db = total db.buyer_billing +ℤ total db.seller_billing

  -- No wallet is below zero, and the sum of all wallets is one that an `int64` holds.
  pub record IsSound (db : Db F) : Type 0 where
    pub buyers : NonNegative db.buyer_billing
    pub sellers : NonNegative db.seller_billing
    pub bounded : funds db ≤ℤ pos max64

  -- The amounts of a settlement do not wrap.
  pub exact_amounts :
      (buyer seller : Text) (tokens : ℤ) (b s : Billing) (db : Db F)
      → IsSound db
      → pos 0 ≤ℤ tokens
      → get db.buyer_billing buyer ≡ some b
      → get db.seller_billing seller ≡ some s
      → tokens ≤ℤ b.wallet_balance
      → (sub64 b.wallet_balance tokens ≡ b.wallet_balance -ℤ tokens)
        × (add64 s.wallet_balance tokens ≡ s.wallet_balance +ℤ tokens)
  unfolding funds
  exact_amounts buyer seller tokens b s db sound low eb es enough = (
    sub64_exact b.wallet_balance tokens (
        Fits64-of_nonneg (b.wallet_balance -ℤ tokens) (omega int_laws)
          (omega (int_laws, from_buyer, from_seller, sound.bounded, seller_total))),
    add64_exact s.wallet_balance tokens (
        Fits64-of_nonneg (s.wallet_balance +ℤ tokens) (omega (int_laws, from_seller))
          (omega (int_laws, from_buyer, from_seller, sound.bounded))),
  )
    where
      from_buyer : (pos 0 ≤ℤ b.wallet_balance) × (b.wallet_balance ≤ℤ total db.buyer_billing)
      from_buyer = wallet-le-total db.buyer_billing buyer b sound.buyers eb

      from_seller : (pos 0 ≤ℤ s.wallet_balance) × (s.wallet_balance ≤ℤ total db.seller_billing)
      from_seller = wallet-le-total db.seller_billing seller s sound.sellers es

      seller_total : pos 0 ≤ℤ total db.seller_billing
      seller_total = total-nonneg db.seller_billing sound.sellers

  moved-IsSound :
      (tid1 tid2 buyer seller request : Text) (tokens : ℤ) (b s : Billing) (db : Db F)
      → IsSound db
      → pos 0 ≤ℤ tokens
      → get db.buyer_billing buyer ≡ some b
      → get db.seller_billing seller ≡ some s
      → tokens ≤ℤ b.wallet_balance
      → let after = moved tid1 tid2 buyer seller request tokens b s db in
        IsSound after × (funds after ≡ funds db)
  unfolding moved funds
  moved-IsSound tid1 tid2 buyer seller request tokens b s db sound pos_tokens eb es enough = (
    record {
      buyers =
          update-NonNegative db.buyer_billing buyer (set_balance paid _)
            (λ _. omega (int_laws, to_parts exact.0)) sound.buyers;
      sellers =
          update-NonNegative db.seller_billing seller (set_balance earned _)
            (λ _. omega (int_laws, to_parts exact.1, from_seller)) sound.sellers;
      bounded = rw same sound.bounded;
    },
    same,
  )
    where
      paid : ℤ
      paid = sub64 b.wallet_balance tokens

      earned : ℤ
      earned = add64 s.wallet_balance tokens

      from_seller : (pos 0 ≤ℤ s.wallet_balance) × (s.wallet_balance ≤ℤ total db.seller_billing)
      from_seller = wallet-le-total db.seller_billing seller s sound.sellers es

      exact : (paid ≡ b.wallet_balance -ℤ tokens) × (earned ≡ s.wallet_balance +ℤ tokens)
      exact = exact_amounts buyer seller tokens b s db sound pos_tokens eb es enough

      same :
          total (update db.buyer_billing buyer (set_balance paid (add64 b.tokens_used tokens)))
            +ℤ total
                (update db.seller_billing seller (set_balance earned (add64 s.tokens_used tokens)))
          ≡ total db.buyer_billing +ℤ total db.seller_billing
      same = omega (
        int_laws,
        total-update db.buyer_billing buyer b (set_balance paid (add64 b.tokens_used tokens)) eb,
        total-update db.seller_billing seller s (set_balance earned (add64 s.tokens_used tokens))
            es,
        to_parts exact.0,
        to_parts exact.1,
      )

  -- A database is sound and holds the tokens that another held.
  abbrev pub Conserves : Db F → Db F → Type 0
  Conserves before after = IsSound after × (funds after ≡ funds before)

  Transfer-Conserves :
      (tid1 tid2 buyer seller request : Text) (tokens : ℤ) (db after : Db F)
      → IsSound db
      → pos 0 ≤ℤ tokens
      → Transfer tid1 tid2 buyer seller request tokens db after
      → Conserves db after
  Transfer-Conserves tid1 tid2 buyer seller request tokens db after sound low t =
      subst (Conserves db) (sym t.result) (
        moved-IsSound tid1 tid2 buyer seller request tokens t.b t.s db sound low t.buyer_row
          t.seller_row t.enough)

  mark_settled-Conserves :
      (request : Text) (db : Db F) → IsSound db → Conserves db (mark_settled request db)
  unfolding funds
  mark_settled-Conserves request db sound =
      (record { buyers = sound.buyers; sellers = sound.sellers; bounded = sound.bounded }, refl)

  match_outcome-Conserves :
      (tid1 tid2 buyer request : Text) (tokens : ℤ) (success : Bool) (db after : Db F)
      (m : InferenceMatch)
      → IsSound db
      → pos 0 ≤ℤ tokens
      → match_outcome tid1 tid2 buyer request tokens success db m ≡ ok after
      → Conserves db after
  unfolding match_outcome
  match_outcome-Conserves tid1 tid2 buyer request tokens success db after m sound low h =
      elim (Bool-cases m.settled) [
        | inl e ↦ subst (Conserves db) (ground arith) (sound, refl)
        | inr e ↦ elim (Bool-cases (not success || beq_ℤ tokens (pos 0))) [
          | inl free ↦ subst (Conserves db) (ground arith) (mark_settled-Conserves request db sound)
          | inr paid ↦
              Transfer-Conserves tid1 tid2 buyer m.seller_id request tokens db after sound low (
                transfer_outcome-ok tid1 tid2 buyer m.seller_id request tokens db after
                  (ground arith))
        ]
      ]

  Settles-Conserves :
      (tid1 tid2 buyer request : Text) (tokens : ℤ) (success : Bool) (db after : Db F)
      → IsSound db
      → Settles tid1 tid2 buyer request tokens success db after
      → Conserves db after
  unfolding settle_outcome
  Settles-Conserves tid1 tid2 buyer request tokens success db after sound h =
      elim (Option-cases (match_of buyer request db)) [
        | inl e ↦ absurd (cc (e, h))
        | inr (m, e) ↦
            match_outcome-Conserves tid1 tid2 buyer request (clamp tokens) success db after m sound
              (clamp-nonneg tokens) (rw e at h)
      ]

  -- From a sound database, a call of SettleInferenceMatch leaves a sound database with the same
  -- tokens in wallets, whatever it returns and whatever statements and replies fail.
  pub settle-Conserves :
      (tid1 tid2 buyer request : Text) (tokens : ℤ) (success : Bool) (s : Session (Db F))
      → IsSound s.db
      → Conserves s.db (settle_inference_match tid1 tid2 buyer request tokens success s).1.db
  settle-Conserves tid1 tid2 buyer request tokens success s sound =
      elim (settle_either tid1 tid2 buyer request tokens success s).0 [
        | inl kept ↦ subst (Conserves s.db) (sym kept) (sound, refl)
        | inr done ↦ Settles-Conserves tid1 tid2 buyer request tokens success s.db _ sound done
      ]
