-- ===== src/Control/Http/Funds.antt =====
-- internal/control: the tokens in the wallets under any request.
use knowledge_mesh.Base.{
  Bool-cases, Option-cases, ℕ, ◌≡◌, refl, ◌∙◌, inl, inr, Bool, true, false, none, [], ◌∷◌, arith,
}
use knowledge_mesh.Base.Assoc.{Assoc, get, put}
use knowledge_mesh.Base.Float.{Float}
use knowledge_mesh.Base.Int.{pos, ◌+ℤ◌, ◌≤ℤ◌, int_laws, ◌≈ℤ◌}
use knowledge_mesh.Base.Text.{Text, text_beq}
use knowledge_mesh.Control.Accounts.{put_new}
use knowledge_mesh.Control.Billing.Funds.{
  total, NonNegative, funds, IsSound, Conserves, settle-Conserves,
}
use knowledge_mesh.Control.Db.{Billing, Db}
use knowledge_mesh.Control.Http.Frame.{Actor, new_buyer, actor}
use knowledge_mesh.Control.Http.Frame.Allowed.{Allows}
use knowledge_mesh.Control.Http.Frame.Calls.{serve-Keeps}
use knowledge_mesh.Control.Http.Routes.{Call, HttpServer, serve}
use knowledge_mesh.Control.Sellers.{delete_models}
use knowledge_mesh.Control.Session.{Session}
use knowledge_mesh.Control.Session.Frame.{IsPreorder}

total-put :
    (m : Assoc Billing) (k : Text) (b : Billing)
    → get m k ≡ none
    → total (put m k b) ≈ℤ total m +ℤ b.wallet_balance
unfolding get put
total-put [] k b h = omega int_laws
total-put ((j, c) ∷ m) k b h = elim (Bool-cases (text_beq j k)) [
  | inl hit ↦ absurd (ground arith)
  | inr miss ↦ rw miss (omega (int_laws, total-put m k b (ground arith)))
]

put-NonNegative :
    (m : Assoc Billing) (k : Text) (b : Billing)
    → pos 0 ≤ℤ b.wallet_balance
    → NonNegative m
    → NonNegative (put m k b)
unfolding put
put-NonNegative [] k b low n = (low, tt)
put-NonNegative ((j, c) ∷ m) k b low n = elim (Bool-cases (text_beq j k)) [
  | inl hit ↦ rw hit (low, n.1)
  | inr miss ↦ rw miss (n.0, put-NonNegative m k b low n.1)
]

-- A new row with an empty wallet.
abbrev empty_wallet : Billing
empty_wallet = record { wallet_balance = pos 0; token_quota = pos 10000000; tokens_used = pos 0 }

total-put_new : (m : Assoc Billing) (k : Text) → total (put_new m k empty_wallet) ≡ total m
total-put_new m k = elim (Option-cases (get m k)) [
  | inl new ↦ rw new (omega (int_laws, total-put m k empty_wallet new))
  | inr (b, there) ↦ rw there refl
]

put_new-NonNegative :
    (m : Assoc Billing) (k : Text) → NonNegative m → NonNegative (put_new m k empty_wallet)
put_new-NonNegative m k n = elim (Option-cases (get m k)) [
  | inl new ↦ rw new (put-NonNegative m k empty_wallet (omega arith) n)
  | inr (b, there) ↦ rw there n
]

module _ {F : Type 0} where
  record SoundKept (before after : Db F) : Type 0 where
    holds : IsSound before → Conserves before after

  instance abbrev SoundKept-IsPreorder : IsPreorder SoundKept
  SoundKept-IsPreorder = record {
    same = λ a. record { holds = λ sound. (sound, refl) };
    next = λ a b c h k. record {
      holds = λ sound.
          ((k.holds (h.holds sound).0).0, (k.holds (h.holds sound).0).1 ∙ (h.holds sound).1);
    };
  }

  -- A write that leaves both tables of wallets alone.
  other_table-SoundKept :
      (before after : Db F)
      → after.buyer_billing ≡ before.buyer_billing
      → after.seller_billing ≡ before.seller_billing
      → SoundKept before after
  unfolding funds
  other_table-SoundKept before after e1 e2 = record {
    holds = λ sound. (
      record {
        buyers = rw e1 sound.buyers;
        sellers = rw e2 sound.sellers;
        bounded = rw (e1, e2) sound.bounded;
      },
      rw (e1, e2) refl,
    );
  }

  opened-SoundKept :
      (db : Db F) (id : Text)
      → SoundKept db (record db { seller_billing = put_new db.seller_billing id empty_wallet })
  unfolding funds
  opened-SoundKept db id = record {
    holds = λ sound. (
      record {
        buyers = sound.buyers;
        sellers = put_new-NonNegative db.seller_billing id sound.sellers;
        bounded = rw (total-put_new db.seller_billing id) sound.bounded;
      },
      rw (total-put_new db.seller_billing id) refl,
    );
  }

abbrev pub makes_buyer : Actor → Bool
makes_buyer (new_buyer id) = true
makes_buyer _ = false

module _ {F : Type 0} where
  SoundKept-Allows : (who : Actor) → makes_buyer who ≡ false → Allows (SoundKept {F = F}) who
  unfolding delete_models
  SoundKept-Allows who n = record {
    ledger = λ db t. other_table-SoundKept _ _ refl refl;
    matching = λ db request row. other_table-SoundKept _ _ refl refl;
    settling = λ tid1 tid2 buyer request tokens success e. record {
      kept = λ s. record { holds = settle-Conserves tid1 tid2 buyer request tokens success s };
    };
    changing = λ seller change e same db. other_table-SoundKept _ _ refl refl;
    deleting = λ seller e db. other_table-SoundKept _ _ refl refl;
    adding = λ seller e db m. other_table-SoundKept _ _ refl refl;
    joining_buyer = λ id e db row. other_table-SoundKept _ _ refl refl;
    opening_buyer = λ id e db row. absurd (cc (e, n));
    joining_seller = λ id e db row i. other_table-SoundKept _ _ refl refl;
    opening_seller = λ id e db. opened-SoundKept db id;
  }

module _ {F : Type 0} ⦃f : Float F⦄ where
  -- From a sound database, any request that does not register a buyer leaves a sound database with the
  -- same sum of all wallets, whatever goes wrong.
  pub serve-Conserves :
      (pane : HttpServer F) (uuid : ℕ → Text) (c : Call F) (s : Session (Db F))
      → IsSound s.db
      → makes_buyer (actor pane uuid c) ≡ false
      → Conserves s.db (serve pane uuid c s).1.db
  serve-Conserves pane uuid c s sound n =
      ((serve-Keeps pane uuid c (SoundKept-Allows (actor pane uuid c) n)).kept s).holds sound
