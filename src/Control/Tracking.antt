-- ===== src/Control/Tracking.antt =====
-- postgres_billing.go: the entries that track an inference without moving tokens, and the seller of a
-- match. A JSON object is its members, of which the last with a name counts.
use mathlib.Core.Option
use knowledge_mesh.Base.{Bool, [], ◌∷◌}
use knowledge_mesh.Base.Assoc.{Assoc, get, put}
use knowledge_mesh.Base.Int.{ℤ, pos}
use knowledge_mesh.Base.Text.{Text, codes}
use knowledge_mesh.Control.Billing.{
  select_row, write, buyer_snapshot, seller_snapshot, insert_transaction,
}
use knowledge_mesh.Control.Db.{
  Json, text, num, flag, buyer_party, seller_party, inference_tracking, InferenceMatch, Db,
}
use knowledge_mesh.Control.Session.{◌>>=◌, match_not_found, Exec}

abbrev pub json_fields : Assoc Json → Assoc Json → Assoc Json
json_fields details [] = details
json_fields details ((k, v) ∷ meta) = json_fields (put details k v) meta

module _ {F : Type 0} where
  -- AppendBuyerInferenceTracking
  unfoldable pub append_buyer_tracking :
      Text → Text → Text → Text → Assoc Json → Exec (Db F) (Unit {0})
  unfolding buyer_snapshot
  append_buyer_tracking id buyer request phase meta = do
    snap ← buyer_snapshot buyer
    write (
        insert_transaction (record {
          id = id;
          party_kind = buyer_party;
          party_id = buyer;
          tx_type = inference_tracking;
          amount = pos 0;
          balance_after = snap.wallet_balance;
          details =
              json_fields ((codes "requestId", text request) ∷ (codes "phase", text phase) ∷ [])
                meta;
        }))

  -- GetInferenceMatchSeller
  unfoldable pub get_match_seller : Text → Exec (Db F) Text
  get_match_seller request =
      select_row match_not_found
        λ db. Option.map (λ (m : InferenceMatch). m.seller_id) (get db.matches request)

  -- AppendSellerInferenceTracking
  unfoldable pub append_seller_tracking :
      Text → Text → Text → ℤ → Bool → Assoc Json → Exec (Db F) (Unit {0})
  unfolding seller_snapshot
  append_seller_tracking id seller request tokens success meta = do
    snap ← seller_snapshot seller
    write (
        insert_transaction (record {
          id = id;
          party_kind = seller_party;
          party_id = seller;
          tx_type = inference_tracking;
          amount = pos 0;
          balance_after = snap.wallet_balance;
          details =
              json_fields
                ((codes "requestId", text request)
                  ∷ (codes "totalTokens", num tokens)
                  ∷ (codes "success", flag success)
                  ∷ [])
                meta;
        }))
