-- ===== src/Buyer/Overlap.antt =====
-- internal/buyer/state.go: two calls of ConsumeUsage that overlap.
use knowledge_mesh.Base.{◌≡◌, refl, sym, ap, ◌∙◌, some, [], ◌∷◌, ◌++◌}
use knowledge_mesh.Base.Assoc.{get, put, get-put}
use knowledge_mesh.Base.Result.{ok, ok_injective}
use knowledge_mesh.Base.Text.{text_beq_refl, to_lower}
use knowledge_mesh.Buyer.{RequestRecord, State, BuyerAccount, Store, updated}
use knowledge_mesh.Buyer.Limits.{save-outcome}
use knowledge_mesh.Buyer.Manager.{record_request, write_usage}
use mathlib.Core.Path.{subst}

module _ {F : Type 0} where
  -- Both calls have read the account before either writes it: the second write takes back the first.
  overlap_loses :
      (first second : RequestRecord F) (s : Store F) (account : BuyerAccount F) {st st' : State F}
      {s' s'' : Store F}
      → get s.by_username (to_lower account.username) ≡ some account
      → write_usage first account s ≡ ok (st, s')
      → write_usage second account s' ≡ ok (st', s'')
      → (get s''.by_username (to_lower account.username) ≡ some (record account { state = st' }))
        × (st'.request_history ≡ account.state.request_history ++ (second ∷ []))
  unfolding record_request
  overlap_loses first second s account {st} {st'} {s'} {s''} at h1 h2 =
      let written1 = record account { state = record_request first account.state } in
      let written2 = record account { state = record_request second account.state } in
      let key = to_lower account.username in
      let e1 : updated written1 s ≡ s' =
        ap (λ (r : State F × Store F). r.1)
          (ok_injective (sym (save-outcome written1 account s at) ∙ h1)) in
      let at' : get (updated written1 s).by_username key ≡ some written1 =
        rw (get-put s.by_username key written1 key) (rw (text_beq_refl key) refl) in
      let out : ok (record_request second account.state, updated written2 (updated written1 s))
          ≡ ok (st', s'') =
        sym (save-outcome written2 written1 (updated written1 s) at') ∙ (rw e1 h2) in
      let pair = ok_injective out in
      subst
        (λ (r : State F × Store F).
          (get (r.1).by_username key ≡ some (record account { state = r.0 }))
          × ((r.0).request_history ≡ account.state.request_history ++ (second ∷ [])))
        pair
        (
          rw (get-put (put s.by_username key written1) key written2 key)
              (rw (text_beq_refl key) refl),
          refl,
        )
