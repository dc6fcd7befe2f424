-- ===== src/Buyer/Steps.antt =====
-- internal/buyer/state.go: the histories of a store, from the empty one by the manager's methods.
use knowledge_mesh.Base.{ℕ, ◌≡◌}
use knowledge_mesh.Base.Int.{ℤ}
use knowledge_mesh.Base.Result.{ok}
use knowledge_mesh.Base.Text.{Text}
use knowledge_mesh.Buyer.{Preferences, RequestRecord, State, Store, new_store}
use knowledge_mesh.Buyer.Manager.{
  update_preferences, set_limits, reset_hourly, reset_daily, consume_usage, register, login,
  establish_control_session,
}

module _ {F : Type 0} (hash : Text → Text) (no_preferences : Preferences F) where
  -- One call that succeeds. A call that fails leaves the store as it was.
  pub data Step : Store F → Store F → Type 0 where
    registers :
        {s s' : Store F} {st : State F}
        → (email username password : Text)
        → register hash no_preferences email username password s ≡ ok (st, s')
        → Step s s'
    logs_in :
        {s s' : Store F} {st : State F}
        → (user password stamp : Text)
        → login hash no_preferences user password stamp s ≡ ok (st, s')
        → Step s s'
    establishes :
        {s s' : Store F} {st : State F}
        → (name email buyer token : Text)
        → establish_control_session hash no_preferences name email buyer token s ≡ ok (st, s')
        → Step s s'
    prefers :
        {s s' : Store F} {st : State F}
        → (session : Text) (prefs : Preferences F)
        → update_preferences session prefs s ≡ ok (st, s')
        → Step s s'
    sets_limits :
        {s s' : Store F} {st : State F}
        → (session : Text) (hourly daily total : ℤ)
        → set_limits session hourly daily total s ≡ ok (st, s')
        → Step s s'
    consumes :
        {s s' : Store F} {st : State F}
        → (session : Text) (request : RequestRecord F)
        → consume_usage session request s ≡ ok (st, s')
        → Step s s'
    starts_hour :
        {s s' : Store F} {st : State F}
        → (session : Text) (now : ℕ) → reset_hourly session now s ≡ ok (st, s')
        → Step s s'
    starts_day :
        {s s' : Store F} {st : State F}
        → (session : Text) (now : ℕ) → reset_daily session now s ≡ ok (st, s')
        → Step s s'

  pub data Reachable : Store F → Type 0 where
    starts_empty : Reachable new_store
    moves : {s s' : Store F} → Reachable s → Step s s' → Reachable s'
