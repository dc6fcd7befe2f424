-- ===== src/Api/Node.antt =====
-- internal/api/server.go and internal/mesh/runtime.go: the server of a node, whose runtime is that of
-- internal/mesh over the store of the buyer manager.
use knowledge_mesh.Api.{MeshRuntime}
use knowledge_mesh.Api.Server.{ApiServer}
use knowledge_mesh.Base.{ℕ, Bool, true, false, some}
use knowledge_mesh.Base.Float.{Float}
use knowledge_mesh.Base.Int.{ℤ}
use knowledge_mesh.Base.Result.{Result, ok, err}
use knowledge_mesh.Base.Text.{Text}
use knowledge_mesh.Buyer.{invalid_session, Preferences, State, Store}
use knowledge_mesh.Mesh.Runtime.{
  Remote, RunError, of_buyer, runtime_register, runtime_login, run_inference,
}

-- What a runtime is given: the time, the id for a request without one, and the texts of the errors.
pub record Node (F : Type 0) : Type 0 where
  pub remote : Remote F
  pub hash : Text → Text
  pub no_preferences : Preferences F
  pub now : ℕ
  pub new_id : Text
  pub error_text : RunError → Text

-- errors.Is(err, buyer.ErrInvalidSession)
abbrev pub is_invalid : RunError → Bool
is_invalid (of_buyer invalid_session) = true
is_invalid _ = false

-- The ids of the state that a login returns.
abbrev pub ids_of : {F : Type 0} → Result RunError (State F) → Result RunError (Text × Text)
ids_of (ok st) = ok (st.session_id, st.buyer_id)
ids_of (err e) = err e

module _ {F : Type 0} ⦃f : Float F⦄ where
  unfoldable pub node_runtime : Node F → MeshRuntime (Store F) RunError F
  node_runtime node = record {
    run_inference = λ session req s.
        let o = run_inference node.remote session req node.now node.new_id s in (o.answer, o.store);
    register = λ name email password s. (runtime_register node.remote name email password, s);
    login = λ user password s.
        let r = runtime_login node.hash node.no_preferences node.remote user password s in
        (ids_of r.0, r.1);
    is_invalid_session = is_invalid;
    error_text = node.error_text;
  }

  abbrev pub node_server : Node F → Text → ℤ → ApiServer (Store F) RunError F
  node_server node unix_nano unix = record {
    mesh = some (node_runtime node);
    unix_nano = unix_nano;
    unix = unix;
  }
