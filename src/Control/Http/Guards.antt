-- ===== src/Control/Http/Guards.antt =====
-- internal/control: tokens, and requests without one that the handlers accept.
use knowledge_mesh.Base.{
  if◌then◌else◌, Bool-cases, ℕ, ◌≡◌, refl, ap, ◌⊎◌, inl, inr, Bool, true, false, Option, none, some,
  arith,
}
use knowledge_mesh.Base.Float.{Float}
use knowledge_mesh.Base.Result.{Result, err}
use knowledge_mesh.Base.Text.{Text, text_beq, is_empty}
use knowledge_mesh.Control.Db.{Db}
use knowledge_mesh.Control.Http.{◌>>=◌, Serve, answer, refuse, proceed, or_refuse, require}
use knowledge_mesh.Control.Http.Buyers.{
  authorized_buyer, handle_buyer_tracking, handle_buyer_complete, handle_buyer_match,
}
use knowledge_mesh.Control.Http.Frame.{nobody, buyer_actor, seller_actor, actor}
use knowledge_mesh.Control.Http.Routes.{
  Call, buyer_register, seller_register, buyer_login, seller_login, buyer_match, buyer_tracking,
  buyer_complete, seller_tracking, seller_me, seller_duty, seller_models_put, seller_model_patch,
  seller_presence, seller_ollama, HttpServer, serve,
}
use knowledge_mesh.Control.Http.Sellers.{
  authorized_seller, handle_seller_me, handle_seller_duty, handle_seller_models_put,
  handle_seller_model_patch, handle_seller_presence, handle_seller_ollama, handle_seller_tracking,
}
use knowledge_mesh.Control.Http.Tokens.{
  Claims, Jwt, issue_buyer_token, issue_seller_token, parse_buyer_token, parse_seller_token,
  bearer_token,
}
use knowledge_mesh.Control.Session.{Session}

-- What golang-jwt is used for: within its time, a token that was signed with a secret is not empty, and is
-- accepted with the same secret and gives the claims that were signed.
pub record IsFaithful (jwt : Jwt) : Type 0 where
  pub round_trip :
      (secret : Text) (c : Claims) (token : Text)
      → jwt.signed secret c ≡ some token
      → jwt.accepted secret token ≡ some c
  pub not_empty :
      (secret : Text) (c : Claims) (token : Text)
      → jwt.signed secret c ≡ some token
      → is_empty token ≡ false

module _ (jwt : Jwt) (faithful : IsFaithful jwt) (secret id email name token : Text) where
  id_or_same : (if is_empty id then id else id) ≡ id
  id_or_same = ground arith

  secret_given :
      {o : Option Text}
      → (if is_empty secret then none else o) ≡ some token
      → (is_empty secret ≡ false) × (o ≡ some token)
  secret_given h = ground arith

  -- If the JWT library gives back what it signed, a token that was issued for a buyer is a token of that
  -- buyer, and none of a seller.
  pub issue_buyer-parse :
      issue_buyer_token jwt secret id email name ≡ some token
      → (parse_buyer_token jwt secret token ≡ some id)
        × (parse_seller_token jwt secret token ≡ none)
  unfolding issue_buyer_token parse_buyer_token parse_seller_token text_beq
  issue_buyer-parse h =
      let (given, signed) = secret_given h in
      let e = faithful.round_trip secret _ token signed in
      let n = faithful.not_empty secret _ token signed in
      (rw (given, n, e) (ap some id_or_same), rw (given, n, e) refl)

  -- A token of a seller is one for that seller, and none for a buyer.
  pub issue_seller-parse :
      issue_seller_token jwt secret id email name ≡ some token
      → (parse_seller_token jwt secret token ≡ some id)
        × (parse_buyer_token jwt secret token ≡ none)
  unfolding issue_seller_token parse_buyer_token parse_seller_token text_beq
  issue_seller-parse h =
      let (given, signed) = secret_given h in
      let e = faithful.round_trip secret _ token signed in
      let n = faithful.not_empty secret _ token signed in
      (rw (given, n, e) (ap some id_or_same), rw (given, n, e) refl)

module _ {S A : Type 0} where
  -- Refused by its method or its token, with the database untouched.
  abbrev pub IsRejected : Result ℕ A × Session S → Session S → Type 0
  IsRejected r s = (r ≡ (err 405, s)) ⊎ (r ≡ (err 401, s))

  gate-IsRejected :
      (allowed : Bool) (o : Option Text) (k : Text → Serve S A) (s : Session S)
      → o ≡ none
      → IsRejected ((require allowed 405 >>= λ (_ : Unit {0}). or_refuse o 401 >>= k) s) s
  unfolding ◌>>=◌ require or_refuse proceed answer refuse
  gate-IsRejected false o k s e = inl refl
  gate-IsRejected true o k s e = rw e (inr refl)

module _ {F A : Type 0} (jwt : Jwt) (secret authorization : Text) where
  buyer_gate-IsRejected :
      (allowed : Bool) (k : Text → Serve (Db F) A) (s : Session (Db F))
      → parse_buyer_token jwt secret (bearer_token authorization) ≡ none
      → IsRejected
          ((require allowed 405 >>= λ (_ : Unit {0}).
              authorized_buyer jwt secret authorization >>= k)
            s)
          s
  unfolding authorized_buyer
  buyer_gate-IsRejected allowed k s e = gate-IsRejected allowed _ k s e

  seller_gate-IsRejected :
      (allowed : Bool) (k : Text → Serve (Db F) A) (s : Session (Db F))
      → parse_seller_token jwt secret (bearer_token authorization) ≡ none
      → IsRejected
          ((require allowed 405 >>= λ (_ : Unit {0}).
              authorized_seller jwt secret authorization >>= k)
            s)
          s
  unfolding authorized_seller ◌>>=◌ require or_refuse proceed answer refuse
  seller_gate-IsRejected false k s e = inl refl
  seller_gate-IsRejected true k s e = elim (Bool-cases (is_empty (bearer_token authorization))) [
    | inl b ↦ rw b (inr refl)
    | inr b ↦ rw (b, e) (inr refl)
  ]

abbrev pub is_login : {F : Type 0} → Call F → Bool
is_login (buyer_login r) = true
is_login (seller_login r) = true
is_login _ = false

module _ {F : Type 0} ⦃f : Float F⦄ (pane : HttpServer F) (uuid : ℕ → Text) where
  no_buyer : (o : Option Text) → buyer_actor pane o ≡ nobody → o ≡ none
  no_buyer none h = refl
  no_buyer (some b) h = cc

  no_seller : (o : Option Text) → seller_actor pane o ≡ nobody → o ≡ none
  no_seller none h = refl
  no_seller (some b) h = cc

  -- A request that is served for nobody, because its token is refused, is answered with 405 or 401 and
  -- touches nothing, unless it is a login.
  pub serve_nobody-IsRejected :
      (c : Call F) (s : Session (Db F))
      → actor pane uuid c ≡ nobody
      → is_login c ≡ false
      → IsRejected (serve pane uuid c s) s
  unfolding serve actor handle_buyer_match handle_buyer_tracking handle_buyer_complete
      handle_seller_tracking handle_seller_me handle_seller_duty handle_seller_models_put
      handle_seller_model_patch handle_seller_presence handle_seller_ollama
  serve_nobody-IsRejected (buyer_register r) s h l = cc
  serve_nobody-IsRejected (seller_register r) s h l = cc
  serve_nobody-IsRejected (buyer_login r) s h l = cc
  serve_nobody-IsRejected (seller_login r) s h l = cc
  serve_nobody-IsRejected (buyer_match r) s h l =
      buyer_gate-IsRejected pane.jwt pane.secret r.authorization _ _ s (no_buyer _ h)
  serve_nobody-IsRejected (buyer_tracking r) s h l =
      buyer_gate-IsRejected pane.jwt pane.secret r.authorization _ _ s (no_buyer _ h)
  serve_nobody-IsRejected (buyer_complete r) s h l =
      buyer_gate-IsRejected pane.jwt pane.secret r.authorization _ _ s (no_buyer _ h)
  serve_nobody-IsRejected (seller_tracking r) s h l = gate-IsRejected _ _ _ s (no_seller _ h)
  serve_nobody-IsRejected (seller_me r) s h l =
      seller_gate-IsRejected pane.jwt pane.secret r.authorization _ _ s (no_seller _ h)
  serve_nobody-IsRejected (seller_duty r) s h l =
      seller_gate-IsRejected pane.jwt pane.secret r.authorization _ _ s (no_seller _ h)
  serve_nobody-IsRejected (seller_models_put r) s h l =
      seller_gate-IsRejected pane.jwt pane.secret r.authorization _ _ s (no_seller _ h)
  serve_nobody-IsRejected (seller_model_patch r) s h l =
      seller_gate-IsRejected pane.jwt pane.secret r.authorization _ _ s (no_seller _ h)
  serve_nobody-IsRejected (seller_presence r) s h l =
      seller_gate-IsRejected pane.jwt pane.secret r.authorization _ _ s (no_seller _ h)
  serve_nobody-IsRejected (seller_ollama r) s h l =
      seller_gate-IsRejected pane.jwt pane.secret r.authorization _ _ s (no_seller _ h)
