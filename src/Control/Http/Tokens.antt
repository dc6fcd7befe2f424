-- ===== src/Control/Http/Tokens.antt =====
-- jwt.go, jwt_seller.go and http_auth.go: the tokens of buyers and sellers. Signing and checking of a JWT
-- are golang-jwt's and parameters; a claim that a token does not have is the empty text.
use knowledge_mesh.Base.{
  ltb, if◌then◌else◌, length, ℕ, zero, suc, not, ◌&&◌, ◌||◌, Option, none, some, [], ◌∷◌,
}
use knowledge_mesh.Base.Text.{Text, codes, text_beq, equal_fold, trim_space, is_empty}

-- buyerClaims and sellerClaims in one record: `bid` is a buyer's id, `sid` a seller's.
pub record Claims : Type 0 where
  pub bid : Text
  pub sid : Text
  pub name : Text
  pub email : Text
  pub kind : Text
  pub subject : Text

-- The library for HS256: what it signs for a secret, and the claims of a token that it accepts.
pub record Jwt : Type 0 where
  pub signed : Text → Claims → Option Text
  pub accepted : Text → Text → Option Claims

module _ (jwt : Jwt) where
  unfoldable pub issue_buyer_token : Text → Text → Text → Text → Option Text
  issue_buyer_token secret id email name =
      if is_empty secret
      then none
      else jwt.signed secret (record {
        bid = id;
        sid = [];
        name = name;
        email = email;
        kind = codes "buyer";
        subject = id;
      })

  unfoldable pub issue_seller_token : Text → Text → Text → Text → Option Text
  issue_seller_token secret id email name =
      if is_empty secret
      then none
      else jwt.signed secret (record {
        bid = [];
        sid = id;
        name = name;
        email = email;
        kind = codes "seller";
        subject = id;
      })

  -- The id of the claims, or else their subject.
  abbrev pub id_or_subject : Text → Claims → Text
  id_or_subject id c = if is_empty id then c.subject else id

  abbrev pub buyer_of_claims : Option Claims → Option Text
  buyer_of_claims none = none
  buyer_of_claims (some c) =
      if not (is_empty c.kind) && not (text_beq c.kind (codes "buyer"))
      then none
      else some (id_or_subject c.bid c)

  abbrev pub seller_of_claims : Option Claims → Option Text
  seller_of_claims none = none
  seller_of_claims (some c) =
      if not (text_beq c.kind (codes "seller")) then none else some (id_or_subject c.sid c)

  -- ParseBuyerToken and ParseSellerToken, of whose answers the handlers read the id.
  unfoldable pub parse_buyer_token : Text → Text → Option Text
  parse_buyer_token secret token =
      if is_empty secret || is_empty token
      then none
      else buyer_of_claims (jwt.accepted secret token)

  unfoldable pub parse_seller_token : Text → Text → Option Text
  parse_seller_token secret token =
      if is_empty secret || is_empty token
      then none
      else seller_of_claims (jwt.accepted secret token)

abbrev pub take : ℕ → Text → Text
take n [] = []
take zero (c ∷ s) = []
take (suc n) (c ∷ s) = c ∷ take n s

abbrev pub drop : ℕ → Text → Text
drop n [] = []
drop zero (c ∷ s) = c ∷ s
drop (suc n) (c ∷ s) = drop n s

unfoldable pub bearer_token : Text → Text
bearer_token header =
    let h = trim_space header in
    if ltb 7 (length h) && equal_fold (take 7 h) (codes "bearer ")
    then trim_space (drop 7 h)
    else []
