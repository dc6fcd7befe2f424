-- ===== src/Control/Accounts/Half.antt =====
-- postgres.go: RegisterBuyer runs two statements without a transaction.
use knowledge_mesh.Base.{
  ◌≡◌, false, Option, none, some, List, ◌∷◌, Bool-cases, any, refl, ◌∙◌, inl, inr, Bool, true, [],
  arith,
}
use knowledge_mesh.Base.Assoc.{get, Assoc, put, get-put}
use knowledge_mesh.Base.Result.{err}
use knowledge_mesh.Base.Text.{Text, trim_space, is_empty, text_beq_refl, to_lower, equal_fold}
use knowledge_mesh.Control.Accounts.{
  clean_email, buyer_row, buyer_email_taken, register_buyer, or_raise, with_buyer, insert_buyer,
  init_buyer_billing,
}
use knowledge_mesh.Control.Db.{Db, BuyerUser}
use knowledge_mesh.Control.Matching.{present}
use knowledge_mesh.Control.Session.{
  buyer_exists, database, Fault, works, fails, ◌>>=◌, ◌>>◌, Session, pure, statement, refuse_when,
}
use knowledge_mesh.Control.Session.Faultless.{fresh}

any-put :
    (test : BuyerUser → Bool) (m : Assoc BuyerUser) (k : Text) (v : BuyerUser)
    → test v ≡ true
    → any (λ (row : Text × BuyerUser). test row.1) (put m k v) ≡ true
unfolding put
any-put test [] k v h = rw h refl
any-put test ((j, w) ∷ m) k v h = ground (arith, h, any-put test m k v h)

module _ {F : Type 0} where
  insert_taken :
      (id : Text) (row : BuyerUser) (db : Db F)
      → buyer_email_taken row.email db ≡ true
      → insert_buyer id row db ≡ (err buyer_exists, db)
  unfolding insert_buyer
  insert_taken id row db h = elim (Bool-cases (present (get db.buyer_users id))) [
    | inl there ↦ rw there refl
    | inr new ↦ rw new (rw h refl)
  ]

module _ {F : Type 0} (hash_of : Text → Option Text) where
  -- A registration in order, up to its first statement.
  to_insert :
      (id name email password hash : Text) (s : Session (Db F))
      → is_empty (trim_space name) ≡ false
      → is_empty (clean_email email) ≡ false
      → is_empty password ≡ false
      → hash_of password ≡ some hash
      → register_buyer hash_of id name email password s
        ≡ (statement (insert_buyer id (buyer_row name email hash))
              >> (init_buyer_billing id >> pure id))
            s
  unfolding register_buyer ◌>>=◌ refuse_when or_raise pure
  to_insert id name email password hash s n e p h = rw n (rw e (rw p (rw h refl)))

  stopped :
      (id : Text) (row : BuyerUser) (plan : List Fault) (db : Db F)
      → get db.buyer_users id ≡ none
      → buyer_email_taken row.email db ≡ false
      → (statement (insert_buyer id row) >> (init_buyer_billing id >> pure id))
          (record { db = db; plan = works ∷ fails ∷ plan })
        ≡ (err database, record { db = with_buyer id row db; plan = plan })
  unfolding ◌>>=◌ statement insert_buyer init_buyer_billing
  stopped id row plan db new free = rw new (rw free refl)

  refused :
      (id : Text) (row : BuyerUser) (db : Db F)
      → buyer_email_taken row.email db ≡ true
      → ((statement (insert_buyer id row) >> (init_buyer_billing id >> pure id)) (fresh db)).0
        ≡ err buyer_exists
  unfolding ◌>>=◌ statement
  refused id row db h = rw (insert_taken id row db h) refl

  -- When the second statement of a registration that is otherwise in order fails, the call reports an
  -- error and the buyer's account stays without a row in buyer_billing; a second registration of the
  -- same e-mail address, with no fault, is then refused because the buyer exists.
  pub register_buyer_half :
      (id id2 name email password hash : Text) (plan : List Fault) (db : Db F)
      → is_empty (trim_space name) ≡ false
      → is_empty (clean_email email) ≡ false
      → is_empty password ≡ false
      → hash_of password ≡ some hash
      → get db.buyer_users id ≡ none
      → get db.buyer_billing id ≡ none
      → buyer_email_taken (clean_email email) db ≡ false
      → let r =
          register_buyer hash_of id name email password
            (record { db = db; plan = works ∷ fails ∷ plan }) in
        (r.0 ≡ err database)
        × (get r.1.db.buyer_users id ≡ some (buyer_row name email hash))
        × (get r.1.db.buyer_billing id ≡ none)
        × ((register_buyer hash_of id2 name email password (fresh r.1.db)).0 ≡ err buyer_exists)
  register_buyer_half id id2 name email password hash plan db n e p h new unpaid free =
      let row = buyer_row name email hash in
      let run =
        to_insert id name email password hash (record { db = db; plan = works ∷ fails ∷ plan }) n e
          p h
        ∙ stopped id row plan db new free in
      rw run
        (refl, rw (get-put db.buyer_users id row id) (rw (text_beq_refl id) refl), unpaid, again)
    where
      again :
          (register_buyer hash_of id2 name email password
            (fresh (with_buyer id (buyer_row name email hash) db))).0
          ≡ err buyer_exists
      again =
          rw
            (to_insert id2 name email password hash
              (fresh (with_buyer id (buyer_row name email hash) db)) n e p h)
            (refused id2 (buyer_row name email hash) (with_buyer id (buyer_row name email hash) db)
              (any-put (λ (u : BuyerUser). equal_fold u.email (clean_email email)) db.buyer_users id
                (buyer_row name email hash) (text_beq_refl (to_lower (clean_email email)))))
