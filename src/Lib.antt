-- ===== src/Lib.antt =====
-- Knowledge Mesh: a network in which buyers send inference requests to sellers, and a control pane
-- that matches them and settles in tokens.
--
-- The parts and how they interact. A buyer's node keeps its accounts, sessions and limits in the
-- manager of internal/buyer/state.go. The control pane lists the sellers that can be matched from its
-- PostgreSQL tables, chooses one with internal/matchmaker/matchmaker.go, and records the match. The
-- seller's node answers with one of its backends, after it has counted the tokens in the registry of
-- internal/seller/auth_registry.go. The control pane then settles the match: the buyer's wallet pays
-- the seller's.
--
-- Which file models which part:
--   Types                pkg/types: the records that the parts exchange.
--   Matchmaker           internal/matchmaker/matchmaker.go: match is Service.Match. Matchmaker/Choice has
--                        its theorems.
--   Control/Session      the client of the database: a statement works, fails, or takes effect with a lost
--                        reply, by a plan that is given beforehand; transaction is BEGIN to COMMIT or
--                        ROLLBACK.
--   Control/Db           the tables of internal/control/migrations, as the queries read them.
--   Control/Billing      internal/control/postgres_billing.go: check_can_spend and settle_inference_match
--                        (SettleInferenceMatch); the child modules have the theorems.
--   Control/Matching     postgres_billing.go and postgres_seller.go: list_seller_nodes
--                        (ListSellerNodesForMatch), find_seller_id, insert_inference_match.
--   Control/Accounts     internal/control/postgres.go and postgres_seller.go: the accounts; bcrypt is a
--                        parameter.
--   Control/Sellers      postgres_seller.go: models, duty, presence and backend of a seller.
--   Control/Tracking     postgres_billing.go: the entries that track an inference.
--   Control/Http         internal/control/buyer_http.go, seller_http.go, inference_http.go: a handler
--                        answers with a status or a body and passes the session of the database on;
--                        Http/Tokens has jwt.go and http_auth.go, Http/Routes the requests as values.
--   Control/Frames       what the methods keep of the database, for the theorems on whole requests.
--   Buyer                internal/buyer/state.go: the maps of inMemoryStore and its methods;
--                        Buyer/Manager has the methods of Manager, Buyer/Steps the histories of a store.
--   Seller/Registry      internal/seller/auth_registry.go: the file of the registry and its methods;
--                        Seller/Registry/Command has the changing calls as values.
--   Seller/Sandbox       internal/sandbox/runner.go: one prompt under a time limit.
--   Seller/Engines       internal/seller/engine.go and the engine.go of openai, anthropic and ollama: the
--                        choice of an engine and of a model.
--   Seller/Inference     internal/seller/inference.go and control_node.go: HandleInference with its
--                        deferred report, and the node of a profile.
--   Mesh/Runtime         internal/mesh/runtime.go: RunInference over the manager of Buyer; what it asks of
--                        the control pane and of the network is kept as a list.
--   Api                  internal/api/server.go: the handlers for a buyer's programs over the interface
--                        MeshRuntime, which Api/Node fills with Mesh/Runtime.
--   Network/Connections  internal/network/connection_type.go: the tags of direct and relayed peers; the
--                        open connections of libp2p are given as a list.
--   Network/Router       internal/network/message_router.go: the route of a request and the counters; what
--                        each look at the connections finds is given as a list that ends with the wait.
--   Network/HolePunch    internal/network/holepunch_manager.go and relay_upgrade.go: the state that the
--                        manager's lock guards, with its goroutines; HolePunch/Workers has their steps,
--                        HolePunch/Relay the pruning of relayed connections.
--   Base                 shared helpers: texts, association lists, floats, signed 64-bit integers, the
--                        stable sort, results.
--
-- How state corresponds. Go maps with text keys are association lists, of which only the lookups are
-- used. A method that changes state takes the old state and returns the new one with its answer. The
-- registry is locked by each call, so that a call is one step. The buyer's store is locked by each of its
-- own methods only: a call of the manager is given as one with no other between its parts, and
-- Buyer/Overlap has two calls of ConsumeUsage that overlap. `int` and `int64` are integers with sums that wrap at 64 bits. `float64` is an abstract
-- type with `<`, `==`, 0 and 1, whose laws of order are a hypothesis where a theorem needs them; a NaN is
-- outside them, and Go's sort promises no order of prices with one. Texts
-- are lists of bytes; letter case and white space are those of ASCII. Times are seconds since 1970.
--
-- Bounds and fuel. No loop needs fuel: every loop runs over a list; the loop of a worker and that of a
-- sweep are given turn by turn as steps; the wait of the router is a loop
-- over what it sees until its time is over.
--
-- What is not modelled. SHA-256, UUIDs, the clock, JSON and PostgreSQL are outside the repository: a
-- hash is a parameter, new ids and times are arguments, the ids of accounts are taken to be UUIDs in
-- PostgreSQL's spelling (how it reads the ids of models is a parameter),
-- JSON is taken to give back what was written, and a statement has the effect of its SQL, where texts
-- are ordered by their bytes. The isolation of transactions matters in Control/Billing/Overlap only,
-- which gives one interleaving that READ COMMITTED allows. The other files of the network and the
-- commands are not modelled; the clients of the vendors and of the control pane, and the relay, are
-- input and output. Of goroutines, only those of the hole-punch manager are interleaved.
pub mod Api
pub mod Base
pub mod Buyer
pub mod Control
pub mod Matchmaker
pub mod Mesh
pub mod Network
pub mod Seller
pub mod Types
