-- ===== src/Lib.antt =====
-- discord-oidc is an OpenID Connect provider that lets members of one Discord guild sign in. A
-- browser comes to `/authorize` (crates/oidc-core/src/authorize.rs), which validates the request
-- and stores a transaction; it goes to Discord and comes back to the callback (callback.rs), which
-- takes the transaction, asks Discord for the user and the membership, and stores an authorization
-- code; the client exchanges the code at `/token` (token.rs) for an ID Token (jwt.rs). Clients come
-- from a static registry (client.rs) and a dynamic one (registry.rs), which the resolver
-- (resolver.rs) combines and the admin API (admin.rs) manages. Transactions and codes are in a
-- store (store.rs). The worker (crates/discord-oidc-worker/src) reads the configuration
-- (config.rs), routes the requests (its lib.rs), and keeps the store and the registry in two
-- durable objects (durable.rs), which it calls through adapters (do_store.rs, registry_client.rs).
--
-- Each file of crates/oidc-core/src is a module with the file's name: Authorize, Callback, Token,
-- Client, Registry, Resolver, Store, Code, Pkce, Transaction, Jwt, Jwk, Config, Discovery, Admin,
-- Discord, Error, Response, Util. Their children state and prove: Store.Contract and
-- Registry.Contract are the contracts of the two traits, Store.Memory the in-memory store,
-- Registry.Memory the in-memory registry. Params is the parameter parsing that authorize.rs and
-- token.rs share, Config.Input is Config::from_input, and Admin.Replies and Admin.Operations are
-- the views and the operations of admin.rs. Under Worker, AuthorizationState and
-- ClientRegistryState are the two objects of durable.rs, DoStore and RegistryClient their adapters,
-- and Router is lib.rs; StoreContract and RegistryContract are the two objects behind their
-- adapters. SignIn joins the callback and `/token`. Prelude has the library names, numbers, texts
-- and maps; Json the values of serde_json; Examples the runs at concrete inputs.
--
-- A function with side effects takes the state of the store and of the entropy source and returns
-- it with its result; an asynchronous trait is a record of operations, each one atomic step, and
-- theorems on the handlers hold for any store that keeps the contract. An early return is the error
-- of a `Result`; long handlers are chains of stages, each over the answer of the call before it. A
-- time is an i64 whose addition wraps around; where a lifetime is added exactly, a clock at most an
-- hour from the ends of the range is a hypothesis. Every loop is structural recursion, on the list
-- it runs over or on the number of attempts that the source allows, so no fuel is used.
--
-- The functions of third-party crates (SHA-256, base64, constant-time comparison, URLs, forms,
-- JSON) are the fields of the record Crates, with documented facts as its laws. Discord's API and
-- the signer are the records of their traits, and Worker.DiscordHttp is the client of Discord's
-- API (discord_http.rs) over a record Network that builds and sends requests. Derived
-- deserialisers are parameters. The storage of a durable object is the record Worker.Storage, in
-- which every operation may fail and a read has no effect: its laws say what a read and a listing
-- return, and that a write which fails has been done or not. The network between the worker and an object is a
-- stub that delivers a request once or not at all, and may lose the response. The bindings of the
-- environment are the record Platform of Worker.Router.
--
-- The contract of the store leaves out the number that a sweep returns; the contract of the registry
-- is over ids of the dynamic form.
--
-- Not modelled: the bindings to Web Crypto (webcrypto.rs), for which the trait of the signer stands;
-- the fetch event with its logging and the memoised future of the runtime (lib.rs); the texts of
-- errors that only a log shows; the tests.
mod Prelude
pub mod Json
pub mod Crates
pub mod Util
pub mod Pkce
pub mod Error
pub mod Response
pub mod Client
pub mod Transaction
pub mod Code
pub mod Store
pub mod Registry
pub mod Jwk
pub mod Config
pub mod Discord
pub mod Resolver
pub mod Params
pub mod Authorize
pub mod Callback
pub mod Jwt
pub mod Discovery
pub mod Token
pub mod Admin
pub mod SignIn
pub mod Worker
pub mod Examples
