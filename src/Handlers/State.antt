-- ===== src/Handlers/State.antt =====
-- What a request handler reads and changes: the database behind the stores, the response cache, the
-- rate limiter's sorted sets, the metrics and the effects that are sent off; and the monad of the
-- handlers, in which an error keeps the changes made before it.
use shaperail.Prelude.{ℕ, String, List, [], ◌∷◌, ◌++◌, Option, Bool}
use shaperail.Core.Json.{Json, Map, Platform}
use shaperail.Core.Error.{Result, ok, err}
use shaperail.Core.Endpoint.{EndpointSpec}
use shaperail.Core.Resource.{ResourceDefinition}
use shaperail.Auth.Rbac.{AuthenticatedUser}
use shaperail.Db.Filter.{FilterSet}
use shaperail.Db.Search.{SearchParam}
use shaperail.Db.Sort.{SortParam}
use shaperail.Db.Pagination.{PageRequest}
use shaperail.Cache.{Cache, Redis}

pub data Effect : Type 0 where
  emitted : (event resource action : String) → Json → Effect
  enqueued : String → Json → Effect
  cleaned_up : List String → Effect

pub record World (Db : Type 0) : Type 0 where
  pub db : Db
  pub cache : Cache
  pub limits : List (String × List ℕ)
  pub metrics : List Bool
  pub effects : List Effect

abbrev pub M : Type 0 → Type 0 → Type 0
M Db A = World Db → Result A × World Db

module _ {Db : Type 0} where
  infixl 5 ◌>>=◌ ◌>>◌
  abbrev pub continue : {A B : Type 0} → (A → M Db B) → Result A × World Db → Result B × World Db
  continue f (ok a, w) = f a w
  continue f (err e, w) = (err e, w)

  abbrev pub ◌>>=◌ : {A B : Type 0} → M Db A → (A → M Db B) → M Db B
  ◌>>=◌ m f w = continue f (m w)

  abbrev pub ◌>>◌ : {B : Type 0} → M Db (Unit {0}) → M Db B → M Db B
  m >> k = m >>= λ _. k

  abbrev pub pure : {A : Type 0} → A → M Db A
  pure a w = (ok a, w)

  abbrev pub lift : {A : Type 0} → Result A → M Db A
  lift r w = (r, w)

  abbrev pub skip : M Db (Unit {0})
  skip w = (ok tt, w)

  -- An operation on the database alone.
  abbrev pub read_db : {A : Type 0} → (Db → Result A) → M Db A
  read_db f w = (f w.db, w)

  abbrev pub write_db : {A : Type 0} → (Db → Result A × Db) → M Db A
  write_db f w = let (r, db) = f w.db in (r, record w { db = db })

  abbrev pub send : Effect → M Db (Unit {0})
  send e w = (ok tt, record w { effects = w.effects ++ (e ∷ []) })

-- db/store.rs `ResourceStore`, and `ResourceQuery`, which has the same operations. Ids are UUIDs.
pub record Store (Db : Type 0) : Type 0 where
  pub find_by_id : String → Db → Result Json
  pub find_all :
      EndpointSpec
      → FilterSet
      → Option SearchParam
      → SortParam
      → PageRequest
      → Db
      → Result (List Json × Json)
  pub insert : Map → Db → Result Json × Db
  pub update_by_id : String → Map → Db → Result Json × Db
  pub soft_delete_by_id : String → Db → Result Json × Db
  pub hard_delete_by_id : String → Db → Result Json × Db

-- handlers/controller.rs `Context`; its pool is the `World`.
pub record Context : Type 0 where
  pub input : Map
  pub data_record : Option Json
  pub user : Option AuthenticatedUser
  pub headers : List (String × String)
  pub response_headers : List (String × String)
  pub tenant_id : Option String
  pub session : Map
  pub response_extras : Map
  pub path_params : List (String × String)

-- plugins/mod.rs: what a WASM hook is given, and what it answers.
pub record PluginUser : Type 0 where
  pub id : String
  pub role : String

pub record PluginContext : Type 0 where
  pub input : Map
  pub data_record : Option Json
  pub user : Option PluginUser
  pub headers : List (String × String)
  pub tenant_id : Option String

pub record PluginResult : Type 0 where
  pub succeeded : Bool
  pub ctx : Option PluginContext
  pub error : Option String

-- `WasmRuntime::call_hook` on a path, a hook name and a context.
abbrev pub WasmRuntime : Type 0
WasmRuntime = String → String → PluginContext → Result PluginResult

abbrev pub ControllerMap : Type 0 → Type 0
ControllerMap Db = List ((String × String) × (Context → M Db Context))

-- The request: the caller that its credentials show, and its parameters, decoded.
pub record Request : Type 0 where
  pub user : Option AuthenticatedUser
  pub query_string : String
  pub params : List (String × String)
  pub peer_addr : Option String
  pub headers : List (String × String)
  pub now : ℕ

pub data Body : Type 0 where
  no_body : Body
  json_body : Json → Body
  text_body : String → Body

pub record Response : Type 0 where
  pub status : ℕ
  pub headers : List (String × String)
  pub body : Body

-- `AppState`, with what it holds of libraries, of user code and of the database.
pub record App (Db : Type 0) : Type 0 where
  pub platform : Platform
  pub sha256_16 : String → String
  pub to_text : Json → String
  pub valid_header : String → String → Bool
  pub stores : Option (List (String × Store Db))
  pub query : ResourceDefinition → Store Db
  pub load_relations : List Json → ResourceDefinition → List String → Db → Result (List Json)
  pub controllers : Option (ControllerMap Db)
  pub wasm_runtime : Option WasmRuntime
  pub count_references : (table column : String) → List String → Db → Result ℕ
  pub select_references : (table column : String) → List String → Db → Result (List String)
  pub has_cache : Bool
  pub redis : Redis
  pub has_emitter : Bool
  pub has_queue : Bool
  pub has_limiter : Bool
  pub has_metrics : Bool
  pub has_storage : Bool
