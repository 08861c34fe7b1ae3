-- ===== src/Handlers/Samples.antt =====
-- A small service for the tests of the handlers: posts with a tenant and a creator, over a database
-- that is a map from ids to rows.
use shaperail.Cache.{Redis}
use shaperail.Prelude.{
  keys, String, List, [], ◌∷◌, Option, none, some, true, false, lookup, insert, remove, ltb, length,
}
use shaperail.Core.Json.{Json, Platform, null, num, pos_int, neg_int, float, str, obj, object}
use shaperail.Core.Error.{Result, ok, err, not_found}
use shaperail.Core.Schema.{FieldType, FieldSchema, string, uuid}
use shaperail.Core.Endpoint.{EndpointSpec, AuthRule, owner}
use shaperail.Core.Resource.{ResourceDefinition}
use shaperail.Auth.Rbac.{AuthenticatedUser}
use shaperail.Handlers.State.{World, Store, Request, App}

-- Numbers as their integers; every text is a UUID.
abbrev pub platform : Platform
platform = record {
  to_f64 = λ n. elim n [ pos_int k ↦ k | neg_int k ↦ 0 | float b ↦ b ];
  f64_lt = ltb;
  show_f64 = λ n. "0";
  parse_uuid = λ s. some s;
}

abbrev pub field_of : FieldType → FieldSchema
field_of t = record {
  field_type = t;
  primary = false;
  generated = false;
  required = false;
  unique = false;
  nullable = false;
  reference = none;
  min = none;
  max = none;
  format = none;
  values = none;
  default = none;
  sensitive = false;
  search = false;
  items = none;
  transient = false;
}

abbrev pub posts : ResourceDefinition
posts = record {
  resource = "posts";
  version = 1;
  db = none;
  tenant_key = some "org";
  schema =
      ("id", record (field_of uuid) { primary = true; generated = true })
      ∷ ("title", record (field_of string) { required = true; max = some (num (pos_int 5)) })
      ∷ ("org", field_of string)
      ∷ ("note", record (field_of string) { transient = true })
      ∷ [];
  endpoints = none;
  relations = none;
  indexes = none;
}

abbrev pub plain_endpoint : Option AuthRule → EndpointSpec
plain_endpoint rule = record {
  method = none;
  path = none;
  auth = rule;
  input = none;
  filters = none;
  search = none;
  pagination = none;
  sort = none;
  cache = none;
  controller = none;
  events = none;
  jobs = none;
  subscribers = none;
  handler = none;
  upload = none;
  rate_limit = none;
  soft_delete = false;
}

abbrev pub owned_endpoint : EndpointSpec
owned_endpoint = plain_endpoint (some owner)

abbrev pub cached_endpoint : EndpointSpec
cached_endpoint = record owned_endpoint {
  cache = some (record { ttl = 60; invalidate_on = some ("update" ∷ []) });
}

abbrev pub Rows : Type 0
Rows = List (String × Json)

abbrev pub found : Option Json → Result Json
found none = err not_found
found (some v) = ok v

abbrev pub store : Store Rows
store = record {
  find_by_id = λ id db. found (lookup id db);
  find_all = λ endpoint filters search sort page db. ok ([], null);
  insert = λ m db. (ok (obj (object m)), insert "new" (obj (object m)) db);
  update_by_id = λ id m db. (ok (obj (object m)), insert id (obj (object m)) db);
  soft_delete_by_id = λ id db. (found (lookup id db), remove id db);
  hard_delete_by_id = λ id db. (found (lookup id db), remove id db);
}

-- Entries that never expire, all of them of one resource.
abbrev redis : Redis
redis = record {
  get = lookup;
  set_ex = λ key body ttl c. insert key body c;
  keys_of = λ pattern c. some (keys c);
  del = λ ks c. [];
}

abbrev pub service : App Rows
service = record {
  platform = platform;
  sha256_16 = λ s. s;
  to_text = λ v. "text";
  valid_header = λ k v. true;
  stores = none;
  query = λ r. store;
  load_relations = λ rows r include db. ok rows;
  controllers = none;
  wasm_runtime = none;
  count_references = λ t c ids db. ok (length ids);
  select_references = λ t c ids db. ok ids;
  has_cache = true;
  redis = redis;
  has_emitter = true;
  has_queue = false;
  has_limiter = false;
  has_metrics = false;
  has_storage = false;
}

abbrev pub ann : AuthenticatedUser
ann = record { sub = "ann"; role = "member"; tenant_id = some "t1" }

abbrev pub bob : AuthenticatedUser
bob = record { sub = "bob"; role = "member"; tenant_id = some "t1" }

abbrev pub request_of : AuthenticatedUser → Request
request_of u = record {
  user = some u;
  query_string = "";
  params = [];
  peer_addr = none;
  headers = [];
  now = 0;
}

abbrev pub her_post : Json
her_post = obj (object (("title", str "hi") ∷ ("org", str "t1") ∷ ("created_by", str "ann") ∷ []))

abbrev pub world : World Rows
world = record { db = ("p1", her_post) ∷ []; cache = []; limits = []; metrics = []; effects = [] }
