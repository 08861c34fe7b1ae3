-- ===== src/Handlers/Controller.antt =====
-- shaperail-runtime/src/handlers/controller.rs: the registry of controller functions and their dispatch
-- to them or to a WASM plugin (the default build has the `wasm-plugins` feature).
use shaperail.Prelude.{
  String, List, [], ◌∷◌, Option, none, some, ◌&&◌, ◌==◌, format, strip_prefix, map_option, is_some,
  is_none, unwrap_or, not, if◌then◌else◌,
}
use shaperail.Core.Error.{Result, ok, err, internal, invalid}
use shaperail.Handlers.State.{
  M, lift, ◌>>=◌, pure, Context, ControllerMap, PluginContext, PluginResult, WasmRuntime,
}

plugin_context : Context → PluginContext
plugin_context ctx = record {
  input = ctx.input;
  data_record = ctx.data_record;
  user = map_option (λ u. record { id = u.sub; role = u.role }) ctx.user;
  headers = ctx.headers;
  tenant_id = ctx.tenant_id;
}

-- `ctx.input = modified.input`, and its data if it has any.
abbrev applied : Context → Option PluginContext → Context
applied ctx none = ctx
applied ctx (some modified) = record ctx {
  input = modified.input;
  data_record = if is_some modified.data_record then modified.data_record else ctx.data_record;
}

abbrev plugin_answer : Context → PluginResult → Result Context
plugin_answer ctx result =
    if not result.succeeded
    then err
        (invalid "wasm_plugin" (unwrap_or result.error "WASM plugin returned error") "wasm_error")
    else ok (applied ctx result.ctx)

module _ {Db : Type 0} where
  pub get_fn : ControllerMap Db → (resource name : String) → Option (Context → M Db Context)
  get_fn [] resource name = none
  get_fn (((r, n), f) ∷ fns) resource name =
      if (r == resource) && (n == name) then some f else get_fn fns resource name

  abbrev missing_fn : (resource name : String) → M Db Context
  missing_fn resource name = lift (
      err (
        internal (
          format (
            "Controller '" ∷ name ∷ "' not found for resource '" ∷ resource
            ∷ "'. Ensure the function exists in resources/" ∷ resource ∷ ".controller.rs" ∷ []))))

  abbrev call_fn :
      Option (Context → M Db Context) → (resource name : String) → Context → M Db Context
  call_fn none resource name ctx = missing_fn resource name
  call_fn (some f) resource name ctx = f ctx

  -- `ControllerMap::call`.
  unfoldable pub call : ControllerMap Db → (resource name : String) → Context → M Db Context
  call fns resource name ctx = call_fn (get_fn fns resource name) resource name ctx

  dispatch_rust_controller :
      (name resource : String) → Context → Option (ControllerMap Db) → M Db Context
  dispatch_rust_controller name resource ctx none = lift (
      err (
        internal (
          format (
            "Controller '" ∷ name ∷ "' declared for '" ∷ resource
            ∷ "' but no ControllerMap configured" ∷ []))))
  dispatch_rust_controller name resource ctx (some fns) = call fns resource name ctx

  dispatch_wasm : String → Context → Option WasmRuntime → M Db Context
  unfolding plugin_context
  dispatch_wasm path ctx none =
      lift (err (internal "WASM plugin declared but no WasmRuntime configured"))
  dispatch_wasm path ctx (some call_hook) = do
    result ← lift (
        call_hook path (if is_none ctx.data_record then "before_hook" else "after_hook")
          (plugin_context ctx))
    lift (plugin_answer ctx result)

  -- By `name.strip_prefix("wasm:")`.
  dispatch_to :
      Option String
      → (name resource : String) → Context
      → Option (ControllerMap Db)
      → Option WasmRuntime
      → M Db Context
  unfolding dispatch_wasm dispatch_rust_controller
  dispatch_to none name resource ctx controllers wasm =
      dispatch_rust_controller name resource ctx controllers
  dispatch_to (some path) name resource ctx controllers wasm = dispatch_wasm path ctx wasm

  unfoldable pub dispatch_controller :
      (name resource : String)
      → Context
      → Option (ControllerMap Db)
      → Option WasmRuntime
      → M Db Context
  unfolding dispatch_to
  dispatch_controller name resource ctx controllers wasm =
      dispatch_to (strip_prefix "wasm:" name) name resource ctx controllers wasm

  -- The loops over the hooks of a phase: the first error ends it.
  unfoldable pub run_hooks :
      List String → String → Context → Option (ControllerMap Db) → Option WasmRuntime → M Db Context
  run_hooks [] resource ctx controllers wasm = pure ctx
  run_hooks (name ∷ names) resource ctx controllers wasm = do
    ctx' ← dispatch_controller name resource ctx controllers wasm
    run_hooks names resource ctx' controllers wasm
