-- ===== src/Handlers/Validate/Examples.antt =====
-- validate.rs on the sample resource.
use shaperail.Prelude.{String, [], ◌∷◌, In, keys, lookup, ◌≡◌, ◌↔◌, refl, inl, inr}
use shaperail.Core.Json.{Map, str}
use shaperail.Core.Error.{ok}
use shaperail.Handlers.Samples.{platform, posts}
use shaperail.Handlers.Validate.{validate_input_shape}
use shaperail.Handlers.Validate.Phases.{HasShape, validate_input_shape-HasShape}

abbrev sent : Map
sent = ("title", str "hi") ∷ ("note", str "n") ∷ []

abbrev written : Map
written = ("title", str "hi") ∷ ("note", str "n") ∷ ("org", str "t1") ∷ []

validate_input_shape-HasShape_example :
    (validate_input_shape platform sent posts ≡ ok tt) ↔ HasShape platform sent posts.schema
validate_input_shape-HasShape_example = validate_input_shape-HasShape platform sent posts

kept : (k : String) → In k (keys sent) → lookup k written ≡ lookup k sent
kept k (inl e) = rw e refl
kept k (inr (inl e)) = rw e refl
kept k (inr (inr none_left)) = absurd none_left
