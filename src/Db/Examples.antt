-- ===== src/Db/Examples.antt =====
-- Filters at a concrete query, and base64 of a few bytes.
use shaperail.Prelude.{List, String, [], ◌∷◌, ◌≡◌, refl}
use shaperail.Db.Base64.{char_of, base64_encode}
use shaperail.Db.Filter.{FilterParam, FilterSet}

abbrev open_tasks : FilterParam
open_tasks = record { field = "status"; value = "open" }

abbrev two_filters : FilterSet
two_filters = open_tasks ∷ record { field = "org"; value = "t1" } ∷ []

abbrev status_query : List (String × String)
status_query = ("filter[status]", "open") ∷ []

-- "Man" is "TWFu".
man : base64_encode (77 ∷ 97 ∷ 110 ∷ []) ≡ 84 ∷ 87 ∷ 70 ∷ 117 ∷ []
unfolding base64_encode char_of
man = refl
