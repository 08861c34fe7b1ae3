-- ===== src/Handlers/Params/Examples.antt =====
-- params.rs at concrete queries.
use shaperail.Handlers.Params.Query.{query_map}
use shaperail.Prelude.{split_on, split_once, byte_char, none, [], ◌∷◌, some, ◌≡◌, refl}
use shaperail.Core.Endpoint.{EndpointSpec}
use shaperail.Handlers.Samples.{plain_endpoint}
use shaperail.Handlers.Params.{QueryMap, parse_list_params}
use shaperail.Handlers.Params.Accepted.{IsBounded, parse_list_params-IsBounded}

abbrev by_status : EndpointSpec
by_status = record (plain_endpoint none) { filters = some ("status" ∷ []) }

abbrev query : QueryMap
query = ("filter[status]", "open") ∷ ("limit", "1000") ∷ []

parse_list_params-IsBounded_example : IsBounded (parse_list_params query by_status).page
parse_list_params-IsBounded_example = parse_list_params-IsBounded query by_status

-- A space, an escaped equals sign, a later value that wins, and an escape that is none.
decoded_query :
    query_map "filter%5Bname%5D=a+b&&q=x%3Dy&q=%zz&flag"
    ≡ ("filter[name]", "a b") ∷ ("q", "%zz") ∷ []
unfolding query_map split_on split_once byte_char
decoded_query = refl
