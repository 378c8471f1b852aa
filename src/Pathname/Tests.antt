-- ===== src/Pathname/Tests.antt =====
-- Pathnames and patterns at concrete texts.
use nerdhub_chat_cli_prototy.Common.{◌≡◌, refl, none, some, List, [], ◌∷◌, Text, codes, text_same}
use nerdhub_chat_cli_prototy.Common.JsMap
use nerdhub_chat_cli_prototy.Pathname.{
  normalize_request_pathname, get_route_pathname_reg_exp_pattern, build_request_parameters, param,
  wildcard, RoutePathnameParamType, single, many, Params,
}
use nerdhub_chat_cli_prototy.Pathname.Rewriting.{
  append_wildcard_to_reg_exp_pattern, remove_wildcard_param,
}
use nerdhub_chat_cli_prototy.Pathname.Normal.{}

normalize_test : normalize_request_pathname (codes "//a/b/") ≡ codes "a/b"
unfolding normalize_request_pathname
normalize_test = refl

slot_test :
    get_route_pathname_reg_exp_pattern (codes "/users/:id")
    ≡ some (record {
      reg_exp_pattern = codes "^users/(?<id>[a-zA-Z0-9+=*&_-]+)$";
      params_types = (codes "id", param) ∷ [];
    })
unfolding get_route_pathname_reg_exp_pattern JsMap.set
slot_test = refl

wildcard_test :
    get_route_pathname_reg_exp_pattern (codes "files/*{rest}")
    ≡ some (record {
      reg_exp_pattern = codes "^files(?<rest>(/([a-zA-Z0-9+=*&_-]+/?)*)*)$";
      params_types = (codes "rest", wildcard) ∷ [];
    })
unfolding get_route_pathname_reg_exp_pattern JsMap.set
wildcard_test = refl

misplaced_test : get_route_pathname_reg_exp_pattern (codes "a/*{rest}/b") ≡ none
unfolding get_route_pathname_reg_exp_pattern
misplaced_test = refl

-- A misplaced wildcard at the start is accepted.
first_wildcard_test :
    get_route_pathname_reg_exp_pattern (codes "*{rest}/b")
    ≡ some (record {
      reg_exp_pattern = codes "^(?<rest>([a-zA-Z0-9+=*&_-]+/?)*)/b$";
      params_types = (codes "rest", wildcard) ∷ [];
    })
unfolding get_route_pathname_reg_exp_pattern JsMap.set
first_wildcard_test = refl

-- A slot whose name starts with another slot's name is replaced in part.
prefix_slot_test :
    get_route_pathname_reg_exp_pattern (codes ":a/:ab")
    ≡ some (record {
      reg_exp_pattern = codes "^(?<a>[a-zA-Z0-9+=*&_-]+)/(?<a>[a-zA-Z0-9+=*&_-]+)b$";
      params_types = (codes "a", param) ∷ (codes "ab", param) ∷ [];
    })
unfolding get_route_pathname_reg_exp_pattern JsMap.set
prefix_slot_test = refl

remove_wildcard_test :
    remove_wildcard_param (codes "^files(?<rest>(/([a-zA-Z0-9+=*&_-]+/?)*)*)$") ≡ codes "^files"
unfolding remove_wildcard_param
remove_wildcard_test = refl

append_wildcard_test :
    append_wildcard_to_reg_exp_pattern (codes "^a$") ≡ codes "^a(/([a-zA-Z0-9+=*&_-]+/?)*)*$"
unfolding append_wildcard_to_reg_exp_pattern
append_wildcard_test = refl

abbrev groups : List (Text × Text)
groups = (codes "id", codes "7") ∷ (codes "rest", codes "a//b") ∷ []

abbrev types : List (Text × RoutePathnameParamType)
types = (codes "id", param) ∷ (codes "rest", wildcard) ∷ []

abbrev built : Params
built = (codes "id", single (codes "7")) ∷ (codes "rest", many (codes "a" ∷ codes "b" ∷ [])) ∷ []

built_test : build_request_parameters groups types ≡ some built
unfolding build_request_parameters JsMap.set
built_test = refl
