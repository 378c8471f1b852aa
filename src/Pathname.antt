-- ===== src/Pathname.antt =====
-- core/router/router.core.utils.ts and the patterns of core/router/router.core.const.ts: pathnames
-- and the texts of the regular expressions that are made of them. Texts are lists of code units.
-- The fixed regular expressions are written out as scans; those that are built at run time are
-- executed by the platform's engine, which the router takes as a parameter.
pub mod Normal
pub mod Parameters
pub mod Patterns
pub mod Rewriting
mod Tests
use nerdhub_chat_cli_prototy.Common.{
  ℕ, zero, suc, ◌+◌, ◌-◌, Bool, true, false, not, ◌&&◌, ◌||◌, Option, none, some, List, [], ◌∷◌,
  ◌++◌, length, ltb, leb, ◌==◌, nat_same, text_same, if◌then◌else◌, Text, codes, filter,
}
use nerdhub_chat_cli_prototy.Common.JsMap

-- [a-zA-Z_]
is_name_start : ℕ → Bool
is_name_start c = (leb b'a' c && leb c b'z') || (leb b'A' c && leb c b'Z') || c == b'_'

-- [a-zA-Z0-9_]
is_name_unit : ℕ → Bool
unfolding is_name_start
is_name_unit c = is_name_start c || (leb b'0' c && leb c b'9')

abbrev pub value_pattern : Text
value_pattern = codes "[a-zA-Z0-9+=*&_-]+"

abbrev pub wildcard_value_pattern : Text
wildcard_value_pattern = codes "(" ++ value_pattern ++ codes "/?)*"

abbrev pub wildcard_with_slash_value_pattern : Text
wildcard_with_slash_value_pattern = codes "(/" ++ wildcard_value_pattern ++ codes ")*"

abbrev pub slash : ℕ
slash = b'/'

-- `.replace(/^\/+/, "")`
pub drop_leading : Text → Text
drop_leading [] = []
drop_leading (c ∷ s) = if c == slash then drop_leading s else c ∷ s

abbrev pub is_empty : Text → Bool
is_empty [] = true
is_empty (c ∷ s) = false

-- `.replace(/\/+$/, "")`
pub drop_trailing : Text → Text
drop_trailing [] = []
drop_trailing (c ∷ s) =
    let rest = drop_trailing s in if c == slash && is_empty rest then [] else c ∷ rest

unfoldable pub normalize_request_pathname : Text → Text
unfolding drop_leading drop_trailing
normalize_request_pathname pathname = drop_trailing (drop_leading pathname)

-- the longest prefix of units that a name may hold
unfoldable pub name_prefix : Text → Text
unfolding is_name_unit
name_prefix [] = []
name_prefix (c ∷ s) = if is_name_unit c then c ∷ name_prefix s else []

unfoldable pub starts_name : Text → Bool
unfolding is_name_start
starts_name [] = false
starts_name (c ∷ s) = is_name_start c

-- what stands behind a prefix, `none` where the text does not start with it
abbrev pub strip_prefix : Text → Text → Option Text
strip_prefix [] s = some s
strip_prefix (p ∷ ps) [] = none
strip_prefix (p ∷ ps) (c ∷ s) = if p == c then strip_prefix ps s else none

abbrev pub is_some : Option Text → Bool
is_some none = false
is_some (some s) = true

-- the text after `n` units
abbrev pub drop : ℕ → Text → Text
drop zero s = s
drop (suc n) [] = []
drop (suc n) (c ∷ s) = drop n s

-- `replaceAll`, for a search text that is not empty and a replacement without "$"; `skip` counts
-- the units of a match that are still to be passed over
pub replace_from : ℕ → Text → Text → Text → Text
replace_from skip search by [] = []
replace_from (suc skip) search by (c ∷ s) = replace_from skip search by s
replace_from zero search by (c ∷ s) =
    let found = is_some (strip_prefix search (c ∷ s)) in
    (if found then by else c ∷ [])
    ++ replace_from (if found then length search - 1 else 0) search by s

unfoldable pub replace_all : Text → Text → Text → Text
unfolding replace_from
replace_all search by s = replace_from 0 search by s

-- The names of the matches of `:name`, from left to right. No unit of a name is a colon, so going
-- on behind the colon finds what going on behind the match finds.
unfoldable pub slot_names : Text → List Text
unfolding name_prefix starts_name
slot_names [] = []
slot_names (c ∷ s) =
    let rest = slot_names s in if c == b':' && starts_name s then name_prefix s ∷ rest else rest

-- The first match of `/?*{name}`.
pub record WildcardMatch : Type 0 where
  pub index : ℕ
  pub with_slash : Bool
  pub name : Text

-- `*{name}` at the start of a text: the name
unfoldable pub wildcard_name : Text → Option Text
unfolding name_prefix starts_name
wildcard_name s = elim (strip_prefix (codes "*{") s) [
  | none ↦ none
  | some rest ↦
      if starts_name rest
        && is_some (strip_prefix (codes "}") (drop (length (name_prefix rest)) rest))
      then some (name_prefix rest)
      else none
]

abbrev pub after_slash : Text → Option Text
after_slash s = strip_prefix (slash ∷ []) s

abbrev pub or_wildcard : ℕ → Bool → Option Text → Option WildcardMatch → Option WildcardMatch
or_wildcard index with_slash none later = later
or_wildcard index with_slash (some name) later =
    some (record { index = index; with_slash = with_slash; name = name })

abbrev pub name_after : Option Text → Option Text
name_after none = none
name_after (some rest) = wildcard_name rest

unfoldable pub find_wildcard : ℕ → Text → Option WildcardMatch
unfolding wildcard_name
find_wildcard i [] = none
find_wildcard i (c ∷ s) =
    or_wildcard i true (name_after (after_slash (c ∷ s)))
      (or_wildcard i false (wildcard_name (c ∷ s)) (find_wildcard (i + 1) s))

abbrev pub wildcard_text : WildcardMatch → Text
wildcard_text w = (if w.with_slash then slash ∷ [] else []) ++ codes "*{" ++ w.name ++ codes "}"

pub data RoutePathnameParamType : Type 0 where
  param wildcard : RoutePathnameParamType

pub record RegExpPatternData : Type 0 where
  pub reg_exp_pattern : Text
  pub params_types : List (Text × RoutePathnameParamType)

-- `(?<name>value)`
abbrev pub named_group : Text → Text → Text
named_group name value = codes "(?<" ++ name ++ codes ">" ++ value ++ codes ")"

-- one round of the loop over the slots
unfoldable pub resolve_slot : Text → RegExpPatternData → RegExpPatternData
unfolding replace_all
resolve_slot name d = record {
  reg_exp_pattern = replace_all (b':' ∷ name) (named_group name value_pattern) d.reg_exp_pattern;
  params_types = JsMap.set name param d.params_types;
}

unfoldable pub resolve_slots : List Text → RegExpPatternData → RegExpPatternData
unfolding resolve_slot
resolve_slots [] d = d
resolve_slots (name ∷ names) d = resolve_slots names (resolve_slot name d)

unfoldable pub resolve_wildcard : Option WildcardMatch → RegExpPatternData → RegExpPatternData
unfolding replace_all
resolve_wildcard none d = d
resolve_wildcard (some w) d = record {
  reg_exp_pattern =
      replace_all (wildcard_text w)
        (named_group w.name
          (if w.with_slash then wildcard_with_slash_value_pattern else wildcard_value_pattern))
        d.reg_exp_pattern;
  params_types = JsMap.set w.name wildcard d.params_types;
}

-- The test before the error is thrown. An index of 0 counts as no index.
unfoldable pub is_misplaced : Option WildcardMatch → Text → Bool
is_misplaced none s = false
is_misplaced (some w) s = not (w.index == 0) && ltb (w.index + length (wildcard_text w)) (length s)

-- `none` is the RoutePathnameParamWildcardError.
unfoldable pub get_route_pathname_reg_exp_pattern : Text → Option RegExpPatternData
unfolding normalize_request_pathname slot_names find_wildcard is_misplaced resolve_slots
    resolve_wildcard
get_route_pathname_reg_exp_pattern pathname =
    let norm = normalize_request_pathname pathname in
    let found = find_wildcard 0 norm in
    if is_misplaced found norm
    then none
    else some (
        resolve_wildcard found (
          resolve_slots (slot_names norm)
            (record { reg_exp_pattern = codes "^" ++ norm ++ codes "$"; params_types = [] })))

-- The value of a request parameter. `other` stands for what a handler puts there, by a number.
pub data ParamValue : Type 0 where
  single : Text → ParamValue
  many : List Text → ParamValue
  other : ℕ → ParamValue

abbrev pub Params : Type 0
Params = List (Text × ParamValue)

abbrev put_first : ℕ → List Text → List Text
put_first c [] = (c ∷ []) ∷ []
put_first c (part ∷ parts) = (c ∷ part) ∷ parts

-- `.split("/")`
unfoldable pub split_slash : Text → List Text
split_slash [] = [] ∷ []
split_slash (c ∷ s) = let rest = split_slash s in if c == slash then [] ∷ rest else put_first c rest

unfoldable pub segments : Text → List Text
unfolding split_slash
segments s = filter (λ part. not (is_empty part)) (split_slash s)

unfoldable pub param_value : Option RoutePathnameParamType → Text → Option ParamValue
unfolding segments
param_value none s = none
param_value (some param) s = some (single s)
param_value (some wildcard) s = some (many (segments s))

-- the loop over the groups; `none` is the error "Invalid request parameter type"
unfoldable pub build_from :
    Params → List (Text × Text) → List (Text × RoutePathnameParamType) → Option Params
unfolding param_value
build_from done [] types = some done
build_from done ((name, value) ∷ groups) types = elim (param_value (JsMap.get name types) value) [
  | none ↦ none
  | some v ↦ build_from (JsMap.set name v done) groups types
]

unfoldable pub build_request_parameters :
    List (Text × Text) → List (Text × RoutePathnameParamType) → Option Params
unfolding build_from
build_request_parameters groups types = build_from [] groups types
