-- ===== src/Pathname/Rewriting.antt =====
-- Rewriting a pattern of a pathname for a sub-router (core/router/router.core.utils.ts).
use nerdhub_chat_cli_prototy.Common.{
  Bool, false, ◌&&◌, ◌||◌, none, some, List, [], ◌∷◌, ◌++◌, length, ◌==◌, nat_same, text_same,
  if◌then◌else◌, Text, codes,
}
use nerdhub_chat_cli_prototy.Pathname.{
  wildcard_value_pattern, wildcard_with_slash_value_pattern, is_empty, name_prefix, starts_name,
  strip_prefix, drop,
}

-- `.replace(/\$$/, "")`
unfoldable pub remove_ending_dollar_sign : Text → Text
remove_ending_dollar_sign [] = []
remove_ending_dollar_sign (c ∷ s) =
    let rest = remove_ending_dollar_sign s in if c == b'$' && is_empty s then [] else c ∷ rest

-- `.replace(/^\^/, "")`
unfoldable pub remove_beginning_boundary : Text → Text
remove_beginning_boundary [] = []
remove_beginning_boundary (c ∷ s) = if c == b'^' then s else c ∷ s

abbrev has_value : List Text → Text → Bool
has_value [] end = false
has_value (v ∷ vs) end = end == codes ">" ++ v ++ codes ")$" || has_value vs end

-- whether the text is `(?<name>value)$`, for a name and one of the values
unfoldable pub is_wildcard_group : List Text → Text → Bool
unfolding name_prefix starts_name
is_wildcard_group values s = elim (strip_prefix (codes "(?<") s) [
  | none ↦ false
  | some rest ↦ starts_name rest && has_value values (drop (length (name_prefix rest)) rest)
]

unfoldable pub remove_wildcard_param : Text → Text
unfolding is_wildcard_group
remove_wildcard_param [] = []
remove_wildcard_param (c ∷ s) =
    let rest = remove_wildcard_param s in
    if is_wildcard_group (wildcard_value_pattern ∷ wildcard_with_slash_value_pattern ∷ []) (c ∷ s)
    then []
    else c ∷ rest

-- whether a text ends in a named group for a wildcard without a leading slash
unfoldable pub ends_in_wildcard : Text → Bool
unfolding is_wildcard_group
ends_in_wildcard [] = false
ends_in_wildcard (c ∷ s) =
    is_wildcard_group (wildcard_value_pattern ∷ []) (c ∷ s) || ends_in_wildcard s

-- `.replace(/\$/, …)`, the first dollar sign
unfoldable pub replace_dollar : Text → Text → Text
replace_dollar by [] = []
replace_dollar by (c ∷ s) =
    let rest = replace_dollar by s in if c == b'$' then by ++ s else c ∷ rest

unfoldable pub append_wildcard_to_reg_exp_pattern : Text → Text
unfolding ends_in_wildcard replace_dollar
append_wildcard_to_reg_exp_pattern pattern =
    if ends_in_wildcard pattern
    then pattern
    else replace_dollar (wildcard_with_slash_value_pattern ++ codes "$") pattern
