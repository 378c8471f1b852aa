-- ===== src/Pathname/Parameters.antt =====
-- Request parameters (buildRequestParameters of core/router/router.core.utils.ts).
use nerdhub_chat_cli_prototy.Common.{
  ℕ, subst, ◌≡◌, refl, sym, ap, ◌∙◌, ◌≢◌, not, Option, none, some, List, [], ◌∷◌, ◌==◌, nat_same,
  nat_beq_iff, text_same, text_beq_iff, Text, arith, inl, inr, Bool-cases, ◌↔◌, All, filter,
  some-injective,
}
use nerdhub_chat_cli_prototy.Common.JsMap
use nerdhub_chat_cli_prototy.Common.JsMap.{HasUniqueKeys, or_else}
use nerdhub_chat_cli_prototy.Pathname.{
  slash, is_empty, put_first, split_slash, segments, RoutePathnameParamType, param, wildcard,
  ParamValue, many, Params, param_value, build_from, build_request_parameters,
}

-- The value that a group gives, where there is one, for a type, where there is one.
abbrev pub value_of : Option Text → Option RoutePathnameParamType → Option ParamValue
value_of none type = none
value_of (some s) type = param_value type s

-- The round of a group that does not fail.
build_from-step :
    (done : Params) (n v : Text) (groups : List (Text × Text))
    (types : List (Text × RoutePathnameParamType)) (built : Params)
    → build_from done ((n, v) ∷ groups) types ≡ some built
    → (x : ParamValue) × (param_value (JsMap.get n types) v ≡ some x)
      × (build_from (JsMap.set n x done) groups types ≡ some built)
unfolding build_from
build_from-step done n v groups types built h = go (param_value (JsMap.get n types) v) refl h
  where
    go :
        (o : Option ParamValue)
        → param_value (JsMap.get n types) v ≡ o
        → (elim o [ none ↦ none | some x ↦ build_from (JsMap.set n x done) groups types ])
          ≡ some built
        → (x : ParamValue) × (param_value (JsMap.get n types) v ≡ some x)
          × (build_from (JsMap.set n x done) groups types ≡ some built)
    go none e h = ground (arith, h)
    go (some x) e h = (x, e, h)

build_from-get :
    (done : Params) (groups : List (Text × Text)) (types : List (Text × RoutePathnameParamType))
    (built : Params) (name : Text)
    → build_from done groups types ≡ some built
    → HasUniqueKeys groups
    → JsMap.get name built
      ≡ or_else (value_of (JsMap.get name groups) (JsMap.get name types)) (JsMap.get name done)
unfolding build_from
build_from-get done [] types built name h u = ap (JsMap.get name) (sym (some-injective h))
build_from-get done ((n, v) ∷ groups) types built name h (fresh, u) =
    let (x, e, k) = build_from-step done n v groups types built h in
    let rest = build_from-get (JsMap.set n x done) groups types built name k u in
    elim (Bool-cases (n == name)) [
      | inl same ↦
          let eq = (text_beq_iff n name).0 same in
          rw same (
            rest
            ∙ rw (subst (λ t. JsMap.get t groups ≡ none) eq fresh) (
                rw (JsMap.get-set n name x done) (
                  rw same
                    (rw (subst (λ t. param_value (JsMap.get t types) v ≡ some x) eq e) refl))))
      | inr other ↦ rw other (rest ∙ ap (or_else _) (JsMap.get-set n name x done ∙ rw other refl))
    ]

-- A segment is a text that is not empty and has no slash.
abbrev pub HasNoSlash : Text → Type 0
HasNoSlash s = All (λ c. c ≢ slash) s

put_first-HasNoSlash :
    (c : ℕ) (parts : List Text)
    → c ≢ slash
    → All HasNoSlash parts
    → All HasNoSlash (put_first c parts)
put_first-HasNoSlash c [] h k = ((h, tt), tt)
put_first-HasNoSlash c (part ∷ parts) h (k, ks) = ((h, k), ks)

split_slash-HasNoSlash : (s : Text) → All HasNoSlash (split_slash s)
unfolding split_slash
split_slash-HasNoSlash [] = (tt, tt)
split_slash-HasNoSlash (c ∷ s) = elim (Bool-cases (c == slash)) [
  | inl e ↦ rw e (tt, split_slash-HasNoSlash s)
  | inr e ↦ rw e (
      put_first-HasNoSlash c (split_slash s) (λ same. ground (arith, nat_beq_iff c slash, same, e))
        (split_slash-HasNoSlash s))
]

-- A text that is not empty and has no slash.
abbrev pub IsSegment : Text → Type 0
IsSegment s = (s ≢ []) × HasNoSlash s

filter-IsSegment :
    (parts : List Text)
    → All HasNoSlash parts
    → All IsSegment (filter (λ part. not (is_empty part)) parts)
filter-IsSegment [] h = tt
filter-IsSegment ([] ∷ parts) (h, hs) = filter-IsSegment parts hs
filter-IsSegment ((c ∷ part) ∷ parts) (h, hs) =
    ((λ e. ground (arith, e), h), filter-IsSegment parts hs)

segments-IsSegment : (s : Text) → All IsSegment (segments s)
unfolding segments
segments-IsSegment s = filter-IsSegment (split_slash s) (split_slash-HasNoSlash s)

-- What a type makes of a text consists of segments, where it is many texts.
param_value-IsSegment :
    (type : Option RoutePathnameParamType) (s : Text) (parts : List Text)
    → param_value type s ≡ some (many parts)
    → All IsSegment parts
unfolding param_value
param_value-IsSegment none s parts h = ground (arith, h)
param_value-IsSegment (some param) s parts h = ground (arith, h)
param_value-IsSegment (some wildcard) s parts h =
    subst (λ p. All IsSegment p) (many-injective (some-injective h)) (segments-IsSegment s)
  where
    many-injective : {a b : List Text} → many a ≡ many b → a ≡ b
    many-injective e = cc

value_of-IsSegment :
    (o : Option Text) (type : Option RoutePathnameParamType) (parts : List Text)
    → value_of o type ≡ some (many parts)
    → All IsSegment parts
value_of-IsSegment none type parts h = ground (arith, h)
value_of-IsSegment (some s) type parts h = param_value-IsSegment type s parts h

or_else-none : {V : Type 0} (o : Option V) → or_else o none ≡ o
or_else-none none = refl
or_else-none (some v) = refl

-- Where request parameters are built from groups with different names, each name has the value that
-- its group gives for its type, and no value where it has no group; the value of a wildcard consists
-- of texts that are not empty and have no slash.
pub build_request_parameters_lem :
    (groups : List (Text × Text)) (types : List (Text × RoutePathnameParamType)) (built : Params)
    (name : Text)
    → HasUniqueKeys groups
    → build_request_parameters groups types ≡ some built
    → (JsMap.get name built ≡ value_of (JsMap.get name groups) (JsMap.get name types))
      × ((parts : List Text) → JsMap.get name built ≡ some (many parts) → All IsSegment parts)
unfolding build_request_parameters
build_request_parameters_lem groups types built name u h =
    let e =
      build_from-get [] groups types built name h u
      ∙ or_else-none (value_of (JsMap.get name groups) (JsMap.get name types)) in
    (e, λ parts k. value_of-IsSegment _ _ parts (sym e ∙ k))

-- A group whose name has a type.
abbrev pub IsTyped : List (Text × RoutePathnameParamType) → Text × Text → Type 0
IsTyped types (name, s) = (t : RoutePathnameParamType) × (JsMap.get name types ≡ some t)

param_value_total :
    (t : RoutePathnameParamType) (s : Text) → (x : ParamValue) × (param_value (some t) s ≡ some x)
unfolding param_value
param_value_total param s = (_, refl)
param_value_total wildcard s = (_, refl)

build_from_total :
    (done : Params) (groups : List (Text × Text)) (types : List (Text × RoutePathnameParamType))
    → All (IsTyped types) groups
    → (built : Params) × (build_from done groups types ≡ some built)
unfolding build_from
build_from_total done [] types h = (done, refl)
build_from_total done ((n, v) ∷ groups) types ((t, e), h) =
    let (x, k) = param_value_total t v in
    let (built, b) = build_from_total (JsMap.set n x done) groups types h in
    (
      built,
      ap (λ o. elim o [ none ↦ none | some y ↦ build_from (JsMap.set n y done) groups types ])
            (ap (λ o. param_value o v) e ∙ k)
          ∙ b,
    )

param_value-IsTyped :
    (o : Option RoutePathnameParamType) (s : Text) {x : ParamValue}
    → param_value o s ≡ some x
    → (t : RoutePathnameParamType) × (o ≡ some t)
unfolding param_value
param_value-IsTyped none s h = ground (arith, h)
param_value-IsTyped (some t) s h = (t, refl)

build_from-IsTyped :
    (done : Params) (groups : List (Text × Text)) (types : List (Text × RoutePathnameParamType))
    (built : Params)
    → build_from done groups types ≡ some built
    → All (IsTyped types) groups
build_from-IsTyped done [] types built h = tt
build_from-IsTyped done ((n, v) ∷ groups) types built h =
    let (x, e, k) = build_from-step done n v groups types built h in
    (
      param_value-IsTyped (JsMap.get n types) v e,
      build_from-IsTyped (JsMap.set n x done) groups types built k,
    )

-- Building request parameters fails exactly where the name of a group has no type.
pub build_request_parameters_total :
    (groups : List (Text × Text)) (types : List (Text × RoutePathnameParamType))
    → ((built : Params) × (build_request_parameters groups types ≡ some built))
      ↔ All (IsTyped types) groups
unfolding build_request_parameters
build_request_parameters_total groups types =
    (λ h. build_from-IsTyped [] groups types h.0 h.1, build_from_total [] groups types)
