-- ===== src/KeyStorage.antt =====
-- The stored key of the local encryption (primitives/local-encryption/local-encryption-key.manager.ts;
-- core/local-encryption/local-encryption-key-storage.ts is the same code). Base64 is a parameter; a
-- file is the text that its bytes encode, under its resolved path.
mod Tests
use nerdhub_chat_cli_prototy.Common.{
  ℕ, ◌≡◌, refl, sym, ap, ◌∙◌, ◌≢◌, Bool, true, false, Option, none, some, List, [], ◌∷◌, ◌++◌, ◌==◌,
  nat_same, text_same, same_refl, Text, codes, if◌then◌else◌, arith, List-cases, inl, inr,
}
use nerdhub_chat_cli_prototy.Common.JsMap
use nerdhub_chat_cli_prototy.Pathname.{strip_prefix, is_some}

abbrev pub header : Text
header = codes "-----BEGIN AES KEY-----" ++ (10 ∷ [])

abbrev pub footer : Text
footer = 10 ∷ codes "-----END AES KEY-----"

-- Files by their resolved paths.
abbrev pub Files : Type 0
Files = List (Text × Text)

-- `Buffer.toString("base64")` and `Buffer.from(…, "base64")`
pub record Base64 : Type 0 where
  pub encode : List ℕ → Text
  pub decode : Text → List ℕ

pub data Retrieval : Type 0 where
  retrieved : List ℕ → Retrieval
  no_file key_not_found : Retrieval

unfoldable pub store_key : Base64 → List ℕ → Text → Files → Files
store_key base64 key path files = JsMap.set path (header ++ (base64.encode key ++ footer)) files

abbrev with_first : ℕ → Option Text → Option Text
with_first c none = none
with_first c (some p) = some (c ∷ p)

abbrev or_later : Option Text → Option Text → Option Text
or_later none later = later
or_later (some p) later = some p

-- what stands before the last footer of a text, which a greedy group reaches
unfoldable pub before_last_footer : Text → Option Text
before_last_footer [] = none
before_last_footer (c ∷ s) = elim (before_last_footer s) [
  | some p ↦ some (c ∷ p)
  | none ↦ if is_some (strip_prefix footer (c ∷ s)) then some [] else none
]

-- the group of a match behind a header: it holds at least one unit
unfoldable pub group_behind : Option Text → Option Text
unfolding before_last_footer
group_behind none = none
group_behind (some []) = none
group_behind (some (c ∷ s)) = with_first c (before_last_footer s)

-- the group of the first match of the format
unfoldable pub match_pem_format : Text → Option Text
unfolding group_behind
match_pem_format [] = none
match_pem_format (c ∷ s) =
    or_later (group_behind (strip_prefix header (c ∷ s))) (match_pem_format s)

abbrev of_match : Base64 → Option Text → Retrieval
of_match base64 none = key_not_found
of_match base64 (some t) = retrieved (base64.decode t)

unfoldable of_file : Base64 → Option Text → Retrieval
unfolding match_pem_format
of_file base64 none = no_file
of_file base64 (some content) = of_match base64 (match_pem_format content)

unfoldable pub retrieve_key : Base64 → Text → Files → Retrieval
unfolding of_file
retrieve_key base64 path files = of_file base64 (JsMap.get path files)

before_last_footer-append : (b : Text) → before_last_footer (b ++ footer) ≡ some b
unfolding before_last_footer
before_last_footer-append [] = refl
before_last_footer-append (c ∷ b) = rw (before_last_footer-append b) refl

match_pem_format-first :
    (c : ℕ) (s p : Text)
    → group_behind (strip_prefix header (c ∷ s)) ≡ some p
    → match_pem_format (c ∷ s) ≡ some p
unfolding match_pem_format
match_pem_format-first c s p h = ap (λ o. or_later o (match_pem_format s)) h

match_pem_format-stored :
    (c : ℕ) (b : Text) → match_pem_format (header ++ ((c ∷ b) ++ footer)) ≡ some (c ∷ b)
unfolding group_behind
match_pem_format-stored c b =
    match_pem_format-first _ _ (c ∷ b) (ap (with_first c) (before_last_footer-append b))

get-stored :
    (path other content : Text) (files : Files) (b : Bool)
    → (path == other) ≡ b
    → JsMap.get other (JsMap.set path content files)
      ≡ (if b then some content else JsMap.get other files)
get-stored path other content files b h =
    JsMap.get-set path other content files
    ∙ ap (λ t. if t then some content else JsMap.get other files) h

-- A key that was stored under a path is retrieved from it, where base64 decodes what it encodes and
-- does not encode the key as the empty text.
pub retrieve_key-store_key :
    (base64 : Base64) (key : List ℕ) (path : Text) (files : Files)
    → base64.decode (base64.encode key) ≡ key
    → base64.encode key ≢ []
    → retrieve_key base64 path (store_key base64 key path files) ≡ retrieved key
unfolding retrieve_key store_key
retrieve_key-store_key base64 key path files h full =
    ap (of_file base64) (get-stored path path _ files true (same_refl path))
    ∙ elim (List-cases (base64.encode key)) [
      | inl e ↦ absurd (full e)
      | inr (c, b, e) ↦
          ap (of_match base64) (
            ap (λ t. match_pem_format (header ++ (t ++ footer))) e
            ∙ match_pem_format-stored c b
            ∙ ap (λ t. some t) (sym e))
          ∙ ap (λ k. retrieved k) h
    ]

-- Storing a key under one path does not change what is retrieved from another.
pub retrieve_key-other_path :
    (base64 : Base64) (key : List ℕ) (path other : Text) (files : Files)
    → (path == other) ≡ false
    → retrieve_key base64 other (store_key base64 key path files) ≡ retrieve_key base64 other files
unfolding retrieve_key store_key
retrieve_key-other_path base64 key path other files h =
    ap (of_file base64) (get-stored path other _ files false h)
