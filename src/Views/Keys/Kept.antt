-- ===== src/Views/Keys/Kept.antt =====
-- Which key the store view leaves, and what it does to the files (cli/ui/local-key-manager.store.ui.ts).
use nerdhub_chat_cli_prototy.Common.{
  ℕ, ◌≡◌, ◌≢◌, ◌⊎◌, refl, sym, ap, subst, ◌∙◌, inl, inr, Bool, true, false, not, some, List, [],
  ◌∷◌, ◌++◌, Text, ◌==◌, text_same, string_same, Bool-cases, text_beq_iff, if◌then◌else◌,
}
use nerdhub_chat_cli_prototy.Common.JsMap
use nerdhub_chat_cli_prototy.KeyStorage.{
  Files, Base64, Retrieval, retrieved, no_file, key_not_found, store_key, retrieve_key,
  retrieve_key-store_key,
}
use nerdhub_chat_cli_prototy.Views.{
  Answer, confirmed, Session, Finish, done, ◌>>=◌, confirm, with_answers,
}
use nerdhub_chat_cli_prototy.Views.Prompts.{
  resume-done, Takes, Takes-with_answers, Takes-refl, Takes-trans, select-Takes, confirm_lem,
}
use nerdhub_chat_cli_prototy.Views.Keys.Paths.{mapped_input-Takes, path_of-Takes}
use nerdhub_chat_cli_prototy.Views.Keys.{
  Desk, encryption_key_length, is_file, validate_path, transform_path, sources, select_source,
  provided_path, choose_path, ask_override, ask_reuse, set_key, keep_retrieved, use_key, keep_new,
  new_key, settle_key, keep_key,
}

-- What the view relies on: base64 decodes what it encodes of the random bytes, and encodes none as the
-- empty text.
pub record KeepsKeys (desk : Desk) : Type 0 where
  pub decoded :
      (n : ℕ)
      → let key = desk.random_bytes n encryption_key_length in
        desk.base64.decode (desk.base64.encode key) ≡ key
  pub encoded : (n : ℕ) → desk.base64.encode (desk.random_bytes n encryption_key_length) ≢ []

-- what is read at any path where only one may have changed
only_at :
    (path other : Text) (files files' : Files)
    → ((path == other) ≡ false → JsMap.get other files' ≡ JsMap.get other files)
    → JsMap.get other files'
      ≡ (if path == other then JsMap.get path files' else JsMap.get other files)
only_at path other files files' h = elim (Bool-cases (path == other)) [
  | inl same ↦ rw same (ap (λ p. JsMap.get p files') (sym ((text_beq_iff path other).0 same)))
  | inr other_ ↦ rw other_ (h other_)
]

unchanged :
    (path other : Text) (files : Files)
    → JsMap.get other files
      ≡ (if path == other then JsMap.get path files else JsMap.get other files)
unchanged path other files = only_at path other files files (λ e. refl)

store_key-other :
    (base64 : Base64) (key : List ℕ) (path other : Text) (files : Files)
    → let files' = store_key base64 key path files in
      JsMap.get other files'
      ≡ (if path == other then JsMap.get path files' else JsMap.get other files)
unfolding store_key
store_key-other base64 key path other files =
    only_at path other files _ (λ e. JsMap.get-set path other _ files ∙ rw e refl)

module _ {S : Type 0} (desk : Desk) where
  provided_path-Takes :
      (s s' : Session S) (path : Text) → provided_path desk s ≡ (done path, s') → Takes s s'
  provided_path-Takes = mapped_input-Takes validate_path (transform_path desk)

  -- The question whether to reuse a file's key. It is not reused where there is no file, or where the
  -- last two answers were not to reuse it and to override it.
  abbrev Decides : Text → Bool → Session S → Session S → Type 0
  Decides path true s s' = is_file desk path s.files ≡ true
  Decides path false s s' =
      (is_file desk path s.files ≡ false)
      ⊎ (s.answers ≡ confirmed false ∷ confirmed true ∷ s'.answers)

  decided :
      (path : Text) (s s' : Session S) (override : Bool)
      → is_file desk path s.files ≡ true
      → s.answers ≡ confirmed false ∷ confirmed override ∷ s'.answers
      → Decides path (not override) s s'
  decided path s s' true f e = inr e
  decided path s s' false f e = f

  asked :
      (path : Text) (s t s' : Session S) (first reuse : Bool)
      → is_file desk path s.files ≡ true
      → confirm s ≡ (done first, t)
      → ask_override desk first t ≡ (done reuse, s')
      → Takes s s' × Decides path reuse s s'
  asked path s t s' true reuse f e h =
      let (rest, a, put) = confirm_lem s t true e in
      let same : true ≡ reuse = cc h in
      let last : t ≡ s' = ap (λ (x : Finish Bool × Session S). x.1) h in
      (
        Takes-with_answers s s' (confirmed true ∷ []) rest (sym last ∙ put) a,
        subst (λ r. Decides path r s s') same f,
      )
  asked path s t s' false reuse f e h =
      let (rest, a, put) = confirm_lem s t false e in
      let (override, u, e', h') = resume-done _ (confirm t) reuse s' h in
      let (rest', a', put') = confirm_lem t u override e' in
      let same : not override ≡ reuse = cc h' in
      let last : u ≡ s' = ap (λ (x : Finish Bool × Session S). x.1) h' in
      let answers : rest ≡ confirmed override ∷ rest' =
        sym (ap (λ (x : Session S). x.answers) put) ∙ a' in
      let done_ : s' ≡ with_answers rest' s =
        sym last ∙ put' ∙ ap (λ (x : Session S). with_answers rest' x) put in
      let all : s.answers ≡ confirmed false ∷ confirmed override ∷ rest' =
        a ∙ ap (λ x. confirmed false ∷ x) answers in
      (
        Takes-with_answers s s' (confirmed false ∷ confirmed override ∷ []) rest' done_ all,
        subst (λ r. Decides path r s s') same
            (decided path s s' override f (
              all
              ∙ ap (λ (x : Session S). confirmed false ∷ confirmed override ∷ x.answers)
                  (sym done_))),
      )

  ask_reuse_lem :
      (path : Text) (s s' : Session S) (reuse : Bool)
      → ask_reuse desk path s ≡ (done reuse, s')
      → Takes s s' × Decides path reuse s s'
  unfolding ask_reuse
  ask_reuse_lem path s s' reuse h = elim (Bool-cases (is_file desk path s.files)) [
    | inl f ↦
        let x : (confirm >>= ask_override desk) s ≡ (done reuse, s') = rw f at h in
        let (first, t, e, h') = resume-done _ (confirm s) reuse s' x in
        asked path s t s' first reuse f e h'
    | inr f ↦
        let x : ◌≡◌ {A = Finish Bool × Session S} (done false, s) (done reuse, s') = rw f at h in
        let same : false ≡ reuse = cc x in
        (
          subst (Takes s) (ap (λ (y : Finish Bool × Session S). y.1) x) (Takes-refl s),
          subst (λ r. Decides path r s s') same (inl f),
        )
  ]

  -- The files are as they were but for the path, and the context has the key that it holds.
  abbrev pub Keeps : Text → Session S → Session S → Type 0
  Keeps path s s' =
      (key : Text) × (s'.client.local_encryption_key ≡ some key)
      × (retrieve_key desk.base64 (desk.resolve path) s'.files ≡ retrieved key)
      × ((other : Text)
          → JsMap.get other s'.files ≡ (
              if desk.resolve path == other
              then JsMap.get (desk.resolve path) s'.files
              else JsMap.get other s.files))

  keep_retrieved-Keeps :
      (path : Text) (s s' : Session S) (r : Retrieval)
      → retrieve_key desk.base64 (desk.resolve path) s.files ≡ r
      → keep_retrieved desk s r ≡ (done tt, s')
      → Keeps path s s' × (s'.files ≡ s.files)
  keep_retrieved-Keeps path s s' (retrieved key) e h =
      let put : set_key desk key s ≡ s' = ap (λ (x : Finish (Unit {0}) × Session S). x.1) h in
      subst (λ x. Keeps path s x × (x.files ≡ s.files)) put
        ((key, refl, e, λ other. unchanged (desk.resolve path) other s.files), refl)
  keep_retrieved-Keeps path s s' no_file e h = cc h
  keep_retrieved-Keeps path s s' key_not_found e h = cc h

  new_key-Keeps :
      KeepsKeys desk
      → (path : Text) (s s' : Session S) → new_key desk path s ≡ (done tt, s')
      → Keeps path s s'
  unfolding new_key
  new_key-Keeps laws path s s' h =
      let key = desk.random_bytes s.client.generated encryption_key_length in
      let put : keep_new desk path key s ≡ s' = ap (λ (x : Finish (Unit {0}) × Session S). x.1) h in
      subst (Keeps path s) put (
        key,
        refl,
        retrieve_key-store_key desk.base64 key (desk.resolve path) s.files
            (laws.decoded s.client.generated) (laws.encoded s.client.generated),
        λ other. store_key-other desk.base64 key (desk.resolve path) other s.files,
      )

  settle_key-Keeps :
      KeepsKeys desk
      → (path : Text) (s t s' : Session S) (reuse : Bool) → Takes s t
      → Decides path reuse s t
      → settle_key desk path reuse t ≡ (done tt, s')
      → Keeps path t s' × ((s'.files ≡ t.files) ⊎ Decides path false s t)
  unfolding use_key
  settle_key-Keeps laws path s t s' true k d h =
      let (kept, same) =
        keep_retrieved-Keeps path t s' (retrieve_key desk.base64 (desk.resolve path) t.files) refl
          h in
      (kept, inl same)
  settle_key-Keeps laws path s t s' false k d h = (new_key-Keeps laws path t s' h, inr d)

  -- What becomes of the files at the path: they are as they were, there was none at the path, or the
  -- user refused to reuse it and confirmed to override it.
  abbrev pub Overrides : Text → Session S → Session S → Type 0
  Overrides path s s' =
      (s'.files ≡ s.files)
      ⊎ (is_file desk path s.files ≡ false)
      ⊎ ((before : List Answer) × (after : List Answer) × (s.answers
            ≡ before ++ confirmed false ∷ confirmed true ∷ after))

  overrides :
      (path : Text) (s s2 s3 s' : Session S)
      → Takes s s2
      → s3.files ≡ s.files
      → (s'.files ≡ s3.files) ⊎ Decides path false s2 s3
      → Overrides path s s'
  overrides path s s2 s3 s' (c, f, taken, e) g (inl same) = inl (same ∙ g)
  overrides path s s2 s3 s' (c, f, taken, e) g (inr (inl none_)) =
      inr (inl (subst (λ files. is_file desk path files ≡ false) f none_))
  overrides path s s2 s3 s' (c, f, taken, e) g (inr (inr refused)) =
      inr (inr (taken, s3.answers, e ∙ ap (λ x. taken ++ x) refused))

  gathered :
      (path : Text) (s s2 s3 s' : Session S)
      → Takes s s2
      → Takes s s3
      → Keeps path s3 s'
      → (s'.files ≡ s3.files) ⊎ Decides path false s2 s3
      → Keeps path s s' × Overrides path s s'
  gathered path s s2 s3 s' (c, f, taken, e) (d, g, more, e') (key, has, reads, others) files = (
    (
      key,
      has,
      reads,
      λ other.
          others other
          ∙ ap
              (λ files'.
                if desk.resolve path == other
                then JsMap.get (desk.resolve path) s'.files
                else JsMap.get other files')
              g,
    ),
    overrides path s s2 s3 s' (c, f, taken, e) g files,
  )

  -- Wherever the store view comes to its end with a path, the key of the context is the one that is
  -- retrieved from the path, no other file has changed, and a file that was at the path is as it was unless
  -- the user has refused to reuse it and confirmed to override it.
  pub keep_key-retrieve_key :
      KeepsKeys desk
      → (s s' : Session S) (path : Text) → keep_key desk s ≡ (done path, s')
      → Keeps path s s' × Overrides path s s'
  unfolding keep_key choose_path
  keep_key-retrieve_key laws s s' path h =
      let (source, s1, e1, h1) = resume-done _ (select_source desk s) path s' h in
      let (p, s2, e2, h2) = resume-done _ (choose_path desk source s1) path s' h1 in
      let (reuse, s3, e3, h3) = resume-done _ (ask_reuse desk p s2) path s' h2 in
      let (u, s4, e4, h4) = resume-done _ (settle_key desk p reuse s3) path s' h3 in
      let t1 = select-Takes (sources s.client.user_id) s s1 source e1 in
      let t2 =
        path_of-Takes desk s1.client.user_id (source == "user-based") (provided_path desk)
          (provided_path-Takes) s1 s2 p e2 in
      let chosen_ = Takes-trans s s1 s2 t1 t2 in
      let (t3, d) = ask_reuse_lem p s2 s3 reuse e3 in
      let (kept, files) = settle_key-Keeps laws p s2 s3 s4 reuse t3 d e4 in
      let same : p ≡ path = cc h4 in
      let last : s4 ≡ s' = ap (λ (x : Finish Text × Session S). x.1) h4 in
      subst (λ q. Keeps q s s' × Overrides q s s') same
        (subst (λ x. Keeps p s x × Overrides p s x) last
          (gathered p s s2 s3 s4 chosen_ (Takes-trans s s2 s3 chosen_ t3) kept files))
