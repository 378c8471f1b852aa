-- ===== src/Views/Keys/Found.antt =====
-- Which key the retrieve view finds, and that its loop ends (cli/ui/local-key-manager.retrieve.ui.ts).
use nerdhub_chat_cli_prototy.Common.{
  ℕ, zero, suc, ◌<◌, ◌≤◌, ◌≡◌, refl, sym, ap, subst, ◌∙◌, inl, inr, true, Option, none, some,
  String, Text, codes, ◌==◌, text_same, string_same, Bool-cases, length, length-append, arith,
}
use nerdhub_chat_cli_prototy.KeyStorage.{Retrieval, retrieved, no_file, key_not_found, retrieve_key}
use nerdhub_chat_cli_prototy.Views.{Session, Finish, done, navigates, exits, View, select}
use nerdhub_chat_cli_prototy.Views.Prompts.{
  resume-done, resume-agree, select_lem, Takes, Takes-refl, Takes-trans, select-Takes,
}
use nerdhub_chat_cli_prototy.Views.Keys.Paths.{mapped_input-Takes, path_of-Takes}
use nerdhub_chat_cli_prototy.Views.Keys.{
  Desk, is_file, sources, select_source, set_key, keep_retrieved, use_key, resolved_input,
  retrieval_path, not_found_options, exit_or_go_on, index_or_exit, act, next_action, found_or,
  find_path, take_key,
}

module _ {S : Type 0} (desk : Desk) where
  retrieval_path-Takes :
      (mode : String) (s s' : Session S) (path : Text)
      → retrieval_path desk mode s ≡ (done path, s')
      → Takes s s'
  unfolding retrieval_path
  retrieval_path-Takes mode s s' path h =
      path_of-Takes desk s.client.user_id (mode == "user-based") (resolved_input desk)
        (mapped_input-Takes (λ _. true) (λ t. desk.resolve (desk.trimmed t))) s s' path h

  act-done :
      (from : Option Text) (action : String) (s s' : Session S) (u : Unit {0})
      → act desk from action s ≡ (done u, s')
      → s ≡ s'
  act-done from action s s' u h = elim (Bool-cases (action == "store")) [
    | inl a ↦
        let x : ◌≡◌ {A = Finish (Unit {0}) × Session S}
            (navigates (codes "LocalKeyManager.Store") from, s) (done u, s') =
          rw a at h in
        cc x
    | inr a ↦
        let x : index_or_exit action s ≡ (done u, s') = rw a at h in
        elim (Bool-cases (action == "Index")) [
          | inl b ↦
              let y : ◌≡◌ {A = Finish (Unit {0}) × Session S} (navigates (codes "Index") none, s)
                  (done u, s') =
                rw b at x in
              cc y
          | inr b ↦
              let y : exit_or_go_on action s ≡ (done u, s') = rw b at x in
              elim (Bool-cases (action == "Exit")) [
                | inl c ↦
                    let z : ◌≡◌ {A = Finish (Unit {0}) × Session S} (exits, s) (done u, s') =
                      rw c at y in
                    cc z
                | inr c ↦
                    let z : ◌≡◌ {A = Finish (Unit {0}) × Session S} (done tt, s) (done u, s') =
                      rw c at y in
                    ap (λ (w : Finish (Unit {0}) × Session S). w.1) z
              ]
        ]
  ]

  act-Takes :
      (from : Option Text) (action : String) (s s' : Session S) (u : Unit {0})
      → act desk from action s ≡ (done u, s')
      → Takes s s'
  act-Takes from action s s' u h = subst (Takes s) (act-done from action s s' u h) (Takes-refl s)

  -- A path that the loop gives is that of a file.
  abbrev Finds : Text → Session S → Session S → Type 0
  Finds path s s' = Takes s s' × (is_file desk path s'.files ≡ true)

  find_path-Finds :
      (rounds : ℕ) (from : Option Text) (mode : String) (s s' : Session S) (path : Text)
      → find_path desk rounds from mode s ≡ (done path, s')
      → Finds path s s'
  unfolding find_path
  find_path-Finds zero from mode s s' path h = cc h
  find_path-Finds (suc rounds) from mode s s' path h =
      let again : View S Text = find_path desk rounds from mode in
      let (p, s1, e1, h1) = resume-done _ (retrieval_path desk mode s) path s' h in
      let t1 = retrieval_path-Takes mode s s1 p e1 in
      elim (Bool-cases (is_file desk p s1.files)) [
        | inl there ↦
            let x : ◌≡◌ {A = Finish Text × Session S} (done p, s1) (done path, s') =
              rw there at h1 in
            let same : p ≡ path = cc x in
            subst (λ q. Finds q s s') same
              (subst (Finds p s) (ap (λ (y : Finish Text × Session S). y.1) x) (t1, there))
        | inr absent ↦
            let x : next_action desk again from mode s1 ≡ (done path, s') = rw absent at h1 in
            let (action, s2, e2, h2) =
              resume-done _ (select (not_found_options mode) s1) path s' x in
            let (u, s3, e3, h3) = resume-done _ (act desk from action s2) path s' h2 in
            let t2 = select-Takes (not_found_options mode) s1 s2 action e2 in
            let t3 = act-Takes from action s2 s3 u e3 in
            let (t, there) = find_path-Finds rounds from mode s3 s' path h3 in
            (Takes-trans s s1 s' t1 (Takes-trans s1 s2 s' t2 (Takes-trans s2 s3 s' t3 t)), there)
      ]

  Takes-le : (s s' : Session S) → Takes s s' → length s'.answers ≤ length s.answers
  Takes-le s s' (c, f, taken, e) = omega (arith, ap length e, length-append taken s'.answers)

  found_or-agree :
      (again again' : View S Text) (from : Option Text) (mode : String) (path : Text)
      (s : Session S)
      → ((t : Session S) → length t.answers < length s.answers → again t ≡ again' t)
      → found_or desk again from mode path s ≡ found_or desk again' from mode path s
  found_or-agree again again' from mode path s h = elim (Bool-cases (is_file desk path s.files)) [
    | inl there ↦ rw there refl
    | inr absent ↦ rw absent (
        resume-agree _ _ (select (not_found_options mode) s) (λ action s2 e2.
          resume-agree _ _ (act desk from action s2) (λ u s3 e3.
            let (rest, a, put) = select_lem (not_found_options mode) s s2 action e2 in
            let left : s3.answers ≡ rest =
              ap (λ (x : Session S). x.answers) (sym (act-done from action s2 s3 u e3) ∙ put) in
            h s3 (omega (arith, ap length a, ap length left)))))
  ]

  -- More rounds than there are answers all give the same: the loop has come to its end.
  pub find_path-enough :
      (n m : ℕ) (from : Option Text) (mode : String) (s : Session S)
      → length s.answers < n
      → length s.answers < m
      → find_path desk n from mode s ≡ find_path desk m from mode s
  unfolding find_path
  find_path-enough zero m from mode s a b = elim a [ ]
  find_path-enough (suc n) zero from mode s a b = elim b [ ]
  find_path-enough (suc n) (suc m) from mode s a b =
      resume-agree _ _ (retrieval_path desk mode s) (λ p s1 e.
        found_or-agree (find_path desk n from mode) (find_path desk m from mode) from mode p s1
          (λ t less.
            let shorter = Takes-le s s1 (retrieval_path-Takes mode s s1 p e) in
            find_path-enough n m from mode t (omega arith) (omega arith)))

  used :
      (path : Text) (s s' : Session S) (r : Retrieval)
      → keep_retrieved desk s r ≡ (done tt, s')
      → (key : Text) × (s'.client.local_encryption_key ≡ some key)
        × (r ≡ retrieved key)
        × (s'.files ≡ s.files)
  used path s s' (retrieved key) h =
      let put : set_key desk key s ≡ s' = ap (λ (x : Finish (Unit {0}) × Session S). x.1) h in
      subst
        (λ (x : Session S).
          (k : Text) × (x.client.local_encryption_key ≡ some k)
          × (retrieved key ≡ retrieved k)
          × (x.files ≡ s.files))
        put (key, refl, refl, refl)
  used path s s' no_file h = cc h
  used path s s' key_not_found h = cc h

  -- Wherever the retrieve view comes to its end with a path, a file was at the path, the key of the
  -- context is the one that this file has, and no file has changed.
  pub take_key-retrieve_key :
      (from : Option Text) (s s' : Session S) (path : Text)
      → take_key desk from s ≡ (done path, s')
      → (key : Text) × (is_file desk path s.files ≡ true)
        × (retrieve_key desk.base64 (desk.resolve path) s.files ≡ retrieved key)
        × (s'.client.local_encryption_key ≡ some key)
        × (s'.files ≡ s.files)
  unfolding take_key use_key
  take_key-retrieve_key from s s' path h =
      let (mode, s1, e1, h1) = resume-done _ (select_source desk s) path s' h in
      let (p, s2, e2, h2) =
        resume-done _ (find_path desk (suc (length s1.answers)) from mode s1) path s' h1 in
      let (u, s3, e3, h3) = resume-done _ (use_key desk p s2) path s' h2 in
      let t1 = select-Takes (sources s.client.user_id) s s1 mode e1 in
      let (t2, there) = find_path-Finds (suc (length s1.answers)) from mode s1 s2 p e2 in
      let t = Takes-trans s s1 s2 t1 t2 in
      let (key, has, r, files) =
        used p s2 s3 (retrieve_key desk.base64 (desk.resolve p) s2.files) e3 in
      let same : p ≡ path = cc h3 in
      let last : s3 ≡ s' = ap (λ (x : Finish Text × Session S). x.1) h3 in
      (
        key,
        ap (λ q. is_file desk q s.files) (sym same)
            ∙ ap (λ x. is_file desk p x) (sym (t.1))
            ∙ there,
        ap (λ q. retrieve_key desk.base64 (desk.resolve q) s.files) (sym same)
            ∙ ap (λ x. retrieve_key desk.base64 (desk.resolve p) x) (sym (t.1))
            ∙ r,
        ap (λ (x : Session S). x.client.local_encryption_key) (sym last) ∙ has,
        ap (λ (x : Session S). x.files) (sym last) ∙ files ∙ t.1,
      )
