-- ===== src/Views/Closed/Keys.antt =====
-- Where the views of the local encryption key navigate to (cli/ui/local-key-manager.store.ui.ts,
-- cli/ui/local-key-manager.retrieve.ui.ts).
use nerdhub_chat_cli_prototy.Common.{
  ℕ, zero, suc, ◌≡◌, refl, inl, inr, Bool, true, false, Option, none, some, String, Text, codes,
  Bool-cases, ◌==◌, text_same, string_same, length,
}
use nerdhub_chat_cli_prototy.KeyStorage.{Retrieval, retrieved, no_file, key_not_found, retrieve_key}
use nerdhub_chat_cli_prototy.Views.{Session, done, View, resume, select, confirm, input, accept}
use nerdhub_chat_cli_prototy.Views.Closed.{
  Lands, either-Lands, resume-Lands, select-Lands, confirm-Lands, input-Lands, bottom_actions-Lands,
}
use nerdhub_chat_cli_prototy.Views.Keys.{
  Desk, is_file, sources, select_source, validated, provided_path, path_of, choose_path,
  ask_override, ask_reuse, keep_retrieved, use_key, new_key, settle_key, keep_key, back_to_chats,
  local_key_manager_store, resolved_input, retrieval_path, act, not_found_options, next_action,
  find_path, is_return_route, back_to, take_key, local_key_manager_retrieve,
}

module _ {κ} {S : Type 0} (T : Text → Option Text → Type κ) (desk : Desk)
    (index : T (codes "Index") none) where
  path_of-Lands :
      (user : Option ℕ) (b : Bool) (provided : View S Text) (s : Session S)
      → Lands T (provided s)
      → Lands T (path_of desk user b provided s)
  path_of-Lands none b provided s h = h
  path_of-Lands (some user) true provided s h = tt
  path_of-Lands (some user) false provided s h = h

  provided_path-Lands : (s : Session S) → Lands T (provided_path desk s)
  provided_path-Lands s =
      resume-Lands T _ (input (validated desk) s) (input-Lands T (validated desk) (λ t s0. tt) s)
        (λ t s1 e. tt)

  resolved_input-Lands : (s : Session S) → Lands T (resolved_input desk s)
  resolved_input-Lands s =
      resume-Lands T _ (input accept s) (input-Lands T accept (λ t s0. tt) s) (λ t s1 e. tt)

  select_source-Lands : (s : Session S) → Lands T (select_source desk s)
  select_source-Lands s = select-Lands T (sources s.client.user_id) s

  keep_retrieved-Lands : (s : Session S) (r : Retrieval) → Lands T (keep_retrieved desk s r)
  keep_retrieved-Lands s (retrieved key) = tt
  keep_retrieved-Lands s no_file = tt
  keep_retrieved-Lands s key_not_found = tt

  use_key-Lands : (path : Text) (s : Session S) → Lands T (use_key desk path s)
  unfolding use_key
  use_key-Lands path s =
      keep_retrieved-Lands s (retrieve_key desk.base64 (desk.resolve path) s.files)

  settle_key-Lands : (path : Text) (b : Bool) (s : Session S) → Lands T (settle_key desk path b s)
  unfolding new_key
  settle_key-Lands path true s = use_key-Lands path s
  settle_key-Lands path false s = tt

  ask_override-Lands : (b : Bool) (s : Session S) → Lands T (ask_override desk b s)
  ask_override-Lands true s = tt
  ask_override-Lands false s = resume-Lands T _ (confirm s) (confirm-Lands T s) (λ b s1 e. tt)

  ask_reuse-Lands : (path : Text) (s : Session S) → Lands T (ask_reuse desk path s)
  unfolding ask_reuse
  ask_reuse-Lands path s =
      either-Lands T (is_file desk path s.files) (resume (ask_override desk) (confirm s))
        (done false, s)
        (resume-Lands T (ask_override desk) (confirm s) (confirm-Lands T s)
          (λ b s1 e. ask_override-Lands b s1))
        tt

  keep_key-Lands : (s : Session S) → Lands T (keep_key desk s)
  unfolding keep_key choose_path
  keep_key-Lands s =
      resume-Lands T _ (select_source desk s) (select_source-Lands s) (λ source s1 e1.
        resume-Lands T _ (choose_path desk source s1)
          (path_of-Lands s1.client.user_id (source == "user-based") (provided_path desk) s1
            (provided_path-Lands s1))
          (λ path s2 e2.
            resume-Lands T _ (ask_reuse desk path s2) (ask_reuse-Lands path s2) (λ b s3 e3.
              resume-Lands T _ (settle_key desk path b s3) (settle_key-Lands path b s3)
                (λ u s4 e4. tt))))

  back_to_chats-Lands :
      (from : Option Text) (s : Session S)
      → ((from' : Text) → from ≡ some from' → T from' none)
      → Lands T (back_to_chats desk from s)
  back_to_chats-Lands none s h = tt
  back_to_chats-Lands (some from) s h = elim (Bool-cases (from == codes "Chats")) [
    | inl e ↦ rw e (h from refl)
    | inr e ↦ rw e tt
  ]

  pub store-Lands :
      (from : Option Text) (s : Session S)
      → ((from' : Text) → from ≡ some from' → T from' none)
      → Lands T (local_key_manager_store desk from s)
  unfolding local_key_manager_store
  store-Lands from s h = resume-Lands T _ (keep_key desk s) (keep_key-Lands s) (λ path s1 e1.
      resume-Lands T _ (back_to_chats desk from s1) (back_to_chats-Lands from s1 h)
        (λ u s2 e2. bottom_actions-Lands T index s2))

  module _ (from : Option Text) (store : T (codes "LocalKeyManager.Store") from) where
    act-Lands : (action : String) (s : Session S) → Lands T (act desk from action s)
    act-Lands action s = elim (Bool-cases (action == "store")) [
      | inl a ↦ rw a store
      | inr a ↦ rw a (elim (Bool-cases (action == "Index")) [
        | inl b ↦ rw b index
        | inr b ↦ rw b (elim (Bool-cases (action == "Exit")) [ inl c ↦ rw c tt | inr c ↦ rw c tt ])
      ])
    ]

    next_action-Lands :
        (again : View S Text) (mode : String) (s : Session S)
        → ((s : Session S) → Lands T (again s))
        → Lands T (next_action desk again from mode s)
    next_action-Lands again mode s h =
        resume-Lands T _ (select (not_found_options mode) s)
          (select-Lands T (not_found_options mode) s)
          (λ a s1 e1. resume-Lands T _ (act desk from a s1) (act-Lands a s1) (λ u s2 e2. h s2))

    find_path-Lands :
        (rounds : ℕ) (mode : String) (s : Session S) → Lands T (find_path desk rounds from mode s)
    unfolding find_path retrieval_path
    find_path-Lands zero mode s = tt
    find_path-Lands (suc rounds) mode s =
        let again : View S Text = find_path desk rounds from mode in
        resume-Lands T _ (retrieval_path desk mode s)
          (path_of-Lands s.client.user_id (mode == "user-based") (resolved_input desk) s
            (resolved_input-Lands s))
          (λ path s1 e1.
            either-Lands T (is_file desk path s1.files) (done path, s1)
              (next_action desk again from mode s1) tt
              (next_action-Lands again mode s1 (find_path-Lands rounds mode)))

    take_key-Lands : (s : Session S) → Lands T (take_key desk from s)
    unfolding take_key
    take_key-Lands s =
        resume-Lands T _ (select_source desk s) (select_source-Lands s) (λ mode s1 e1.
          resume-Lands T _ (find_path desk (suc (length s1.answers)) from mode s1)
            (find_path-Lands (suc (length s1.answers)) mode s1)
            (λ path s2 e2.
              resume-Lands T _ (use_key desk path s2) (use_key-Lands path s2) (λ u s3 e3. tt)))

  back_to-Lands :
      (from : Option Text) (s : Session S)
      → ((from' : Text) → from ≡ some from' → T from' (some from'))
      → Lands T (back_to desk from s)
  back_to-Lands none s h = tt
  back_to-Lands (some from) s h = elim (Bool-cases (is_return_route from)) [
    | inl e ↦ rw e (h from refl)
    | inr e ↦ rw e tt
  ]

  pub retrieve-Lands :
      (from : Option Text) (s : Session S)
      → T (codes "LocalKeyManager.Store") from
      → ((from' : Text) → from ≡ some from' → T from' (some from'))
      → Lands T (local_key_manager_retrieve desk from s)
  unfolding local_key_manager_retrieve
  retrieve-Lands from s store h =
      resume-Lands T _ (take_key desk from s) (take_key-Lands from store s) (λ path s1 e1.
        resume-Lands T _ (back_to desk from s1) (back_to-Lands from s1 h)
          (λ u s2 e2. bottom_actions-Lands T index s2))
