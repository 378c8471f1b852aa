-- ===== src/Client/Trust.antt =====
-- Which local bundles the setup accepts (cli/ui/middlewares/setup-prekey-bundle.middleware.ts).
use nerdhub_chat_cli_prototy.Common.{ℕ, suc, ◌≡◌, ap, ◌∙◌, Bool, some, Text}
use nerdhub_chat_cli_prototy.Client.{BundleRow, ContextBundle, Client, done, Step, resume, ◌>>=◌}
use nerdhub_chat_cli_prototy.Client.Bundles.{
  Surroundings, decrypt_step, verify_x25519_key_pair, did_not_throw, verified_step, verified_also,
  kept_bundle, decrypted_bundle,
}

module _ {S : Type 0} (env : Surroundings S) where
  -- the context's bundle of a row and two private keys
  abbrev pub context_of : BundleRow → Text → Text → ContextBundle
  context_of row identity signed = record {
    identity_key = (identity, row.pub_identity_key);
    signed_prekey = (signed, row.pub_signed_prekey);
    signed_prekey_signature = row.signed_prekey_signature;
  }

  -- Where the private keys of a local bundle are decrypted to whatever keys the platform takes, the
  -- setup accepts them as the pairs of the public keys, whether they are pairs or not: `a` and `b` say
  -- it, and the outcome does not depend on them.
  pub pairs_unchecked :
      (user : ℕ) (row : BundleRow) (identity signed : Text) (a b : Bool) (c c1 c2 : Client S)
      → decrypt_step env row.priv_identity_key c ≡ (done identity, c1)
      → decrypt_step env row.priv_signed_prekey c1 ≡ (done signed, c2)
      → verify_x25519_key_pair env c2.generated identity row.pub_identity_key ≡ some a
      → verify_x25519_key_pair env (suc c2.generated) signed row.pub_signed_prekey ≡ some b
      → decrypted_bundle env user row c ≡ (
        done (row, context_of row identity signed),
        record c2 { generated = suc (suc c2.generated) },
      )
  unfolding decrypted_bundle
  pairs_unchecked user row identity signed a b c c1 c2 d1 d2 v1 v2 =
      let verified : Text → Text → Step S (BundleRow × ContextBundle) = λ x y.
        verified_step env x row.pub_identity_key >>= λ ok.
        verified_also env y row.pub_signed_prekey ok >>= kept_bundle env user row x y in
      ap (resume (λ x. decrypt_step env row.priv_signed_prekey >>= verified x)) d1
      ∙ ap (resume (verified identity)) d2
      ∙ ap
          (λ o.
            resume
              (λ ok.
                verified_also env signed row.pub_signed_prekey ok
                >>= kept_bundle env user row identity signed)
              (done (did_not_throw env o), record c2 { generated = suc c2.generated }))
          v1
      ∙ ap
          (λ o.
            resume (kept_bundle env user row identity signed)
              (done (did_not_throw env o), record c2 { generated = suc (suc c2.generated) }))
          v2
