-- ===== src/Pipeline/Execute/Reversible.antt =====
-- What `fsRollback` undoes of a call of `executeMutation` (src/pipeline/execute.ts).
use vault_engine.Base.{
  Text, false, [], ◌∷◌, ◌++◌, ◌≡◌, ◌⊎◌, refl, sym, ap, ◌∙◌, inl, inr, Bool-cases, Option,
  if◌then◌else◌, ◌==◌, eq_iff, eq_refl, arith,
}
use vault_engine.Pipeline.World.{
  Env, World, Rollback, ProposedMutation, read_file_or_null, roll_back,
}
use vault_engine.Pipeline.World.Files.{read-roll_back}
use vault_engine.Pipeline.Execute.{put_file, execute_mutation}
use vault_engine.Pipeline.Execute.Cases.{execute-cases, IsDrafted}
use vault_engine.Pipeline.Execute.Rows.{Draft}
use vault_engine.Pipeline.Execute.Written.{read-put_file}

-- The files are as they were, or one closure more brings them back.
abbrev pub IsReversible : Env → World → World → Type 0
IsReversible env w after =
    ((after.files ≡ w.files) × (after.rollbacks ≡ w.rollbacks))
    ⊎ ((r : Rollback) × (after.rollbacks ≡ w.rollbacks ++ r ∷ [])
        × ((q : Text)
            → read_file_or_null (roll_back env r after.files) q ≡ read_file_or_null w.files q))

module _ (env : Env) (m : ProposedMutation) (op : Option Text) where
  abbrev closure : Draft → Rollback
  closure d = record { path = d.path; previous = d.existing; rendered_hash = d.rendered_hash }

  read-roll_back_put :
      (w : World) (d : Draft) (q : Text)
      → IsDrafted env m op w d
      → m.db_only ≡ false
      → read_file_or_null (roll_back env (closure d) (put_file env m op d w).files) q
        ≡ read_file_or_null w.files q
  read-roll_back_put w d q drafted both =
      read-roll_back env (closure d) (put_file env m op d w).files d.content q
        (read-put_file env m op d w d.path both ∙ rw (eq_refl d.path) refl) (sym drafted.at_hash)
      ∙ ap (λ o. if d.path == q then d.existing else o) (read-put_file env m op d w q both)
      ∙ ground (arith, drafted.at_existing, eq_iff d.path q)

  put_file-IsReversible :
      (w : World) (d : Draft) → IsDrafted env m op w d → IsReversible env w (put_file env m op d w)
  unfolding put_file
  put_file-IsReversible w d drafted = elim (Bool-cases m.db_only) [
    | inl only ↦ inl (rw only refl, rw only refl)
    | inr both ↦ inr (closure d, rw both refl, λ q. read-roll_back_put w d q drafted both)
  ]

  -- Whatever a call does, either the files and the pending rollbacks are as they were, or one rollback has
  -- come, and running it gives every file the content it had before the call, or removes it.
  pub execute-IsReversible : (w : World) → IsReversible env w (execute_mutation env m op w).0
  execute-IsReversible w =
      execute-cases env m op (λ x. IsReversible env w x.0) w (λ e. inl (refl, refl))
        (inl (refl, refl)) (λ d c drafted at_c at_db found. inl (refl, refl))
        (λ d. inl (refl, refl)) (λ d drafted nothing. put_file-IsReversible w d drafted)
        (λ d db drafted current stored. put_file-IsReversible w d drafted)
