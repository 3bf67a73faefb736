-- ===== src/SecretSync/Contract.antt =====
-- What a run of the command leaves behind.
use transcribe_service.Prelude.{
  String, Bool, true, false, some, ◌≡◌, ◌≢◌, refl, ◌∙◌, ap, ◌⊎◌, inl, inr, Bool-cases, is_some, not,
  ◌&&◌,
}
use transcribe_service.Prelude.Dict.{lookup}
use transcribe_service.Prelude.Exec.{Result, ok, err, ◌>>=◌}
use transcribe_service.Prelude.Text.{append}
use transcribe_service.SecretSync.{RenderedSecretBundle}
use transcribe_service.SecretSync.Review.{
  SameVariables, Restored, same, render-Restored, IsReviewed, write-IsReviewed, print-IsReviewed,
}
use transcribe_service.SecretSync.Upload.{Synced, IsUploaded, sync-IsUploaded}
use transcribe_service.SecretSync.Rendering.{Libraries}
use transcribe_service.SecretSync.World.{
  SecretsManager, Weather, World, Arguments, Exit, code, usage_error,
}
use transcribe_service.SecretSync.Command.{
  main, render_secret_bundle, dry_run, sync, secret_string, secret_path, or_default, exit_of, act,
  write_rendered_files,
}

module _ (m : SecretsManager) (l : Libraries) (weather : Weather) (args : Arguments)
    (w : World m) where
  abbrev pub Rendered : RenderedSecretBundle → Type 0
  Rendered b = (render_secret_bundle m l args.env args.config_dir w).0 ≡ ok b

  abbrev dir : String
  dir = or_default args.output_dir

  abbrev pub HasFile : World m → RenderedSecretBundle → Type 0
  HasFile w' b = lookup (secret_path dir b) w'.files ≡ some (append (secret_string m l b) "\n")

  -- The account of a dry run and the files of a sync are as they were; and a run that returns 0 has
  -- written the payload of the bundle that it rendered.
  abbrev pub IsRun : Bool → Exit × World m → Type 0
  IsRun true (exit, w') =
      (w'.account ≡ w.account)
      × ((exit ≢ code 0) ⊎ ((b : RenderedSecretBundle) × Rendered b × HasFile w' b))
  IsRun false (exit, w') =
      (w'.files ≡ w.files)
      × (((exit ≢ code 0) × (w'.account ≡ w.account))
          ⊎ ((b : RenderedSecretBundle) × Rendered b × Synced m l b w w'))

  failed-IsRun :
      (dry : Bool) (exit : Exit) (w' : World m)
      → exit ≢ code 0
      → Restored m w w'
      → IsRun dry (exit, w')
  failed-IsRun true exit w' bad same = (same.account, inl bad)
  failed-IsRun false exit w' bad same = (same.files, inl (bad, same.account))

  reviewed-IsRun :
      (b : RenderedSecretBundle) (w' : World m) (d : Result (Unit {0}) × World m)
      → Rendered b
      → Restored m w w'
      → IsReviewed m l dir b w' d
      → SameVariables m w (exit_of m d).1 × IsRun true (exit_of m d)
  reviewed-IsRun b w' (ok _, w'') rendered same (environ, account, filed) = (
    λ key. ap (lookup key) environ ∙ same.variables key,
    (account ∙ same.account, inr (b, rendered, filed)),
  )
  reviewed-IsRun b w' (err e, w'') rendered same (environ, account, filed) =
      (λ key. ap (lookup key) environ ∙ same.variables key, (account ∙ same.account, inl (λ x. cc)))

  -- Synced from where rendering left the account.
  from_start :
      (b : RenderedSecretBundle) (w' w'' : World m)
      → Restored m w w'
      → Synced m l b w' w''
      → Synced m l b w w''
  from_start b w' w'' same synced name = rw (← same.account) (synced name)

  uploaded-IsRun :
      (b : RenderedSecretBundle) (w' : World m) (d : Result (Unit {0}) × World m)
      → Rendered b
      → Restored m w w'
      → IsUploaded m l b w' d
      → SameVariables m w (exit_of m d).1 × IsRun false (exit_of m d)
  uploaded-IsRun b w' (ok _, w'') rendered same (environ, files, synced) = (
    λ key. ap (lookup key) environ ∙ same.variables key,
    (files ∙ same.files, inr (b, rendered, from_start b w' w'' same synced)),
  )
  uploaded-IsRun b w' (err e, w'') rendered same (environ, files, inl account) = (
    λ key. ap (lookup key) environ ∙ same.variables key,
    (files ∙ same.files, inl (λ x. cc, account ∙ same.account)),
  )
  uploaded-IsRun b w' (err e, w'') rendered same (environ, files, inr synced) = (
    λ key. ap (lookup key) environ ∙ same.variables key,
    (files ∙ same.files, inr (b, rendered, from_start b w' w'' same synced)),
  )

  dry-IsReviewed :
      (b : RenderedSecretBundle) (w' : World m)
      → IsReviewed m l dir b w' (dry_run m l weather args b w')
  unfolding dry_run
  dry-IsReviewed b w' =
      print-IsReviewed m l dir b w'
        (write_rendered_files m l weather.write_bootstrap weather.write_secret dir b w')
        (write-IsReviewed m l weather.write_bootstrap weather.write_secret dir b w')

  rendered-IsRun :
      (dry : Bool) (d : Result RenderedSecretBundle × World m)
      → (render_secret_bundle m l args.env args.config_dir w).0 ≡ d.0
      → Restored m w d.1
      → SameVariables m w (exit_of m (((λ _. d) >>= act m dry l weather args) w)).1
        × IsRun dry (exit_of m (((λ _. d) >>= act m dry l weather args) w))
  rendered-IsRun true (ok b, w') rendered same =
      reviewed-IsRun b w' (dry_run m l weather args b w') rendered same (dry-IsReviewed b w')
  rendered-IsRun false (ok b, w') rendered same =
      uploaded-IsRun b w' (sync m l weather b w') rendered same (sync-IsUploaded m l weather b w')
  rendered-IsRun dry (err e, w') rendered same = (
    same.variables,
    failed-IsRun dry (code 1) _ (λ x. cc)
        (record { variables = same.variables; files = same.files; account = same.account }),
  )

  pub main-IsRun :
      SameVariables m w (main m l weather args w).1 × IsRun args.dry_run (main m l weather args w)
  unfolding main
  main-IsRun = elim (Bool-cases (not args.dry_run && is_some args.output_dir)) [
    | inl e ↦ rw e (λ key. refl, failed-IsRun args.dry_run usage_error w (λ x. cc) (same m w))
    | inr e ↦ rw e (
        rendered-IsRun args.dry_run (render_secret_bundle m l args.env args.config_dir w) refl
          (render-Restored m l args.env args.config_dir w))
  ]
