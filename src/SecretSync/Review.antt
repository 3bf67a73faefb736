-- ===== src/SecretSync/Review.antt =====
-- What rendering leaves as it was, and what a dry run writes.
use transcribe_service.Prelude.{
  String, Option, none, some, List, [], ◌≡◌, refl, ◌∙◌, inl, inr, ◌==◌, eq_refl, Bool-cases,
}
use transcribe_service.Prelude.Dict.{lookup, or_else, lookup-update, lookup-set}
use transcribe_service.Prelude.Exec.{
  Result, ok, err, Delivery, served, lost_before, lost_after, attempt, pure, ◌>>=◌,
}
use transcribe_service.Prelude.Exec.Keeps.{tail-keeps}
use transcribe_service.Prelude.Text.{append}
use transcribe_service.Auth.Whitespace.{strip}
use transcribe_service.SecretSync.{RenderedSecretBundle}
use transcribe_service.SecretSync.Rendering.{Libraries}
use transcribe_service.SecretSync.World.{SecretsManager, World}
use transcribe_service.SecretSync.Command.{
  render_secret_bundle, validate_deployed_settings, isolated_environ, secret_string, layers,
  bundle_of, secret_path, checked, print_written, print_dry_run, write_rendered_files,
}

module _ (m : SecretsManager) where
  -- The variables are as they were, and so are the files and the account.
  abbrev pub SameVariables : World m → World m → Type 0
  SameVariables w w' = (key : String) → lookup key w'.environ ≡ lookup key w.environ

  pub record Restored (w w' : World m) : Type 0 where
    pub variables : SameVariables w w'
    pub files : w'.files ≡ w.files
    pub account : w'.account ≡ w.account

  lookup-copy : (key : String) (o : Option String) → or_else o none ≡ o
  lookup-copy key none = refl
  lookup-copy key (some v) = refl

  validate-Restored :
      (l : Libraries) (app : List (String × _)) (region : String) (w : World m)
      → Restored w (validate_deployed_settings m l app region w).1
  unfolding validate_deployed_settings isolated_environ
  validate-Restored l app region w = record {
    variables = λ key. lookup-update key [] w.environ ∙ lookup-copy key (lookup key w.environ);
    files = refl;
    account = refl;
  }

  pub same : (w : World m) → Restored w w
  same w = record { variables = λ key. refl; files = refl; account = refl }

  pub render-Restored :
      (l : Libraries) (env dir : String) (w : World m)
      → Restored w (render_secret_bundle m l env dir w).1
  unfolding render_secret_bundle
  render-Restored l env dir w = elim (Bool-cases (l.lower (strip env) == "")) [
    | inl e ↦ rw e (same w)
    | inr e ↦ rw e (
        tail-keeps (Restored w) (layers m l (l.lower (strip env)) dir w)
          (checked m l (l.lower (strip env))) w (same w)
          (λ rendered.
            tail-keeps (Restored w) (validate_deployed_settings m l rendered.1 rendered.0.region w)
              (λ _. pure (bundle_of m (l.lower (strip env)) rendered)) w
              (validate-Restored l rendered.1 rendered.0.region w)
              (λ _. validate-Restored l rendered.1 rendered.0.region w)))
  ]

  abbrev pub Filed :
      Libraries → String → RenderedSecretBundle → Result (Unit {0}) → World m → Type 0
  Filed l dir b (ok _) w' =
      lookup (secret_path dir b) w'.files ≡ some (append (secret_string m l b) "\n")
  Filed l dir b (err e) w' = Unit

  -- A dry run writes files, and nothing else but its lines.
  abbrev pub IsReviewed :
      Libraries → String → RenderedSecretBundle → World m → Result (Unit {0}) × World m → Type 0
  IsReviewed l dir b w (r, w') =
      (w'.environ ≡ w.environ) × (w'.account ≡ w.account) × Filed l dir b r w'

  pub write-IsReviewed :
      (l : Libraries) (d d' : Delivery) (dir : String) (b : RenderedSecretBundle) (w : World m)
      → IsReviewed l dir b w (write_rendered_files m l d d' dir b w)
  unfolding write_rendered_files attempt
  write-IsReviewed l served served dir b w = (
    refl,
    refl,
    lookup-set (secret_path dir b) (secret_path dir b) _ _ ∙ rw (eq_refl (secret_path dir b)) refl,
  )
  write-IsReviewed l served (lost_before e) dir b w = (refl, refl, tt)
  write-IsReviewed l served (lost_after e) dir b w = (refl, refl, tt)
  write-IsReviewed l (lost_before e) d' dir b w = (refl, refl, tt)
  write-IsReviewed l (lost_after e) d' dir b w = (refl, refl, tt)

  pub print-IsReviewed :
      (l : Libraries) (dir : String) (b : RenderedSecretBundle) (w : World m)
      (d : Result (Unit {0}) × World m)
      → IsReviewed l dir b w d
      → IsReviewed l dir b w (((λ _. d) >>= λ _. print_written m l dir b) w)
  unfolding print_dry_run
  print-IsReviewed l dir b w (ok _, w') h = h
  print-IsReviewed l dir b w (err e, w') h = h
