-- ===== src/SecretSync/Upload.antt =====
-- What the calls to Secrets Manager leave in the account.
use transcribe_service.Prelude.{
  String, Option, none, some, ◌≡◌, refl, ◌⊎◌, inl, inr, ◌==◌, Bool-cases, Option-cases,
  if◌then◌else◌, is_some,
}
use transcribe_service.Prelude.Exec.{
  Result, ok, err, Delivery, served, lost_before, lost_after, attempt, pure, ◌>>=◌,
}
use transcribe_service.SecretSync.{RenderedSecretBundle}
use transcribe_service.SecretSync.Rendering.{Libraries}
use transcribe_service.SecretSync.World.{SecretsManager, Weather, World, Fault}
use transcribe_service.SecretSync.Command.{
  sync, sync_secret_bundle, secret_string, call, create_secret, create_args, put_secret_value,
  described, describe_secret, is_missing, print_action,
}

module _ (m : SecretsManager) where
  -- The account has the payload under the bundle's name, and the other names as before.
  abbrev pub Synced : Libraries → RenderedSecretBundle → World m → World m → Type 0
  Synced l b w w' =
      (name : String)
      → m.value name w'.account
        ≡ (if b.aws.secret_name == name then some (secret_string m l b) else m.value name w.account)

  abbrev pub Uploaded :
      {A : Type 0} → Libraries → RenderedSecretBundle → World m → World m → Result A → Type 0
  Uploaded l b w w' (ok _) = Synced l b w w'
  Uploaded l b w w' (err e) = (w'.account ≡ w.account) ⊎ Synced l b w w'

  abbrev pub IsUploaded :
      {A : Type 0} → Libraries → RenderedSecretBundle → World m → Result A × World m → Type 0
  IsUploaded l b w (r, w') = (w'.environ ≡ w.environ) × (w'.files ≡ w.files) × Uploaded l b w w' r

  call-IsUploaded :
      (l : Libraries) (b : RenderedSecretBundle) (d : Delivery) (f : m.Account → m.Account)
      (w : World m)
      → ((name : String)
          → m.value name (f w.account) ≡ (
              if b.aws.secret_name == name
              then some (secret_string m l b)
              else m.value name w.account))
      → IsUploaded l b w (call m d f w)
  unfolding attempt
  call-IsUploaded l b served f w h = (refl, refl, h)
  call-IsUploaded l b (lost_before e) f w h = (refl, refl, inl refl)
  call-IsUploaded l b (lost_after e) f w h = (refl, refl, inr h)

  create-IsUploaded :
      (l : Libraries) (weather : Weather) (b : RenderedSecretBundle) (w : World m)
      → IsUploaded l b w (create_secret m weather (create_args m l b) w)
  create-IsUploaded l weather b w =
      elim (Bool-cases (is_some (m.value b.aws.secret_name w.account))) [
        | inl e ↦ rw e (refl, refl, inl refl)
        | inr e ↦ rw e (
            call-IsUploaded l b weather.create (m.create (create_args m l b)) w
              (λ name. m.value-create (create_args m l b) name w.account))
      ]

  put-IsUploaded :
      (l : Libraries) (weather : Weather) (b : RenderedSecretBundle) (w : World m)
      → IsUploaded l b w (put_secret_value m weather b.aws.secret_name (secret_string m l b) w)
  put-IsUploaded l weather b w = elim (Bool-cases (is_some (m.value b.aws.secret_name w.account))) [
    | inl e ↦ rw e (
        call-IsUploaded l b weather.put (m.put b.aws.secret_name (secret_string m l b)) w
          (λ name. m.value-put b.aws.secret_name (secret_string m l b) name w.account))
    | inr e ↦ rw e (refl, refl, inl refl)
  ]

  answered-IsUploaded :
      {A B : Type 0} (l : Libraries) (b : RenderedSecretBundle) (w : World m) (a : B)
      (d : Result A × World m)
      → IsUploaded l b w d
      → IsUploaded l b w (((λ _. d) >>= λ _. pure a) w)
  answered-IsUploaded l b w a (ok _, w') h = h
  answered-IsUploaded l b w a (err e, w') h = h

  printed-IsUploaded :
      (l : Libraries) (b : RenderedSecretBundle) (w : World m) (d : Result String × World m)
      → IsUploaded l b w d
      → IsUploaded l b w (((λ _. d) >>= print_action m b) w)
  printed-IsUploaded l b w (ok _, w') h = h
  printed-IsUploaded l b w (err e, w') h = h

  described-IsUploaded :
      (l : Libraries) (weather : Weather) (b : RenderedSecretBundle) (fault : Option Fault)
      (w : World m)
      → IsUploaded l b w (described m l weather b fault w)
  described-IsUploaded l weather b none w =
      answered-IsUploaded l b w "updated" _ (put-IsUploaded l weather b w)
  described-IsUploaded l weather b (some f) w = elim (Bool-cases (is_missing f)) [
    | inl e ↦ rw e (answered-IsUploaded l b w "created" _ (create-IsUploaded l weather b w))
    | inr e ↦ rw e (refl, refl, inl refl)
  ]

  session-IsUploaded :
      (l : Libraries) (weather : Weather) (b : RenderedSecretBundle) (w : World m)
      → IsUploaded l b w (sync_secret_bundle m l weather b w)
  unfolding sync_secret_bundle
  session-IsUploaded l weather b w = elim (Option-cases weather.session) [
    | inl e ↦
        rw e (described-IsUploaded l weather b (describe_secret m weather b.aws.secret_name w) w)
    | inr (x, e) ↦ rw e (refl, refl, inl refl)
  ]

  pub sync-IsUploaded :
      (l : Libraries) (weather : Weather) (b : RenderedSecretBundle) (w : World m)
      → IsUploaded l b w (sync m l weather b w)
  unfolding sync
  sync-IsUploaded l weather b w =
      printed-IsUploaded l b w (sync_secret_bundle m l weather b w)
        (session-IsUploaded l weather b w)
