-- ===== src/Redis/EvalSha/Transparency.antt =====
-- The script cache is transparent: whatever the server has cached, a call runs its script once, on a
-- store with the same entries.
use transcribe_service.Prelude.{
  String, ◌≡◌, ◌≢◌, refl, true, Option, none, some, Bool-cases, inl, inr, ◌∙◌,
}
use transcribe_service.Prelude.Exec.{Result, ok, err, no_script_error, Exec}
use transcribe_service.Redis.Server.{Redis, Script}
use transcribe_service.Redis.Scripts.{Reply}
use transcribe_service.Redis.EvalSha.{Client, load_if_none, evalsha, retry, evalsha_or_reload}

module _ (r : Redis) where
  open r use {
    Store, entry, script_load, script_exists, entry-script_load, script_exists-script_load,
  }

  -- Two stores that no `GET`, `EXISTS` or `TTL` tells apart.
  abbrev pub SameEntries : Store → Store → Type 0
  SameEntries s t = (j : String) → entry j s ≡ entry j t

  pub load_if_none-SameEntries :
      (sha : Option Script) (c : Script) (s : Store) → SameEntries (load_if_none r sha c s).1 s
  load_if_none-SameEntries none c s j = entry-script_load j c s
  load_if_none-SameEntries (some a) c s j = refl

  pub load_if_none-some :
      (sha : Option Script) (c : Script) (s : Store)
      → (a : Script) × ((load_if_none r sha c s).0 ≡ some a)
  load_if_none-some none c s = (c, refl)
  load_if_none-some (some a) c s = (a, refl)

  evalsha_hit :
      (sha : Script) (run : Exec Store Reply) (s : Store)
      → script_exists sha s ≡ true
      → evalsha r sha run s ≡ run s
  evalsha_hit sha run s h = rw h

  -- A script that never makes the client raise `NoScriptError` by itself.
  abbrev pub IsClean : Exec Store Reply → Type 0
  IsClean run = (s : Store) (t : String) → (run s).0 ≢ err (no_script_error t)

  module _ {Cache : Type 0} where
    -- `run` was made once, on a store with the entries of `s`, and gave the reply and the new store.
    pub record RunOnce (s : Store) (run : Exec Store Reply) (done : Result Reply × Client r Cache)
        : Type 0 where
      pub before : Store
      pub entries : SameEntries before s
      pub reply : done.0 ≡ (run before).0
      pub store : done.1.store ≡ (run before).1

    retry_clean :
        (remember : Cache → Cache) (script : Script) (run : Exec Store Reply)
        (d : Result Reply × Client r Cache)
        → ((t : String) → d.0 ≢ err (no_script_error t))
        → retry r remember script run d ≡ d
    retry_clean remember script run (ok a, m) clean = refl
    retry_clean remember script run (err (no_script_error t), m) clean = absurd (clean t refl)
    retry_clean remember script run (err e, m) clean = refl

    evalsha_or_reload-RunOnce :
        (remember : Cache → Cache) (script sha : Script) (run : Exec Store Reply)
        (m : Client r Cache)
        → IsClean run
        → RunOnce m.store run (evalsha_or_reload r remember script (some sha) run m)
    unfolding evalsha_or_reload
    evalsha_or_reload-RunOnce remember script sha run m clean =
        elim (Bool-cases (script_exists sha m.store)) [
          | inl hit ↦ rw (evalsha_hit sha run m.store hit) (
              rw
                (retry_clean remember script run
                  ((run m.store).0, record m { store = (run m.store).1 }) (clean m.store))
                (record { before = m.store; entries = λ j. refl; reply = refl; store = refl }))
          | inr miss ↦ rw miss (
              rw
                (evalsha_hit script run (script_load script m.store)
                  (script_exists-script_load script m.store))
                (record {
                  before = script_load script m.store;
                  entries = λ j. entry-script_load j script m.store;
                  reply = refl;
                  store = refl;
                }))
        ]

    -- A call by any SHA that the object holds, on a store with the entries of `s`.
    pub call-RunOnce :
        (remember : Cache → Cache) (script : Script) (cached : Option Script)
        (run : Exec Store Reply) (m : Client r Cache) (s : Store)
        → SameEntries m.store s
        → (a : Script) × (cached ≡ some a)
        → IsClean run
        → RunOnce s run (evalsha_or_reload r remember script cached run m)
    call-RunOnce remember script cached run m s same (a, e) clean = rw e (
        let once = evalsha_or_reload-RunOnce remember script a run m clean in
        record {
          before = once.before;
          entries = λ j. once.entries j ∙ same j;
          reply = once.reply;
          store = once.store;
        })
