-- ===== src/Redis/EvalSha.antt =====
-- The call of a script by its SHA, which both classes of redis/ write out in each of their methods.
pub mod Transparency
use transcribe_service.Prelude.{Option, none, some, if◌then◌else◌}
use transcribe_service.Prelude.Exec.{Result, ok, err, value_error, no_script_error, Exec}
use transcribe_service.Redis.Server.{Redis, Script}
use transcribe_service.Redis.Scripts.{Reply}

-- An object with its cached SHAs, and the server that it talks to.
pub record Client (r : Redis) (Cache : Type 0) : Type 0 where
  pub cache : Cache
  pub store : r.Store

module _ (r : Redis) where
  open r use {Store, script_load, script_exists}

  -- `if self._sha is None: self._sha = await self._script_load(client, script)`
  abbrev pub load_if_none : Option Script → Script → Store → Option Script × Store
  load_if_none none script s = (some script, script_load script s)
  load_if_none (some sha) script s = (some sha, s)

  -- `client.evalsha(sha, …)`: the server knows the script, or the client raises `NoScriptError`.
  abbrev pub evalsha : Script → Exec Store Reply → Exec Store Reply
  evalsha sha run s =
      if script_exists sha s
      then run s
      else (err (no_script_error "NOSCRIPT No matching script"), s)

module _ (r : Redis) {Cache : Type 0} where
  open r use {Store, script_load}

  abbrev pub on_store : Exec Store Reply → Exec (Client r Cache) Reply
  on_store run m = let (a, s) = run m.store in (a, record m { store = s })

  abbrev pub reload : (Cache → Cache) → Script → Client r Cache → Client r Cache
  reload remember script m = record { cache = remember m.cache; store = script_load script m.store }

  abbrev pub retry :
      (Cache → Cache)
      → Script
      → Exec Store Reply
      → Result Reply × Client r Cache
      → Result Reply × Client r Cache
  retry remember script run (err (no_script_error _), m) =
      on_store (evalsha r script run) (reload remember script m)
  retry remember script run done = done

  -- `try: evalsha(sha) except NoScriptError: sha = script_load(script); evalsha(sha)`; `remember`
  -- stores the new SHA in the object.
  unfoldable pub evalsha_or_reload :
      (Cache → Cache) → Script → Option Script → Exec Store Reply → Exec (Client r Cache) Reply
  evalsha_or_reload remember script none run m = (err (value_error "assert sha is not None"), m)
  evalsha_or_reload remember script (some sha) run m =
      retry remember script run (on_store (evalsha r sha run) m)
