-- ===== src/Redis/SequenceStateMachine/Committing.antt =====
-- What `commit` and `cleanup` answer and leave behind.
use transcribe_service.Prelude.{
  ℕ, ◌+◌, ◌<◌, String, ◌≡◌, refl, some, arith, ◌==◌, eq_iff, eq_refl, if◌then◌else◌, ap,
}
use transcribe_service.Prelude.Exec.{Result, ok, lift, ◌>>=◌}
use transcribe_service.Redis.Server.{Redis, lua_commit, lua_cleanup, millis, retime}
use transcribe_service.Redis.Scripts.{Reply, run_commit, run_cleanup}
use transcribe_service.Redis.SequenceStateMachine.{
  Config, key, Machine, set_commit, set_cleanup, commit, cleanup, ensure_scripts_loaded,
}
use transcribe_service.Redis.EvalSha.{evalsha_or_reload}
use transcribe_service.Redis.EvalSha.Transparency.{RunOnce, call-RunOnce}
use transcribe_service.Redis.SequenceStateMachine.Scripts.{
  expects, run_commit-IsClean, run_cleanup-IsClean,
}
use transcribe_service.Redis.SequenceStateMachine.Ordering.{
  ensure_scripts_loaded-SameEntries, sha_commit-some, sha_cleanup-some,
}

module _ (r : Redis) where
  open r use {Store, Value, entry, number, to_number}

  -- What `commit` leaves behind.
  pub record IsCommitted (self : Config) (cid : String) (seq : ℕ) (m : Machine r)
      (done : Result (Unit {0}) × Machine r) : Type 0 where
    pub outcome : done.0 ≡ ok tt
    pub expected : expects r (key self cid) done.1.store ≡ some (seq + 1)
    pub entries :
        (j : String)
        → entry j done.1.store ≡ (
            if key self cid == j
            then some (number (seq + 1), millis self.active_ttl)
            else entry j m.store)

  RunOnce-IsCommitted :
      (self : Config) (cid : String) (seq : ℕ) (m : Machine r) (d : Result Reply × Machine r)
      → 0 < self.active_ttl
      → RunOnce r m.store (run_commit r (key self cid) seq self.active_ttl) d
      → IsCommitted self cid seq m (((λ _. d) >>= λ _. lift (ok tt)) m)
  unfolding run_commit
  RunOnce-IsCommitted self cid seq m d pos once =
      let k = key self cid in
      let set =
        λ (j : String). r.entry-set_ex j k (number (seq + 1)) self.active_ttl once.before pos in
      rw once.reply (record {
        outcome = refl;
        expected = rw (once.store, set k, eq_refl k) (r.to_number-number (seq + 1));
        entries = λ j.
            rw (once.store, set j)
              (ap (λ e. if k == j then some (number (seq + 1), millis self.active_ttl) else e)
                (once.entries j));
      })

  -- With a positive time to live, `commit` sets the expected number to `seq + 1`, whatever was
  -- expected before, with a new time to live, and touches no other key.
  pub commit-IsCommitted :
      (self : Config) (cid : String) (seq : ℕ) (m : Machine r)
      → 0 < self.active_ttl
      → IsCommitted self cid seq m (commit r self cid seq m)
  unfolding commit
  commit-IsCommitted self cid seq m pos =
      let run = run_commit r (key self cid) seq self.active_ttl in
      let m' = ensure_scripts_loaded r m in
      let done = evalsha_or_reload r set_commit lua_commit m'.cache.sha_commit run m' in
      let once =
        call-RunOnce r set_commit lua_commit m'.cache.sha_commit run m' m.store
          (ensure_scripts_loaded-SameEntries r m) (sha_commit-some r m)
          (run_commit-IsClean r (key self cid) seq self.active_ttl) in
      RunOnce-IsCommitted self cid seq m done pos once

  -- What `cleanup` leaves behind: the same numbers, and a key that is there gets the final time.
  pub record IsCleaned (self : Config) (cid : String) (m : Machine r)
      (done : Result (Unit {0}) × Machine r) : Type 0 where
    pub outcome : done.0 ≡ ok tt
    pub entries :
        (j : String)
        → entry j done.1.store ≡ (
            if key self cid == j
            then retime (millis self.final_ttl) (entry j m.store)
            else entry j m.store)

  RunOnce-IsCleaned :
      (self : Config) (cid : String) (m : Machine r) (d : Result Reply × Machine r)
      → 0 < self.final_ttl
      → RunOnce r m.store (run_cleanup r (key self cid) self.final_ttl) d
      → IsCleaned self cid m (((λ _. d) >>= λ _. lift (ok tt)) m)
  unfolding run_cleanup
  RunOnce-IsCleaned self cid m d pos once =
      let k = key self cid in
      rw once.reply (record {
        outcome = refl;
        entries = λ j. rw once.store (
            ground (
              arith,
              r.entry-expire j k self.final_ttl once.before pos,
              eq_iff k j,
              once.entries j,
              once.entries k,
            ));
      })

  -- With a positive final time to live, `cleanup` gives the key of the conversation the final time
  -- to live if it is there, creates no key, and leaves the value of that key and every other key
  -- alone.
  pub cleanup-IsCleaned :
      (self : Config) (cid : String) (m : Machine r)
      → 0 < self.final_ttl
      → IsCleaned self cid m (cleanup r self cid m)
  unfolding cleanup
  cleanup-IsCleaned self cid m pos =
      let run = run_cleanup r (key self cid) self.final_ttl in
      let m' = ensure_scripts_loaded r m in
      let done = evalsha_or_reload r set_cleanup lua_cleanup m'.cache.sha_cleanup run m' in
      let once =
        call-RunOnce r set_cleanup lua_cleanup m'.cache.sha_cleanup run m' m.store
          (ensure_scripts_loaded-SameEntries r m) (sha_cleanup-some r m)
          (run_cleanup-IsClean r (key self cid) self.final_ttl) in
      RunOnce-IsCleaned self cid m done pos once
