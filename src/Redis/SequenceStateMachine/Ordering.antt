-- ===== src/Redis/SequenceStateMachine/Ordering.antt =====
-- The sequence guard against its contract: one number for each conversation, the sequence number
-- that is expected next. Only `commit` moves it.
use transcribe_service.Prelude.{
  ℕ, ◌<◌, String, ◌≡◌, ◌≢◌, refl, Option, some, [], ◌∷◌, eqb, ◌==◌, eq_iff, if◌then◌else◌, sym, ◌∙◌,
  ap, inl, inr, Bool-cases, false≢true,
}
use transcribe_service.Prelude.Exec.{Result, ok, err, lift, ◌>>=◌}
use transcribe_service.Redis.Server.{Redis, Script, lua_prepare, lua_commit, lua_cleanup, millis}
use transcribe_service.Redis.Protocols.{
  PrepareResult, pre_check_ok, idempotent, out_of_order, PrepareOutcome,
}
use transcribe_service.Redis.Scripts.{Reply, list, text, int, run_prepare}
use transcribe_service.Redis.SequenceStateMachine.{
  Config, key, Machine, set_prepare, prepare, parse_reply, ensure_scripts_loaded,
}
use transcribe_service.Redis.EvalSha.{load_if_none, evalsha_or_reload}
use transcribe_service.Redis.EvalSha.Transparency.{
  SameEntries, load_if_none-SameEntries, load_if_none-some, RunOnce, call-RunOnce,
}
use transcribe_service.Redis.SequenceStateMachine.Scripts.{
  verdict, expectation, expects, time_left, name, run_prepare-verdict, run_prepare-IsClean,
  expects-run_prepare, run_prepare_others, run_prepare_lease, left_of,
}

module _ (r : Redis) where
  open r use {Store, Value, entry, number, to_number}

  pub ensure_scripts_loaded-SameEntries :
      (m : Machine r) → SameEntries r (ensure_scripts_loaded r m).store m.store
  unfolding ensure_scripts_loaded
  ensure_scripts_loaded-SameEntries m j =
      let a = load_if_none r m.cache.sha_prepare lua_prepare m.store in
      let b = load_if_none r m.cache.sha_commit lua_commit a.1 in
      load_if_none-SameEntries r m.cache.sha_cleanup lua_cleanup b.1 j
      ∙ load_if_none-SameEntries r m.cache.sha_commit lua_commit a.1 j
      ∙ load_if_none-SameEntries r m.cache.sha_prepare lua_prepare m.store j

  sha_prepare-some :
      (m : Machine r) → (a : Script) × ((ensure_scripts_loaded r m).cache.sha_prepare ≡ some a)
  unfolding ensure_scripts_loaded
  sha_prepare-some m = load_if_none-some r m.cache.sha_prepare lua_prepare m.store

  pub sha_commit-some :
      (m : Machine r) → (a : Script) × ((ensure_scripts_loaded r m).cache.sha_commit ≡ some a)
  unfolding ensure_scripts_loaded
  sha_commit-some m =
      load_if_none-some r m.cache.sha_commit lua_commit
        (load_if_none r m.cache.sha_prepare lua_prepare m.store).1

  pub sha_cleanup-some :
      (m : Machine r) → (a : Script) × ((ensure_scripts_loaded r m).cache.sha_cleanup ≡ some a)
  unfolding ensure_scripts_loaded
  sha_cleanup-some m =
      let a = load_if_none r m.cache.sha_prepare lua_prepare m.store in
      load_if_none-some r m.cache.sha_cleanup lua_cleanup
        (load_if_none r m.cache.sha_commit lua_commit a.1).1

  parse_prepared :
      (self : Config) (p : PrepareResult) (n : ℕ)
      → parse_reply self (list (text (name r p) ∷ int n ∷ []))
        ≡ ok (record { status = p; expected_sequence = some n })
  unfolding parse_reply
  parse_prepared self pre_check_ok n = refl
  parse_prepared self idempotent n = refl
  parse_prepared self out_of_order n = refl

  -- Where a key stays as it was if it is another one than `k`.
  same_or_kept :
      (k : String) (after before : String → Option (Value × ℕ)) (j : String)
      → (k ≢ j → after j ≡ before j)
      → after j ≡ (if k == j then after k else before j)
  same_or_kept k after before j kept = elim (Bool-cases (k == j)) [
    | inl e ↦ rw e (ap after (sym ((eq_iff k j).0 e)))
    | inr e ↦ rw e (kept (λ p. false≢true (sym e ∙ (eq_iff k j).1 p)))
  ]

  -- What `prepare` leaves behind, where `n` is the number that was expected.
  pub record IsPrepared (self : Config) (cid : String) (seq n : ℕ) (m : Machine r)
      (done : Result PrepareOutcome × Machine r) : Type 0 where
    pub outcome : done.0 ≡ ok (record { status = verdict n seq; expected_sequence = some n })
    pub expected : expects r (key self cid) done.1.store ≡ some n
    pub others :
        (j : String)
        → entry j done.1.store
          ≡ (if key self cid == j then entry (key self cid) done.1.store else entry j m.store)
    pub lease :
        time_left r (key self cid) done.1.store
        ≡ (if eqb seq n then millis self.active_ttl else time_left r (key self cid) m.store)

  RunOnce-IsPrepared :
      (self : Config) (cid : String) (seq n : ℕ) (m : Machine r) (d : Result Reply × Machine r)
      → 0 < self.active_ttl
      → expects r (key self cid) m.store ≡ some n
      → RunOnce r m.store (run_prepare r (key self cid) seq self.active_ttl) d
      → IsPrepared self cid seq n m (((λ _. d) >>= λ raw. lift (parse_reply self raw)) m)
  RunOnce-IsPrepared self cid seq n m d pos h once =
      let k = key self cid in
      let ttl = self.active_ttl in
      let h' : expects r k once.before ≡ some n = ap (expectation r) (once.entries k) ∙ h in
      let e : d.0 ≡ ok (list (text (name r (verdict n seq)) ∷ int n ∷ [])) =
        once.reply ∙ run_prepare-verdict r k seq ttl n once.before h' in
      rw e (
        rw (parse_prepared self (verdict n seq) n) (record {
          outcome = refl;
          expected = rw once.store (expects-run_prepare r k seq ttl n once.before pos h');
          others = λ j. rw once.store (
              same_or_kept k (λ i. entry i (run_prepare r k seq ttl once.before).1)
                (λ i. entry i m.store) j
                (λ ne. run_prepare_others r k seq ttl once.before j pos ne ∙ once.entries j));
          lease = rw once.store (
              run_prepare_lease r k seq ttl n once.before pos h'
              ∙ ap (λ e. if eqb seq n then millis ttl else left_of r e) (once.entries k));
        }))

  -- With a positive time to live, on a conversation that expects `n`, whatever scripts the server
  -- and the object have cached: `prepare` answers the comparison of `seq` with `n`, does not move
  -- the expected number, renews the time to live exactly if `seq` is the expected number, and
  -- touches no other key.
  pub prepare-IsPrepared :
      (self : Config) (cid : String) (seq n : ℕ) (m : Machine r)
      → 0 < self.active_ttl
      → expects r (key self cid) m.store ≡ some n
      → IsPrepared self cid seq n m (prepare r self cid seq m)
  unfolding prepare
  prepare-IsPrepared self cid seq n m pos h =
      let run = run_prepare r (key self cid) seq self.active_ttl in
      let m' = ensure_scripts_loaded r m in
      let done = evalsha_or_reload r set_prepare lua_prepare m'.cache.sha_prepare run m' in
      let once =
        call-RunOnce r set_prepare lua_prepare m'.cache.sha_prepare run m' m.store
          (ensure_scripts_loaded-SameEntries m) (sha_prepare-some m)
          (run_prepare-IsClean r (key self cid) seq self.active_ttl) in
      RunOnce-IsPrepared self cid seq n m done pos h once

  bind-store :
      {A : Type 0} (d : Result Reply × Machine r) (f : Reply → Result A) (m : Machine r)
      → (((λ _. d) >>= λ raw. lift (f raw)) m).1 ≡ d.1
  bind-store (ok a, m') f m = refl
  bind-store (err e, m') f m = refl

  -- `prepare` leaves what its script leaves of a store with the same entries.
  pub prepare-store :
      (self : Config) (cid : String) (seq : ℕ) (m : Machine r)
      → (before : Store) × SameEntries r before m.store
        × ((prepare r self cid seq m).1.store
            ≡ (run_prepare r (key self cid) seq self.active_ttl before).1)
  unfolding prepare
  prepare-store self cid seq m =
      let run = run_prepare r (key self cid) seq self.active_ttl in
      let m' = ensure_scripts_loaded r m in
      let done = evalsha_or_reload r set_prepare lua_prepare m'.cache.sha_prepare run m' in
      let once =
        call-RunOnce r set_prepare lua_prepare m'.cache.sha_prepare run m' m.store
          (ensure_scripts_loaded-SameEntries m) (sha_prepare-some m)
          (run_prepare-IsClean r (key self cid) seq self.active_ttl) in
      (
        once.before,
        once.entries,
        ap (λ (x : Machine r). x.store) (bind-store done (parse_reply self) m) ∙ once.store,
      )

  -- Whatever stands at the key, `prepare` touches no other.
  pub prepare-others :
      (self : Config) (cid : String) (seq : ℕ) (m : Machine r) (j : String)
      → 0 < self.active_ttl
      → key self cid ≢ j
      → entry j (prepare r self cid seq m).1.store ≡ entry j m.store
  prepare-others self cid seq m j pos ne =
      let (before, same, store) = prepare-store self cid seq m in
      ap (entry j) store
      ∙ run_prepare_others r (key self cid) seq self.active_ttl before j pos ne
      ∙ same j
