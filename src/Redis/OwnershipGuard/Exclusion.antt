-- ===== src/Redis/OwnershipGuard/Exclusion.antt =====
-- One sender for each conversation: what a claim and a release do to the holder of the key.
use transcribe_service.Prelude.{
  ℕ, ◌<◌, String, ◌≡◌, refl, Bool, true, false, ◌&&◌, Option, none, some, arith, ◌==◌, eq_iff,
  if◌then◌else◌, ◌∙◌,
}
use transcribe_service.Prelude.Exec.{Result, ok, lift, ◌>>=◌}
use transcribe_service.Redis.Server.{
  Redis, Script, lua_claim_or_refresh, lua_release_if_owner, millis,
}
use transcribe_service.Redis.Scripts.{
  Reply, status, integer, run_claim_or_refresh, run_release_if_owner,
}
use transcribe_service.Redis.EvalSha.{load_if_none, evalsha_or_reload}
use transcribe_service.Redis.EvalSha.Transparency.{
  SameEntries, load_if_none-SameEntries, load_if_none-some, IsClean, RunOnce, call-RunOnce,
}
use transcribe_service.Redis.OwnershipGuard.{
  Config, key, Guard, set_claim, set_release, is_owned, ensure_scripts_loaded, claim_or_refresh,
  release,
}

module _ (r : Redis) where
  open r use {Store, Value, entry, same, text}

  -- What stands at the key of a conversation that `token` holds for `left` more milliseconds.
  abbrev pub lease : String → ℕ → Option (Value × ℕ)
  lease token left = some (text token, left)

  -- Is the key free, or does it hold this token?
  abbrev pub available : Option (Value × ℕ) → String → Bool
  available none token = true
  available (some (v, left)) token = same v (text token)

  run_claim-IsClean : (k token : String) (ttl : ℕ) → IsClean r (run_claim_or_refresh r k token ttl)
  unfolding run_claim_or_refresh
  run_claim-IsClean k token ttl s t h = ground arith

  run_release-IsClean : (k token : String) → IsClean r (run_release_if_owner r k token)
  unfolding run_release_if_owner
  run_release-IsClean k token s t h = ground arith

  ensure_scripts_loaded-SameEntries :
      (g : Guard r) → SameEntries r (ensure_scripts_loaded r g).store g.store
  unfolding ensure_scripts_loaded
  ensure_scripts_loaded-SameEntries g j =
      load_if_none-SameEntries r g.cache.sha_release lua_release_if_owner
        (load_if_none r g.cache.sha_claim lua_claim_or_refresh g.store).1 j
      ∙ load_if_none-SameEntries r g.cache.sha_claim lua_claim_or_refresh g.store j

  sha_claim-some :
      (g : Guard r) → (a : Script) × ((ensure_scripts_loaded r g).cache.sha_claim ≡ some a)
  unfolding ensure_scripts_loaded
  sha_claim-some g = load_if_none-some r g.cache.sha_claim lua_claim_or_refresh g.store

  sha_release-some :
      (g : Guard r) → (a : Script) × ((ensure_scripts_loaded r g).cache.sha_release ≡ some a)
  unfolding ensure_scripts_loaded
  sha_release-some g =
      load_if_none-some r g.cache.sha_release lua_release_if_owner
        (load_if_none r g.cache.sha_claim lua_claim_or_refresh g.store).1

  -- What `claim_or_refresh` answers and leaves behind.
  pub record IsClaimed (self : Config) (cid token : String) (g : Guard r)
      (done : Result Bool × Guard r) : Type 0 where
    pub owned : done.0 ≡ ok (available (entry (key self cid) g.store) token)
    pub entries :
        (j : String)
        → entry j done.1.store ≡ (
            if key self cid == j && available (entry (key self cid) g.store) token
            then lease token (millis self.guard_ttl)
            else entry j g.store)

  abbrev claim_reply : Bool → Reply
  claim_reply true = status "OWNED"
  claim_reply false = status "BUSY"

  is_owned-claim_reply : (b : Bool) → is_owned (claim_reply b) ≡ b
  is_owned-claim_reply true = refl
  is_owned-claim_reply false = refl

  run_claim_reply :
      (k token : String) (ttl : ℕ) (s : Store)
      → (run_claim_or_refresh r k token ttl s).0 ≡ ok (claim_reply (available (entry k s) token))
  unfolding run_claim_or_refresh
  run_claim_reply k token ttl s = ground arith

  run_claim_entries :
      (k token : String) (ttl : ℕ) (s : Store) (j : String)
      → 0 < ttl
      → entry j (run_claim_or_refresh r k token ttl s).1
        ≡ (if k == j && available (entry k s) token then lease token (millis ttl) else entry j s)
  unfolding run_claim_or_refresh
  run_claim_entries k token ttl s j pos =
      ground (arith, eq_iff k j, r.entry-set_ex j k (text token) ttl s pos)

  RunOnce-IsClaimed :
      (self : Config) (cid token : String) (g : Guard r) (d : Result Reply × Guard r)
      → 0 < self.guard_ttl
      → RunOnce r g.store (run_claim_or_refresh r (key self cid) token self.guard_ttl) d
      → IsClaimed self cid token g (((λ _. d) >>= λ result. lift (ok (is_owned result))) g)
  RunOnce-IsClaimed self cid token g d pos once =
      let k = key self cid in
      let e = once.reply ∙ run_claim_reply k token self.guard_ttl once.before in
      rw e (record {
        owned =
            rw (is_owned-claim_reply (available (entry k once.before) token)) (rw (once.entries k));
        entries = λ j. rw once.store (
            rw (run_claim_entries k token self.guard_ttl once.before j pos)
              (rw (once.entries k, once.entries j)));
      })

  -- With a positive time to live, a claim succeeds exactly if the key is free or holds the same
  -- token; then the token holds the key for the full time to live. A claim that fails changes
  -- nothing, and no claim touches another key.
  pub claim_or_refresh-IsClaimed :
      (self : Config) (cid token : String) (g : Guard r)
      → 0 < self.guard_ttl
      → IsClaimed self cid token g (claim_or_refresh r self cid token g)
  unfolding claim_or_refresh
  claim_or_refresh-IsClaimed self cid token g pos =
      let run = run_claim_or_refresh r (key self cid) token self.guard_ttl in
      let g' = ensure_scripts_loaded r g in
      let done = evalsha_or_reload r set_claim lua_claim_or_refresh g'.cache.sha_claim run g' in
      let once =
        call-RunOnce r set_claim lua_claim_or_refresh g'.cache.sha_claim run g' g.store
          (ensure_scripts_loaded-SameEntries g) (sha_claim-some g)
          (run_claim-IsClean (key self cid) token self.guard_ttl) in
      RunOnce-IsClaimed self cid token g done pos once

  -- Does this entry hold the token?
  abbrev pub holds : Option (Value × ℕ) → String → Bool
  holds none token = false
  holds (some (v, left)) token = same v (text token)

  -- What `release` leaves behind.
  pub record IsReleased (self : Config) (cid token : String) (g : Guard r)
      (done : Result (Unit {0}) × Guard r) : Type 0 where
    pub outcome : done.0 ≡ ok tt
    pub entries :
        (j : String)
        → entry j done.1.store ≡ (
            if key self cid == j && holds (entry (key self cid) g.store) token
            then none
            else entry j g.store)

  abbrev release_reply : Bool → Reply
  release_reply true = integer 1
  release_reply false = integer 0

  run_release_reply :
      (k token : String) (s : Store)
      → (run_release_if_owner r k token s).0 ≡ ok (release_reply (holds (entry k s) token))
  unfolding run_release_if_owner
  run_release_reply k token s = ground arith

  run_release_entries :
      (k token : String) (s : Store) (j : String)
      → entry j (run_release_if_owner r k token s).1
        ≡ (if k == j && holds (entry k s) token then none else entry j s)
  unfolding run_release_if_owner
  run_release_entries k token s j = ground (arith, eq_iff k j, r.entry-del j k s)

  RunOnce-IsReleased :
      (self : Config) (cid token : String) (g : Guard r) (d : Result Reply × Guard r)
      → RunOnce r g.store (run_release_if_owner r (key self cid) token) d
      → IsReleased self cid token g (((λ _. d) >>= λ _. lift (ok tt)) g)
  RunOnce-IsReleased self cid token g d once =
      let k = key self cid in
      rw (once.reply ∙ run_release_reply k token once.before) (record {
        outcome = refl;
        entries = λ j.
            rw once.store (
              rw (run_release_entries k token once.before j) (rw (once.entries k, once.entries j)));
      })

  -- A release deletes the key if it holds the token, and changes nothing otherwise: the release of a
  -- sender whose lease has passed to another does not end the other's.
  pub release-IsReleased :
      (self : Config) (cid token : String) (g : Guard r)
      → IsReleased self cid token g (release r self cid token g)
  unfolding release
  release-IsReleased self cid token g =
      let run = run_release_if_owner r (key self cid) token in
      let g' = ensure_scripts_loaded r g in
      let done = evalsha_or_reload r set_release lua_release_if_owner g'.cache.sha_release run g' in
      let once =
        call-RunOnce r set_release lua_release_if_owner g'.cache.sha_release run g' g.store
          (ensure_scripts_loaded-SameEntries g) (sha_release-some g)
          (run_release-IsClean (key self cid) token) in
      RunOnce-IsReleased self cid token g done once
