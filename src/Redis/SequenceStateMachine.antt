-- ===== src/Redis/SequenceStateMachine.antt =====
-- redis/sequence_state_machine.py: the class, its cached SHAs and its server.
pub mod Scripts
pub mod Ordering
pub mod Committing
pub mod Keys
use transcribe_service.Prelude.{ℕ, String, Option, none, some, List, [], ◌∷◌, ◌==◌, if◌then◌else◌}
use transcribe_service.Prelude.Exec.{
  Result, ok, err, value_error, no_script_error, Exec, lift, ◌>>=◌, ◌>>◌,
}
use transcribe_service.Redis.Server.{Redis, Script, lua_prepare, lua_commit, lua_cleanup}
use transcribe_service.Redis.EvalSha.{Client, load_if_none, evalsha_or_reload}
use transcribe_service.Redis.Protocols.{
  PrepareResult, pre_check_ok, idempotent, out_of_order, PrepareOutcome,
}
use transcribe_service.Redis.Scripts.{
  Item, nil, int, text, other, Reply, list, run_prepare, run_commit, run_cleanup,
}
use Prim.Native.String

-- The constructor's settings. `int_of_text` is Python's `int` on a text, which raises on `none`.
pub record Config : Type 0 where
  pub active_ttl : ℕ
  pub final_ttl : ℕ
  pub key_prefix : String
  pub int_of_text : String → Option ℕ

-- `self._key(conversation_id)`
unfoldable pub key : Config → String → String
key self conversation_id = String.◌++◌ self.key_prefix (String.◌++◌ ":" conversation_id)

prepare_result : String → Result PrepareResult
prepare_result s =
    if s == "PRE_CHECK_OK"
    then ok pre_check_ok
    else if s == "IDEMPOTENT"
    then ok idempotent
    else if s == "OUT_OF_ORDER"
    then ok out_of_order
    else err (value_error "not a valid PrepareResult")

abbrev int_or_raise : Option ℕ → Result (Option ℕ)
int_or_raise none = err (value_error "invalid literal for int()")
int_or_raise (some n) = ok (some n)

abbrev expected_sequence : Config → Item → Result (Option ℕ)
expected_sequence self nil = ok none
expected_sequence self (int n) = ok (some n)
expected_sequence self (text s) = int_or_raise (self.int_of_text s)
expected_sequence self other = err (value_error "Unexpected expected_sequence type")

-- `str(status_raw)`; of the items that are no text none is the name of a status.
abbrev status_text : Item → String
status_text (text s) = s
status_text item = ""

abbrev outcome : Result (Option ℕ) → Result PrepareResult → Result PrepareOutcome
outcome (ok n) (ok s) = ok (record { status = s; expected_sequence = n })
outcome (ok n) (err e) = err e
outcome (err e) s = err e

unfoldable pub parse_prepare_result : Config → List Item → Result PrepareOutcome
unfolding prepare_result
parse_prepare_result self (status_raw ∷ expected_raw ∷ []) =
    outcome (expected_sequence self expected_raw) (prepare_result (status_text status_raw))
parse_prepare_result self items = err (value_error "Unexpected prepare result shape")

unfoldable pub parse_reply : Config → Reply → Result PrepareOutcome
unfolding parse_prepare_result
parse_reply self (list items) = parse_prepare_result self items
parse_reply self reply = err (value_error "Unexpected prepare result type")

-- The SHAs that the object has cached.
pub record Shas : Type 0 where
  pub sha_prepare : Option Script
  pub sha_commit : Option Script
  pub sha_cleanup : Option Script

abbrev pub Machine : Redis → Type 0
Machine r = Client r Shas

abbrev set_prepare : Shas → Shas
set_prepare shas = record shas { sha_prepare = some lua_prepare }

abbrev set_commit : Shas → Shas
set_commit shas = record shas { sha_commit = some lua_commit }

abbrev set_cleanup : Shas → Shas
set_cleanup shas = record shas { sha_cleanup = some lua_cleanup }

module _ (r : Redis) where
  unfoldable pub ensure_scripts_loaded : Machine r → Machine r
  ensure_scripts_loaded m =
      let (a, s1) = load_if_none r m.cache.sha_prepare lua_prepare m.store in
      let (b, s2) = load_if_none r m.cache.sha_commit lua_commit s1 in
      let (c, s3) = load_if_none r m.cache.sha_cleanup lua_cleanup s2 in
      record { cache = record { sha_prepare = a; sha_commit = b; sha_cleanup = c }; store = s3 }

  unfoldable pub prepare : Config → String → ℕ → Exec (Machine r) PrepareOutcome
  unfolding ensure_scripts_loaded evalsha_or_reload parse_reply
  prepare self conversation_id seq m =
      let m' = ensure_scripts_loaded m in
      (do
        raw ←
            evalsha_or_reload r set_prepare lua_prepare m'.cache.sha_prepare
              (run_prepare r (key self conversation_id) seq self.active_ttl)
        lift (parse_reply self raw))
        m'

  unfoldable pub commit : Config → String → ℕ → Exec (Machine r) (Unit {0})
  unfolding ensure_scripts_loaded evalsha_or_reload
  commit self conversation_id seq m =
      let m' = ensure_scripts_loaded m in
      (do
        evalsha_or_reload r set_commit lua_commit m'.cache.sha_commit
            (run_commit r (key self conversation_id) seq self.active_ttl)
        lift (ok tt))
        m'

  unfoldable pub cleanup : Config → String → Exec (Machine r) (Unit {0})
  unfolding ensure_scripts_loaded evalsha_or_reload
  cleanup self conversation_id m =
      let m' = ensure_scripts_loaded m in
      (do
        evalsha_or_reload r set_cleanup lua_cleanup m'.cache.sha_cleanup
            (run_cleanup r (key self conversation_id) self.final_ttl)
        lift (ok tt))
        m'
