-- ===== src/Redis/Scripts.antt =====
-- The five Lua scripts of redis/sequence_state_machine.py and redis/ownership_guard.py, each a
-- function on the store. Redis runs a script to its end with nothing in between.
use transcribe_service.Prelude.{
  ℕ, ◌+◌, String, Bool, true, false, Option, none, some, List, [], ◌∷◌, ltb, eqb, if◌then◌else◌,
}
use transcribe_service.Prelude.Exec.{ok, err, exception, Exec}
use transcribe_service.Redis.Server.{Redis, get}

-- An element of a Lua table that a script returns, and a script's reply, as the client decodes it.
pub data Item : Type 0 where
  nil : Item
  int : ℕ → Item
  text : String → Item
  other : Item

pub data Reply : Type 0 where
  status : String → Reply
  integer : ℕ → Reply
  list : List Item → Reply

module _ (r : Redis) where
  open r use {Store, Value, number, to_number, same, set_ex, expire, del, entry}

  abbrev triple : String → ℕ → Reply
  triple name n = list (text name ∷ int n ∷ [])

  -- The part of the script below `current = tonumber(current)`. To order a number and `nil` is an
  -- error of the script, which the client raises.
  unfoldable pub compare_with : String → ℕ → ℕ → Option ℕ → Exec Store Reply
  compare_with key incoming ttl none s = (err (exception "attempt to compare number with nil"), s)
  compare_with key incoming ttl (some current) s =
      if eqb incoming current
      then (ok (triple "PRE_CHECK_OK" current), expire key ttl s)
      else if ltb incoming current
      then (ok (triple "IDEMPOTENT" current), s)
      else (ok (triple "OUT_OF_ORDER" current), s)

  abbrev prepare_from : String → ℕ → ℕ → Option Value → Exec Store Reply
  prepare_from key incoming ttl none s =
      if eqb incoming 0
      then (ok (triple "PRE_CHECK_OK" 0), set_ex key (number 0) ttl s)
      else (ok (triple "OUT_OF_ORDER" 0), s)
  prepare_from key incoming ttl (some v) s = compare_with key incoming ttl (to_number v) s

  -- `LUA_PREPARE`
  unfoldable pub run_prepare : String → ℕ → ℕ → Exec Store Reply
  unfolding compare_with
  run_prepare key incoming ttl s = prepare_from key incoming ttl (get r key s) s

  -- `LUA_COMMIT`
  unfoldable pub run_commit : String → ℕ → ℕ → Exec Store Reply
  run_commit key seq ttl s = (ok (status "OK"), set_ex key (number (seq + 1)) ttl s)

  abbrev present : Option Value → Bool
  present none = false
  present (some v) = true

  -- `LUA_CLEANUP`
  unfoldable pub run_cleanup : String → ℕ → Exec Store Reply
  run_cleanup key final_ttl s =
      (ok (status "OK"), if present (get r key s) then expire key final_ttl s else s)

  abbrev held_by : Option Value → Value → Bool
  held_by none token = false
  held_by (some v) token = same v token

  abbrev free_for : Option Value → Value → Bool
  free_for none token = true
  free_for (some v) token = same v token

  -- `LUA_CLAIM_OR_REFRESH`
  unfoldable pub run_claim_or_refresh : String → String → ℕ → Exec Store Reply
  run_claim_or_refresh key token ttl s =
      if free_for (get r key s) (r.text token)
      then (ok (status "OWNED"), set_ex key (r.text token) ttl s)
      else (ok (status "BUSY"), s)

  -- `LUA_RELEASE_IF_OWNER`
  unfoldable pub run_release_if_owner : String → String → Exec Store Reply
  run_release_if_owner key token s =
      if held_by (get r key s) (r.text token)
      then (ok (integer 1), del key s)
      else (ok (integer 0), s)
