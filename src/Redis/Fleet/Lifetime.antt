-- ===== src/Redis/Fleet/Lifetime.antt =====
-- How long the fleet's server remembers a conversation.
use transcribe_service.Prelude.{
  ℕ, ◌+◌, ◌-◌, ltb, ◌≤◌, ◌<◌, String, ◌≡◌, ◌∙◌, refl, Bool, true, false, Option, none, some, List,
  [], ◌∷◌, ◌==◌, eqb, if◌then◌else◌, arith,
}
use transcribe_service.Redis.Server.{Redis, millis, age, retime}
use transcribe_service.Redis.SequenceStateMachine.{Config, key}
use transcribe_service.Redis.Fleet.{
  Operation, prepare_by, commit_by, cleanup_by, elapse, Fleet, run, Expected, number_of, promise,
  promises, write,
}
use transcribe_service.Redis.Fleet.Refinement.{view, shown, Refines, run-Refines}

-- What is remembered is so for at most so long.
abbrev pub Lasts {ℓ} : {V : Type ℓ} → ℕ → Option (V × ℕ) → Type 0
Lasts bound none = Unit
Lasts bound (some (v, left)) = left ≤ bound

if-Lasts :
    {V : Type 0} (bound : ℕ) (b : Bool) (x y : Option (V × ℕ))
    → Lasts bound x
    → Lasts bound y
    → Lasts bound (if b then x else y)
if-Lasts bound true x y h h' = h
if-Lasts bound false x y h h' = h'

retime-Lasts :
    {V : Type 0} (bound left : ℕ) (x : Option (V × ℕ)) → left ≤ bound → Lasts bound (retime left x)
retime-Lasts bound left none h = tt
retime-Lasts bound left (some (v, l)) h = h

age-Lasts :
    {V : Type 0} (bound ms : ℕ) (x : Option (V × ℕ)) → Lasts bound x → Lasts bound (age ms x)
age-Lasts bound ms none h = tt
age-Lasts bound ms (some (v, left)) h =
    if-Lasts bound (ltb ms left) (some (v, left - ms)) none (omega arith) tt

-- What is remembered for at most so long is gone after it.
age-gone :
    {V : Type 0} (bound ms : ℕ) (x : Option (V × ℕ)) → bound ≤ ms → Lasts bound x → age ms x ≡ none
age-gone bound ms none over h = refl
age-gone bound ms (some (v, left)) over h = ground arith

module _ (self : Config) (final : self.final_ttl ≤ self.active_ttl) where
  abbrev AllLast : Expected → Type 0
  AllLast a = (cid : String) → Lasts (millis self.active_ttl) (a cid)

  write-AllLast :
      (cid : String) (x : Option (ℕ × ℕ)) (a : Expected)
      → Lasts (millis self.active_ttl) x
      → AllLast a
      → AllLast (write cid x a)
  write-AllLast cid x a h all c = if-Lasts (millis self.active_ttl) (cid == c) x (a c) h (all c)

  promise-AllLast : (op : Operation) (a : Expected) → AllLast a → AllLast (promise self op a).1
  promise-AllLast (prepare_by p cid seq) a all =
      write-AllLast cid _ a
        (if-Lasts (millis self.active_ttl) (eqb seq (number_of (a cid)))
          (some (number_of (a cid), millis self.active_ttl)) (a cid) (omega arith) (all cid))
        all
  promise-AllLast (commit_by p cid seq) a all =
      write-AllLast cid (some (seq + 1, millis self.active_ttl)) a (omega arith) all
  promise-AllLast (cleanup_by p cid) a all =
      write-AllLast cid _ a
        (retime-Lasts (millis self.active_ttl) (millis self.final_ttl) (a cid) (omega arith)) all
  promise-AllLast (elapse ms) a all = λ c. age-Lasts (millis self.active_ttl) ms (a c) (all c)

  promises-AllLast :
      (ops : List Operation) (a : Expected) → AllLast a → AllLast (promises self ops a).1
  promises-AllLast [] a all = all
  promises-AllLast (op ∷ ops) a all =
      promises-AllLast ops (promise self op a).1 (promise-AllLast op a all)

  module _ (r : Redis) (active : 0 < self.active_ttl) (positive : 0 < self.final_ttl) where
    open r use {Value, entry, tick}

    shown-Lasts :
        (bound : ℕ) (e : Option (Value × ℕ)) (x : Option (ℕ × ℕ))
        → view r e ≡ shown r x
        → Lasts bound x
        → Lasts bound e
    shown-Lasts bound none x same h = tt
    shown-Lasts bound (some e) none same h = cc
    shown-Lasts bound (some (v, left)) (some (n, left')) same h = ground arith

    -- With positive times to live of which the final one is at most the active one: if the server
    -- remembers no conversation for longer than the active time, then after any calls of any number of
    -- processes, in any order and with any time between them, each conversation's key has at most the
    -- active time left, and once that time passes without a call no such key is left.
    pub run-Lasts :
        (ops : List Operation) (f : Fleet r) (a : Expected)
        → Refines r self f.store a
        → ((c : String) → Lasts (millis self.active_ttl) (a c))
        → (cid : String) (ms : ℕ) → millis self.active_ttl ≤ ms
        → Lasts (millis self.active_ttl) (entry (key self cid) (run r self ops f).1.store)
          × (entry (key self cid) (tick ms (run r self ops f).1.store) ≡ none)
    run-Lasts ops f a same all cid ms over =
        let store = (run r self ops f).1.store in
        let lasts =
          shown-Lasts (millis self.active_ttl) (entry (key self cid) store) _
            ((run-Refines r self active positive ops f a same).1 cid)
            (promises-AllLast ops a all cid) in
        (
          lasts,
          r.entry-tick (key self cid) ms store
              ∙ age-gone (millis self.active_ttl) ms (entry (key self cid) store) over lasts,
        )
