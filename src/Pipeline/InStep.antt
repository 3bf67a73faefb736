-- ===== src/Pipeline/InStep.antt =====
-- Redis and Kafka stay in step while the service runs: through messages with any failures, time that
-- passes, and processes that take over from each other on the same server and topic.
use transcribe_service.Prelude.{
  ℕ, ◌+◌, ◌≤◌, ◌<◌, String, ◌≡◌, refl, inl, inr, true, none, some, List, [], ◌∷◌, ◌++◌, arith, ◌∙◌,
  ap, sym, false≢true, ◌⊎◌,
}
use transcribe_service.Prelude.Exec.{Result}
use transcribe_service.Json.{Json}
use transcribe_service.Schemas.Request.{InboundMessage, ValidationError, Pydantic}
use transcribe_service.Redis.Server.{Redis, age}
use transcribe_service.Redis.SequenceStateMachine.{Config, key}
use transcribe_service.Redis.SequenceStateMachine.Scripts.{time_left, expectation, expects-tick}
use transcribe_service.Producer.{Kafka}
use transcribe_service.Orchestrator.{Clock, OrchestratorResult}
use transcribe_service.Orchestrator.Phases.{acknowledged}
use transcribe_service.Pipeline.{Weather, World, handle}
use transcribe_service.Pipeline.Delivered.{
  IsGapless, read_from, read_from-append, mem, mem-IsGapless, stored,
}
use transcribe_service.Pipeline.Effects.{IsPositive, At}
use transcribe_service.Pipeline.Message.{handle-Post, handle-rejected, Post}

-- One more delivery of the expected number, whether or not it was delivered before.
IsGapless-append :
    (n high : ℕ) (xs : List ℕ)
    → n ≤ high
    → high ≤ n + 1
    → IsGapless xs high
    → IsGapless (xs ++ n ∷ []) (n + 1)
IsGapless-append n high xs low up h = read_from-append (some 0) xs n ∙ rw h (ground arith)

module _ (r : Redis) (k : Kafka) (self : Config) (c : String) where
  -- The topic holds the conversation's numbers from 0 on without a gap, and Redis expects the number
  -- after the last one, or the last one itself once more, when its commit was lost.
  pub record InStep (w : World r k) : Type 0 where
    pub expected : ℕ
    pub high : ℕ
    pub numbers : List ℕ
    pub at : At r k self c expected numbers w
    pub gapless : IsGapless numbers high
    pub low : expected ≤ high
    pub up : high ≤ expected + 1

  -- Time passes.
  abbrev pub later : ℕ → World r k → World r k
  later ms w = record w { machine = record w.machine { store = r.tick ms w.machine.store } }

  -- A step of the service. Time passes while the key lasts, or there is none yet; another process may take the next message,
  -- with scripts and a client of its own.
  pub data Step (w : World r k) : World r k → Type 0 where
    message :
        (pydantic : Pydantic) (weather : Weather) (clock : Clock) (raw : Json) (cid : String)
        → Step w (handle r k self pydantic weather clock raw cid w).1
    wait : (ms : ℕ) → ms < time_left r (key self c) w.machine.store → Step w (later ms w)
    idle : (ms : ℕ) → r.entry (key self c) w.machine.store ≡ none → Step w (later ms w)
    take_over :
        (other : World r k)
        → other.machine.store ≡ w.machine.store
        → other.producer.topic ≡ w.producer.topic
        → Step w other

  pub data Reaches (w : World r k) : World r k → Type 0 where
    here : Reaches w w
    next : {u v : World r k} → Reaches w u → Step u v → Reaches w v

  -- Another world, where the conversation stands as before.
  unmoved : {w v : World r k} (h : InStep w) → At r k self c h.expected h.numbers v → InStep v
  unmoved h a = record {
    expected = h.expected;
    high = h.high;
    numbers = h.numbers;
    at = a;
    gapless = h.gapless;
    low = h.low;
    up = h.up;
  }

  -- Nothing was delivered yet, and there is no key.
  pub fresh-InStep :
      (w : World r k)
      → r.entry (key self c) w.machine.store ≡ none
      → stored c (k.records w.producer.topic) ≡ []
      → InStep w
  unfolding read_from
  fresh-InStep w no_key no_record = record {
    expected = 0;
    high = 0;
    numbers = [];
    at = record { expected = ap (expectation r) no_key; held = no_record };
    gapless = refl;
    low = omega arith;
    up = omega arith;
  }

module _ (r : Redis) (k : Kafka) (self : Config) (pos : IsPositive self) (c : String) where
  module _ (weather : Weather) (clock : Clock) (cid : String) (seq : ℕ) where
    Post-InStep :
        (w : World r k) (h : InStep r k self c w) (d : Result OrchestratorResult × World r k)
        → Post r k self pos c weather clock cid seq h.expected h.numbers d
        → InStep r k self c d.1
    Post-InStep w h d (inl (a, _)) = unmoved r k self c h a
    Post-InStep w h d (inr (inl (a, _))) = record {
      expected = h.expected;
      high = h.expected + 1;
      numbers = h.numbers ++ h.expected ∷ [];
      at = a;
      gapless = IsGapless-append h.expected h.high h.numbers h.low h.up h.gapless;
      low = omega arith;
      up = omega arith;
    }
    Post-InStep w h d (inr (inr (a, _))) = record {
      expected = h.expected + 1;
      high = h.expected + 1;
      numbers = h.numbers ++ h.expected ∷ [];
      at = a;
      gapless = IsGapless-append h.expected h.high h.numbers h.low h.up h.gapless;
      low = omega arith;
      up = omega arith;
    }

    Post-stored :
        (w : World r k) (h : InStep r k self c w) (d : Result OrchestratorResult × World r k)
        → Post r k self pos c weather clock cid seq h.expected h.numbers d
        → cid ≡ c
        → acknowledged d.0 ≡ true
        → mem seq (stored c (k.records d.1.producer.topic)) ≡ true
    Post-stored w h d (inl (a, below)) own acked = rw a.held (
        mem-IsGapless seq h.high h.numbers h.gapless
          (let b = below acked own in let l = h.low in omega arith))
    Post-stored w h d (inr (inl (a, failed))) own acked = absurd (false≢true (sym failed ∙ acked))
    Post-stored w h d (inr (inr (a, e))) own acked =
        rw (a.held, e)
          (mem-IsGapless h.expected (h.expected + 1) (h.numbers ++ h.expected ∷ [])
            (IsGapless-append h.expected h.high h.numbers h.low h.up h.gapless) (omega arith))

  handle-InStep :
      (pydantic : Pydantic) (weather : Weather) (clock : Clock) (raw : Json) (own : String)
      (w : World r k)
      → InStep r k self c w
      → InStep r k self c (handle r k self pydantic weather clock raw own w).1
  handle-InStep pydantic weather clock raw own w h = by_answer (pydantic.model_validate raw) refl
    where
      by_answer :
          (v : ValidationError ⊎ InboundMessage)
          → pydantic.model_validate raw ≡ v
          → InStep r k self c (handle r k self pydantic weather clock raw own w).1
      by_answer (inl e) rejected = unmoved r k self c h (
          handle-rejected r k self pos c weather clock pydantic raw own e h.expected h.numbers w
            h.at rejected)
      by_answer (inr msg) accepted =
          Post-InStep weather clock msg.meta_data.conversation_id msg.payload.sequence_number w h
            (handle r k self pydantic weather clock raw own w)
            (handle-Post r k self pos c weather clock pydantic raw own msg h.expected h.numbers w
              h.at accepted)

  Step-InStep : {u v : World r k} → Step r k self c u v → InStep r k self c u → InStep r k self c v
  Step-InStep (message pydantic weather clock raw cid) h =
      handle-InStep pydantic weather clock raw cid _ h
  Step-InStep {u = u} (wait ms lasts) h = unmoved r k self c h (record {
    expected = expects-tick r (key self c) ms u.machine.store lasts ∙ h.at.expected;
    held = h.at.held;
  })
  Step-InStep {u = u} (idle ms no_key) h = unmoved r k self c h (record {
    expected =
        ap (expectation r)
          (r.entry-tick (key self c) ms u.machine.store ∙ ap (age ms) no_key ∙ sym no_key)
        ∙ h.at.expected;
    held = h.at.held;
  })
  Step-InStep (take_over other same_store same_topic) h =
      unmoved r k self c h
        (record { expected = rw same_store h.at.expected; held = rw same_topic h.at.held })

  Reaches-InStep :
      {u v : World r k} → InStep r k self c u → Reaches r k self c u v → InStep r k self c v
  Reaches-InStep h here = h
  Reaches-InStep h (next before step) = Step-InStep step (Reaches-InStep h before)

  -- With positive times to live, start with no key and no record of the conversation, and let the
  -- service take any steps: messages of any conversations, one at a time, where each call to Redis
  -- and Kafka may fail before or after it takes effect; waiting while the key lasts or while there
  -- is none; and changes of the process. Then the conversation's numbers in the topic run from 0
  -- without a gap, only the last number so far is ever repeated, and the number that Redis expects
  -- is the one after the last, or the last.
  pub delivery-InStep :
      (u v : World r k)
      → r.entry (key self c) u.machine.store ≡ none
      → stored c (k.records u.producer.topic) ≡ []
      → Reaches r k self c u v
      → InStep r k self c v
  delivery-InStep u v no_key no_record steps =
      Reaches-InStep (fresh-InStep r k self c u no_key no_record) steps

  -- With positive times to live, and after any such steps from no key and no record: if a message
  -- of the conversation that pydantic accepts is acknowledged, then its number stands in the
  -- topic, whichever calls fail.
  pub acknowledged-mem :
      (u v : World r k)
      → r.entry (key self c) u.machine.store ≡ none
      → stored c (k.records u.producer.topic) ≡ []
      → Reaches r k self c u v
      → (pydantic : Pydantic) (weather : Weather) (clock : Clock) (raw : Json) (own : String)
      → (msg : InboundMessage) → pydantic.model_validate raw ≡ inr msg
      → msg.meta_data.conversation_id ≡ c
      → acknowledged (handle r k self pydantic weather clock raw own v).0 ≡ true
      → mem msg.payload.sequence_number
          (stored c (k.records (handle r k self pydantic weather clock raw own v).1.producer.topic))
        ≡ true
  acknowledged-mem u v no_key no_record steps pydantic weather clock raw own msg accepted same
        acked =
      let h = delivery-InStep u v no_key no_record steps in
      Post-stored weather clock msg.meta_data.conversation_id msg.payload.sequence_number v h
        (handle r k self pydantic weather clock raw own v)
        (handle-Post r k self pos c weather clock pydantic raw own msg h.expected h.numbers v h.at
          accepted)
        same acked
