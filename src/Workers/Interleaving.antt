-- ===== src/Workers/Interleaving.antt =====
-- Any number of tasks on the same server and topic, whose calls come in any order.
use transcribe_service.Prelude.{
  ℕ, ◌<◌, String, ◌≡◌, sym, ap, ◌∙◌, [], eqb, inl, inr, false≢true, none, arith, if◌then◌else◌,
  Bool-cases, List,
}
use transcribe_service.Prelude.Exec.{err, exception}
use transcribe_service.Redis.Server.{Redis, age}
use transcribe_service.Redis.SequenceStateMachine.{Config, key}
use transcribe_service.Redis.SequenceStateMachine.Scripts.{time_left, expectation, expects-tick}
use transcribe_service.Producer.{Kafka}
use transcribe_service.Pipeline.{Weather, World, backends}
use transcribe_service.Pipeline.Delivered.{stored}
use transcribe_service.Pipeline.Effects.{IsPositive, At}
use transcribe_service.Pipeline.InStep.{later}
use transcribe_service.Workers.{Phase, to_prepare, answered, Job, work}
use transcribe_service.Workers.Knows.{AllBelow, Knows, Knows-Grows}
use transcribe_service.Workers.Moves.{Moved, work-Moved}

-- A task: its message and its phase.
abbrev pub Task : Type 0
Task = Job × Phase

pub record System (r : Redis) (k : Kafka) : Type 0 where
  pub tasks : ℕ → Task
  pub world : World r k

abbrev pub replace : (ℕ → Task) → ℕ → Task → ℕ → Task
replace tasks i t l = if eqb i l then t else tasks l

module _ (r : Redis) (k : Kafka) (self : Config) (c : String) where
  abbrev with_world : System r k → World r k → System r k
  with_world s w = record s { world = w }

  abbrev pub after : System r k → ℕ → Job → Phase × World r k → System r k
  after s i j (phase, w) = record { tasks = replace s.tasks i (j, phase); world = w }

  -- One step of the system. A task may stop for good between two of its calls. Each call may end in any
  -- way, and may be made by another process than the last one.
  pub data Step (s : System r k) : System r k → Type 0 where
    start : (i : ℕ) (j : Job) → Step s (after s i j (to_prepare, s.world))
    call :
        (i : ℕ) (weather : Weather)
        → Step s (
            after s i
              (s.tasks i).0
              (work (backends r k self weather) (s.tasks i).0 (s.tasks i).1 s.world))
    stop :
        (i : ℕ) → Step s (after s i (s.tasks i).0 (answered (err (exception "cancelled")), s.world))
    wait :
        (ms : ℕ)
        → ms < time_left r (key self c) s.world.machine.store
        → Step s (with_world s (later r k self c ms s.world))
    idle :
        (ms : ℕ)
        → r.entry (key self c) s.world.machine.store ≡ none
        → Step s (with_world s (later r k self c ms s.world))
    take_over :
        (other : World r k)
        → other.machine.store ≡ s.world.machine.store
        → other.producer.topic ≡ s.world.producer.topic
        → Step s (with_world s other)

  pub data Reaches (s : System r k) : System r k → Type 0 where
    here : Reaches s s
    next : {t u : System r k} → Reaches s t → Step t u → Reaches s u

  -- Every number below the one that Redis expects is in the topic, and every task's phase knows what it
  -- needs: an acknowledged task, that its number is in the topic.
  pub record IsSafe (s : System r k) : Type 0 where
    pub expected : ℕ
    pub numbers : List ℕ
    pub at : At r k self c expected numbers s.world
    pub below : AllBelow expected numbers
    pub knows : (i : ℕ) → Knows c (s.tasks i).0 numbers (s.tasks i).1

  -- Another world, where the conversation stands as before.
  unmoved :
      (s : System r k) (h : IsSafe s) (w : World r k)
      → At r k self c h.expected h.numbers w
      → IsSafe (with_world s w)
  unmoved s h w a = record {
    expected = h.expected;
    numbers = h.numbers;
    at = a;
    below = h.below;
    knows = h.knows;
  }

module _ (r : Redis) (k : Kafka) (self : Config) (pos : IsPositive self) (c : String) where
  -- One task changes, and the others see the deliveries grow.
  after-IsSafe :
      (s : System r k) (h : IsSafe r k self c s) (i : ℕ) (j : Job) (d : Phase × World r k)
      → Moved r k self pos c j h.numbers d
      → IsSafe r k self c (after r k self c s i j d)
  after-IsSafe s h i j (phase, w) moved = record {
    expected = moved.expected;
    numbers = moved.numbers;
    at = moved.at;
    below = moved.below;
    knows = λ l. elim (Bool-cases (eqb i l)) [
      | inl e ↦ rw e moved.knows
      | inr e ↦ rw e (
          Knows-Grows c (s.tasks l).0 h.numbers moved.numbers (s.tasks l).1 moved.grows (h.knows l))
    ];
  }

  -- A task's phase changes without a call.
  set_phase :
      (s : System r k) (h : IsSafe r k self c s) (j : Job) (phase : Phase)
      → Knows c j h.numbers phase
      → Moved r k self pos c j h.numbers (phase, s.world)
  set_phase s h j phase known = record {
    expected = h.expected;
    numbers = h.numbers;
    at = h.at;
    below = h.below;
    grows = λ m e. e;
    knows = known;
  }

  Step-IsSafe : {s t : System r k} → Step r k self c s t → IsSafe r k self c s → IsSafe r k self c t
  Step-IsSafe {s = s} (start i j) h =
      after-IsSafe s h i j (to_prepare, s.world) (set_phase s h j to_prepare tt)
  Step-IsSafe {s = s} (call i weather) h =
      after-IsSafe s h i (s.tasks i).0
        (work (backends r k self weather) (s.tasks i).0 (s.tasks i).1 s.world)
        (work-Moved r k self pos c weather (s.tasks i).0 h.expected h.numbers s.world h.at h.below
          (s.tasks i).1 (h.knows i))
  Step-IsSafe {s = s} (stop i) h =
      after-IsSafe s h i (s.tasks i).0 (answered (err (exception "cancelled")), s.world)
        (set_phase s h (s.tasks i).0 (answered (err (exception "cancelled")))
          (λ acked own. absurd (false≢true acked)))
  Step-IsSafe {s = s} (wait ms lasts) h =
      unmoved r k self c s h (later r k self c ms s.world) (record {
        expected = expects-tick r (key self c) ms s.world.machine.store lasts ∙ h.at.expected;
        held = h.at.held;
      })
  Step-IsSafe {s = s} (idle ms no_key) h =
      unmoved r k self c s h (later r k self c ms s.world) (record {
        expected =
            ap (expectation r)
              (r.entry-tick (key self c) ms s.world.machine.store ∙ ap (age ms) no_key ∙ sym no_key)
            ∙ h.at.expected;
        held = h.at.held;
      })
  Step-IsSafe {s = s} (take_over other same_store same_topic) h =
      unmoved r k self c s h other
        (record { expected = rw same_store h.at.expected; held = rw same_topic h.at.held })

  Reaches-IsSafe :
      {s t : System r k} → IsSafe r k self c s → Reaches r k self c s t → IsSafe r k self c t
  Reaches-IsSafe h here = h
  Reaches-IsSafe h (next before step) = Step-IsSafe step (Reaches-IsSafe h before)

  unprepared : (j : Job) (phase : Phase) → phase ≡ to_prepare → Knows c j [] phase
  unprepared j phase e = rw e tt

  -- With positive times to live, let any number of tasks, none of which has made a call yet, start on a
  -- conversation that has no key and no record. Then after any steps of the tasks, in any order, each
  -- call ending in any way, with tasks that start or stop at any point, with processes that take turns,
  -- and with time that passes while the key lasts or there is none: every number below the one that
  -- Redis expects is in the topic, and so is the number of every task of the conversation that has
  -- ended with an acknowledgement.
  pub interleaved-IsSafe :
      (s t : System r k)
      → ((i : ℕ) → (s.tasks i).1 ≡ to_prepare)
      → r.entry (key self c) s.world.machine.store ≡ none
      → stored c (k.records s.world.producer.topic) ≡ []
      → Reaches r k self c s t
      → IsSafe r k self c t
  interleaved-IsSafe s t fresh no_key no_record steps =
      Reaches-IsSafe
        (record {
          expected = 0;
          numbers = [];
          at = record { expected = ap (expectation r) no_key; held = no_record };
          below = λ m lt. absurd (omega arith);
          knows = λ i. unprepared (s.tasks i).0 (s.tasks i).1 (fresh i);
        })
        steps
