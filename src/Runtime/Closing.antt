-- ===== src/Runtime/Closing.antt =====
-- What is opened is closed, in order, whichever step fails.
use transcribe_service.Prelude.{
  ℕ, zero, suc, ◌≡◌, refl, Bool, true, false, Option, none, some, List, [], ◌∷◌, ◌++◌, ap, sym,
  subst,
}
use transcribe_service.Prelude.Exec.{Exn}
use transcribe_service.Runtime.{
  Event, client_opened, machine_opened, guard_opened, producer_opened, client_closed,
  machine_closed, guard_closed, producer_closed, should_exit, Troubles, fresh, run, Course,
  Stopping, completes, raises, times_out, stop_steps, first_events,
}

-- How many of the four resources the construction opens: each of them after the one before.
abbrev opened_before : List (Option Exn) → ℕ
opened_before [] = 0
opened_before (none ∷ rest) = suc (opened_before rest)
opened_before (some e ∷ rest) = 0

abbrev pub resources : Troubles → ℕ
resources t =
    opened_before (t.create_client ∷ t.create_machine ∷ t.create_guard ∷ t.create_producer ∷ [])

abbrev pub opening : ℕ → List Event
opening n = first_events n (client_opened ∷ machine_opened ∷ guard_opened ∷ producer_opened ∷ [])

-- The producer first, then what stands on the Redis client, and the client last.
abbrev pub closing : ℕ → List Event
closing zero = []
closing (suc zero) = client_closed ∷ []
closing (suc (suc zero)) = machine_closed ∷ client_closed ∷ []
closing (suc (suc (suc zero))) = machine_closed ∷ guard_closed ∷ client_closed ∷ []
closing n = producer_closed ∷ machine_closed ∷ guard_closed ∷ client_closed ∷ []

abbrev all_none : List (Option Exn) → Bool
all_none [] = true
all_none (none ∷ rest) = all_none rest
all_none (some e ∷ rest) = false

-- Is the whole bundle built?
abbrev pub built : Troubles → Bool
built t = all_none (
    t.create_client ∷ t.create_machine ∷ t.create_guard ∷ t.create_producer ∷ t.register_signal
    ∷ t.create_auth ∷ t.build_app ∷ t.create_server ∷ [])

abbrev stopped : Stopping → List Event
stopped completes = stop_steps
stopped (raises n e) = first_events n stop_steps
stopped (times_out n) = first_events n stop_steps ++ should_exit ∷ []

-- What happens between the construction and the release.
abbrev course : Option Exn → Option Exn → Stopping → List Event
course none none stopping = stopped stopping
course checks server_first stopping = []

abbrev pub between : Bool → Course → List Event
between true c = course c.checks c.server_first c.stopping
between false c = []

four :
    (xs : List Event) (a b c d : Event)
    → (((xs ++ a ∷ []) ++ b ∷ []) ++ c ∷ []) ++ d ∷ [] ≡ xs ++ a ∷ b ∷ c ∷ d ∷ []
four [] a b c d = refl
four (x ∷ xs) a b c d = ap (λ ys. x ∷ ys) (four xs a b c d)

abbrev troubles :
    Option Exn
    → Option Exn
    → Option Exn
    → Option Exn
    → Option Exn
    → Option Exn
    → Option Exn
    → Option Exn
    → Troubles
troubles a b c d e f g h = record {
  create_client = a;
  create_machine = b;
  create_guard = c;
  create_producer = d;
  register_signal = e;
  create_auth = f;
  build_app = g;
  create_server = h;
  close_producer = none;
  close_client = none;
}

module _ (co : Course) where
  served :
      (checks server_first : Option Exn) (stopping : Stopping)
      → (run
          (troubles none none none none none none none none)
          (record { checks = checks; server_first = server_first; stopping = stopping })
          fresh).1.events
        ≡ opening 4 ++ (course checks server_first stopping ++ closing 4)
  unfolding run
  served (some e) server_first stopping = refl
  served none (some e) stopping = refl
  served none none completes = refl
  served none none (raises n e) =
      ap (λ xs. opening 4 ++ xs) (four (first_events n stop_steps) _ _ _ _)
  served none none (times_out n) =
      ap (λ xs. opening 4 ++ xs) (four (first_events n stop_steps ++ should_exit ∷ []) _ _ _ _)

  by_step :
      (a b c d e f g h : Option Exn)
      → (run (troubles a b c d e f g h) co fresh).1.events
        ≡ opening (resources (troubles a b c d e f g h))
          ++ (between (built (troubles a b c d e f g h)) co
              ++ closing (resources (troubles a b c d e f g h)))
  unfolding run
  by_step (some x) b c d e f g h = refl
  by_step none (some x) c d e f g h = refl
  by_step none none (some x) d e f g h = refl
  by_step none none none (some x) e f g h = refl
  by_step none none none none (some x) f g h = refl
  by_step none none none none none (some x) g h = refl
  by_step none none none none none none (some x) h = refl
  by_step none none none none none none none (some x) = refl
  by_step none none none none none none none none = served co.checks co.server_first co.stopping

-- If closing the producer and the Redis client does not fail, then over the whole life of the process,
-- whichever step of the construction, the start-up checks, the server or the shutdown fails, exactly the
-- resources that were opened are closed, once each: the producer, the sequence state machine, the guard,
-- and the shared Redis client last. If the shutdown completes, the sockets are closed, the producer is
-- flushed, and the server has ended before that.
pub run-closes :
    (t : Troubles) (c : Course)
    → t.close_producer ≡ none
    → t.close_client ≡ none
    → (run t c fresh).1.events
      ≡ opening (resources t) ++ (between (built t) c ++ closing (resources t))
run-closes t c quiet_producer quiet_client =
    let quiet : t ≡ record t { close_producer = none; close_client = none } =
      λ i. record t { close_producer = quiet_producer i; close_client = quiet_client i } in
    subst
      (λ u.
        (run u c fresh).1.events
        ≡ opening (resources u) ++ (between (built u) c ++ closing (resources u)))
      (sym quiet)
      (by_step c t.create_client t.create_machine t.create_guard t.create_producer t.register_signal
        t.create_auth t.build_app t.create_server)
