-- ===== src/Tests/Concurrent.antt =====
-- The theorems on tasks that run at the same time.
use transcribe_service.Prelude.{ℕ, refl}
use transcribe_service.Json.{body}
use transcribe_service.Redis.Memory.{memory}
use transcribe_service.Pipeline.{backends}
use transcribe_service.Workers.{Job, to_prepare, work}
use transcribe_service.Workers.Interleaving.{
  System, Reaches, here, next, call, IsSafe, interleaved-IsSafe, after,
}
use transcribe_service.Tests.Fixtures.{
  settings, settings-IsPositive, log_topic, calm, clock, started, first_message,
}

abbrev job : Job
job = record { raw = body; msg = first_message; clock = clock }

-- Two tasks with the same message, which is expected.
abbrev two : System memory log_topic
two = record { tasks = λ i. (job, to_prepare); world = started }

abbrev moved : ℕ → System memory log_topic → System memory log_topic
moved i s =
    after memory log_topic settings "c-1" s i (s.tasks i).0
      (work (backends memory log_topic settings calm) (s.tasks i).0 (s.tasks i).1 s.world)

-- Both ask before one of them has sent; then the first sends, the second sends, and both commit.
abbrev six_calls : System memory log_topic
six_calls = moved 1 (moved 0 (moved 1 (moved 0 (moved 1 (moved 0 two)))))

abbrev steps : Reaches memory log_topic settings "c-1" two six_calls
steps =
    next
      (next (next (next (next (next here (call 0 calm)) (call 1 calm)) (call 0 calm)) (call 1 calm))
        (call 0 calm))
      (call 1 calm)

interleaved_example : IsSafe memory log_topic settings "c-1" six_calls
interleaved_example =
    interleaved-IsSafe memory log_topic settings settings-IsPositive "c-1" two six_calls (λ i. refl)
      refl refl steps
