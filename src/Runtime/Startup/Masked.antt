-- ===== src/Runtime/Startup/Masked.antt =====
-- What the error of the start-up check of Redis says nothing of.
use transcribe_service.Prelude.{ℕ, String, ◌≡◌, ◌≢◌, ◌∙◌, refl, true, false, some}
use transcribe_service.Prelude.Exec.{Exn, str, Result, err}
use transcribe_service.Prelude.Text.{contains}
use transcribe_service.Logging.{Tools, mask_redis_url, redact_text_for_logs}
use transcribe_service.Logging.Hiding.{SameUrl, mask_redis_url-SameUrl}
use transcribe_service.Logging.Replacing.{unstarred, redact_text_for_logs-contains}
use transcribe_service.Settings.{Settings}
use transcribe_service.Runtime.Wiring.{Options, RedisClientKwargs}
use transcribe_service.Runtime.Startup.{RedisWeather, check_redis, redis_unavailable}
use transcribe_service.Runtime.Startup.Checked.{checked}

-- The check raises, with the masked form of this URL and a reason that the secret does not stand in, and
-- leaves as many clients open.
pub record IsMasked (t : Tools) (url secret : String) (n : ℕ) (r : Result (Unit {0}) × ℕ)
    : Type 0 where
  pub reason : String
  pub raised : r ≡ (err (redis_unavailable (mask_redis_url t url) reason), n)
  pub hidden : contains secret reason ≡ false

module _ (t : Tools) {Client : Type 0} (from_url : String → RedisClientKwargs → Result Client) where
  raised_as :
      (s : Settings) (o : Options) (u v secret : String) (client : Client) (w : RedisWeather)
      (n : ℕ) (e : Exn)
      → s.redis_url ≡ some u
      → SameUrl t u v
      → o.redis_password ≡ some secret
      → w.ping ≡ err e
      → check_redis t from_url s o (some client) w n ≡ (
        err (redis_unavailable (mask_redis_url t v) (redact_text_for_logs t (some secret) (str e))),
        n,
      )
  raised_as s o u v secret client w n e at_redis same with_secret failed =
      checked t from_url s o u client w n at_redis
      ∙ rw (failed, with_secret, mask_redis_url-SameUrl t u v same) refl

  -- If the ping of Redis fails, whatever the text of its exception, and a password is configured that is
  -- not empty and has no asterisk in it, then the check raises an error with a reason in which that
  -- password does not stand. Beside the reason the error has the masked URL, which is that of any URL
  -- `v` that, like it, names redis and has a password, and differs at most in the password and in what
  -- masking drops. The number of open clients is as it was.
  pub check_redis-hides :
      (s : Settings) (o : Options) (u v secret : String) (client : Client) (w : RedisWeather)
      (n : ℕ) (e : Exn)
      → s.redis_url ≡ some u
      → SameUrl t u v
      → o.redis_password ≡ some secret
      → secret ≢ ""
      → unstarred secret ≡ true
      → w.ping ≡ err e
      → IsMasked t v secret n (check_redis t from_url s o (some client) w n)
  check_redis-hides s o u v secret client w n e at_redis same with_secret given plain failed =
      record {
        reason = redact_text_for_logs t (some secret) (str e);
        raised = raised_as s o u v secret client w n e at_redis same with_secret failed;
        hidden = redact_text_for_logs-contains t secret (str e) given plain;
      }
