-- ===== src/Start.antt =====
-- src/runtime.rs and the entry point src/bin/diddycord-headless.rs: the settings
-- that they compute. The number of processors, if it is known, and the environment are arguments.
use diddycord.Base.{
  ℕ, ◌*◌, ◌≤◌, ◌≡◌, refl, max, min, Option, none, some, Str, arith, unwrap_or, u64_max, bytes,
}
use diddycord.Base.Results.{Result, ok, err}
use diddycord.Base.Decimal.{print, parse_u64, parse_u64-print}
use diddycord.Gateway.Control
use diddycord.Gateway.Control.{NetworkBackbone, default_intents}

abbrev pub max_worker_threads : ℕ
max_worker_threads = 4

abbrev pub worker_stack_size : ℕ
worker_stack_size = 1024 * 1024

-- `clamp(1, MAX_WORKER_THREADS)`.
unfoldable pub recommended_worker_threads : Option ℕ → ℕ
recommended_worker_threads parallelism = min (max (unwrap_or parallelism 1) 1) max_worker_threads

-- What the runtime's builder is told; the keep-alive is in seconds.
pub record RuntimeSettings : Type 0 where
  pub worker_threads : ℕ
  pub max_blocking_threads : ℕ
  pub thread_keep_alive : ℕ
  pub thread_stack_size : ℕ
  pub global_queue_interval : ℕ
  pub event_interval : ℕ

unfoldable pub build_runtime : Option ℕ → RuntimeSettings
unfolding recommended_worker_threads
build_runtime parallelism =
    let workers = recommended_worker_threads parallelism in
    record {
      worker_threads = workers;
      max_blocking_threads = max workers 2;
      thread_keep_alive = 10;
      thread_stack_size = worker_stack_size;
      global_queue_interval = 31;
      event_interval = 31;
    }

-- DISCORD_INTENTS, if it is set to a `u64`.
unfoldable pub intents_of : Option Str → ℕ
unfolding parse_u64
intents_of none = default_intents
intents_of (some value) = unwrap_or (parse_u64 value) default_intents

-- The backbone that the headless client runs, or the error that there is no token.
unfoldable pub main : Option Str → Option Str → Result NetworkBackbone Str
unfolding intents_of Control.new
main none intents = err (bytes "DISCORD_BOT_TOKEN is not set")
main (some token) intents =
    ok (Control.new (record { token = token; intents = intents_of intents }) 256)

-- The runtime has one to four workers, and at least two and at most four threads that may block.
pub build_runtime_bounds :
    (parallelism : Option ℕ)
    → let r = build_runtime parallelism in
      (1 ≤ r.worker_threads)
      × (r.worker_threads ≤ 4)
      × (2 ≤ r.max_blocking_threads)
      × (r.max_blocking_threads ≤ 4)
unfolding build_runtime
build_runtime_bounds none = omega arith
build_runtime_bounds (some n) = omega arith

-- Intents that are written as a decimal `u64` in the environment are the intents of the connection.
pub intents_of-print : (n : ℕ) → n ≤ u64_max → intents_of (some (print n)) ≡ n
unfolding intents_of
intents_of-print n h = rw (parse_u64-print n h) refl
