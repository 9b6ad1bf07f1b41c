-- ===== src/Runtime.antt =====
-- What the Go code takes for granted: `error` values, calls that return a value and an error, and
-- the clock. Every operation that reads or writes state is an `Action`; a mutex-protected method
-- is one such step.
mod Errors
mod Monad
pub mod Post
unfoldable pub use Errors.*
unfoldable pub use Monad.*
use stage_sync.Base.{ℕ}

-- `time.Time`, as nanoseconds after a fixed instant.
abbrev pub Time : Type 0
Time = ℕ
