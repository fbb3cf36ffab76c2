-- ===== src/Sync/Backoff.antt =====
-- packages/core/src/storage/client.ts: the retry delay.
pub mod Bounds
use kontexta.Base.{ℕ, ◌*◌, ◌^◌, min}

abbrev pub backoff_initial_ms : ℕ
backoff_initial_ms = 1000

abbrev pub backoff_max_ms : ℕ
backoff_max_ms = 300000

unfoldable pub backoff_delay : ℕ → ℕ → ℕ → ℕ
backoff_delay failures initial top = min (initial * 2 ^ min failures 9) top
