-- ===== src/HistorySync.antt =====
-- windows_agent/worker/history_sync.py: where `HistorySync.run` starts and the windows that its loop
-- reads. An instant is its number of microseconds since the year 1, in UTC; a negative `chunk_days`
-- is 0 here, which gives the same windows.
pub mod Cover
pub mod Run
pub mod Round
pub mod Resume
pub mod Finish
use tradejournal_mt5_cloud_w.Prelude.{
  ℕ, zero, suc, ◌+◌, ◌-◌, ◌*◌, ◌^◌, min, max, String, Bool, true, false, Option, none, some, List,
  [], ◌∷◌, ltb, if◌then◌else◌,
}

pub data Mode : Type 0 where
  new_only from_date all_available : Mode

pub data Problem : Type 0 where
  historical_timezone_unavailable invalid_mode : Problem

pub data Start : Type 0 where
  refused : Problem → Start
  from : ℕ → Start

-- `timedelta(days=1)`
abbrev pub day : ℕ
day = 86400 * 10 ^ 6

-- 1970-01-01, which is 719162 days after the year 1 begins.
abbrev pub epoch : ℕ
epoch = 719162 * day

or_now : ℕ → Option ℕ → ℕ
or_now now none = now
or_now now (some saved) = saved

or_refused : Option ℕ → Start
or_refused none = refused invalid_mode
or_refused (some date) = from date

-- `saved` is the instant of the checkpoint, if it has one; `is_unresolved` is whether the adapter's
-- time basis is the broker's.
unfoldable pub start_of : Bool → Mode → Option ℕ → ℕ → Option ℕ → Start
unfolding or_now or_refused
start_of is_unresolved new_only date now saved = from (or_now now saved)
start_of is_unresolved all_available date now saved = from epoch
start_of is_unresolved from_date date now saved =
    if is_unresolved then refused historical_timezone_unavailable else or_refused date

-- The end of the window that begins at the cursor.
unfoldable pub window_end : Bool → ℕ → ℕ → ℕ → ℕ
window_end is_atomic chunk_days now cursor =
    if is_atomic then now else min (cursor + max 1 (min chunk_days 31) * day) now

-- The windows of `while cursor < now`, which follow from the clock alone.
unfoldable pub windows_from : Bool → ℕ → ℕ → ℕ → ℕ → List (ℕ × ℕ)
windows_from is_atomic chunk_days now zero cursor = []
windows_from is_atomic chunk_days now (suc fuel) cursor =
    let rest =
      windows_from is_atomic chunk_days now fuel (window_end is_atomic chunk_days now cursor) in
    if ltb cursor now then (cursor, window_end is_atomic chunk_days now cursor) ∷ rest else []

-- Each window moves the cursor on, so the distance to now is enough fuel.
unfoldable pub windows : Bool → ℕ → ℕ → ℕ → List (ℕ × ℕ)
windows is_atomic chunk_days now start = windows_from is_atomic chunk_days now (now - start) start
