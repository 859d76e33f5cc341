-- ===== src/Tests/FileSnapshotTests.antt =====
-- Runs of `snapshot` of windows_agent/worker/mql5_file_adapter.py, and its theorem at concrete reads.
use tradejournal_mt5_cloud_w.Prelude.{
  ℕ, ◌≡◌, refl, String, true, ◌==◌, some, [], ◌∷◌, if◌then◌else◌,
}
use tradejournal_mt5_cloud_w.Prelude.Int.{pos}
use tradejournal_mt5_cloud_w.Prelude.Dict.{lookup, insert}
use tradejournal_mt5_cloud_w.Value.{Row, get, or_else, is_some, truthy, int}
use tradejournal_mt5_cloud_w.Value.Text.{to_str, decimal}
use tradejournal_mt5_cloud_w.Detector.{Snapshot}
use tradejournal_mt5_cloud_w.Normalizer.{or_empty}
use tradejournal_mt5_cloud_w.FileSnapshot.{
  ok, Reads, attempts, from_read, guard, all_same, by_stable_id, dedupe, mapped, saved_as,
  compare_numbers, read_files, attempt, snapshot_from, snapshot,
}
use tradejournal_mt5_cloud_w.FileSnapshot.Coherent.{IsFromOne, snapshot-IsFromOne}

abbrev repr : ℕ → String
repr b = "0.1"

abbrev position : Row
position = ("ticket", int (pos 5)) ∷ ("position_id", int (pos 77)) ∷ []

abbrev reads_at : ℕ → ℕ → Reads
reads_at before after = record {
  heartbeat = some (before, true);
  account = some (after, true);
  positions = some (after, position ∷ []);
  orders = some (after, []);
  deals = some (after, (("ticket", int (pos 9)) ∷ []) ∷ []);
  heartbeat_after = some after;
  saves = true;
}

-- The first attempt meets the files while they are replaced.
abbrev reads : ℕ → Reads
reads n = if n == 0 then reads_at 3 4 else reads_at 4 4

abbrev result : Snapshot
result = record {
  positions = ("77", position) ∷ [];
  orders = [];
  deals = ("9", ("ticket", int (pos 9)) ∷ []) ∷ [];
}

second_attempt : snapshot repr reads ≡ ok result
unfolding snapshot snapshot_from attempt read_files compare_numbers from_read guard all_same mapped
    by_stable_id dedupe saved_as get lookup insert or_else truthy is_some to_str or_empty decimal
second_attempt = refl

snapshot-IsFromOne_example : IsFromOne repr reads 0 attempts result
snapshot-IsFromOne_example = snapshot-IsFromOne repr reads result second_attempt
