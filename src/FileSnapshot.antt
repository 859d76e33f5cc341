-- ===== src/FileSnapshot.antt =====
-- windows_agent/worker/mql5_file_adapter.py: `snapshot`, which takes the files of the bridge only when
-- they belong together. What an attempt reads is a `Reads`.
pub mod Coherent
use tradejournal_mt5_cloud_w.Prelude.{
  ℕ, zero, suc, String, Bool, true, false, ◌&&◌, Option, none, some, List, [], ◌∷◌, str_eq, ◌==◌,
  if◌then◌else◌,
}
use tradejournal_mt5_cloud_w.Prelude.Dict.{Dict, lookup, insert}
use tradejournal_mt5_cloud_w.Value.{Row, get, or_else, is_some}
use tradejournal_mt5_cloud_w.Value.Text.{to_str}
use tradejournal_mt5_cloud_w.Normalizer.{or_empty}
use tradejournal_mt5_cloud_w.Detector.{Snapshot}

pub data Fault : Type 0 where
  read_failed terminal_not_connected identity_mismatch sequence_mismatch write_failed : Fault

pub data Result (A : Type 0) : Type 0 where
  ok : A → Result A
  err : Fault → Result A

infixl 5 ◌>>=◌
abbrev pub ◌>>=◌ : {A B : Type 0} → Result A → (A → Result B) → Result B
ok a >>= f = f a
err e >>= f = err e

-- The sequence number of a file, and what it says; none is an exception.
pub record Reads : Type 0 where
  -- whether the terminal is connected
  pub heartbeat : Option (ℕ × Bool)
  -- whether the payload is an object with the expected login
  pub account : Option (ℕ × Bool)
  pub positions : Option (ℕ × List Row)
  pub orders : Option (ℕ × List Row)
  pub deals : Option (ℕ × List Row)
  pub heartbeat_after : Option ℕ
  -- whether the write of the checkpoint returns
  pub saves : Bool

-- `_SNAPSHOT_CONSISTENCY_ATTEMPTS`
abbrev pub attempts : ℕ
attempts = 26

unfoldable pub from_read : {A : Type 0} → Option A → Result A
from_read none = err read_failed
from_read (some a) = ok a

unfoldable pub guard : Bool → Fault → Result (Unit {0})
guard true fault = ok tt
guard false fault = err fault

unfoldable pub all_same : ℕ → ℕ → ℕ → ℕ → ℕ → ℕ → Bool
all_same a b c d e f = a == b && a == c && a == d && a == e && a == f

-- `_save_checkpoint`, before the return
unfoldable pub saved_as : Bool → Snapshot → Result (Option Snapshot)
saved_as true snapshot_ = ok (some snapshot_)
saved_as false snapshot_ = err write_failed

module _ (float_repr : ℕ → String) where
  -- The loop of `_positions_by_stable_id`
  unfoldable pub by_stable_id : List Row → Dict Row → Dict Row
  by_stable_id [] result = result
  by_stable_id (row ∷ rows) result =
      let key = or_else (get "position_id" row) (get "ticket" row) in
      by_stable_id rows (if is_some key then insert (to_str float_repr key) row result else result)

  -- The loop of `_dedupe`
  unfoldable pub dedupe : String → List Row → Dict Row → Dict Row
  dedupe field [] result = result
  dedupe field (row ∷ rows) result =
      let key = to_str float_repr (or_empty (lookup field row)) in
      dedupe field rows (if str_eq key "" then result else insert key row result)

  unfoldable pub mapped : List Row → List Row → List Row → Snapshot
  mapped positions orders deals = record {
    positions = by_stable_id positions [];
    orders = dedupe "ticket" orders [];
    deals = dedupe "ticket" deals [];
  }

  -- The end of an attempt: the six numbers, and what `snapshot` returns.
  unfoldable pub compare_numbers :
      ℕ → ℕ → Bool → ℕ × List Row → ℕ × List Row → ℕ × List Row → ℕ → Result (Option Snapshot)
  compare_numbers heartbeat account saves positions orders deals after =
      if all_same heartbeat after account positions.0 orders.0 deals.0
      then saved_as saves (mapped positions.1 orders.1 deals.1)
      else ok none

  -- An attempt, from the reading of the positions on.
  unfoldable pub read_files : ℕ → ℕ → Reads → Result (Option Snapshot)
  read_files heartbeat account reads = do
    positions ← from_read reads.positions
    orders ← from_read reads.orders
    deals ← from_read reads.deals
    after ← from_read reads.heartbeat_after
    compare_numbers heartbeat account reads.saves positions orders deals after

  -- One attempt of `snapshot`; none: the files do not belong together.
  unfoldable pub attempt : Reads → Result (Option Snapshot)
  attempt reads = do
    heartbeat ← from_read reads.heartbeat
    _ ← guard heartbeat.1 terminal_not_connected
    account ← from_read reads.account
    _ ← guard account.1 identity_mismatch
    read_files heartbeat.0 account.0 reads

  -- The attempts that are left, from the n-th on.
  unfoldable pub snapshot_from : (ℕ → Reads) → ℕ → ℕ → Result Snapshot
  snapshot_from reads zero n = err sequence_mismatch
  snapshot_from reads (suc left) n = attempt (reads n) >>= (λ result. elim result [
    | some snapshot_ ↦ ok snapshot_
    | none ↦ snapshot_from reads left (suc n)
  ])

  -- `snapshot`
  unfoldable pub snapshot : (ℕ → Reads) → Result Snapshot
  snapshot reads = snapshot_from reads attempts 0
