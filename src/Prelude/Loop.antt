-- ===== src/Prelude/Loop.antt =====
-- A Python loop `for k in sorted(d.keys())` that appends to a result, counted.
use Prim.Native.String.{String}
use mathlib.Core.Path.{◌≡◌}
use mathlib.Core.Bool.{Bool}
use mathlib.Core.List.{List, flat_map}
use tradejournal_mt5_cloud_w.Prelude.Tests.{if◌then◌else◌}
use tradejournal_mt5_cloud_w.Prelude.Dict.{Dict, keys, contains, Distinct}
use tradejournal_mt5_cloud_w.Prelude.Sort.{sorted, elem-sorted, sorted-Distinct}
use tradejournal_mt5_cloud_w.Prelude.Count.{count, count-flat_map, Silent}

-- The whole loop has the hits of the round of `k`, if `k` is a key.
pub count-loop {ℓ κ} :
    {A : Type ℓ} {V : Type κ} (p : A → Bool) (k : String) (body : String → List A) (d : Dict V)
    → Silent p k body
    → Distinct (keys d)
    → count p (flat_map body (sorted (keys d))) ≡ (if contains k d then count p (body k) else 0)
unfolding contains
count-loop p k body d silent distinct =
    rw (count-flat_map p k body (sorted (keys d)) silent (sorted-Distinct (keys d) distinct))
      (rw elem-sorted)
