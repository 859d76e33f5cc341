-- ===== src/LiveSync/Usable.antt =====
-- windows_agent/worker/live_sync.py: the symbol that `_authoritative_symbol` finds.
use tradejournal_mt5_cloud_w.Prelude.{◌≡◌, String, true, List}
use tradejournal_mt5_cloud_w.Prelude.Dict.{Dict}
use tradejournal_mt5_cloud_w.Value.{Value, str}
use tradejournal_mt5_cloud_w.Normalizer.{is_usable_symbol}

pub IsUsable : String → Type 0
IsUsable symbol = is_usable_symbol (str symbol) ≡ true
