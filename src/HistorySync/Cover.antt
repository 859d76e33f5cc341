-- ===== src/HistorySync/Cover.antt =====
-- windows_agent/worker/history_sync.py: the windows cover the history up to now without a gap.
use native.Mathlib.Decide.{dec_lt}
use tradejournal_mt5_cloud_w.Prelude.{
  ℕ, zero, suc, ◌+◌, ◌-◌, ◌*◌, ◌≤◌, ◌<◌, ◌≡◌, refl, Bool, true, false, List, [], ◌∷◌, arith, ltb,
  Option, some, Bool-cases, ◌⊎◌, inl, inr,
}
use tradejournal_mt5_cloud_w.HistorySync.{day, window_end, windows_from, windows}
use tradejournal_mt5_cloud_w.HistorySync.Resume.{last_end}

-- Windows that follow on one another from one instant to another, none of them empty and, where the
-- adapter is no atomic snapshot, none longer than 31 days.
pub data Covers (is_atomic : Bool) (now : ℕ) : ℕ → List (ℕ × ℕ) → Type 0 where
  finished : (cursor : ℕ) → now ≤ cursor → Covers is_atomic now cursor []
  window :
      (cursor end : ℕ) (rest : List (ℕ × ℕ))
      → cursor < end
      → end ≤ now
      → (is_atomic ≡ true) ⊎ (end ≤ cursor + 31 * day)
      → Covers is_atomic now end rest
      → Covers is_atomic now cursor ((cursor, end) ∷ rest)

window_end_later :
    (is_atomic : Bool) (chunk_days now cursor : ℕ)
    → cursor < now
    → cursor < window_end is_atomic chunk_days now cursor
unfolding window_end
window_end_later true chunk_days now cursor h = h
window_end_later false chunk_days now cursor h = omega arith

window_end_bound :
    (is_atomic : Bool) (chunk_days now cursor : ℕ)
    → window_end is_atomic chunk_days now cursor ≤ now
unfolding window_end
window_end_bound true chunk_days now cursor = omega arith
window_end_bound false chunk_days now cursor = omega arith

window_end_short :
    (is_atomic : Bool) (chunk_days now cursor : ℕ)
    → (is_atomic ≡ true) ⊎ (window_end is_atomic chunk_days now cursor ≤ cursor + 31 * day)
unfolding window_end
window_end_short true chunk_days now cursor = inl refl
window_end_short false chunk_days now cursor = inr (omega arith)

windows_from-Covers :
    (is_atomic : Bool) (chunk_days now fuel cursor : ℕ)
    → now ≤ cursor + fuel
    → Covers is_atomic now cursor (windows_from is_atomic chunk_days now fuel cursor)
unfolding windows_from
windows_from-Covers is_atomic chunk_days now zero cursor enough = finished cursor (omega arith)
windows_from-Covers is_atomic chunk_days now (suc fuel) cursor enough =
    let end = window_end is_atomic chunk_days now cursor in
    elim (Bool-cases (ltb cursor now)) [
      | inr past ↦ rw past (finished cursor (ground arith))
      | inl before ↦
          let later : cursor < end =
            window_end_later is_atomic chunk_days now cursor (ground arith) in
          rw before (
            window cursor end _ later (window_end_bound is_atomic chunk_days now cursor)
              (window_end_short is_atomic chunk_days now cursor)
              (windows_from-Covers is_atomic chunk_days now fuel end
                (omega (arith, later, enough))))
    ]

-- The loop of `run` ends with the history read up to now: from any start, whatever `chunk_days` is,
-- the windows follow on one another without a gap or an overlap from the start to now, none is
-- empty, and where the adapter is no atomic snapshot none is longer than 31 days; a start that is
-- not before now has none.
pub windows-Covers :
    (is_atomic : Bool) (chunk_days now start : ℕ)
    → Covers is_atomic now start (windows is_atomic chunk_days now start)
unfolding windows
windows-Covers is_atomic chunk_days now start =
    windows_from-Covers is_atomic chunk_days now (now - start) start (omega arith)

Covers-empty :
    (is_atomic : Bool) (now cursor : ℕ) (windows_ : List (ℕ × ℕ))
    → Covers is_atomic now cursor windows_
    → now ≤ cursor
    → windows_ ≡ []
Covers-empty is_atomic now cursor [] c h = refl
Covers-empty is_atomic now cursor (_ ∷ _) (window _ end rest later bound _ c) h =
    absurd (omega arith)

-- Windows that cover the time up to now end there.
pub last_end-Covers :
    (is_atomic : Bool) (now cursor : ℕ) (windows_ : List (ℕ × ℕ)) (through : Option ℕ)
    → Covers is_atomic now cursor windows_
    → cursor < now
    → last_end through windows_ ≡ some now
unfolding last_end
last_end-Covers is_atomic now cursor [] through (finished _ late) h = absurd (omega arith)
last_end-Covers is_atomic now cursor (_ ∷ _) through (window _ end rest later bound _ c) h =
    elim (dec_lt end now) [
      | yes more ↦ last_end-Covers is_atomic now end rest (some end) c more
      | no over ↦
          let last : end ≡ now = omega arith in
          rw (Covers-empty is_atomic now end rest c (omega arith), last_end, last) refl
    ]
