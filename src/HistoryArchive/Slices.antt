-- ===== src/HistoryArchive/Slices.antt =====
-- windows_agent/worker/history_archive.py, `_groups`: the slices of the events of each id.
use mathlib.Core.Path.{subst}
use mathlib.Core.List.{append-nil, append_assoc}
use tradejournal_mt5_cloud_w.Prelude.{
  ℕ, zero, suc, ◌≤◌, ◌≡◌, refl, sym, ap, ◌∙◌, String, true, false, List, [], ◌∷◌, ◌++◌, arith, All,
  All-append, length, str_eq, eq_refl, eq_iff, Bool-cases, inl, inr, if◌then◌else◌,
}
use tradejournal_mt5_cloud_w.Prelude.Dict.{Dict, lookup, elem, Distinct}
use tradejournal_mt5_cloud_w.Value.{Row}
use tradejournal_mt5_cloud_w.HistoryArchive.{
  Group, max_events_per_group, values_of, take, drop, slices, all_slices,
}

-- The events of the groups of one id, in their order.
unfoldable pub grouped_events : String → List Group → List Row
grouped_events k [] = []
grouped_events k (group ∷ groups_) =
    if str_eq group.external_trade_id k
    then group.events ++ grouped_events k groups_
    else grouped_events k groups_

-- A group has an event, and at most four.
pub record IsSmall (group : Group) : Type 0 where
  pub not_empty : 1 ≤ length group.events
  pub not_long : length group.events ≤ max_events_per_group

grouped_events-append :
    (k : String) (xs ys : List Group)
    → grouped_events k (xs ++ ys) ≡ grouped_events k xs ++ grouped_events k ys
unfolding grouped_events
grouped_events-append k [] ys = refl
grouped_events-append k (g ∷ xs) ys = elim (Bool-cases (str_eq g.external_trade_id k)) [
  | inl same ↦ rw (same, grouped_events-append k xs ys) (sym (append_assoc g.events _ _))
  | inr other ↦ rw other (grouped_events-append k xs ys)
]

take-drop : (n : ℕ) (values : List Row) → take n values ++ drop n values ≡ values
unfolding take drop
take-drop zero values = refl
take-drop (suc n) [] = refl
take-drop (suc n) (event ∷ values) = ap (λ (l : List Row). event ∷ l) (take-drop n values)

length-drop : (n : ℕ) (values : List Row) → length (drop n values) ≤ length values
unfolding drop
length-drop zero values = omega arith
length-drop (suc n) [] = omega arith
length-drop (suc n) (event ∷ values) = omega (arith, length-drop n values)

length-take : (n : ℕ) (values : List Row) → length (take n values) ≤ n
unfolding take
length-take zero values = omega arith
length-take (suc n) [] = omega arith
length-take (suc n) (event ∷ values) = omega (arith, length-take n values)

grouped_events-slices :
    (fuel : ℕ) (id : String) (values : List Row)
    → length values ≤ fuel
    → grouped_events id (slices fuel id values) ≡ values
unfolding grouped_events slices drop
grouped_events-slices zero id [] h = refl
grouped_events-slices zero id (event ∷ values) h = absurd (omega arith)
grouped_events-slices (suc fuel) id [] h = refl
grouped_events-slices (suc fuel) id (event ∷ values) h =
    rw
      (
        eq_refl id,
        grouped_events-slices fuel id (drop max_events_per_group (event ∷ values))
            (omega (arith, length-drop 3 values)),
      )
      (take-drop max_events_per_group (event ∷ values))

grouped_events-slices_other :
    (k : String) (fuel : ℕ) (id : String) (values : List Row)
    → str_eq id k ≡ false
    → grouped_events k (slices fuel id values) ≡ []
unfolding grouped_events slices
grouped_events-slices_other k zero id values h = refl
grouped_events-slices_other k (suc fuel) id [] h = refl
grouped_events-slices_other k (suc fuel) id (event ∷ values) h =
    rw h (grouped_events-slices_other k fuel id (drop max_events_per_group (event ∷ values)) h)

slices-IsSmall : (fuel : ℕ) (id : String) (values : List Row) → All IsSmall (slices fuel id values)
unfolding slices take
slices-IsSmall zero id values = tt
slices-IsSmall (suc fuel) id [] = tt
slices-IsSmall (suc fuel) id (event ∷ values) = (
  record { not_empty = omega arith; not_long = omega (arith, length-take 3 values) },
  slices-IsSmall fuel id (drop max_events_per_group (event ∷ values)),
)

pub all_slices-IsSmall :
    (grouped : Dict (List Row)) (order : List String) → All IsSmall (all_slices grouped order)
unfolding all_slices
all_slices-IsSmall grouped [] = tt
all_slices-IsSmall grouped (id ∷ order) =
    All-append IsSmall (slices _ id _) _ (slices-IsSmall _ id _) (all_slices-IsSmall grouped order)

pub all_slices_absent :
    (k : String) (grouped : Dict (List Row)) (order : List String)
    → elem k order ≡ false
    → grouped_events k (all_slices grouped order) ≡ []
unfolding all_slices elem
all_slices_absent k grouped [] h = unfold grouped_events in refl
all_slices_absent k grouped (id ∷ order) h =
    let values = values_of (lookup id grouped) in
    elim (Bool-cases (str_eq id k)) [
      | inl same ↦ ground arith
      | inr other ↦
          rw
            (
              grouped_events-append k (slices (length values) id values),
              grouped_events-slices_other k (length values) id values other,
            )
            (all_slices_absent k grouped order (rw other at h))
    ]

pub grouped_events-all_slices :
    (k : String) (grouped : Dict (List Row)) (order : List String)
    → Distinct order
    → elem k order ≡ true
    → grouped_events k (all_slices grouped order) ≡ values_of (lookup k grouped)
unfolding all_slices elem
grouped_events-all_slices k grouped [] d h = cc
grouped_events-all_slices k grouped (id ∷ order) d h =
    let values = values_of (lookup id grouped) in
    elim (Bool-cases (str_eq id k)) [
      | inl same ↦
          let is_k : id ≡ k = (eq_iff id k).0 same in
          subst
            (λ (j : String).
              grouped_events j (slices (length values) id values ++ all_slices grouped order)
              ≡ values_of (lookup j grouped))
            is_k
            (grouped_events-append id (slices (length values) id values) (all_slices grouped order)
              ∙ rw
                  (
                    grouped_events-slices (length values) id values (omega arith),
                    all_slices_absent id grouped order d.0,
                  )
                  (append-nil values))
      | inr other ↦
          rw
            (
              grouped_events-append k (slices (length values) id values),
              grouped_events-slices_other k (length values) id values other,
            )
            (grouped_events-all_slices k grouped order d.1 (rw other at h))
    ]
