-- ===== src/HistoryArchive/Groups.antt =====
-- windows_agent/worker/history_archive.py, `_groups`: the groups hold the events, no more and no less.
use mathlib.Core.Path.{subst}
use mathlib.Core.List.{append-nil, append_assoc}
use tradejournal_mt5_cloud_w.Prelude.{
  ℕ, ◌+◌, ◌≤◌, ◌≡◌, refl, sym, ap, ◌∙◌, String, Bool, true, false, List, [], ◌∷◌, ◌++◌, arith, All,
  length, ltb, str_eq, eq_iff, Bool-cases, inl, inr, if◌then◌else◌,
}
use tradejournal_mt5_cloud_w.Prelude.Dict.{
  lookup, contains, elem, Distinct, lookup-insert, lookup-none, contains-insert, Distinct-snoc,
  elem-append,
}
use tradejournal_mt5_cloud_w.Value.{Row}
use tradejournal_mt5_cloud_w.HistoryArchive.{
  Result, ok, err, ◌>>=◌, Group, Grouping, max_events, values_of, all_slices, external_id_of,
  add_event, group_events, groups,
}
use tradejournal_mt5_cloud_w.HistoryArchive.Slices.{
  grouped_events, IsSmall, grouped_events-all_slices, all_slices_absent, all_slices-IsSmall,
}

grown_test :
    (same a b : Bool)
    → a ≡ b
    → (if same then true else a) ≡ (if b then true else if same then true else false)
grown_test same a b e = ground arith

module _ (float_repr : ℕ → String) where
  -- The events with an id, in their order.
  unfoldable pub events_of : String → List Row → List Row
  events_of k [] = []
  events_of k (event ∷ events) =
      if str_eq (external_id_of float_repr event) k
      then event ∷ events_of k events
      else events_of k events

  record IsOrdered (g : Grouping) : Type 0 where
    distinct : Distinct g.order
    same_ids : (k : String) → elem k g.order ≡ contains k g.grouped

  add_event-IsOrdered :
      (event : Row) (g : Grouping) → IsOrdered g → IsOrdered (add_event float_repr event g)
  unfolding add_event elem
  add_event-IsOrdered event g o =
      let id = external_id_of float_repr event in
      let grown = values_of (lookup id g.grouped) ++ event ∷ [] in
      elim (Bool-cases (contains id g.grouped)) [
        | inl known ↦ rw known (record {
          distinct = o.distinct;
          same_ids = λ k. elim (Bool-cases (str_eq id k)) [
            | inl same ↦
                let is_k : id ≡ k = (eq_iff id k).0 same in
                o.same_ids k
                ∙ subst (λ (j : String). contains j g.grouped ≡ true) is_k known
                ∙ sym (rw (contains-insert id k grown g.grouped, same) refl)
            | inr other ↦ o.same_ids k ∙ sym (rw (contains-insert id k grown g.grouped, other) refl)
          ];
        })
        | inr new ↦ rw new (record {
          distinct = Distinct-snoc id g.order (o.same_ids id ∙ new) o.distinct;
          same_ids = λ k.
              elem-append k g.order (id ∷ [])
              ∙ sym (
                  contains-insert id k grown g.grouped
                  ∙ grown_test (str_eq id k) _ _ (sym (o.same_ids k)));
        })
      ]

  values_of-add_event :
      (k : String) (event : Row) (g : Grouping)
      → values_of (lookup k (add_event float_repr event g).grouped)
        ≡ values_of (lookup k g.grouped) ++ events_of k (event ∷ [])
  unfolding add_event events_of
  values_of-add_event k event g =
      let id = external_id_of float_repr event in
      elim (Bool-cases (str_eq id k)) [
        | inr other ↦ rw (other, lookup-insert id k _ g.grouped, other) (sym (append-nil _))
        | inl same ↦
            let is_k : id ≡ k = (eq_iff id k).0 same in
            rw (same, lookup-insert id k _ g.grouped, same) (unfold values_of in rw is_k refl)
      ]

  record IsGrown (events : List Row) (before after : Grouping) : Type 0 where
    ordered : IsOrdered after
    values_are :
        (k : String)
        → values_of (lookup k after.grouped)
          ≡ values_of (lookup k before.grouped) ++ events_of k events

  events_of-cons :
      (k : String) (event : Row) (events : List Row)
      → events_of k (event ∷ events) ≡ events_of k (event ∷ []) ++ events_of k events
  unfolding events_of
  events_of-cons k event events = elim (Bool-cases (str_eq (external_id_of float_repr event) k)) [
    | inl same ↦ rw same refl
    | inr other ↦ rw other refl
  ]

  group_events-IsGrown :
      (events : List Row) (before after : Grouping)
      → IsOrdered before
      → group_events float_repr events before ≡ ok after
      → IsGrown events before after
  unfolding group_events
  group_events-IsGrown [] before after o h =
      let same : before ≡ after = cc in
      record {
        ordered = rw (← same) o;
        values_are = λ k. rw (← same) (unfold events_of in sym (append-nil _));
      }
  group_events-IsGrown (event ∷ events) before after o h =
      elim (Bool-cases (str_eq (external_id_of float_repr event) "")) [
        | inl missing ↦ let clash = rw missing at h in cc
        | inr present ↦
            elim (Bool-cases (ltb max_events (add_event float_repr event before).count)) [
              | inl full ↦ let clash = rw (present, full) at h in cc
              | inr fits ↦
                  let later =
                    group_events-IsGrown events (add_event float_repr event before) after
                      (add_event-IsOrdered event before o) (rw (present, fits) at h) in
                  record {
                    ordered = later.ordered;
                    values_are = λ k.
                        later.values_are k
                        ∙ rw (values_of-add_event k event before, events_of-cons k event events)
                            (append_assoc (values_of (lookup k before.grouped))
                              (events_of k (event ∷ [])) _);
                  }
            ]
      ]

  start-IsOrdered : IsOrdered (record { grouped = []; order = []; count = 0 })
  start-IsOrdered = record { distinct = tt; same_ids = λ k. unfold elem in unfold contains in refl }

  -- The groups of one id, together, are its events; and each group is small.
  pub record IsGroupedBy (events : List Row) (groups_ : List Group) : Type 0 where
    pub are_small : All IsSmall groups_
    pub are_exact : (k : String) → grouped_events k groups_ ≡ events_of k events

  all_slices-IsGroupedBy :
      (events : List Row) (g : Grouping)
      → IsGrown events (record { grouped = []; order = []; count = 0 }) g
      → IsGroupedBy events (all_slices g.grouped g.order)
  unfolding values_of
  all_slices-IsGroupedBy events g grown = record {
    are_small = all_slices-IsSmall g.grouped g.order;
    are_exact = λ k. elim (Bool-cases (elem k g.order)) [
      | inl there ↦
          grouped_events-all_slices k g.grouped g.order grown.ordered.distinct there
          ∙ values_of_all k
      | inr absent ↦
          all_slices_absent k g.grouped g.order absent
          ∙ sym (ap values_of (lookup-none k g.grouped (sym (grown.ordered.same_ids k) ∙ absent)))
          ∙ values_of_all k
    ];
  }
    where
      values_of_all : (k : String) → values_of (lookup k g.grouped) ≡ events_of k events
      values_of_all k = unfold lookup in grown.values_are k

  -- What `_groups` returns is a partition of the events by their ids: every group has one to four
  -- events, and for every id the groups of that id, one after the other, hold exactly the events
  -- with that id, in their order.
  pub groups-IsGroupedBy :
      (events : List Row) (groups_ : List Group)
      → groups float_repr events ≡ ok groups_
      → IsGroupedBy events groups_
  unfolding groups
  groups-IsGroupedBy events groups_ h =
      by_grouping (group_events float_repr events (record { grouped = []; order = []; count = 0 }))
        refl h
    where
      by_grouping :
          (r : Result Grouping)
          → group_events float_repr events (record { grouped = []; order = []; count = 0 }) ≡ r
          → (r >>= (λ g. ok (all_slices g.grouped g.order))) ≡ ok groups_
          → IsGroupedBy events groups_
      by_grouping (err e) known same = let clash = same in cc
      by_grouping (ok g) known same =
          let is_slices : all_slices g.grouped g.order ≡ groups_ = cc in
          rw (← is_slices) (
            all_slices-IsGroupedBy events g (group_events-IsGrown events _ g start-IsOrdered known))

  group_events-returns :
      (events : List Row) (g : Grouping)
      → All (λ event. str_eq (external_id_of float_repr event) "" ≡ false) events
      → g.count + length events ≤ max_events
      → (after : Grouping) × (group_events float_repr events g ≡ ok after)
  unfolding group_events
  group_events-returns [] g ids h = (g, refl)
  group_events-returns (event ∷ events) g ids h =
      let fits : ltb max_events (add_event float_repr event g).count ≡ false =
        unfold add_event in ground arith in
      let (after, same) =
        group_events-returns events (add_event float_repr event g) ids.1
          (unfold add_event in omega (arith, h)) in
      (after, rw (ids.0, fits) same)

  -- `_groups` returns where every event has an id and there are at most 50,000 of them.
  pub groups-returns :
      (events : List Row)
      → All (λ event. str_eq (external_id_of float_repr event) "" ≡ false) events
      → length events ≤ max_events
      → (groups_ : List Group) × (groups float_repr events ≡ ok groups_)
  unfolding groups
  groups-returns events ids h =
      let (g, same) =
        group_events-returns events (record { grouped = []; order = []; count = 0 }) ids
          (omega (arith, h)) in
      (all_slices g.grouped g.order, rw same refl)
