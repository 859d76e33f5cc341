-- ===== src/EventFiles/Pending.antt =====
-- windows_agent/worker/mql5_file_adapter.py, `pending_events`: the events beyond the checkpoint, in
-- the order of their numbers.
use tradejournal_mt5_cloud_w.Prelude.{
  ℕ, ◌≤◌, ◌≡◌, refl, sym, ap, ◌∙◌, String, Bool, true, false, Option, none, some, List, [], ◌∷◌,
  arith, ltb, leb, Bool-cases, Option-cases, inl, inr, if◌then◌else◌, All,
}
use tradejournal_mt5_cloud_w.Prelude.Count.{count}
use tradejournal_mt5_cloud_w.Value.{Row}
use tradejournal_mt5_cloud_w.EventFiles.{
  ◌>>=◌, File, Bridge, Result, ok, raised, Numbered, last_sequence_of, is_beyond, prune_bridge,
  insert_by_number, sort_by_number, payloads, numbered, read_pending, sorted_payloads, read_bridge,
  pending_from, pending_events,
}
use tradejournal_mt5_cloud_w.EventFiles.Kept.{beyond, prune_bridge-beyond}

-- The numbers do not fall.
abbrev pub IsAtLeast : ℕ → List Numbered → Type 0
IsAtLeast n pending = All (λ x. n ≤ x.0) pending

abbrev pub IsSorted : List Numbered → Type 0
IsSorted [] = Unit
IsSorted (x ∷ pending) = IsAtLeast x.0 pending × IsSorted pending

IsAtLeast-lower :
    (m n : ℕ) (pending : List Numbered) → m ≤ n → IsAtLeast n pending → IsAtLeast m pending
IsAtLeast-lower m n [] h a = tt
IsAtLeast-lower m n (x ∷ pending) h a = ((omega (arith, h, a.0)), IsAtLeast-lower m n pending h a.1)

insert-IsAtLeast :
    (m : ℕ) (x : Numbered) (pending : List Numbered)
    → m ≤ x.0
    → IsAtLeast m pending
    → IsAtLeast m (insert_by_number x pending)
unfolding insert_by_number
insert-IsAtLeast m x [] h a = (h, tt)
insert-IsAtLeast m x (y ∷ pending) h a = elim (Bool-cases (leb x.0 y.0)) [
  | inl before ↦ rw before (h, a)
  | inr later ↦ rw later (a.0, insert-IsAtLeast m x pending h a.1)
]

insert-IsSorted :
    (x : Numbered) (pending : List Numbered)
    → IsSorted pending
    → IsSorted (insert_by_number x pending)
unfolding insert_by_number
insert-IsSorted x [] s = (tt, tt)
insert-IsSorted x (y ∷ pending) s = elim (Bool-cases (leb x.0 y.0)) [
  | inl before ↦
      let le : x.0 ≤ y.0 = ground arith in
      rw before ((le, IsAtLeast-lower x.0 y.0 pending le s.0), s)
  | inr later ↦
      let le : y.0 ≤ x.0 = ground arith in
      rw later (insert-IsAtLeast y.0 x pending le s.0, insert-IsSorted x pending s.1)
]

sort-IsSorted : (pending : List Numbered) → IsSorted (sort_by_number pending)
unfolding sort_by_number
sort-IsSorted [] = tt
sort-IsSorted (x ∷ pending) = insert-IsSorted x (sort_by_number pending) (sort-IsSorted pending)

count-insert_by_number :
    (p : Numbered → Bool) (x : Numbered) (pending : List Numbered)
    → count p (insert_by_number x pending) ≡ count p (x ∷ pending)
unfolding insert_by_number count
count-insert_by_number p x [] = refl
count-insert_by_number p x (y ∷ pending) = elim (Bool-cases (leb x.0 y.0)) [
  | inl before ↦ rw before refl
  | inr later ↦ rw (later, count-insert_by_number p x pending) (omega arith)
]

count-sort_by_number :
    (p : Numbered → Bool) (pending : List Numbered)
    → count p (sort_by_number pending) ≡ count p pending
unfolding sort_by_number count
count-sort_by_number p [] = refl
count-sort_by_number p (x ∷ pending) =
    count-insert_by_number p x (sort_by_number pending)
    ∙ unfold count in rw (count-sort_by_number p pending) refl

later_read :
    (first : Option Numbered) (rest rest' : Option (List Numbered)) (pending : List Numbered)
    → ((q : List Numbered) → rest ≡ some q → rest' ≡ some q)
    → (first >>= (λ event. rest >>= (λ q. some (event ∷ q)))) ≡ some pending
    → (first >>= (λ event. rest' >>= (λ q. some (event ∷ q)))) ≡ some pending
later_read none rest rest' pending same h = h
later_read (some event) none rest' pending same h = cc
later_read (some event) (some q) rest' pending same h = rw (same q refl) h

if_true : {A : Type 0} (b : Bool) (x y : A) → b ≡ true → (if b then x else y) ≡ x
if_true b x y h = rw h refl

ok-injective : {a b : List Row} → ok a ≡ ok b → a ≡ b
ok-injective h = cc

module _ (upper : String → String) (float_repr : ℕ → String) (handoff : List String) where
  -- What is in the events of a list of files.
  unfoldable pub events_in : List File → Option (List Numbered)
  events_in [] = some []
  events_in (file ∷ files) = elim file.sequence [
    | none ↦ events_in files
    | some n ↦
        numbered upper float_repr handoff n file.envelope
        >>= (λ event. events_in files >>= (λ pending. some (event ∷ pending)))
  ]

  read_pending-beyond :
      (last : ℕ) (files : List File) (pending : List Numbered)
      → read_pending upper float_repr handoff last files ≡ some pending
      → events_in (beyond last files) ≡ some pending
  unfolding read_pending events_in beyond is_beyond
  read_pending-beyond last [] pending h = h
  read_pending-beyond last (file ∷ files) pending h = elim (Option-cases file.sequence) [
    | inl none_ ↦ rw none_ (read_pending-beyond last files pending (rw none_ at h))
    | inr (n, event) ↦ elim (Bool-cases file.is_plain) [
      | inr link ↦ let clash = rw (event, link) at h in cc
      | inl plain ↦ elim (Bool-cases (leb n last)) [
        | inl settled ↦
            let not_beyond : ltb last n ≡ false = ground arith in
            rw (event, not_beyond)
              (read_pending-beyond last files pending (rw (event, plain, settled) at h))
        | inr fresh ↦
            let is_beyond_ : ltb last n ≡ true = ground arith in
            rw (event, is_beyond_)
              (later_read (numbered upper float_repr handoff n file.envelope)
                (read_pending upper float_repr handoff last files) (events_in (beyond last files))
                pending (λ q known. read_pending-beyond last files q known)
                (rw (event, plain, fresh) at h))
      ]
    ]
  ]

  -- What `pending_events` returns, against the files that the directory had.
  pub record IsPending (last : ℕ) (files : List File) (events : List Row) : Type 0 where
    pub found : List Numbered
    pub pending : List Numbered
    pub reads : events_in (beyond last files) ≡ some found
    pub events_are : events ≡ payloads pending
    pub sorted : IsSorted pending
    pub same : (p : Numbered → Bool) → count p pending ≡ count p found

  read_bridge-IsPending :
      (handoff_returns : Bool) (last : ℕ) (files : List File) (step : Result (Unit {0}) × Bridge)
      (events : List Row)
      → beyond last step.1.files ≡ beyond last files
      → (read_bridge upper float_repr handoff handoff_returns last step).0 ≡ ok events
      → IsPending last files events
  unfolding read_bridge
  read_bridge-IsPending handoff_returns last files (raised, bridge) events same h = cc
  read_bridge-IsPending false last files (ok _, bridge) events same h = cc
  read_bridge-IsPending true last files (ok _, bridge) events same h =
      elim (Option-cases (read_pending upper float_repr handoff last bridge.files)) [
        | inl none_ ↦ let clash = rw none_ at h in unfold sorted_payloads in cc
        | inr (found, e) ↦ record {
          found = found;
          pending = sort_by_number found;
          reads = rw (← same) (read_pending-beyond last bridge.files found e);
          events_are = sym (ok-injective (unfold sorted_payloads in rw e at h));
          sorted = sort-IsSorted found;
          same = λ p. count-sort_by_number p found;
        }
      ]

  -- The bridge's queue is read as a whole and in order. If the checkpoint is `last` and the directory
  -- is there, then what `pending_events` returns is a rearrangement, by rising numbers, of the events
  -- of exactly those files that were beyond the checkpoint, each read and with the number of its name.
  pub pending_events-IsPending :
      (unlinks : File → Bool) (handoff_returns : Bool) (bridge : Bridge) (last : ℕ)
      (events : List Row)
      → last_sequence_of bridge.checkpoint ≡ some last
      → bridge.exists ≡ true
      → (pending_events upper float_repr handoff unlinks handoff_returns bridge).0 ≡ ok events
      → IsPending last bridge.files events
  unfolding pending_events pending_from
  pending_events-IsPending unlinks handoff_returns bridge last events known there h =
      read_bridge-IsPending handoff_returns last bridge.files (prune_bridge unlinks last bridge)
        events (prune_bridge-beyond unlinks last bridge).0
        (ap (λ (s : Result (List Row) × Bridge). s.0) (sym (if_true bridge.exists _ _ there))
          ∙ (rw known at h))
