-- ===== src/HistoryArchive/Reuse.antt =====
-- windows_agent/worker/history_archive.py, `load_or_create_history_document`: a retry gets the
-- document that was published, and it is the import's.
use tradejournal_mt5_cloud_w.Prelude.{
  ℕ, ◌≡◌, refl, ap, String, true, ◌||◌, Option, none, some, List, str_eq, eq_refl, Bool-cases, inl,
  inr,
}
use tradejournal_mt5_cloud_w.Prelude.Int.{◌*ℤ◌}
use tradejournal_mt5_cloud_w.Prelude.Dict.{Dict, lookup}
use tradejournal_mt5_cloud_w.Value.{Row}
use tradejournal_mt5_cloud_w.Value.Compare.{eq}
use tradejournal_mt5_cloud_w.Json.{Json, object, fields, entries-fields}
use tradejournal_mt5_cloud_w.StateStore.{
  Outcome, returned, raised, Write, published, refused, interrupted, holds_secret, written,
  atomic_json,
}
use tradejournal_mt5_cloud_w.HistoryArchive.{
  Result, ok, err, ◌>>=◌, Group, Import, from_value, is_value, is_document_of,
  validate_history_document, read_document, history_document, outcome_of, groups,
  build_history_document, publish, load_or_create,
}

-- The file holds the document, and the document is the import's.
pub record IsPublished (import_ : Import) (document : Dict Json) (file : Option Json) : Type 0 where
  pub content : Json
  pub in_file : file ≡ some content
  pub reads : read_document content ≡ ok document
  pub is_own : is_document_of import_ document ≡ true

ok-injective : {A : Type 0} {a b : A} → ok a ≡ ok b → a ≡ b
ok-injective h = cc

eq-from_value : (date : Option String) → eq (from_value date) (from_value date) ≡ true
unfolding eq from_value
eq-from_value none = refl
eq-from_value (some date) = eq_refl date

written-returned :
    (write : Write) (content : Json) (file : Option Json)
    → (written write content file).0 ≡ returned tt
    → (written write content file).1 ≡ some content
unfolding written
written-returned published content file h = refl
written-returned (refused e) content file h = cc
written-returned (interrupted e) content file h = cc

outcome_of-IsPublished :
    (import_ : Import) (step : Outcome (Unit {0}) × Option Json) (d document : Dict Json)
    → (step.0 ≡ returned tt → step.1 ≡ some (object (fields d)))
    → is_document_of import_ d ≡ true
    → (outcome_of d step).0 ≡ ok document
    → IsPublished import_ document (outcome_of d step).1
unfolding outcome_of read_document
outcome_of-IsPublished import_ (raised e, file) d document stored own h = cc
outcome_of-IsPublished import_ (returned _, file) d document stored own h =
    let same : d ≡ document = ok-injective h in
    record {
      content = object (fields d);
      in_file = stored refl;
      reads = rw (entries-fields d) h;
      is_own = rw (← same) own;
    }

history_document-is_own :
    (import_ : Import) (now : String) (groups_ : List Group)
    → is_document_of import_ (history_document import_ now groups_) ≡ true
unfolding is_document_of is_value lookup history_document ◌*ℤ◌
history_document-is_own import_ now groups_ = rw eq-from_value (unfold eq in simp (eq_refl))

read-own :
    (import_ : Import) (r : Result (Dict Json)) (document : Dict Json)
    → (r >>= (λ d. validate_history_document import_ d >>= (λ _. ok d))) ≡ ok document
    → (r ≡ ok document) × (is_document_of import_ document ≡ true)
unfolding validate_history_document
read-own import_ (err e) document h = cc
read-own import_ (ok d) document h = elim (Bool-cases (is_document_of import_ d)) [
  | inr other ↦ let clash = rw other at h in cc
  | inl own ↦
      let same : d ≡ document = ok-injective (rw own at h) in
      (ap (λ (x : Dict Json). ok x) same, rw (← same) own)
]

module _ (float_repr : ℕ → String) where
  build_history_document-is_own :
      (import_ : Import) (now : String) (events : List Row) (document : Dict Json)
      → build_history_document float_repr import_ now events ≡ ok document
      → is_document_of import_ document ≡ true
  unfolding build_history_document
  build_history_document-is_own import_ now events document h =
      elim (Bool-cases
        (str_eq import_.history_mode "all_available" || str_eq import_.history_mode "from_date")) [
          | inr other ↦ let clash = rw other at h in cc
          | inl known ↦ by_groups (groups float_repr events) (rw known at h)
        ]
    where
      by_groups :
          (r : Result (List Group))
          → (r >>= (λ groups_. ok (history_document import_ now groups_))) ≡ ok document
          → is_document_of import_ document ≡ true
      by_groups (err e) same = cc
      by_groups (ok groups_) same =
          rw (← ok-injective same) (history_document-is_own import_ now groups_)

  module _ (dumps : Json → String) (lower : String → String) (disk : Json → Write) where
    atomic_json-returned :
        (content : Json) (file : Option Json)
        → (atomic_json dumps lower disk content file).0 ≡ returned tt
        → (atomic_json dumps lower disk content file).1 ≡ some content
    unfolding atomic_json
    atomic_json-returned content file h = elim (Bool-cases (holds_secret (lower (dumps content)))) [
      | inl secret ↦ let clash = rw secret at h in cc
      | inr clean ↦ rw clean (written-returned (disk content) content file (rw clean at h))
    ]

    publish-IsPublished :
        (import_ : Import) (built : Result (Dict Json)) (document : Dict Json)
        → ((d : Dict Json) → built ≡ ok d → is_document_of import_ d ≡ true)
        → (publish float_repr dumps lower disk built).0 ≡ ok document
        → IsPublished import_ document (publish float_repr dumps lower disk built).1
    unfolding publish
    publish-IsPublished import_ (err e) document own h = cc
    publish-IsPublished import_ (ok d) document own h =
        outcome_of-IsPublished import_ (atomic_json dumps lower disk (object (fields d)) none) d
          document (atomic_json-returned (object (fields d)) none) (own d refl) h

    -- What `load_or_create_history_document` returns is in the file when it returns, and passes the
    -- identity check of the import, whether it was found or made.
    pub load_or_create-IsPublished :
        (import_ : Import) (now : String) (events : List Row) (file : Option Json)
        (document : Dict Json)
        → (load_or_create float_repr dumps lower disk import_ now events file).0 ≡ ok document
        → IsPublished import_ document
            (load_or_create float_repr dumps lower disk import_ now events file).1
    unfolding load_or_create
    load_or_create-IsPublished import_ now events none document h =
        publish-IsPublished import_ (build_history_document float_repr import_ now events) document
          (build_history_document-is_own import_ now events) h
    load_or_create-IsPublished import_ now events (some content) document h =
        let (same, own) = read-own import_ (read_document content) document h in
        record { content = content; in_file = refl; reads = same; is_own = own }

    -- A retry changes nothing: once `load_or_create_history_document` has returned a document, every
    -- later call for the same import returns that document and leaves the file alone, whatever the
    -- events, the time and the disk are then.
    pub load_or_create-again :
        (import_ : Import) (now now' : String) (events events' : List Row) (file : Option Json)
        (document : Dict Json) (dumps' : Json → String) (lower' : String → String)
        (disk' : Json → Write)
        → (load_or_create float_repr dumps lower disk import_ now events file).0 ≡ ok document
        → let stored = (load_or_create float_repr dumps lower disk import_ now events file).1 in
          load_or_create float_repr dumps' lower' disk' import_ now' events' stored
          ≡ (ok document, stored)
    load_or_create-again import_ now now' events events' file document dumps' lower' disk' h =
        let p = load_or_create-IsPublished import_ now events file document h in
        rw p.in_file
          (unfold load_or_create in unfold validate_history_document in rw (p.reads, p.is_own) refl)
