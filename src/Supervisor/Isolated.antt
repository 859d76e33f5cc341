-- ===== src/Supervisor/Isolated.antt =====
-- windows_agent/event_supervisor.py, `poll_once`: each connection of a cycle is accounted for by
-- what its own processing did.
use mathlib.Core.Path.{subst}
use tradejournal_mt5_cloud_w.Prelude.{
  ℕ, ◌+◌, ◌≡◌, refl, ap, ◌∙◌, String, true, false, Option, none, some, List, [], ◌∷◌, arith, str_eq,
  eq_refl, eq_iff, Bool-cases, inl, inr, if◌then◌else◌,
}
use tradejournal_mt5_cloud_w.Prelude.Dict.{
  Dict, lookup, insert, remove, keys, elem, Distinct, lookup-insert, contains, contains-insert,
}
use tradejournal_mt5_cloud_w.Supervisor.{
  Processed, delivered, failed, Cycle, is_due, handle, handle_all,
}

lookup_absent : (k : String) (d : Dict (String × ℕ)) → elem k (keys d) ≡ false → lookup k d ≡ none
unfolding lookup keys elem
lookup_absent k [] h = refl
lookup_absent k ((j, v) ∷ d) h = ground (arith, lookup_absent k d)

lookup-remove :
    (k j : String) (d : Dict (String × ℕ))
    → Distinct (keys d)
    → lookup j (remove k d) ≡ (if str_eq k j then none else lookup j d)
unfolding lookup remove keys elem
lookup-remove k j [] distinct = ground arith
lookup-remove k j ((i, w) ∷ d) distinct = ground (
  arith,
  eq_iff k j,
  eq_iff i k,
  eq_iff i j,
  lookup-remove k j d distinct.1,
  lookup_absent i d distinct.0,
)

elem-keys-remove :
    (k j : String) (d : Dict (String × ℕ))
    → elem j (keys d) ≡ false
    → elem j (keys (remove k d)) ≡ false
unfolding remove keys elem
elem-keys-remove k j [] h = refl
elem-keys-remove k j ((i, w) ∷ d) h = ground (arith, elem-keys-remove k j d)

remove-Distinct :
    (k : String) (d : Dict (String × ℕ)) → Distinct (keys d) → Distinct (keys (remove k d))
unfolding remove keys elem
remove-Distinct k [] h = tt
remove-Distinct k ((i, w) ∷ d) h = elim (Bool-cases (str_eq i k)) [
  | inl same ↦ rw same h.1
  | inr other ↦ rw other (elem-keys-remove k i d h.0, remove-Distinct k d h.1)
]

elem-keys-insert :
    (k j : String) (v : String × ℕ) (d : Dict (String × ℕ))
    → elem j (keys (insert k v d)) ≡ (if str_eq k j then true else elem j (keys d))
unfolding contains
elem-keys-insert k j v d = contains-insert k j v d

insert_absent :
    (k i : String) (v : String × ℕ) (d : Dict (String × ℕ))
    → str_eq i k ≡ false
    → elem i (keys d) ≡ false
    → elem i (keys (insert k v d)) ≡ false
insert_absent k i v d other absent =
    ground (arith, eq_iff k i, eq_iff i k, elem-keys-insert k i v d)

insert-Distinct :
    (k : String) (v : String × ℕ) (d : Dict (String × ℕ))
    → Distinct (keys d)
    → Distinct (keys (insert k v d))
unfolding insert keys elem
insert-Distinct k v [] h = (refl, tt)
insert-Distinct k v ((i, w) ∷ d) h = elim (Bool-cases (str_eq i k)) [
  | inl same ↦ rw same h
  | inr other ↦ rw other (insert_absent k i v d other h.0, insert-Distinct k v d h.1)
]

-- What the record of the last error says of a connection.
pub IsReported : Processed → Option (String × ℕ) → Type 0
IsReported (delivered n) report = report ≡ none
IsReported (failed class_ name now) report = (at : ℕ) × (report ≡ some (class_, at))

unfoldable pub delivered_count : Processed → ℕ
delivered_count (delivered n) = n
delivered_count (failed class_ name now) = 0

unfoldable pub delivered_sum : (String → Processed) → List String → ℕ
delivered_sum processor [] = 0
delivered_sum processor (id ∷ ids) = delivered_count (processor id) + delivered_sum processor ids

is_due-not :
    (before : Option (String × ℕ)) (class_ : String) (now : ℕ)
    → is_due before class_ now ≡ false
    → (at : ℕ) × (before ≡ some (class_, at))
unfolding is_due
is_due-not none class_ now h = cc
is_due-not (some (before, at)) class_ now h =
    let same : str_eq before class_ ≡ true = ground arith in
    (at, ap (λ (c : String). some (c, at)) ((eq_iff before class_).0 same))

-- One round.
record IsHandled (id : String) (processed : Processed) (before after : Cycle) : Type 0 where
  distinct : Distinct (keys after.last_error)
  total_is : after.total ≡ before.total + delivered_count processed
  own : IsReported processed (lookup id after.last_error)
  others :
      (j : String) → str_eq id j ≡ false → lookup j after.last_error ≡ lookup j before.last_error

handle-IsHandled :
    (id : String) (processed : Processed) (c : Cycle)
    → Distinct (keys c.last_error)
    → IsHandled id processed c (handle id processed c)
unfolding handle IsReported delivered_count
handle-IsHandled id (delivered n) c d = record {
  distinct = remove-Distinct id c.last_error d;
  total_is = refl;
  own = rw (lookup-remove id id c.last_error d, eq_refl id) refl;
  others = λ j other. rw (lookup-remove id j c.last_error d, other) refl;
}
handle-IsHandled id (failed class_ name now) c d =
    elim (Bool-cases (is_due (lookup id c.last_error) class_ now)) [
      | inl due ↦ rw due (record {
        distinct = insert-Distinct id (class_, now) c.last_error d;
        total_is = omega arith;
        own = (now, rw (lookup-insert id id (class_, now) c.last_error, eq_refl id) refl);
        others = λ j other. rw (lookup-insert id j (class_, now) c.last_error, other) refl;
      })
      | inr quiet ↦ rw quiet (record {
        distinct = d;
        total_is = omega arith;
        own = is_due-not (lookup id c.last_error) class_ now quiet;
        others = λ j other. refl;
      })
    ]

-- The cycle after some connections.
pub record IsIsolated (processor : String → Processed) (ids : List String) (before after : Cycle)
    : Type 0 where
  pub total_is : after.total ≡ before.total + delivered_sum processor ids
  pub reported :
      (id : String) → elem id ids ≡ true → IsReported (processor id) (lookup id after.last_error)
  pub others :
      (id : String) → elem id ids ≡ false → lookup id after.last_error ≡ lookup id before.last_error

-- One account does not disturb another. In a cycle over distinct connections, from a record of last
-- errors with distinct keys, the count is the sum over the connections that were processed; of each
-- connection the record says what its own processing did, no error where it returned, and the class
-- of the exception where it raised; and it is unchanged for every other connection.
pub handle_all-IsIsolated :
    (processor : String → Processed) (ids : List String) (c : Cycle)
    → Distinct ids
    → Distinct (keys c.last_error)
    → IsIsolated processor ids c (handle_all processor ids c)
unfolding handle_all delivered_sum elem
handle_all-IsIsolated processor [] c distinct d = record {
  total_is = omega arith;
  reported = λ id h. cc;
  others = λ id h. refl;
}
handle_all-IsIsolated processor (id ∷ ids) c distinct d =
    let one = handle-IsHandled id (processor id) c d in
    let later =
      handle_all-IsIsolated processor ids (handle id (processor id) c) distinct.1 one.distinct in
    record {
      total_is = omega (arith, one.total_is, later.total_is);
      reported = λ j h. elim (Bool-cases (str_eq id j)) [
        | inr other ↦ later.reported j (rw other at h)
        | inl same ↦
            subst
              (λ (i : String).
                IsReported (processor i)
                  (lookup i (handle_all processor ids (handle id (processor id) c)).last_error))
              ((eq_iff id j).0 same) (rw (later.others id distinct.0) one.own)
      ];
      others = λ j h. elim (Bool-cases (str_eq id j)) [
        | inl same ↦ let clash = rw same at h in cc
        | inr other ↦ later.others j (rw other at h) ∙ one.others j other
      ];
    }
