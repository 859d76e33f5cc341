-- ===== src/Outbox/Storage.antt =====
-- worker/event_outbox.py: what is written to the file is what `_load` reads back.
use mathlib.Core.List.{append-nil}
use tradejournal_mt5_cloud_w.Prelude.{
  ◌≡◌, refl, String, true, false, List, [], ◌∷◌, ◌++◌, arith, All, Option, some, eq_refl,
  Bool-cases, ◌⊎◌, inl, inr,
}
use tradejournal_mt5_cloud_w.Prelude.Dict.{
  Dict, lookup, keys, elem, Distinct, elem-append, Distinct-middle, Distinct-split, Distinct-left,
}
use tradejournal_mt5_cloud_w.Value.Compare.{eq}
use tradejournal_mt5_cloud_w.Prelude.Int.{◌*ℤ◌}
use tradejournal_mt5_cloud_w.Json.{object, fields, entries, entries-fields, elements-items}
use tradejournal_mt5_cloud_w.Outbox.{
  Payload, State, Time, event_id, is_payload, ids, known_ids, ok, encode, objects, object_entries,
  valid_payload, valid_keyed, valid_letter, valid_pending, valid_dead_letter, validate_state,
  load_document, load,
}
use tradejournal_mt5_cloud_w.Outbox.Enqueue.{IsValid, IsKeyed}

valid_payload-object :
    (p : Payload) → is_payload p ≡ true → valid_payload (object (fields p)) ≡ ok p
unfolding valid_payload
valid_payload-object p h = rw (entries-fields p, h)

valid_pending-objects :
    (seen : List String) (ps : List Payload)
    → All (λ p. is_payload p ≡ true) ps
    → Distinct (ids ps ++ seen)
    → valid_pending seen (objects ps) ≡ ok ps
unfolding valid_pending objects ids
valid_pending-objects seen [] h d = refl
valid_pending-objects seen (p ∷ ps) h d = rw (
  valid_payload-object p h.0,
  absent (Bool-cases (elem (event_id p) seen)),
  valid_pending-objects (event_id p ∷ seen) ps h.1
      (Distinct-middle (event_id p) (ids ps) seen d.0 d.1),
)
  where
    absent :
        (elem (event_id p) seen ≡ true) ⊎ (elem (event_id p) seen ≡ false)
        → elem (event_id p) seen ≡ false
    absent (inr e) = e
    absent (inl e) = ground (arith, elem-append (event_id p) (ids ps) seen)

valid_keyed-object :
    (key : String) (p : Payload)
    → is_payload p ≡ true
    → event_id p ≡ key
    → valid_keyed key (object (fields p)) ≡ ok p
unfolding valid_keyed
valid_keyed-object key p h e = rw (valid_payload-object p h, e, eq_refl key)

valid_letter-object :
    (key : String) (letter : Payload)
    → IsKeyed (key, letter)
    → valid_letter key (object (fields letter)) ≡ ok letter
unfolding valid_letter
valid_letter-object key letter (p, found, same, valid) =
    rw (entries-fields letter, found, valid_keyed-object key p valid same)

valid_dead_letter-entries :
    (pending_ids : List String) (d : Dict Payload)
    → All IsKeyed d
    → Distinct (pending_ids ++ keys d)
    → valid_dead_letter pending_ids (object_entries d) ≡ ok d
unfolding valid_dead_letter object_entries keys
valid_dead_letter-entries pending_ids [] h distinct = refl
valid_dead_letter-entries pending_ids ((k, letter) ∷ d) h distinct =
    let (new, rest) = Distinct-split k pending_ids (keys d) distinct in
    rw (
      valid_letter-object k letter h.0,
      absent new (Bool-cases (elem k pending_ids)),
      valid_dead_letter-entries pending_ids d h.1 rest,
    )
  where
    absent :
        elem k (pending_ids ++ keys d) ≡ false
        → (elem k pending_ids ≡ true) ⊎ (elem k pending_ids ≡ false)
        → elem k pending_ids ≡ false
    absent new (inr e) = e
    absent new (inl e) = ground (arith, elem-append k pending_ids (keys d))

validate_state-objects :
    (s : State)
    → IsValid s
    → validate_state (objects s.pending) (object_entries s.dead_letter) ≡ ok s
unfolding validate_state known_ids
validate_state-objects s v = rw (
  valid_pending-objects [] s.pending v.payloads
      (rw append-nil (Distinct-left (ids s.pending) (keys s.dead_letter) v.distinct)),
  valid_dead_letter-entries (ids s.pending) s.dead_letter v.letters v.distinct,
)

-- A valid state that has been written is read back unchanged, with no migration asked for.
pub load-encode :
    (parse_time : String → Option Time) (s : State)
    → IsValid s
    → load parse_time (some (encode s)) ≡ ok (s, false)
unfolding load encode load_document entries fields lookup eq ◌*ℤ◌
load-encode parse_time s v = rw (
  entries-fields (object_entries s.dead_letter),
  elements-items (objects s.pending),
  validate_state-objects s v,
)
