-- ===== src/Outbox/Checked.antt =====
-- worker/event_outbox.py: the checks of `_load` establish the invariant of the state.
use mathlib.Core.Path.{subst}
use mathlib.Core.List.{append-nil}
use tradejournal_mt5_cloud_w.Prelude.{
  ◌≡◌, refl, ap, sym, ◌∙◌, String, Bool, true, false, List, [], ◌∷◌, ◌++◌, arith, All, Option, none,
  some, eq_iff, if◌then◌else◌, Bool-cases, inl, inr,
}
use tradejournal_mt5_cloud_w.Prelude.Dict.{
  Dict, lookup, keys, elem, Distinct, elem-append, Distinct-middle, Distinct-split,
}
use tradejournal_mt5_cloud_w.Json.{Json, object, fields, entries, fields-entries}
use tradejournal_mt5_cloud_w.Outbox.{
  Payload, State, Time, event_id, is_payload, ids, known_ids, Result, ok, raised, ◌>>=◌, as_object,
  as_array, present, valid_payload, valid_keyed, valid_letter, valid_pending, valid_dead_letter,
  validate_state, valid_legacy, order_legacy_pending, is_version, load_legacy, load_current,
  load_document, load,
}
use tradejournal_mt5_cloud_w.Outbox.Enqueue.{IsValid, IsKeyed}

unbind :
    {A C : Type 0} {c : C} (r : Result A) (k : A → Result C)
    → (r >>= k) ≡ ok c
    → (x : A) × (r ≡ ok x) × (k x ≡ ok c)
unbind raised k h = cc
unbind (ok x) k h = (x, refl, h)

ok-injective : {A : Type 0} {a b : A} → ok a ≡ ok b → a ≡ b
ok-injective h = cc

guarded {ℓ} :
    {A : Type ℓ} (b : Bool) (m : Result A) {a : A}
    → (if b then raised else m) ≡ ok a
    → (b ≡ false) × (m ≡ ok a)
guarded true m h = cc
guarded false m h = (refl, h)

valid_payload_sound :
    (j : Json) (p : Payload)
    → valid_payload j ≡ ok p
    → (is_payload p ≡ true) × (j ≡ object (fields p))
unfolding valid_payload
valid_payload_sound (object fs) p h = ground (arith, fields-entries fs)
valid_payload_sound j p h = cc

valid_keyed_sound :
    (key : String) (j : Json) (p : Payload)
    → valid_keyed key j ≡ ok p
    → (is_payload p ≡ true) × (j ≡ object (fields p)) × (event_id p ≡ key)
unfolding valid_keyed
valid_keyed_sound key j p h =
    let (q, e, rest) = unbind (valid_payload j) _ h in
    let (valid, shape) = valid_payload_sound j q e in ground (arith, eq_iff (event_id q) key)

valid_pending_sound :
    (seen : List String) (js : List Json) (ps : List Payload)
    → valid_pending seen js ≡ ok ps
    → Distinct seen
    → All (λ p. is_payload p ≡ true) ps × Distinct (ids ps ++ seen)
unfolding valid_pending ids
valid_pending_sound seen [] [] h d = (tt, d)
valid_pending_sound seen [] (p ∷ ps) h d = cc
valid_pending_sound seen (j ∷ js) out h d =
    let (p, e, rest) = unbind (valid_payload j) _ h in
    let (new, rest') = guarded (elem (event_id p) seen) _ rest in
    let (ps, e', last) = unbind (valid_pending (event_id p ∷ seen) js) _ rest' in
    let (valid, distinct) = valid_pending_sound (event_id p ∷ seen) js ps e' (new, d) in
    subst (λ o. All (λ p. is_payload p ≡ true) o × Distinct (ids o ++ seen)) (ok-injective last)
      (((valid_payload_sound j p e).0, valid), Distinct-split (event_id p) (ids ps) seen distinct)

present-some : (o : Option Json) {j : Json} → present o ≡ ok j → o ≡ some j
present-some none h = cc
present-some (some j) h = ap some (ok-injective h)

valid_letter_sound :
    (key : String) (j : Json) (letter : Payload)
    → valid_letter key j ≡ ok letter
    → IsKeyed (key, letter)
unfolding valid_letter
valid_letter_sound key j letter h =
    let (r, e, rest) = unbind (as_object (some j)) _ h in
    let (inner, found, rest') = unbind (present (lookup "payload" r)) _ rest in
    let (p, e', last) = unbind (valid_keyed key inner) _ rest' in
    let (valid, shape, same) = valid_keyed_sound key inner p e' in
    let same_letter : r ≡ letter = ok-injective last in
    (p, ap (lookup "payload") (sym same_letter) ∙ present-some _ found ∙ ap some shape, same, valid)

valid_dead_letter_sound :
    (pending_ids : List String) (js : Dict Json) (d : Dict Payload)
    → valid_dead_letter pending_ids js ≡ ok d
    → Distinct pending_ids
    → Distinct (keys js)
    → All IsKeyed d × (keys d ≡ keys js) × Distinct (pending_ids ++ keys d)
unfolding valid_dead_letter keys
valid_dead_letter_sound pending_ids [] [] h dp dk = (tt, refl, rw append-nil dp)
valid_dead_letter_sound pending_ids [] (_ ∷ _) h dp dk = cc
valid_dead_letter_sound pending_ids ((k, j) ∷ js) out h dp dk =
    let (letter, e, rest) = unbind (valid_letter k j) _ h in
    let (new, rest') = guarded (elem k pending_ids) _ rest in
    let (d, e', last) = unbind (valid_dead_letter pending_ids js) _ rest' in
    let (valid, same, distinct) = valid_dead_letter_sound pending_ids js d e' dp dk.1 in
    subst (λ o. All IsKeyed o × (keys o ≡ k ∷ keys js) × Distinct (pending_ids ++ keys o))
      (ok-injective last)
      (
        (valid_letter_sound k j letter e, valid),
        ap (λ (l : List String). k ∷ l) same,
        Distinct-middle k pending_ids (keys d)
            (ground (arith, elem-append k pending_ids (keys d), same)) distinct,
      )

abbrev pub DistinctIn : Option Json → Type 0
DistinctIn (some (object fs)) = Distinct (keys (entries fs))
DistinctIn _ = Unit

DistinctIn-sound :
    (o : Option Json) (d : Dict Json) → as_object o ≡ ok d → DistinctIn o → Distinct (keys d)
DistinctIn-sound none d h distinct = cc
DistinctIn-sound (some (object fs)) d h distinct =
    subst (λ x. Distinct (keys x)) (ok-injective h) distinct
DistinctIn-sound (some j) d h distinct = cc

-- The object of the document's dead letters, as `json.load` builds it: no key stands twice.
abbrev pub HasDistinctLetters : Json → Type 0
HasDistinctLetters (object fs) = DistinctIn (lookup "dead_letter" (entries fs))
HasDistinctLetters _ = Unit

validate_state-IsValid :
    (js : List Json) (letters : Dict Json) (s : State)
    → validate_state js letters ≡ ok s
    → Distinct (keys letters)
    → IsValid s
unfolding validate_state known_ids
validate_state-IsValid js letters s h dk =
    let (ps, e, rest) = unbind (valid_pending [] js) _ h in
    let (d, e', last) = unbind (valid_dead_letter (ids ps) letters) _ rest in
    let (valid, distinct) = valid_pending_sound [] js ps e tt in
    let (keyed, _, all_distinct) =
      valid_dead_letter_sound (ids ps) letters d e' (rw append-nil at distinct) dk in
    subst IsValid (ok-injective last)
      (record { payloads = valid; letters = keyed; distinct = all_distinct })

module _ (parse_time : String → Option Time) where
  load_legacy-IsValid :
      (state letters : Dict Json) (s : State) {m : Bool}
      → load_legacy parse_time state letters ≡ ok (s, m)
      → Distinct (keys letters)
      → IsValid s
  unfolding load_legacy
  load_legacy-IsValid state letters s h dk =
      let (legacy, _, rest) = unbind (as_object (lookup "pending" state)) _ h in
      let (pending, _, rest') = unbind (valid_legacy legacy) _ rest in
      let (t, e, last) =
        unbind (validate_state (order_legacy_pending parse_time pending) letters) _ rest' in
      subst IsValid (ap (λ (x : State × Bool). x.0) (ok-injective last))
        (validate_state-IsValid _ letters t e dk)

  load_current-IsValid :
      (state letters : Dict Json) (s : State) {m : Bool}
      → load_current parse_time state letters ≡ ok (s, m)
      → Distinct (keys letters)
      → IsValid s
  unfolding load_current
  load_current-IsValid state letters s h dk =
      let (pending, _, rest) = unbind (as_array (lookup "pending" state)) _ h in
      let (t, e, last) = unbind (validate_state pending letters) _ rest in
      subst IsValid (ap (λ (x : State × Bool). x.0) (ok-injective last))
        (validate_state-IsValid _ letters t e dk)

  -- Whatever document is in the file: if it is accepted, in either format, the loaded state has the
  -- invariant. Nothing is assumed of the document but that no key of its dead letters repeats.
  pub load-IsValid :
      (j : Json) (s : State) (migrated : Bool)
      → HasDistinctLetters j
      → load parse_time (some j) ≡ ok (s, migrated)
      → IsValid s
  unfolding load load_document
  load-IsValid (object fs) s migrated distinct h =
      let (letters, e, rest) = unbind (as_object (lookup "dead_letter" (entries fs))) _ h in
      let dk : Distinct (keys letters) =
        DistinctIn-sound (lookup "dead_letter" (entries fs)) letters e distinct in
      elim (Bool-cases (is_version parse_time (lookup "version" (entries fs)) 1)) [
        | inl one ↦ load_legacy-IsValid (entries fs) letters s (rw one at rest) dk
        | inr newer ↦ elim (Bool-cases (is_version parse_time (lookup "version" (entries fs)) 2)) [
          | inl two ↦ load_current-IsValid (entries fs) letters s (rw two at (rw newer at rest)) dk
          | inr none_ ↦
              let refused : ◌≡◌ {A = Result (State × Bool)} raised (ok (s, migrated)) =
                rw none_ at (rw newer at rest) in
              cc
        ]
      ]
  load-IsValid _ s migrated distinct h = cc
