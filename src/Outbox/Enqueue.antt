-- ===== src/Outbox/Enqueue.antt =====
-- worker/event_outbox.py, `enqueue_many`: what a batch adds, and the invariant of the state.
use mathlib.Core.Path.{ap₂, subst}
use mathlib.Core.List.{append-nil, append_assoc}
use tradejournal_mt5_cloud_w.Prelude.{
  ℕ, ◌+◌, ◌≡◌, refl, ap, sym, ◌∙◌, String, true, List, [], ◌∷◌, ◌++◌, arith, length, All,
  All-append, if◌then◌else◌, Bool-cases, ◌⊎◌, some, inl, inr,
}
use tradejournal_mt5_cloud_w.Prelude.Dict.{
  lookup, keys, elem, Distinct, elem-middle, Distinct-middle,
}
use tradejournal_mt5_cloud_w.Json.{object, fields}
use tradejournal_mt5_cloud_w.Outbox.{
  Payload, State, event_id, is_payload, ids, known_ids, Write, ok, Outbox, replace_state,
  enqueue_loop, enqueue_many, all_payloads,
}

-- The payloads of the batch whose id is new: neither known before nor on an earlier payload.
unfoldable pub fresh : List String → List Payload → List Payload
fresh known [] = []
fresh known (payload ∷ batch) =
    let skipped = fresh known batch in
    let kept = payload ∷ fresh (event_id payload ∷ known) batch in
    if elem (event_id payload) known then skipped else kept

pub ids-append : (xs ys : List Payload) → ids (xs ++ ys) ≡ ids xs ++ ids ys
unfolding ids
ids-append [] ys = refl
ids-append (x ∷ xs) ys = ap (λ (l : List String). event_id x ∷ l) (ids-append xs ys)

pub enqueue_loop-fresh :
    (pending : List Payload) (known : List String) (added : ℕ) (batch : List Payload)
    → enqueue_loop pending known added batch
      ≡ (pending ++ fresh known batch, added + length (fresh known batch))
unfolding enqueue_loop fresh
enqueue_loop-fresh pending known added [] =
    ap₂ (λ (l : List Payload) (n : ℕ). (l, n)) (sym (append-nil pending)) (omega arith)
enqueue_loop-fresh pending known added (p ∷ batch) = elim (Bool-cases (elem (event_id p) known)) [
  | inl old ↦ rw old (enqueue_loop-fresh pending known added batch)
  | inr new ↦ rw new (
      enqueue_loop-fresh (pending ++ p ∷ []) (event_id p ∷ known) (added + 1) batch
      ∙ ap₂ (λ (l : List Payload) (n : ℕ). (l, n))
          (append_assoc pending (p ∷ []) (fresh (event_id p ∷ known) batch)) (omega arith))
]

-- A dead letter stands under the id of the event that it holds.
abbrev pub IsKeyed : String × Payload → Type 0
IsKeyed (key, letter) =
    (p : Payload) × (lookup "payload" letter ≡ some (object (fields p)))
    × (event_id p ≡ key)
    × (is_payload p ≡ true)

-- Every stored event has an id, and no id stands twice, in whichever section.
pub record IsValid (s : State) : Type 0 where
  pub payloads : All (λ p. is_payload p ≡ true) s.pending
  pub letters : All IsKeyed s.dead_letter
  pub distinct : Distinct (known_ids s)

SameElements : List String → List String → Type 0
SameElements xs ys = (k : String) → elem k xs ≡ elem k ys

SameElements-grown :
    (a : String) (ps known rest : List String)
    → SameElements known (ps ++ rest)
    → SameElements (a ∷ known) ((ps ++ a ∷ []) ++ rest)
unfolding SameElements elem
SameElements-grown a ps known rest same =
    λ k. rw append_assoc (ground (arith, same k, elem-middle k a ps rest))

fresh-Distinct :
    (ps : List String) (known rest : List String) (batch : List Payload)
    → SameElements known (ps ++ rest)
    → Distinct (ps ++ rest)
    → Distinct ((ps ++ ids (fresh known batch)) ++ rest)
unfolding fresh ids SameElements
fresh-Distinct ps known rest [] same d = rw append-nil d
fresh-Distinct ps known rest (p ∷ batch) same d = elim (Bool-cases (elem (event_id p) known)) [
  | inl old ↦ rw (old, fresh) (fresh-Distinct ps known rest batch same d)
  | inr new ↦
      rw (new, fresh)
        (subst (λ l. Distinct (l ++ rest))
          (append_assoc ps (event_id p ∷ []) (ids (fresh (event_id p ∷ known) batch)))
          (fresh-Distinct (ps ++ event_id p ∷ []) (event_id p ∷ known) rest batch
            (SameElements-grown (event_id p) ps known rest same)
            (rw append_assoc
              (Distinct-middle (event_id p) ps rest (sym (same (event_id p)) ∙ new) d))))
]

fresh-payloads :
    (known : List String) (batch : List Payload)
    → all_payloads batch ≡ true
    → All (λ p. is_payload p ≡ true) (fresh known batch)
unfolding fresh all_payloads
fresh-payloads known [] h = tt
fresh-payloads known (p ∷ batch) h = elim (Bool-cases (elem (event_id p) known)) [
  | inl old ↦ rw (old, fresh) (fresh-payloads known batch (ground arith))
  | inr new ↦
      rw (new, fresh) ((ground arith), fresh-payloads (event_id p ∷ known) batch (ground arith))
]

length_zero : (xs : List Payload) → length xs ≡ 0 → xs ≡ []
length_zero [] h = refl
length_zero (x ∷ xs) h = absurd (omega arith)

with_fresh-Distinct :
    (s : State) (batch : List Payload)
    → Distinct (known_ids s)
    → Distinct (ids (s.pending ++ fresh (known_ids s) batch) ++ keys s.dead_letter)
unfolding known_ids SameElements
with_fresh-Distinct s batch d =
    rw (ids-append s.pending)
      (fresh-Distinct (ids s.pending) (known_ids s) (keys s.dead_letter) batch (λ k. refl) d)

module _ (write : Write) (batch : List Payload) (outbox : Outbox) where
  abbrev with_fresh : State
  with_fresh = record {
    pending = outbox.state.pending ++ fresh (known_ids outbox.state) batch;
    dead_letter = outbox.state.dead_letter;
  }

  state-enqueue_many :
      ((enqueue_many write batch outbox).1.state ≡ outbox.state)
      ⊎ ((all_payloads batch ≡ true) × ((enqueue_many write batch outbox).1.state ≡ with_fresh))
  unfolding enqueue_many replace_state
  state-enqueue_many =
      ground (arith, enqueue_loop-fresh outbox.state.pending (known_ids outbox.state) 0 batch)

  -- `enqueue_many` keeps the invariant, whether it returns or raises.
  pub enqueue_many-IsValid :
      IsValid outbox.state → IsValid (enqueue_many write batch outbox).1.state
  enqueue_many-IsValid v = elim state-enqueue_many [
    | inl same ↦ rw same v
    | inr (accepted, grown) ↦ rw grown (record {
      payloads =
          All-append (λ p. is_payload p ≡ true) outbox.state.pending _ v.payloads
            (fresh-payloads (known_ids outbox.state) batch accepted);
      letters = v.letters;
      distinct = unfold known_ids in with_fresh-Distinct outbox.state batch v.distinct;
    })
  ]

  -- A batch that is accepted adds exactly its fresh events, at the end and in their order, and
  -- leaves the dead letters alone.
  pub enqueue_many-fresh :
      {n : ℕ}
      → (enqueue_many write batch outbox).0 ≡ ok n
      → let s = (enqueue_many write batch outbox).1.state in
        let new = fresh (known_ids outbox.state) batch in
        (s.pending ≡ outbox.state.pending ++ new)
        × (s.dead_letter ≡ outbox.state.dead_letter)
        × (n ≡ length new)
  unfolding enqueue_many replace_state
  enqueue_many-fresh {n} h = ground (
    arith,
    enqueue_loop-fresh outbox.state.pending (known_ids outbox.state) 0 batch,
    length_zero (fresh (known_ids outbox.state) batch),
    append-nil outbox.state.pending,
  )
