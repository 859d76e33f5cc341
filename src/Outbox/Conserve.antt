-- ===== src/Outbox/Conserve.antt =====
-- worker/event_outbox.py: what `drain` keeps. The statements are about the protocol `Drained`,
-- which `drain` follows in memory and in the file.
use mathlib.Core.Path.{subst}
use mathlib.Core.List.{append_assoc}
use tradejournal_mt5_cloud_w.Prelude.{
  ℕ, ◌+◌, ◌≡◌, refl, sym, String, true, false, List, [], ◌∷◌, ◌++◌, arith, All, Option, some,
  str_eq, eq_iff, if◌then◌else◌, Bool-cases, ◌⊎◌, inl, inr,
}
use tradejournal_mt5_cloud_w.Prelude.Dict.{
  Dict, lookup, insert, keys, elem, contains, Distinct, elem-append, Distinct-snoc, keys-insert_new,
  contains-insert,
}
use tradejournal_mt5_cloud_w.Sender.{SendResult}
use tradejournal_mt5_cloud_w.Outbox.{
  Payload, State, event_id, ids, known_ids, Write, Outbox, dead_record, deliver, action, drain,
}
use tradejournal_mt5_cloud_w.Outbox.Enqueue.{IsValid, IsKeyed}
use tradejournal_mt5_cloud_w.Outbox.Drain.{
  Drained, stop, buried, delivered, InFile, InFile-map, IsSaved, drain-FollowsProtocol,
}

elem-keys-insert :
    (k j : String) (v : Payload) (d : Dict Payload)
    → elem k (keys (insert j v d)) ≡ (if str_eq j k then true else elem k (keys d))
unfolding contains
elem-keys-insert k j v d = contains-insert j k v d

All-insert :
    (P : String × Payload → Type 0) (k : String) (v : Payload) (d : Dict Payload)
    → P (k, v)
    → All P d
    → All P (insert k v d)
unfolding insert
All-insert P k v [] h hd = (h, tt)
All-insert P k v ((j, w) ∷ d) h hd = elim (Bool-cases (str_eq j k)) [
  | inl same ↦ rw (same, insert) (subst (λ i. P (i, v)) (sym ((eq_iff j k).0 same)) h, hd.1)
  | inr other ↦ rw (other, insert) (hd.0, All-insert P k v d h hd.1)
]

module _ (send : ℕ → Payload → Option SendResult) where
  -- The sender confirmed the delivery of an event with this id.
  abbrev pub Confirmed : String → Type 0
  Confirmed k =
      (m : ℕ) × (p : Payload) × (r : SendResult) × (event_id p ≡ k)
      × (send m p ≡ some r)
      × (action r ≡ deliver)

  Drained-keeps :
      (dead : Dict Payload) (k : String) (n : ℕ) (pending : List Payload) (s : State)
      → Drained send dead n pending s
      → elem k (ids pending ++ keys dead) ≡ true
      → (elem k (known_ids s) ≡ true) ⊎ Confirmed k
  unfolding known_ids ids elem
  Drained-keeps dead k n pending s (stop _ _ _ e) h = inl (rw e h)
  Drained-keeps dead k n (_ ∷ _) s (buried _ p rest r _ e a same) h = inl (
      rw same
        (rw (elem-append, elem-keys-insert) (ground (arith, elem-append k (ids rest) (keys dead)))))
  Drained-keeps dead k n (_ ∷ _) s (delivered _ p rest r _ e a later) h =
      elim (Bool-cases (str_eq (event_id p) k)) [
        | inl here ↦ inr (n, p, r, (eq_iff _ _).0 here, e, a)
        | inr other ↦ Drained-keeps dead k (n + 1) rest s later (rw other at h)
      ]

  buried-Distinct :
      (p : Payload) (rest : List Payload) (letter : Payload) (dead : Dict Payload)
      → Distinct (event_id p ∷ (ids rest ++ keys dead))
      → Distinct (ids rest ++ keys (insert (event_id p) letter dead))
  unfolding elem
  buried-Distinct p rest letter dead (absent, d) =
      rw (keys-insert_new (event_id p) letter dead (absent_dead (Bool-cases _)), ← append_assoc)
        (Distinct-snoc (event_id p) (ids rest ++ keys dead) absent d)
    where
      absent_dead :
          (elem (event_id p) (keys dead) ≡ true) ⊎ (elem (event_id p) (keys dead) ≡ false)
          → elem (event_id p) (keys dead) ≡ false
      absent_dead (inr h) = h
      absent_dead (inl h) = ground (arith, elem-append (event_id p) (ids rest) (keys dead))

  Drained-IsValid :
      (dead : Dict Payload) (n : ℕ) (pending : List Payload) (s : State)
      → Drained send dead n pending s
      → IsValid (record { pending = pending; dead_letter = dead })
      → IsValid s
  unfolding known_ids ids
  Drained-IsValid dead n pending s (stop _ _ _ e) v = rw e v
  Drained-IsValid dead n (_ ∷ _) s (buried _ p rest r _ e a same) v = rw same (record {
    payloads = v.payloads.1;
    letters =
        All-insert IsKeyed (event_id p) (dead_record p r) dead
          (unfold dead_record lookup in (p, refl, refl, v.payloads.0)) v.letters;
    distinct = buried-Distinct p rest (dead_record p r) dead v.distinct;
  })
  Drained-IsValid dead n (_ ∷ _) s (delivered _ p rest r _ e a later) v =
      Drained-IsValid dead (n + 1) rest s later
        (record { payloads = v.payloads.1; letters = v.letters; distinct = v.distinct.1 })

  module _ (write : ℕ → Write) (outbox : Outbox) (saved : IsSaved outbox) where
    -- From a valid state that the file, if there is one, holds as it is in memory: after a drain the
    -- invariant holds of the state in memory, and of the state in the file, if there is one; that is
    -- so too where the drain raises.
    pub drain-IsValid :
        IsValid outbox.state
        → let after = (drain send write outbox).1 in IsValid after.state × InFile IsValid after
    drain-IsValid v =
        let f = drain-FollowsProtocol send write outbox saved in
        let pending = outbox.state.pending in
        let dead = outbox.state.dead_letter in
        let after = (drain send write outbox).1 in
        (
          Drained-IsValid dead 0 pending after.state f.memory v,
          InFile-map (Drained send dead 0 pending) IsValid after
              (λ s d. Drained-IsValid dead 0 pending s d v) f.file,
        )

    -- No event is lost. From a state that the file, if there is one, holds as it is in memory: an id
    -- that the outbox held before a drain is still held after it, pending or as a dead letter, in
    -- memory and in the file, if there is one, unless the sender confirmed the delivery.
    pub drain-keeps :
        (k : String)
        → elem k (known_ids outbox.state) ≡ true
        → let after = (drain send write outbox).1 in
          ((elem k (known_ids after.state) ≡ true) ⊎ Confirmed k)
          × InFile (λ s. (elem k (known_ids s) ≡ true) ⊎ Confirmed k) after
    unfolding known_ids
    drain-keeps k h =
        let f = drain-FollowsProtocol send write outbox saved in
        let pending = outbox.state.pending in
        let dead = outbox.state.dead_letter in
        let after = (drain send write outbox).1 in
        (
          Drained-keeps dead k 0 pending after.state f.memory h,
          InFile-map (Drained send dead 0 pending)
              (λ s. (elem k (known_ids s) ≡ true) ⊎ Confirmed k) after
              (λ s d. Drained-keeps dead k 0 pending s d h) f.file,
        )
