-- ===== src/EventFiles/Kept.antt =====
-- windows_agent/worker/mql5_file_adapter.py, `acknowledge_events`: no event is deleted that was not
-- acknowledged.
use tradejournal_mt5_cloud_w.Prelude.{
  ℕ, ◌≤◌, ◌≡◌, refl, sym, ◌∙◌, String, Bool, true, false, ◌&&◌, Option, none, some, List, [], ◌∷◌,
  arith, ltb, Bool-cases, inl, inr, if◌then◌else◌,
}
use tradejournal_mt5_cloud_w.Prelude.Int.{ℤ, pos, negsuc}
use tradejournal_mt5_cloud_w.Prelude.Dict.{lookup}
use tradejournal_mt5_cloud_w.Outbox.{Write, published, refused, interrupted}
use tradejournal_mt5_cloud_w.EventFiles.{
  File, Bridge, last_sequence_of, is_beyond, is_settled, prune, prune_bridge, settle, settle_from,
  acknowledge_events, new_checkpoint,
}

-- The events beyond a sequence number.
unfoldable pub beyond : ℕ → List File → List File
beyond through [] = []
beyond through (file ∷ files) =
    let rest = beyond through files in
    let kept = file ∷ rest in if is_beyond through file.sequence then kept else rest

settled-not_beyond :
    (through : ℕ) (sequence : Option ℕ)
    → is_settled through sequence ≡ true
    → is_beyond through sequence ≡ false
unfolding is_settled is_beyond
settled-not_beyond through none h = cc
settled-not_beyond through (some n) h = ground arith

prune-beyond :
    (unlinks : File → Bool) (through : ℕ) (files : List File)
    → beyond through (prune unlinks through files).1 ≡ beyond through files
unfolding prune beyond
prune-beyond unlinks through [] = refl
prune-beyond unlinks through (file ∷ files) = elim (Bool-cases (is_settled through file.sequence)) [
  | inr live ↦ rw (live, prune-beyond unlinks through files) refl
  | inl settled ↦
      let gone = settled-not_beyond through file.sequence settled in
      elim (Bool-cases (file.is_plain && unlinks file)) [
        | inl deleted ↦ rw (settled, deleted, gone) (prune-beyond unlinks through files)
        | inr stuck ↦ rw (settled, stuck) refl
      ]
]

pub prune_bridge-beyond :
    (unlinks : File → Bool) (through : ℕ) (bridge : Bridge)
    → (beyond through (prune_bridge unlinks through bridge).1.files ≡ beyond through bridge.files)
      × ((prune_bridge unlinks through bridge).1.checkpoint ≡ bridge.checkpoint)
unfolding prune_bridge
prune_bridge-beyond unlinks through bridge = elim (Bool-cases bridge.exists) [
  | inr missing ↦ rw missing (refl, refl)
  | inl there ↦ elim (Bool-cases bridge.is_valid) [
    | inr link ↦ rw (there, link) (refl, refl)
    | inl valid ↦ rw (there, valid) (prune-beyond unlinks through bridge.files, refl)
  ]
]

-- The checkpoint is at the same place or further on, and every event beyond it is still there.
pub record IsKept (before after : Bridge) : Type 0 where
  pub last : ℕ
  pub reached : last_sequence_of after.checkpoint ≡ some last
  pub no_regression : (n : ℕ) → last_sequence_of before.checkpoint ≡ some n → n ≤ last
  pub files_are : beyond last after.files ≡ beyond last before.files

some-injective : (a b : ℕ) → some a ≡ some b → a ≡ b
some-injective a b h = cc

module _ (connection_id : String) (unlinks : File → Bool) where
  last_sequence_of-new_checkpoint :
      (through : ℕ) → last_sequence_of (new_checkpoint connection_id unlinks through) ≡ some through
  unfolding last_sequence_of new_checkpoint lookup
  last_sequence_of-new_checkpoint through = refl

  same-IsKept :
      (previous : ℕ) (bridge : Bridge)
      → last_sequence_of bridge.checkpoint ≡ some previous
      → IsKept bridge bridge
  same-IsKept previous bridge known = record {
    last = previous;
    reached = known;
    no_regression = λ n h.
        let same : n ≡ previous = some-injective n previous (sym h ∙ known) in omega (arith, same);
    files_are = refl;
  }

  moved-IsKept :
      (previous through : ℕ) (before after : Bridge)
      → last_sequence_of before.checkpoint ≡ some previous
      → previous ≤ through
      → after.checkpoint ≡ new_checkpoint connection_id unlinks through
      → beyond through after.files ≡ beyond through before.files
      → IsKept before after
  moved-IsKept previous through before after known forward moved same = record {
    last = through;
    reached = rw moved (last_sequence_of-new_checkpoint through);
    no_regression = λ n h.
        let e : n ≡ previous = some-injective n previous (sym h ∙ known) in
        omega (arith, e, forward);
    files_are = same;
  }

  settle-IsKept :
      (write : Write) (previous through : ℕ) (bridge : Bridge)
      → last_sequence_of bridge.checkpoint ≡ some previous
      → previous ≤ through
      → IsKept bridge (settle connection_id unlinks write through bridge).1
  unfolding settle
  settle-IsKept published previous through bridge known forward =
      let (same, checkpoint) =
        prune_bridge-beyond unlinks through
          (record bridge { checkpoint = new_checkpoint connection_id unlinks through }) in
      moved-IsKept previous through bridge _ known forward checkpoint same
  settle-IsKept refused previous through bridge known forward = same-IsKept previous bridge known
  settle-IsKept interrupted previous through bridge known forward =
      moved-IsKept previous through bridge _ known forward refl refl

  -- An event of the bridge is only deleted once it is acknowledged, and the checkpoint never goes
  -- back. If the checkpoint can be read, then after `acknowledge_events`, of whatever number and
  -- however its write and the deletions end, also where it raises, the checkpoint can be read and is
  -- not lower, and the event files beyond it are those from before, in their order.
  pub acknowledge_events-IsKept :
      (write : Write) (through : ℤ) (bridge : Bridge) (previous : ℕ)
      → last_sequence_of bridge.checkpoint ≡ some previous
      → IsKept bridge (acknowledge_events connection_id unlinks write through bridge).1
  unfolding acknowledge_events settle_from
  acknowledge_events-IsKept write (negsuc n) bridge previous known =
      same-IsKept previous bridge known
  acknowledge_events-IsKept write (pos through) bridge previous known =
      rw known (elim (Bool-cases (ltb through previous)) [
        | inl back ↦ rw back (same-IsKept previous bridge known)
        | inr forward ↦
            rw forward (settle-IsKept write previous through bridge known (ground arith))
      ])
