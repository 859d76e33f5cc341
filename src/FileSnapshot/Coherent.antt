-- ===== src/FileSnapshot/Coherent.antt =====
-- windows_agent/worker/mql5_file_adapter.py, `snapshot`: a snapshot is never mixed from two states of
-- the terminal.
use mathlib.Core.Path.{ap₂}
use tradejournal_mt5_cloud_w.Prelude.{
  ℕ, zero, suc, ◌+◌, ◌<◌, ◌≡◌, refl, ◌∙◌, ap, String, Bool, true, false, Option, none, some, List,
  arith, if◌then◌else◌,
}
use tradejournal_mt5_cloud_w.Value.{Row}
use tradejournal_mt5_cloud_w.Detector.{Snapshot}
use tradejournal_mt5_cloud_w.FileSnapshot.{
  Fault, Result, ok, err, ◌>>=◌, Reads, attempts, from_read, guard, all_same, mapped, saved_as,
  compare_numbers, read_files, attempt, snapshot_from, snapshot,
}

read-ok :
    {A B : Type 0} (o : Option A) (f : A → Result B) (b : B)
    → (from_read o >>= f) ≡ ok b
    → (a : A) × (o ≡ some a) × (f a ≡ ok b)
unfolding from_read
read-ok none f b h = cc
read-ok (some a) f b h = (a, refl, h)

guard-ok :
    {B : Type 0} (test : Bool) (fault : Fault) (r : Result B) (b : B)
    → (guard test fault >>= (λ _. r)) ≡ ok b
    → (test ≡ true) × (r ≡ ok b)
unfolding guard
guard-ok true fault r b h = (refl, h)
guard-ok false fault r b h = cc

ok-injective : {A : Type 0} {a b : A} → ok a ≡ ok b → a ≡ b
ok-injective h = cc

same-ok :
    (same saves : Bool) (made result : Snapshot)
    → (if same then saved_as saves made else ok none) ≡ ok (some result)
    → (same ≡ true) × (result ≡ made)
unfolding saved_as
same-ok false saves made result h = cc
same-ok true false made result h = cc
same-ok true true made result h = (refl, cc)

module _ (float_repr : ℕ → String) where
  -- The files that were read have one sequence number, the terminal is connected and the account is
  -- the expected one, and the snapshot is made of their rows.
  pub record IsCoherent (reads : Reads) (result : Snapshot) : Type 0 where
    pub number : ℕ
    pub position_rows : List Row
    pub order_rows : List Row
    pub deal_rows : List Row
    pub before : reads.heartbeat ≡ some (number, true)
    pub account_is : reads.account ≡ some (number, true)
    pub positions_are : reads.positions ≡ some (number, position_rows)
    pub orders_are : reads.orders ≡ some (number, order_rows)
    pub deals_are : reads.deals ≡ some (number, deal_rows)
    pub after : reads.heartbeat_after ≡ some number
    pub is_mapped : result ≡ mapped float_repr position_rows order_rows deal_rows

  all_same-all :
      (a b c d e f : ℕ)
      → all_same a b c d e f ≡ true
      → (b ≡ a) × (c ≡ a) × (d ≡ a) × (e ≡ a) × (f ≡ a)
  unfolding all_same
  all_same-all a b c d e f h =
      ((ground arith), (ground arith), (ground arith), (ground arith), (ground arith))

  -- The part of it that `read_files` decides.
  record IsRead (reads : Reads) (n account : ℕ) (result : Snapshot) : Type 0 where
    position_rows : List Row
    order_rows : List Row
    deal_rows : List Row
    same_account : account ≡ n
    positions_are : reads.positions ≡ some (n, position_rows)
    orders_are : reads.orders ≡ some (n, order_rows)
    deals_are : reads.deals ≡ some (n, deal_rows)
    after : reads.heartbeat_after ≡ some n
    is_mapped : result ≡ mapped float_repr position_rows order_rows deal_rows

  compare_numbers-IsRead :
      (reads : Reads) (n account : ℕ) (result : Snapshot) (positions orders deals : ℕ × List Row)
      (last : ℕ)
      → reads.positions ≡ some positions
      → reads.orders ≡ some orders
      → reads.deals ≡ some deals
      → reads.heartbeat_after ≡ some last
      → compare_numbers float_repr n account reads.saves positions orders deals last
        ≡ ok (some result)
      → IsRead reads n account result
  unfolding compare_numbers
  compare_numbers-IsRead reads n account result positions orders deals last e3 e4 e5 e6 h =
      let (same, is_mapped) =
        same-ok (all_same n last account positions.0 orders.0 deals.0) reads.saves
          (mapped float_repr positions.1 orders.1 deals.1) result h in
      let (s1, s2, s3, s4, s5) = all_same-all n last account positions.0 orders.0 deals.0 same in
      record {
        position_rows = positions.1;
        order_rows = orders.1;
        deal_rows = deals.1;
        same_account = s2;
        positions_are = e3 ∙ ap (λ (k : ℕ). some (k, positions.1)) s3;
        orders_are = e4 ∙ ap (λ (k : ℕ). some (k, orders.1)) s4;
        deals_are = e5 ∙ ap (λ (k : ℕ). some (k, deals.1)) s5;
        after = e6 ∙ ap (λ (k : ℕ). some k) s1;
        is_mapped = is_mapped;
      }

  read_files-IsRead :
      (reads : Reads) (n account : ℕ) (result : Snapshot)
      → read_files float_repr n account reads ≡ ok (some result)
      → IsRead reads n account result
  unfolding read_files
  read_files-IsRead reads n account result h =
      let (positions, e3, h5) = read-ok reads.positions _ (some result) h in
      let (orders, e4, h6) = read-ok reads.orders _ (some result) h5 in
      let (deals, e5, h7) = read-ok reads.deals _ (some result) h6 in
      let (last, e6, h8) = read-ok reads.heartbeat_after _ (some result) h7 in
      compare_numbers-IsRead reads n account result positions orders deals last e3 e4 e5 e6 h8

  attempt-IsCoherent :
      (reads : Reads) (result : Snapshot)
      → attempt float_repr reads ≡ ok (some result)
      → IsCoherent reads result
  unfolding attempt
  attempt-IsCoherent reads result h =
      let (heartbeat, e1, h1) = read-ok reads.heartbeat _ (some result) h in
      let (connected, h2) = guard-ok heartbeat.1 _ _ (some result) h1 in
      let (account, e2, h3) = read-ok reads.account _ (some result) h2 in
      let (expected, h4) = guard-ok account.1 _ _ (some result) h3 in
      let r = read_files-IsRead reads heartbeat.0 account.0 result h4 in
      record {
        number = heartbeat.0;
        position_rows = r.position_rows;
        order_rows = r.order_rows;
        deal_rows = r.deal_rows;
        before = e1 ∙ ap (λ (c : Bool). some (heartbeat.0, c)) connected;
        account_is = e2 ∙ ap₂ (λ (k : ℕ) (c : Bool). some (k, c)) r.same_account expected;
        positions_are = r.positions_are;
        orders_are = r.orders_are;
        deals_are = r.deals_are;
        after = r.after;
        is_mapped = r.is_mapped;
      }

  -- One of the attempts was coherent.
  pub record IsFromOne (reads : ℕ → Reads) (start left : ℕ) (result : Snapshot) : Type 0 where
    pub attempt_number : ℕ
    pub in_time : attempt_number < start + left
    pub coherent : IsCoherent (reads attempt_number) result

  snapshot_from-IsFromOne :
      (reads : ℕ → Reads) (left n : ℕ) (result : Snapshot)
      → snapshot_from float_repr reads left n ≡ ok result
      → IsFromOne reads n left result
  unfolding snapshot_from
  snapshot_from-IsFromOne reads zero n result h = cc
  snapshot_from-IsFromOne reads (suc left) n result h =
      by_attempt (attempt float_repr (reads n)) refl h
        (snapshot_from-IsFromOne reads left (suc n) result)
    where
      by_attempt :
          (r : Result (Option Snapshot))
          → attempt float_repr (reads n) ≡ r
          → (r >>= (λ made. elim made [
            | some snapshot_ ↦ ok snapshot_
            | none ↦ snapshot_from float_repr reads left (suc n)
          ]))
            ≡ ok result
          → (snapshot_from float_repr reads left (suc n) ≡ ok result
              → IsFromOne reads (suc n) left result)
          → IsFromOne reads n (suc left) result
      by_attempt (err e) known same later = cc
      by_attempt (ok (some made)) known same later =
          let is_made : made ≡ result = ok-injective same in
          record {
            attempt_number = n;
            in_time = omega arith;
            coherent =
                attempt-IsCoherent (reads n) result
                  (known ∙ ap (λ (x : Snapshot). ok (some x)) is_made);
          }
      by_attempt (ok none) known same later =
          let l = later same in
          record {
            attempt_number = l.attempt_number;
            in_time = omega (arith, l.in_time);
            coherent = l.coherent;
          }

  -- A snapshot is never mixed from two states of the terminal: what `snapshot` returns was read in one
  -- of its 26 attempts, in which the heartbeat before and after, the account, the positions, the
  -- orders and the deals had one sequence number, with the terminal connected and the account the
  -- expected one; and it is made of the rows of that attempt.
  pub snapshot-IsFromOne :
      (reads : ℕ → Reads) (result : Snapshot)
      → snapshot float_repr reads ≡ ok result
      → IsFromOne reads 0 attempts result
  unfolding snapshot
  snapshot-IsFromOne reads result h = snapshot_from-IsFromOne reads attempts 0 result h
