-- ===== src/Prelude/Sort.antt =====
-- Python's `sorted` on a list of texts: the order is that of the code points.
use Prim.Native.Nat.{Ordering}
use Prim.Native.String.{String, compare}
use mathlib.Core.Path.{◌≡◌, refl, ◌∙◌}
use mathlib.Core.Bool.{Bool, true, false}
use mathlib.Core.List.{List, [], ◌∷◌}
use native.Mathlib.Omega.{arith}
use text.Mathlib.TextEquality.{eq_iff}
use tradejournal_mt5_cloud_w.Prelude.Tests.{str_eq, if◌then◌else◌}
use tradejournal_mt5_cloud_w.Prelude.Dict.{elem, Distinct}

abbrev pub text_le : String → String → Bool
text_le s t = elim (compare s t) [ Ordering.gt ↦ false | _ ↦ true ]

insert_sorted : String → List String → List String
insert_sorted k [] = k ∷ []
insert_sorted k (j ∷ ks) = if text_le k j then k ∷ j ∷ ks else j ∷ insert_sorted k ks

unfoldable pub sorted : List String → List String
unfolding insert_sorted
sorted [] = []
sorted (k ∷ ks) = insert_sorted k (sorted ks)

elem-insert_sorted :
    (k j : String) (ks : List String)
    → elem j (insert_sorted k ks) ≡ (if str_eq k j then true else elem j ks)
unfolding insert_sorted elem
elem-insert_sorted k j [] = refl
elem-insert_sorted k j (i ∷ ks) = ground (arith, elem-insert_sorted k j ks)

pub elem-sorted : (k : String) (ks : List String) → elem k (sorted ks) ≡ elem k ks
unfolding sorted elem
elem-sorted k [] = refl
elem-sorted k (j ∷ ks) = ground (arith, elem-insert_sorted j k (sorted ks), elem-sorted k ks)

insert_sorted-Distinct :
    (k : String) (ks : List String)
    → elem k ks ≡ false
    → Distinct ks
    → Distinct (insert_sorted k ks)
unfolding insert_sorted elem
insert_sorted-Distinct k [] h d = (refl, tt)
insert_sorted-Distinct k (j ∷ ks) h d =
    ground (arith, eq_iff j k, eq_iff k j, elem-insert_sorted k j ks, insert_sorted-Distinct k ks)

pub sorted-Distinct : (ks : List String) → Distinct ks → Distinct (sorted ks)
unfolding sorted
sorted-Distinct [] d = tt
sorted-Distinct (k ∷ ks) d =
    insert_sorted-Distinct k (sorted ks) (elem-sorted k ks ∙ d.0) (sorted-Distinct ks d.1)
