-- ===== src/Prelude/Dict.antt =====
-- Python's `dict` with text keys: an association list in insertion order.
use Prim.Native.String.{String}
use mathlib.Core.Path.{◌≡◌, refl}
use mathlib.Core.Bool.{Bool, true, false}
use mathlib.Core.Logic.{inl, inr}
use mathlib.Core.Option.{Option, none, some}
use mathlib.Core.List.{List, [], ◌∷◌, ◌++◌, append-nil}
use native.Mathlib.Omega.{arith}
use text.Mathlib.TextEquality.{eq_iff}
use text.Mathlib.TextPositions.{eq_refl}
use tradejournal_mt5_cloud_w.Prelude.Tests.{str_eq, Bool-cases, if◌then◌else◌}

abbrev pub Dict {ℓ} : Type ℓ → Type ℓ
Dict V = List (String × V)

-- `k in xs`, for a set or a list of texts
unfoldable pub elem : String → List String → Bool
elem k [] = false
elem k (j ∷ xs) = if str_eq j k then true else elem k xs

module _ {ℓ} {V : Type ℓ} where
  -- `d.get(k)`
  unfoldable pub lookup : String → Dict V → Option V
  lookup k [] = none
  lookup k ((j, v) ∷ d) = if str_eq j k then some v else lookup k d

  unfoldable pub keys : Dict V → List String
  keys [] = []
  keys ((j, v) ∷ d) = j ∷ keys d

  -- `k in d`
  unfoldable pub contains : String → Dict V → Bool
  unfolding elem keys
  contains k d = elem k (keys d)

  -- `d[k] = v`: a known key keeps its place
  unfoldable pub insert : String → V → Dict V → Dict V
  insert k v [] = (k, v) ∷ []
  insert k v ((j, w) ∷ d) = if str_eq j k then (j, v) ∷ d else (j, w) ∷ insert k v d

  -- `d.pop(k, None)`
  unfoldable pub remove : String → Dict V → Dict V
  remove k [] = []
  remove k ((j, w) ∷ d) = if str_eq j k then d else (j, w) ∷ remove k d

  -- `{**d, **e}`
  unfoldable pub merge : Dict V → Dict V → Dict V
  unfolding insert
  merge d [] = d
  merge d ((k, v) ∷ e) = merge (insert k v d) e

  pub lookup-insert :
      (k j : String) (v : V) (d : Dict V)
      → lookup j (insert k v d) ≡ (if str_eq k j then some v else lookup j d)
  unfolding lookup insert
  lookup-insert k j v [] = refl
  lookup-insert k j v ((i, w) ∷ d) =
      ground (arith, eq_iff k j, eq_iff i k, eq_iff i j, lookup-insert k j v d)

  pub lookup-insert_self : (k : String) (v : V) (d : Dict V) → lookup k (insert k v d) ≡ some v
  lookup-insert_self k v d = simp (lookup-insert, eq_refl)

  pub lookup-none : (k : String) (d : Dict V) → contains k d ≡ false → lookup k d ≡ none
  unfolding lookup contains
  lookup-none k [] h = refl
  lookup-none k ((j, v) ∷ d) h = ground (arith, lookup-none k d)

  pub lookup-some :
      (k : String) (d : Dict V) → contains k d ≡ true → (v : V) × (lookup k d ≡ some v)
  unfolding lookup contains
  lookup-some k [] h = cc
  lookup-some k ((j, v) ∷ d) h = elim (Bool-cases (str_eq j k)) [
    | inl same ↦ (v, rw same)
    | inr other ↦ rw other (lookup-some k d (rw other at h))
  ]

  pub contains-insert :
      (k j : String) (v : V) (d : Dict V)
      → contains j (insert k v d) ≡ (if str_eq k j then true else contains j d)
  unfolding contains insert
  contains-insert k j v [] = refl
  contains-insert k j v ((i, w) ∷ d) =
      ground (arith, eq_iff k j, eq_iff i k, eq_iff i j, contains-insert k j v d)

-- No key stands twice.
abbrev pub Distinct : List String → Type 0
Distinct [] = Unit
Distinct (k ∷ ks) = (elem k ks ≡ false) × Distinct ks

pub elem-append :
    (k : String) (xs ys : List String) → elem k (xs ++ ys) ≡ (if elem k xs then true else elem k ys)
unfolding elem
elem-append k [] ys = refl
elem-append k (x ∷ xs) ys = ground (arith, elem-append k xs ys)

pub elem-middle :
    (k a : String) (xs ys : List String)
    → elem k (xs ++ a ∷ ys) ≡ (if str_eq a k then true else elem k (xs ++ ys))
unfolding elem
elem-middle k a [] ys = refl
elem-middle k a (x ∷ xs) ys = ground (arith, elem-middle k a xs ys)

pub Distinct-middle :
    (a : String) (xs ys : List String)
    → elem a (xs ++ ys) ≡ false
    → Distinct (xs ++ ys)
    → Distinct (xs ++ a ∷ ys)
unfolding elem
Distinct-middle a [] ys h d = (h, d)
Distinct-middle a (x ∷ xs) ys h d =
    ground (arith, eq_iff x a, eq_iff a x, elem-middle x a xs ys, Distinct-middle a xs ys)

pub keys-insert_new {ℓ} :
    {V : Type ℓ} (k : String) (v : V) (d : Dict V)
    → elem k (keys d) ≡ false
    → keys (insert k v d) ≡ keys d ++ k ∷ []
unfolding keys insert elem
keys-insert_new k v [] h = refl
keys-insert_new k v ((j, w) ∷ d) h = ground (arith, keys-insert_new k v d)

pub Distinct-snoc :
    (a : String) (xs : List String) → elem a xs ≡ false → Distinct xs → Distinct (xs ++ a ∷ [])
Distinct-snoc a xs h d = Distinct-middle a xs [] (rw append-nil h) (rw append-nil d)

pub Distinct-split :
    (a : String) (xs ys : List String)
    → Distinct (xs ++ a ∷ ys)
    → (elem a (xs ++ ys) ≡ false) × Distinct (xs ++ ys)
unfolding elem
Distinct-split a [] ys d = d
Distinct-split a (x ∷ xs) ys d =
    let (h, rest) = Distinct-split a xs ys d.1 in
    ground (arith, eq_iff x a, eq_iff a x, elem-middle x a xs ys)

pub Distinct-left : (xs ys : List String) → Distinct (xs ++ ys) → Distinct xs
unfolding elem
Distinct-left [] ys d = tt
Distinct-left (x ∷ xs) ys d = ground (arith, elem-append x xs ys, Distinct-left xs ys d.1)
