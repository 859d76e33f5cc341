-- ===== src/Prelude/Count.antt =====
-- How often a test holds in a list.
use Prim.Native.Nat.{ℕ, ◌+◌}
use Prim.Native.String.{String}
use mathlib.Core.Path.{◌≡◌, refl}
use mathlib.Core.Bool.{Bool, true, false}
use mathlib.Core.List.{List, [], ◌∷◌, ◌++◌, flat_map}
use native.Mathlib.Omega.{arith}
use text.Mathlib.TextEquality.{eq_iff}
use tradejournal_mt5_cloud_w.Prelude.Tests.{str_eq, if◌then◌else◌}
use tradejournal_mt5_cloud_w.Prelude.Dict.{elem, Distinct}

module _ {ℓ} {A : Type ℓ} where
  unfoldable pub count : (A → Bool) → List A → ℕ
  count p [] = 0
  count p (x ∷ xs) = (if p x then 1 else 0) + count p xs

  pub count-append : (p : A → Bool) (xs ys : List A) → count p (xs ++ ys) ≡ count p xs + count p ys
  unfolding count
  count-append p [] ys = omega arith
  count-append p (x ∷ xs) ys = omega (arith, count-append p xs ys)

  pub count-if :
      (p : A → Bool) (b : Bool) (xs ys : List A)
      → count p (if b then xs else ys) ≡ (if b then count p xs else count p ys)
  count-if p true xs ys = refl
  count-if p false xs ys = refl

  pub count-nil : (p : A → Bool) → count p [] ≡ 0
  unfolding count
  count-nil p = refl

  -- A loop over keys that never yields a hit away from `k` has the hits of `k`'s own round.
  module _ (p : A → Bool) (k : String) (body : String → List A) where
    abbrev pub Silent : Type 0
    Silent = (j : String) → str_eq j k ≡ false → count p (body j) ≡ 0

    pub count-flat_map_absent :
        (ks : List String) → Silent → elem k ks ≡ false → count p (flat_map body ks) ≡ 0
    unfolding elem flat_map count
    count-flat_map_absent [] silent h = refl
    count-flat_map_absent (j ∷ ks) silent h = ground (
      arith,
      silent j,
      count-append p (body j) (flat_map body ks),
      count-flat_map_absent ks silent,
    )

    pub count-flat_map :
        (ks : List String)
        → Silent
        → Distinct ks
        → count p (flat_map body ks) ≡ (if elem k ks then count p (body k) else 0)
    unfolding elem flat_map count
    count-flat_map [] silent d = refl
    count-flat_map (j ∷ ks) silent d = ground (
      arith,
      eq_iff j k,
      silent j,
      count-append p (body j) (flat_map body ks),
      count-flat_map_absent ks silent,
      count-flat_map ks silent d.1,
    )
