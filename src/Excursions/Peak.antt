-- ===== src/Excursions/Peak.antt =====
-- windows_agent/worker/excursion_tracker.py: the maximum that one stored extremum takes.
use mathlib.Core.List.{Memᴰ}
use tradejournal_mt5_cloud_w.Prelude.{
  ℕ, ◌≡◌, refl, true, false, some, List, [], ◌∷◌, if◌then◌else◌, Bool-cases, inl, inr, All,
}
use tradejournal_mt5_cloud_w.Value.{float, truthy}
use tradejournal_mt5_cloud_w.Value.Compare.{is_finite}
use tradejournal_mt5_cloud_w.Value.Order.{lt_trans, lt_irrefl, lt_asym, lt-zero_right}
use tradejournal_mt5_cloud_w.Excursions.{flt, fmax, or_zero}

-- The greatest of zero and the deltas.
pub record IsPeak (peak : ℕ) (deltas : List ℕ) : Type 0 where
  pub is_number : is_finite (float peak) ≡ true
  pub not_negative : flt peak 0 ≡ false
  pub not_below : All (λ delta. flt peak delta ≡ false) deltas
  pub attained : Memᴰ peak (0 ∷ deltas)

-- What a state holds for an extremum after one more value.
unfoldable pub raise : ℕ → ℕ → ℕ
raise old value = if flt value old then old else or_zero (some value)

not_below_tail :
    (old new : ℕ) (deltas : List ℕ)
    → is_finite (float old) ≡ true
    → flt new old ≡ false
    → All (λ delta. flt old delta ≡ false) deltas
    → All (λ delta. flt new delta ≡ false) deltas
not_below_tail old new [] f h p = tt
not_below_tail old new (delta ∷ deltas) f h p =
    (lt_trans new old delta f h p.0, not_below_tail old new deltas f h p.1)

attained_later :
    (peak delta : ℕ) (deltas : List ℕ) → Memᴰ peak (0 ∷ deltas) → Memᴰ peak (0 ∷ delta ∷ deltas)
attained_later peak delta deltas (Memᴰ.head e) = Memᴰ.head e
attained_later peak delta deltas (Memᴰ.tail m) = Memᴰ.tail (Memᴰ.tail m)

pub nothing-IsPeak : IsPeak 0 []
nothing-IsPeak = record {
  is_number = unfold is_finite in refl;
  not_negative = lt_irrefl 0;
  not_below = tt;
  attained = Memᴰ.head refl;
}

truthy-positive : (delta : ℕ) → flt 0 delta ≡ true → truthy (float delta) ≡ true
truthy-positive delta h = elim (Bool-cases (truthy (float delta))) [
  | inl t ↦ t
  | inr z ↦ let e = lt-zero_right delta 0 z in let i = lt_irrefl 0 in cc
]

-- The maximum of zero and a delta, as it is stored.
or_zero-fmax : (delta : ℕ) → or_zero (some (fmax 0 delta)) ≡ fmax 0 delta
unfolding fmax or_zero
or_zero-fmax delta = elim (Bool-cases (flt 0 delta)) [
  | inl positive ↦ rw (positive, truthy-positive delta positive) refl
  | inr other ↦ rw other (unfold truthy in refl)
]

pub fmax-finite :
    (delta : ℕ) → is_finite (float delta) ≡ true → is_finite (float (fmax 0 delta)) ≡ true
unfolding fmax
fmax-finite delta f = elim (Bool-cases (flt 0 delta)) [
  | inl positive ↦ rw positive f
  | inr other ↦ rw other (unfold is_finite in refl)
]

fmax-not_below : (delta : ℕ) → (flt (fmax 0 delta) 0 ≡ false) × (flt (fmax 0 delta) delta ≡ false)
unfolding fmax
fmax-not_below delta = elim (Bool-cases (flt 0 delta)) [
  | inl positive ↦ rw positive (lt_asym 0 delta positive, lt_irrefl delta)
  | inr other ↦ rw other (lt_irrefl 0, other)
]

fmax-attained : (delta : ℕ) (deltas : List ℕ) → Memᴰ (fmax 0 delta) (0 ∷ delta ∷ deltas)
unfolding fmax
fmax-attained delta deltas = elim (Bool-cases (flt 0 delta)) [
  | inl positive ↦ rw positive (Memᴰ.tail (Memᴰ.head refl))
  | inr other ↦ rw other (Memᴰ.head refl)
]

pub raise-IsPeak :
    (old delta : ℕ) (deltas : List ℕ)
    → IsPeak old deltas
    → is_finite (float delta) ≡ true
    → IsPeak (raise old (fmax 0 delta)) (delta ∷ deltas)
unfolding raise
raise-IsPeak old delta deltas p f =
    let finite_max = fmax-finite delta f in
    let (nonnegative, above) = fmax-not_below delta in
    elim (Bool-cases (flt (fmax 0 delta) old)) [
      | inl lower ↦ rw lower (record {
        is_number = p.is_number;
        not_negative = p.not_negative;
        not_below =
            (lt_trans old (fmax 0 delta) delta finite_max (lt_asym _ _ lower) above, p.not_below);
        attained = attained_later old delta deltas p.attained;
      })
      | inr higher ↦
          rw (higher, or_zero-fmax delta)
            (record {
              is_number = finite_max;
              not_negative = nonnegative;
              not_below = (above, not_below_tail old _ deltas p.is_number higher p.not_below);
              attained = fmax-attained delta deltas;
            })
    ]
