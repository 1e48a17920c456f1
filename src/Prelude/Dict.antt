-- ===== src/Prelude/Dict.antt =====
-- A JavaScript `Map` with text keys: an association list in insertion order.
use Prim.Native.String.{String}
use mathlib.Core.Path.{◌≡◌, refl, sym, subst₂}
use mathlib.Core.Bool.{Bool, true, false}
use mathlib.Core.Option.{Option, none, some}
use mathlib.Core.List.{List, [], ◌∷◌}
use native.Mathlib.Omega.{arith}
use text.Mathlib.Text.{◌==◌}
use text.Mathlib.TextEquality.{eq_iff}
use text.Mathlib.TextPositions.{eq_refl}
use mathlib.Core.Logic.{inl, inr, ◌≢◌}
use pair_dock.Prelude.Tests.{if◌then◌else◌, Bool-cases, ne_of_==-false, ==-false_of_ne}
use pair_dock.Prelude.Lists.{All, find}

-- A dictionary, by the type of its values.
abbrev pub Dict {ℓ} : Type ℓ → Type ℓ
Dict V = List (String × V)

module _ {ℓ} {V : Type ℓ} where
  unfoldable pub get : String → Dict V → Option V
  get key [] = none
  get key ((k, v) ∷ entries) = if k == key then some v else get key entries

  -- `Map.set`: in place for a known key, at the end for a new one.
  unfoldable pub set : String → V → Dict V → Dict V
  set key value [] = (key, value) ∷ []
  set key value ((k, v) ∷ entries) =
      let rest = set key value entries in if k == key then (key, value) ∷ entries else (k, v) ∷ rest

  unfoldable pub delete : String → Dict V → Dict V
  delete key [] = []
  delete key ((k, v) ∷ entries) =
      let rest = delete key entries in if k == key then rest else (k, v) ∷ rest

  -- The three keys that a look-up behind an update compares.
  module _ (key other : String) where
    pub get-delete :
        (m : Dict V) → get other (delete key m) ≡ (if key == other then none else get other m)
    unfolding get delete
    get-delete [] = ground arith
    get-delete ((k, v) ∷ m) =
        ground (arith, get-delete m, eq_iff k key, eq_iff k other, eq_iff key other)

    pub get-set :
        (value : V) (m : Dict V)
        → get other (set key value m) ≡ (if key == other then some value else get other m)
    unfolding get set
    get-set value [] = refl
    get-set value ((k, v) ∷ m) =
        ground (arith, get-set value m, eq_iff k key, eq_iff k other, eq_iff key other)

  pub get-set_self : (k : String) (v : V) (m : Dict V) → get k (set k v m) ≡ some v
  get-set_self k v m = simp (get-set, eq_refl)

  pub get-delete_self : (k : String) (m : Dict V) → get k (delete k m) ≡ none
  get-delete_self k m = simp (get-delete, eq_refl)

module _ {ℓ κ} {V : Type ℓ} (P : String → V → Type κ) where
  -- What holds of every entry.
  abbrev pub AllEntries : Dict V → Type κ
  AllEntries = All (λ e. P e.0 e.1)

  pub set-AllEntries :
      (k : String) (v : V) (m : Dict V) → AllEntries m → P k v → AllEntries (set k v m)
  unfolding set
  set-AllEntries k v [] h p = (p, tt)
  set-AllEntries k v ((j, w) ∷ m) (q, h) p = ground (arith, set-AllEntries k v m h p)

  pub delete-AllEntries : (k : String) (m : Dict V) → AllEntries m → AllEntries (delete k m)
  unfolding delete
  delete-AllEntries k [] h = tt
  delete-AllEntries k ((j, w) ∷ m) (q, h) = ground (arith, delete-AllEntries k m h)

  pub get-AllEntries : (k : String) (m : Dict V) {v : V} → AllEntries m → get k m ≡ some v → P k v
  unfolding get
  get-AllEntries k [] h e = cc
  get-AllEntries k ((j, w) ∷ m) {v} (q, h) e = elim (Bool-cases (j == k)) [
    | inl same ↦
        let key : j ≡ k = (eq_iff j k).0 same in
        let value : w ≡ v = ground arith in subst₂ P key value q
    | inr other ↦ get-AllEntries k m h (rw other at e)
  ]

-- The keys of a `Map` are distinct.
abbrev pub Fresh {ℓ} : {V : Type ℓ} → String → Dict V → Type 0
Fresh key = AllEntries (λ k v. k ≢ key)

abbrev pub Distinct {ℓ} : {V : Type ℓ} → Dict V → Type 0
Distinct [] = Unit
Distinct ((k, v) ∷ m) = Fresh k m × Distinct m

-- `[...map.values()]`.
abbrev pub values {ℓ} : {V : Type ℓ} → Dict V → List V
values [] = []
values ((k, v) ∷ m) = v ∷ values m

module _ {ℓ} {V : Type ℓ} where
  pub set-Distinct : (k : String) (v : V) (m : Dict V) → Distinct m → Distinct (set k v m)
  unfolding set
  set-Distinct k v [] d = (tt, tt)
  set-Distinct k v ((j, w) ∷ m) (fresh, d) = elim (Bool-cases (j == k)) [
    | inl same ↦ rw same (rw (← (eq_iff j k).0 same) fresh, d)
    | inr other ↦ rw other (
      set-AllEntries (λ i x. i ≢ j) k v m fresh (λ e. ne_of_==-false j k other (sym e)),
      set-Distinct k v m d,
    )
  ]

  pub delete-Distinct : (k : String) (m : Dict V) → Distinct m → Distinct (delete k m)
  unfolding delete
  delete-Distinct k [] d = tt
  delete-Distinct k ((j, w) ∷ m) (fresh, d) = elim (Bool-cases (j == k)) [
    | inl same ↦ rw same (delete-Distinct k m d)
    | inr other ↦ rw other (delete-AllEntries (λ i x. i ≢ j) k m fresh, delete-Distinct k m d)
  ]

  -- What a search through the values finds is the value of a key.
  pub find-values :
      (p : V → Bool) (m : Dict V) {v : V}
      → Distinct m
      → find p (values m) ≡ some v
      → (k : String) × (get k m ≡ some v) × (p v ≡ true)
  unfolding get
  find-values p [] d h = cc
  find-values p ((j, w) ∷ m) {v} (fresh, d) h = elim (Bool-cases (p w)) [
    | inl hit ↦ let same : w ≡ v = ground arith in (j, rw (eq_refl j, same), rw (← same) hit)
    | inr miss ↦
        let (k, found, holds) = find-values p m d (rw miss at h) in
        (
          k,
          rw (==-false_of_ne j k (λ e. get-AllEntries (λ i x. i ≢ j) k m fresh found (sym e)))
              found,
          holds,
        )
  ]

  -- A search that finds nothing has seen the value of every key.
  pub find-values-none :
      (p : V → Bool) (m : Dict V) (k : String) {v : V}
      → find p (values m) ≡ none
      → get k m ≡ some v
      → p v ≡ false
  unfolding get
  find-values-none p [] k h e = cc
  find-values-none p ((j, w) ∷ m) k {v} h e = elim (Bool-cases (p w)) [
    | inl hit ↦ absurd (ground arith)
    | inr miss ↦ elim (Bool-cases (j == k)) [
      | inl same ↦ let value : w ≡ v = ground arith in rw (← value) miss
      | inr other ↦ find-values-none p m k (rw miss at h) (rw other at e)
    ]
  ]

-- What holds of the value of every key holds of every entry.
pub AllEntries-get {ℓ κ} :
    {V : Type ℓ} (P : String → V → Type κ) (m : Dict V)
    → Distinct m
    → ((k : String) (v : V) → get k m ≡ some v → P k v)
    → AllEntries P m
unfolding get
AllEntries-get P [] d h = tt
AllEntries-get P ((j, w) ∷ m) (fresh, d) h = (
  h j w (rw (eq_refl j) refl),
  AllEntries-get P m d (λ k v found.
      h k v (
        rw (==-false_of_ne j k (λ e. get-AllEntries (λ i x. i ≢ j) k m fresh found (sym e)))
          found)),
)
