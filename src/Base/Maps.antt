-- ===== src/Base/Maps.antt =====
-- `Map` of the sources: an association list in insertion order; `set` on a key that is present
-- replaces its value in place.
use mathlib.Core.Path.{◌≡◌, refl, sym, ap, ◌∙◌}
use mathlib.Core.Option.{Option, none, some}
use mathlib.Core.List.{List, [], ◌∷◌, Memᴰ}
use native.Mathlib.Omega.{arith}
use mathlib.Core.Logic.{◌≢◌, inl, inr}
use gldaassurance.Base.Tests.{
  Equality, ◌==◌, ==_iff, ==_refl, if◌then◌else◌, Bool-cases, some_inj, none-ne-some,
}

module _ {ℓ κ} {K : Type ℓ} {V : Type κ} ⦃e : Equality K⦄ where
  -- `get`
  unfoldable pub get : List (K × V) → K → Option V
  get [] k = none
  get ((j, v) ∷ m) k = if j == k then some v else get m k

  -- `set`
  unfoldable pub put : K → V → List (K × V) → List (K × V)
  put k v [] = (k, v) ∷ []
  put k v ((j, w) ∷ m) = if j == k then (k, v) ∷ m else (j, w) ∷ put k v m

  pub get-put_self : (k : K) (v : V) (m : List (K × V)) → get (put k v m) k ≡ some v
  unfolding get put
  get-put_self k v [] = rw (==_refl k)
  get-put_self k v ((j, w) ∷ m) = elim (Bool-cases (j == k)) [
    | inl same ↦ rw (same, ==_refl k)
    | inr other ↦ rw (other, other) (get-put_self k v m)
  ]

  pub get-put_ne : (k j : K) (v : V) (m : List (K × V)) → k ≢ j → get (put k v m) j ≡ get m j
  unfolding get put
  get-put_ne k j v [] ne = ground (arith, ==_iff k j)
  get-put_ne k j v ((i, w) ∷ m) ne =
      ground (arith, ==_iff k j, ==_iff i k, ==_iff i j, get-put_ne k j v m ne)

  -- The law of `set` in one equation.
  pub get-put :
      (k j : K) (v : V) (m : List (K × V))
      → get (put k v m) j ≡ (if k == j then some v else get m j)
  get-put k j v m = elim (Bool-cases (k == j)) [
    | inl same ↦ let p : k ≡ j = (==_iff k j).0 same in rw (same, ← p) (get-put_self k v m)
    | inr other ↦ rw other (get-put_ne k j v m (λ p. ground (arith, ==_iff k j)))
  ]

  -- No key stands twice.
  abbrev pub HasDistinctKeys : List (K × V) → Type κ
  HasDistinctKeys [] = Unit
  HasDistinctKeys ((k, v) ∷ m) = (get m k ≡ none) × HasDistinctKeys m

  pub put-HasDistinctKeys :
      (k : K) (v : V) (m : List (K × V)) → HasDistinctKeys m → HasDistinctKeys (put k v m)
  unfolding get put
  put-HasDistinctKeys k v [] d = (refl, tt)
  put-HasDistinctKeys k v ((j, w) ∷ m) d = elim (Bool-cases (j == k)) [
    | inl same ↦ rw same (rw (← (==_iff j k).0 same) d.0, d.1)
    | inr other ↦
        rw other (
          get-put_ne k j v m (λ p. ground (arith, ==_iff j k)) ∙ d.0,
          put-HasDistinctKeys k v m d.1,
        )
  ]

  pub mem_of_get : (m : List (K × V)) (k : K) (v : V) → get m k ≡ some v → Memᴰ (k, v) m
  unfolding get
  mem_of_get [] k v h = absurd (cc)
  mem_of_get ((j, w) ∷ m) k v h = elim (Bool-cases (j == k)) [
    | inl same ↦ Memᴰ.head (
        let e : j ≡ k = (==_iff j k).0 same in
        let f : w ≡ v = some_inj w v (rw same at h) in λ i. (sym e i, sym f i))
    | inr other ↦ Memᴰ.tail (mem_of_get m k v (rw other at h))
  ]

  pub get_of_mem :
      (m : List (K × V)) (k : K) (v : V) → HasDistinctKeys m → Memᴰ (k, v) m → get m k ≡ some v
  unfolding get
  get_of_mem [] k v d h = elim h [ ]
  get_of_mem ((j, w) ∷ m) k v d (Memᴰ.head e) =
      let p : k ≡ j = ap (λ x. x.0) e in rw ((==_iff j k).1 (sym p)) (ap (λ x. some x.1) (sym e))
  get_of_mem ((j, w) ∷ m) k v d (Memᴰ.tail h) = elim (Bool-cases (j == k)) [
    | inl same ↦
        absurd
          (none-ne-some v (sym d.0 ∙ ap (get m) ((==_iff j k).0 same) ∙ get_of_mem m k v d.1 h))
    | inr other ↦ rw other (get_of_mem m k v d.1 h)
  ]
