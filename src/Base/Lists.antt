-- ===== src/Base/Lists.antt =====
-- Array methods of the sources as functions on lists: `includes`, `filter`, `find`, `some`, `every`.
use Prim.Native.Nat.{ℕ, zero, suc, ◌+◌, ◌≤◌, ◌-◌}
use mathlib.Core.Path.{◌≡◌, refl, sym, subst, ap, ◌∙◌}
use mathlib.Core.Logic.{◌↔◌, ◌⊎◌, inl, inr}
use mathlib.Core.Bool.{Bool, true, false, ◌&&◌, ◌||◌}
use mathlib.Core.Option.{Option, none, some}
use mathlib.Core.List.{List, [], ◌∷◌, ◌++◌, map, Memᴰ, Permᴰ}
use native.Mathlib.Omega.{arith}
use gldaassurance.Base.Tests.{Equality, ◌==◌, ==_iff, if◌then◌else◌, Bool-cases}

module _ {ℓ} {A : Type ℓ} where
  abbrev pub length : List A → ℕ
  length [] = 0
  length (x ∷ xs) = suc (length xs)

  abbrev pub get_elem? : List A → ℕ → Option A
  get_elem? [] i = none
  get_elem? (x ∷ xs) zero = some x
  get_elem? (x ∷ xs) (suc i) = get_elem? xs i

  abbrev pub filter : (A → Bool) → List A → List A
  filter p [] = []
  filter p (x ∷ xs) = if p x then x ∷ filter p xs else filter p xs

  abbrev pub find : (A → Bool) → List A → Option A
  find p [] = none
  find p (x ∷ xs) = if p x then some x else find p xs

  -- `some`
  abbrev pub any : (A → Bool) → List A → Bool
  any p [] = false
  any p (x ∷ xs) = p x || any p xs

  -- `every`
  abbrev pub all : (A → Bool) → List A → Bool
  all p [] = true
  all p (x ∷ xs) = p x && all p xs

  pub length-append : (xs ys : List A) → length (xs ++ ys) ≡ length xs + length ys
  length-append [] ys = omega arith
  length-append (x ∷ xs) ys = omega (arith, length-append xs ys)

  pub get_elem?-append_last :
      (xs : List A) (y a : A) (i : ℕ)
      → get_elem? (xs ++ y ∷ []) i ≡ some a
      → (get_elem? xs i ≡ some a) ⊎ ((i ≡ length xs) × (y ≡ a))
  get_elem?-append_last [] y a zero h = ground arith
  get_elem?-append_last [] y a (suc i) h = ground arith
  get_elem?-append_last (x ∷ xs) y a zero h = inl h
  get_elem?-append_last (x ∷ xs) y a (suc i) h = ground (arith, get_elem?-append_last xs y a i h)

  pub length-filter_le : (p : A → Bool) (xs : List A) → length (filter p xs) ≤ length xs
  length-filter_le p [] = omega arith
  length-filter_le p (x ∷ xs) = ground (arith, length-filter_le p xs)

module _ {ℓ κ} {A : Type ℓ} (P : A → Type κ) where
  -- Every element satisfies `P`.
  abbrev pub All : List A → Type κ
  All [] = Unit
  All (x ∷ xs) = P x × All xs

  pub All-append : (xs ys : List A) → All xs → All ys → All (xs ++ ys)
  All-append [] ys h k = k
  All-append (x ∷ xs) ys h k = (h.0, All-append xs ys h.1 k)

  pub All-mem : {a : A} (xs : List A) → All xs → Memᴰ a xs → P a
  All-mem [] h m = elim m [ ]
  All-mem (x ∷ xs) h (Memᴰ.head e) = subst P (sym e) h.0
  All-mem (x ∷ xs) h (Memᴰ.tail m) = All-mem xs h.1 m

  pub All-of_mem : (xs : List A) → ((a : A) → Memᴰ a xs → P a) → All xs
  All-of_mem [] h = tt
  All-of_mem (x ∷ xs) h = (h x (Memᴰ.head refl), All-of_mem xs (λ a m. h a (Memᴰ.tail m)))

  pub All-filter : (p : A → Bool) (xs : List A) → All xs → All (filter p xs)
  All-filter p [] h = tt
  All-filter p (x ∷ xs) h = elim (Bool-cases (p x)) [
    | inl keep ↦ rw (keep, filter) (h.0, All-filter p xs h.1)
    | inr drop ↦ rw (drop, filter) (All-filter p xs h.1)
  ]

module _ {ℓ} {A : Type ℓ} where
  pub Memᴰ-step :
      {a x : A} {xs ys : List A} → (Memᴰ a xs → Memᴰ a ys) → Memᴰ a (x ∷ xs) → Memᴰ a (x ∷ ys)
  Memᴰ-step f (Memᴰ.head e) = Memᴰ.head e
  Memᴰ-step f (Memᴰ.tail m) = Memᴰ.tail (f m)

  pub All-filter_test : (p : A → Bool) (xs : List A) → All (λ a. p a ≡ true) (filter p xs)
  All-filter_test p [] = tt
  All-filter_test p (x ∷ xs) = elim (Bool-cases (p x)) [
    | inl keep ↦ rw (keep, filter) (keep, All-filter_test p xs)
    | inr drop ↦ rw (drop, filter) (All-filter_test p xs)
  ]

  pub mem_of_mem-filter : (p : A → Bool) {a : A} (xs : List A) → Memᴰ a (filter p xs) → Memᴰ a xs
  mem_of_mem-filter p [] m = m
  mem_of_mem-filter p (x ∷ xs) m = elim (Bool-cases (p x)) [
    | inl keep ↦ Memᴰ-step (mem_of_mem-filter p xs) (rw keep at m)
    | inr drop ↦ Memᴰ.tail (mem_of_mem-filter p xs (rw drop at m))
  ]

  pub mem-filter :
      (p : A → Bool) {a : A} (xs : List A) → Memᴰ a xs → p a ≡ true → Memᴰ a (filter p xs)
  mem-filter p [] m h = m
  mem-filter p (x ∷ xs) (Memᴰ.head e) h =
      let kept : p x ≡ true = ap p (sym e) ∙ h in rw kept (Memᴰ.head e)
  mem-filter p (x ∷ xs) (Memᴰ.tail m) h = elim (Bool-cases (p x)) [
    | inl keep ↦ rw keep (Memᴰ.tail (mem-filter p xs m h))
    | inr drop ↦ rw drop (mem-filter p xs m h)
  ]

  pub mem-filter_iff :
      (p : A → Bool) (a : A) (xs : List A) → Memᴰ a (filter p xs) ↔ (Memᴰ a xs × (p a ≡ true))
  mem-filter_iff p a xs = (
    λ m. (
      mem_of_mem-filter p xs m,
      All-mem (λ x. p x ≡ true) (filter p xs) (All-filter_test p xs) m,
    ),
    λ (m, h). mem-filter p xs m h,
  )

  pub mem_of_perm : {a : A} {xs ys : List A} → Permᴰ xs ys → Memᴰ a xs → Memᴰ a ys
  mem_of_perm Permᴰ.nil m = m
  mem_of_perm (Permᴰ.cons p d) (Memᴰ.head e) = Memᴰ.head (e ∙ p)
  mem_of_perm (Permᴰ.cons p d) (Memᴰ.tail m) = Memᴰ.tail (mem_of_perm d m)
  mem_of_perm (Permᴰ.swap p q) (Memᴰ.head e) = Memᴰ.tail (Memᴰ.head (e ∙ p))
  mem_of_perm (Permᴰ.swap p q) (Memᴰ.tail (Memᴰ.head e)) = Memᴰ.head (e ∙ q)
  mem_of_perm (Permᴰ.swap p q) (Memᴰ.tail (Memᴰ.tail m)) = Memᴰ.tail (Memᴰ.tail m)
  mem_of_perm (Permᴰ.trans d e) m = mem_of_perm e (mem_of_perm d m)

  pub mem-map {κ} :
      {B : Type κ} (f : A → B) {a : A} (xs : List A) → Memᴰ a xs → Memᴰ (f a) (map f xs)
  mem-map f [] m = elim m [ ]
  mem-map f (x ∷ xs) (Memᴰ.head e) = Memᴰ.head (ap f e)
  mem-map f (x ∷ xs) (Memᴰ.tail m) = Memᴰ.tail (mem-map f xs m)

  pub mem_of_mem-map {κ} :
      {B : Type κ} (f : A → B) (b : B) (xs : List A)
      → Memᴰ b (map f xs)
      → (a : A) × Memᴰ a xs × (b ≡ f a)
  mem_of_mem-map f b [] m = elim m [ ]
  mem_of_mem-map f b (x ∷ xs) (Memᴰ.head e) = (x, Memᴰ.head refl, e)
  mem_of_mem-map f b (x ∷ xs) (Memᴰ.tail m) =
      let (a, old, e) = mem_of_mem-map f b xs m in (a, Memᴰ.tail old, e)

  pub find-test : (p : A → Bool) (a : A) (xs : List A) → find p xs ≡ some a → p a ≡ true
  find-test p a [] h = cc
  find-test p a (x ∷ xs) h = ground (arith, find-test p a xs)

  pub find-mem : (p : A → Bool) (a : A) (xs : List A) → find p xs ≡ some a → Memᴰ a xs
  find-mem p a [] h = cc
  find-mem p a (x ∷ xs) h = elim (Bool-cases (p x)) [
    | inl hit ↦ Memᴰ.head (ground arith)
    | inr miss ↦ Memᴰ.tail (find-mem p a xs (rw miss at h))
  ]

  pub find-none : (p : A → Bool) (xs : List A) → find p xs ≡ none → All (λ a. p a ≡ false) xs
  find-none p [] h = tt
  find-none p (x ∷ xs) h = elim (Bool-cases (p x)) [
    | inl hit ↦ absurd (ground arith)
    | inr miss ↦ (miss, find-none p xs (rw miss at h))
  ]

  pub all_iff : (p : A → Bool) (xs : List A) → (all p xs ≡ true) ↔ All (λ a. p a ≡ true) xs
  all_iff p [] = ground arith
  all_iff p (x ∷ xs) = ground (arith, all_iff p xs)

  pub any_iff :
      (p : A → Bool) (xs : List A) → (any p xs ≡ true) ↔ ((a : A) × Memᴰ a xs × (p a ≡ true))
  any_iff p xs = (to xs, λ (a, m, h). from xs a m h)
    where
      to : (l : List A) → any p l ≡ true → (a : A) × Memᴰ a l × (p a ≡ true)
      to [] h = absurd (ground arith)
      to (x ∷ l) h = elim (Bool-cases (p x)) [
        | inl hit ↦ (x, Memᴰ.head refl, hit)
        | inr miss ↦ let (a, m, k) = to l (ground arith) in (a, Memᴰ.tail m, k)
      ]

      from : (l : List A) (a : A) → Memᴰ a l → p a ≡ true → any p l ≡ true
      from [] a m h = elim m [ ]
      from (x ∷ l) a (Memᴰ.head e) h = let k : p x ≡ true = ap p (sym e) ∙ h in rw k
      from (x ∷ l) a (Memᴰ.tail m) h = let ih = from l a m h in ground arith

  pub any-false_iff : (p : A → Bool) (xs : List A) → (any p xs ≡ false) ↔ All (λ a. p a ≡ false) xs
  any-false_iff p [] = ground arith
  any-false_iff p (x ∷ xs) = ground (arith, any-false_iff p xs)

-- `includes`
module _ {ℓ} {A : Type ℓ} ⦃e : Equality A⦄ where
  abbrev pub contains : List A → A → Bool
  contains [] a = false
  contains (x ∷ xs) a = x == a || contains xs a

  pub contains_iff : (xs : List A) (a : A) → (contains xs a ≡ true) ↔ Memᴰ a xs
  contains_iff xs a = (to xs, from xs)
    where
      to : (l : List A) → contains l a ≡ true → Memᴰ a l
      to [] h = absurd (ground arith)
      to (x ∷ l) h = elim (Bool-cases (x == a)) [
        | inl same ↦ Memᴰ.head (sym ((==_iff x a).0 same))
        | inr other ↦ Memᴰ.tail (to l (ground arith))
      ]

      from : (l : List A) → Memᴰ a l → contains l a ≡ true
      from [] m = elim m [ ]
      from (x ∷ l) (Memᴰ.head p) = rw ((==_iff x a).1 (sym p))
      from (x ∷ l) (Memᴰ.tail m) = let ih = from l m in ground arith

-- `new Set(values)`, as the list of its elements.
unfoldable pub distinct {ℓ} : {A : Type ℓ} ⦃e : Equality A⦄ → List A → List A
distinct [] = []
distinct (x ∷ xs) = x ∷ filter (λ y. if y == x then false else true) (distinct xs)

pub filter-none {ℓ} :
    {A : Type ℓ} (p : A → Bool) (xs : List A) → All (λ a. p a ≡ false) xs → filter p xs ≡ []
filter-none p [] h = refl
filter-none p (x ∷ xs) h = rw h.0 (filter-none p xs h.1)

-- The values that are given, of a list that may lack some.
abbrev pub given_values {ℓ} : {A : Type ℓ} → List (Option A) → List A
given_values [] = []
given_values (none ∷ rest) = given_values rest
given_values (some a ∷ rest) = a ∷ given_values rest

pub length_of_perm {ℓ} : {A : Type ℓ} {xs ys : List A} → Permᴰ xs ys → length xs ≡ length ys
length_of_perm Permᴰ.nil = refl
length_of_perm (Permᴰ.cons e d) = ap suc (length_of_perm d)
length_of_perm (Permᴰ.swap e f) = refl
length_of_perm (Permᴰ.trans d e) = length_of_perm d ∙ length_of_perm e

pub nil_append {ℓ} : {A : Type ℓ} (xs ys : List A) → (xs ++ ys ≡ []) ↔ ((xs ≡ []) × (ys ≡ []))
nil_append [] ys = (λ h. (refl, h), λ h. h.1)
nil_append (x ∷ xs) ys = (λ h. absurd (cc), λ h. absurd (cc (h.0)))

pub unless_nil {ℓ} :
    {A : Type ℓ} (b : Bool) (x : A) → ((if b then [] else x ∷ []) ≡ []) ↔ (b ≡ true)
unless_nil true x = (λ _. refl, λ _. refl)
unless_nil false x = (λ h. absurd (cc), λ h. absurd (cc))

-- Several lists, one behind the other.
abbrev pub joined {ℓ} : {A : Type ℓ} → List (List A) → List A
joined [] = []
joined (xs ∷ lists) = xs ++ joined lists

pub joined-nil_iff {ℓ} :
    {A : Type ℓ} (lists : List (List A)) → (joined lists ≡ []) ↔ All (λ xs. xs ≡ []) lists
joined-nil_iff [] = (λ _. tt, λ _. refl)
joined-nil_iff (xs ∷ lists) =
    let (split, join) = nil_append xs (joined lists) in
    (
      λ h. ((split h).0, (joined-nil_iff lists).0 (split h).1),
      λ a. join (a.0, (joined-nil_iff lists).1 a.1),
    )

-- `slice(0, n)`
abbrev pub take {ℓ} : {A : Type ℓ} → ℕ → List A → List A
take zero xs = []
take (suc n) [] = []
take (suc n) (x ∷ xs) = x ∷ take n xs

pub length-take {ℓ} : {A : Type ℓ} (n : ℕ) (xs : List A) → length (take n xs) ≤ n
length-take zero xs = omega arith
length-take (suc n) [] = omega arith
length-take (suc n) (x ∷ xs) = omega (arith, length-take n xs)

pub All-take {ℓ κ} :
    {A : Type ℓ} (P : A → Type κ) (n : ℕ) (xs : List A) → All P xs → All P (take n xs)
All-take P zero xs a = tt
All-take P (suc n) [] a = tt
All-take P (suc n) (x ∷ xs) a = (a.0, All-take P n xs a.1)

-- `slice(n)`
abbrev pub drop {ℓ} : {A : Type ℓ} → ℕ → List A → List A
drop zero xs = xs
drop (suc n) [] = []
drop (suc n) (x ∷ xs) = drop n xs

pub length-drop {ℓ} : {A : Type ℓ} (n : ℕ) (xs : List A) → length (drop n xs) ≡ length xs - n
length-drop zero xs = omega arith
length-drop (suc n) [] = omega arith
length-drop (suc n) (x ∷ xs) = omega (arith, length-drop n xs)
