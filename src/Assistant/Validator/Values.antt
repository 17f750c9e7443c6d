-- ===== src/Assistant/Validator/Values.antt =====
-- The loops and tests of validatePlan, one value at a time.
use gldaassurance.Base.{
  contains_iff, ◌↔◌, none, refl, unless_nil, nil_append, some, ◌≤◌, arith, [], true, inl, ◌≡◌, List,
  Memᴰ, Bool, String, if◌then◌else◌, ℤ, ℕ, ◌∷◌, contains, Option, All, inr, pos, string_eq, negsuc,
}
use gldaassurance.Assistant.Validator.{
  check_vocabulary, check_enum, is_member_or_null, PlanRejection, limit_in_range, each_unless,
}
use gldaassurance.Assistant.Validator.Promises.{AreHeld, IsListed}

pub each_unless-nil_iff :
    (test : String → Bool) (r : String → PlanRejection) (xs : List String)
    → (each_unless test r xs ≡ []) ↔ All (λ x. test x ≡ true) xs
each_unless-nil_iff test r [] = (λ _. tt, λ _. refl)
each_unless-nil_iff test r (x ∷ xs) =
    let (split, join) = nil_append (if test x then [] else r x ∷ []) (each_unless test r xs) in
    (
      λ h. (
        (unless_nil (test x) (r x)).0 (split h).0,
        (each_unless-nil_iff test r xs).0 (split h).1,
      ),
      λ a. join ((unless_nil (test x) (r x)).1 a.0, (each_unless-nil_iff test r xs).1 a.1),
    )

pub All-iff :
    {A : Type 0} (P Q : A → Type 0) (xs : List A) → ((a : A) → P a ↔ Q a) → All P xs ↔ All Q xs
All-iff P Q [] h = (λ _. tt, λ _. tt)
All-iff P Q (x ∷ xs) h =
    (λ a. ((h x).0 a.0, (All-iff P Q xs h).0 a.1), λ a. ((h x).1 a.0, (All-iff P Q xs h).1 a.1))

-- The two loops over values.
pub each_known_iff :
    (governed : List String) (r : String → PlanRejection) (xs : List String)
    → (each_unless (contains governed) r xs ≡ []) ↔ All (λ x. Memᴰ x governed) xs
each_known_iff governed r xs =
    let (to, from) = each_unless-nil_iff (contains governed) r xs in
    let (to', from') =
      All-iff (λ x. contains governed x ≡ true) (λ x. Memᴰ x governed) xs (contains_iff governed) in
    (λ h. to' (to h), λ a. from (from' a))

pub check_vocabulary-nil_iff :
    (about : String) (given governed : List String)
    → (check_vocabulary about given governed ≡ []) ↔ AreHeld governed given
unfolding check_vocabulary
check_vocabulary-nil_iff about given [] = (λ _. inl refl, λ _. refl)
check_vocabulary-nil_iff about given (g ∷ gs) =
    let (to, from) = each_known_iff (g ∷ gs) _ given in
    (λ h. inr (to h), λ a. elim a [ inl bad ↦ absurd (cc) | inr held ↦ from held ])

pub check_enum-nil_iff :
    (about : String) (given permitted : List String)
    → (check_enum about given permitted ≡ []) ↔ All (λ x. Memᴰ x permitted) given
unfolding check_enum
check_enum-nil_iff about given permitted = each_known_iff permitted _ given

pub IsListed-iff :
    (governed : List String) (x : Option String)
    → (is_member_or_null governed x ≡ true) ↔ IsListed governed x
IsListed-iff governed none = (λ _. tt, λ _. refl)
IsListed-iff governed (some x) = contains_iff governed x

pub limit_iff : (n : ℤ) → (limit_in_range n ≡ true) ↔ ((m : ℕ) × (n ≡ pos m) × (1 ≤ m) × (m ≤ 50))
limit_iff (pos n) = (λ h. (n, refl, ground arith, ground arith), λ (m, e, a, b). ground arith)
limit_iff (negsuc n) = (λ h. absurd (ground arith), λ (m, e, a, b). absurd (cc))
