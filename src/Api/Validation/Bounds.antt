-- ===== src/Api/Validation/Bounds.antt =====
-- The numbers that validation admits.
use mathlib.Core.Path.{subst}
use gldaassurance.Base.{
  Bool-cases, Option, arith, refl, none-ne-some, some_inj, ltb, String, some, ℕ, sym, leb, ◌&&◌,
  min, get, List, none, ap, ◌≡◌, inl, inr, ◌≤◌, string_eq, All, Option-cases, suc, length, ◌∷◌,
  Memᴰ, [], contains_iff, ◌∙◌, if_true, contains, if_false,
}
use gldaassurance.Api.Validation.{
  page_of, digits_value, in_range, Input, is_digit, other_input, page_request, object, all_chars,
  parse_bounded_count, other_number, array, text_length, bounded_integer, given_integer, null_input,
  count, PageRequest, text, filter_values, values_of, each_one_of, one_of,
}

in_range-some : (low high n m : ℕ) → in_range low high n ≡ some m → (low ≤ m) × (m ≤ high)
in_range-some low high n m h = ground arith

-- A number that `boundedInteger` returns lies within the bounds, whatever the input was.
pub bounded_integer_bounds :
    {V : Type 0} (value : Input V) (low high n : ℕ)
    → bounded_integer value low high ≡ some n
    → (low ≤ n) × (n ≤ high)
unfolding bounded_integer parse_bounded_count
bounded_integer_bounds (text s) low high n h =
    elim (Bool-cases (all_chars is_digit s && leb 1 (text_length s) && leb (text_length s) 15)) [
      | inl fine ↦ (in_range-some low high (digits_value 0 s) n (rw fine at h))
      | inr bad ↦ absurd (none-ne-some n (rw bad at h))
    ]
bounded_integer_bounds (count k) low high n h = elim (Bool-cases (ltb k 1000000000000000)) [
  | inl fine ↦ (in_range-some low high k n (rw fine at h))
  | inr bad ↦ absurd (none-ne-some n (rw bad at h))
]
bounded_integer_bounds other_number low high n h = absurd (none-ne-some n h)
bounded_integer_bounds null_input low high n h = absurd (none-ne-some n h)
bounded_integer_bounds other_input low high n h = absurd (none-ne-some n h)
bounded_integer_bounds (array _) low high n h = absurd (none-ne-some n h)
bounded_integer_bounds (object _) low high n h = absurd (none-ne-some n h)

given_integer_bounds :
    {V : Type 0} (value : Option (Input V)) (fallback low high n : ℕ)
    → low ≤ fallback
    → fallback ≤ high
    → given_integer value fallback low high ≡ some n
    → (low ≤ n) × (n ≤ high)
given_integer_bounds none fallback low high n p q h =
    let e : fallback ≡ n = some_inj fallback n h in (omega arith, omega arith)
given_integer_bounds (some value) fallback low high n p q h =
    bounded_integer_bounds value low high n h

page_inj : {p q : PageRequest} → some p ≡ some q → p ≡ q
page_inj h = cc

page_of-some :
    (limit offset : Option ℕ) (max_page_size : ℕ) (page : PageRequest)
    → page_of limit offset max_page_size ≡ some page
    → (l : ℕ) × (o : ℕ) × (limit ≡ some l)
      × (offset ≡ some o)
      × (page.limit ≡ min l max_page_size)
      × (page.offset ≡ o)
page_of-some (some l) (some o) max_page_size page h =
    (l, o, refl, refl, ap (λ p. p.limit) (sym (page_inj h)), ap (λ p. p.offset) (sym (page_inj h)))
page_of-some (some l) none max_page_size page h = absurd (none-ne-some page h)
page_of-some none o max_page_size page h = absurd (none-ne-some page h)

-- For a fallback between 1 and 1,000,000 and a ceiling of at least 1, a page that `pageRequest`
-- returns has a limit between 1 and the ceiling, and an offset of at most 1,000,000.
pub page_request_bounds :
    {V : Type 0} (params : List (String × Input V)) (max_page_size fallback : ℕ)
    (page : PageRequest)
    → 1 ≤ fallback
    → fallback ≤ 1000000
    → 1 ≤ max_page_size
    → page_request params max_page_size fallback ≡ some page
    → (1 ≤ page.limit) × (page.limit ≤ max_page_size) × (page.offset ≤ 1000000)
unfolding page_request
page_request_bounds params max_page_size fallback page p q r h =
    let (l, o, el, eo, pl, po) =
      page_of-some (given_integer (get params "limit") fallback 1 1000000)
        (given_integer (get params "offset") 0 0 1000000) max_page_size page h in
    let bl = given_integer_bounds (get params "limit") fallback 1 1000000 l p q el in
    let bo =
      given_integer_bounds (get params "offset") 0 0 1000000 o (omega arith) (omega arith) eo in
    (omega (arith, bl.0, pl), omega (arith, pl), omega (arith, bo.1, po))

each_one_of-allowed :
    (vs : List (Option String)) (allowed_values values : List String)
    → each_one_of vs allowed_values ≡ some values
    → All (λ v. Memᴰ v allowed_values) values × (length values ≡ length vs)
unfolding each_one_of one_of
each_one_of-allowed [] allowed_values values h =
    subst (λ l. All (λ v. Memᴰ v allowed_values) l × (length l ≡ 0)) (some_inj [] values h)
      (tt, refl)
each_one_of-allowed (none ∷ rest) allowed_values values h = absurd (none-ne-some values h)
each_one_of-allowed (some v ∷ rest) allowed_values values h =
    elim (Bool-cases (contains allowed_values v)) [
      | inr stray ↦ absurd (none-ne-some values (rw (stray, each_one_of) at h))
      | inl listed ↦ elim (Option-cases (each_one_of rest allowed_values)) [
        | inl failed ↦ absurd (none-ne-some values (rw (listed, failed, each_one_of) at h))
        | inr (more, e) ↦
            let ih = each_one_of-allowed rest allowed_values more e in
            subst (λ l. All (λ x. Memᴰ x allowed_values) l × (length l ≡ suc (length rest)))
              (some_inj (v ∷ more) values (rw (listed, e, each_one_of) at h))
              (((contains_iff allowed_values v).0 listed, ih.0), ap suc ih.1)
      ]
    ]

-- The values of a filter that is admitted are as many as were given, no more than the ceiling, and
-- all allowed.
pub filter_values-allowed :
    {V : Type 0} (text_in : V → Option String) (value : Input V) (allowed_values : List String)
    (max_values : ℕ) (values : List String)
    → filter_values text_in value allowed_values max_values ≡ some values
    → All (λ v. Memᴰ v allowed_values) values
      × (length values ≡ length (values_of text_in value))
      × (length values ≤ max_values)
unfolding filter_values
filter_values-allowed text_in value allowed_values max_values values h =
    elim (Bool-cases (ltb max_values (length (values_of text_in value)))) [
      | inl over ↦ absurd (none-ne-some values (sym (if_true _ _ _ over) ∙ h))
      | inr within ↦
          let (a, n) =
            each_one_of-allowed (values_of text_in value) allowed_values values
              (sym (if_false _ _ _ within) ∙ h) in
          (a, n, ground arith)
    ]
