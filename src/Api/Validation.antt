-- ===== src/Api/Validation.antt =====
-- src/app/api/validation.ts: what the boundary admits of the input of a request, with
-- `parseBoundedCount` of src/platform/decimal/quantity.ts. `none` stands for `ValidationError`, whose
-- issues no response shows.
pub mod Bounds
use Prim.Native.Char.{Char, code}
use gldaassurance.Base.{
  none, min, some, ltb, ◌&&◌, any, ◌-◌, all, ◌*◌, String, [], ℕ, ◌+◌, if◌then◌else◌, leb, nat_eqb,
  true, get, contains, Option, ◌||◌, List, suc, ◌∷◌, Bool, false, string_eq, map, length,
}
use gldaassurance.Parse.Tabular.{trim}

-- A value of type `unknown`; what stands inside an array or an object is of the type `V`. A `count`
-- is a number that is a safe integer and not negative.
pub data Input (V : Type 0) : Type 0 where
  text : String → Input V
  count : ℕ → Input V
  other_number null_input other_input : Input V
  array : List V → Input V
  object : List (String × V) → Input V

abbrev pub is_digit : Char → Bool
is_digit c = leb b'0' (code c) && leb (code c) b'9'

abbrev pub is_id_start : Char → Bool
is_id_start c = leb b'a' (code c) && leb (code c) b'z' || is_digit c

abbrev pub is_id_char : Char → Bool
is_id_char c = is_id_start c || nat_eqb (code c) b'-'

unfoldable pub all_chars : (Char → Bool) → String → Bool
all_chars p String.[] = true
all_chars p (String.◌∷◌ c s) = p c && all_chars p s

unfoldable pub text_length : String → ℕ
text_length String.[] = 0
text_length (String.◌∷◌ c s) = suc (text_length s)

-- `ID_PATTERN.test`
unfoldable pub is_identifier : String → Bool
unfolding all_chars text_length
is_identifier String.[] = false
is_identifier (String.◌∷◌ c s) = is_id_start c && all_chars is_id_char s && leb (text_length s) 63

-- `identifier`, of a value that is a text.
abbrev pub identifier : String → Option String
identifier value = if is_identifier value then some value else none

unfoldable pub digits_value : ℕ → String → ℕ
digits_value n String.[] = n
digits_value n (String.◌∷◌ c s) = digits_value (n * 10 + (code c - b'0')) s

abbrev pub in_range : ℕ → ℕ → ℕ → Option ℕ
in_range low high n = if leb low n && leb n high then some n else none

-- `parseBoundedCount`; fifteen digits are always a safe integer.
unfoldable pub parse_bounded_count : String → ℕ → ℕ → Option ℕ
unfolding all_chars text_length digits_value
parse_bounded_count value low high =
    if all_chars is_digit value && leb 1 (text_length value) && leb (text_length value) 15
    then in_range low high (digits_value 0 value)
    else none

-- `boundedInteger`. The text of a count is its decimal digits, at most fifteen of them below 10 ^ 15;
-- parsing gives the count back.
unfoldable pub bounded_integer : {V : Type 0} → Input V → ℕ → ℕ → Option ℕ
unfolding parse_bounded_count
bounded_integer (text value) low high = parse_bounded_count value low high
bounded_integer (count n) low high = if ltb n 1000000000000000 then in_range low high n else none
bounded_integer other_number low high = none
bounded_integer null_input low high = none
bounded_integer other_input low high = none
bounded_integer (array _) low high = none
bounded_integer (object _) low high = none

-- `rejectUnknownFields`
unfoldable pub reject_unknown_fields :
    {V : Type 0} → Input V → List String → Option (List (String × V))
reject_unknown_fields (object fields) allowed_fields =
    if all (λ e. contains allowed_fields e.0) fields
    then if any (λ e. contains ("__proto__" ∷ "constructor" ∷ "prototype" ∷ []) e.0) fields
      then none
      else some fields
    else none
reject_unknown_fields (text _) allowed_fields = none
reject_unknown_fields (count _) allowed_fields = none
reject_unknown_fields other_number allowed_fields = none
reject_unknown_fields null_input allowed_fields = none
reject_unknown_fields other_input allowed_fields = none
reject_unknown_fields (array _) allowed_fields = none

pub record PageRequest : Type 0 where
  pub limit : ℕ
  pub offset : ℕ

-- `raw === undefined ? fallback : boundedInteger(...)`
abbrev pub given_integer : {V : Type 0} → Option (Input V) → ℕ → ℕ → ℕ → Option ℕ
given_integer none fallback low high = some fallback
given_integer (some raw) fallback low high = bounded_integer raw low high

-- The page of a limit and an offset, where both are valid.
abbrev pub page_of : Option ℕ → Option ℕ → ℕ → Option PageRequest
page_of (some limit) (some offset) max_page_size =
    some (record { limit = min limit max_page_size; offset = offset })
page_of (some _) none max_page_size = none
page_of none _ max_page_size = none

-- `pageRequest`
unfoldable pub page_request : {V : Type 0} → List (String × Input V) → ℕ → ℕ → Option PageRequest
unfolding bounded_integer
page_request params max_page_size fallback =
    page_of (given_integer (get params "limit") fallback 1 1000000)
      (given_integer (get params "offset") 0 0 1000000) max_page_size

-- The length of a text in UTF-16 code units.
unfoldable pub unit_length : String → ℕ
unit_length String.[] = 0
unit_length (String.◌∷◌ c s) = (if leb 65536 (code c) then 2 else 1) + unit_length s

-- `boundedString`, where `trim` is that of the language.
unfoldable pub bounded_string :
    (String → String) → {V : Type 0} → Input V → (high low : ℕ) → Option String
unfolding unit_length
bounded_string trim (text value) high low =
    if ltb (unit_length (trim value)) low
    then none
    else if ltb high (unit_length (trim value))
    then none
    else some (trim value)
bounded_string trim (count _) high low = none
bounded_string trim other_number high low = none
bounded_string trim null_input high low = none
bounded_string trim other_input high low = none
bounded_string trim (array _) high low = none
bounded_string trim (object _) high low = none

-- `oneOf`, of a value that is a text or none.
unfoldable pub one_of : Option String → List String → Option String
one_of none allowed_values = none
one_of (some value) allowed_values = if contains allowed_values value then some value else none

-- The `map` of `filterValues`, which throws at the first value that is not allowed.
unfoldable pub each_one_of : List (Option String) → List String → Option (List String)
unfolding one_of
each_one_of [] allowed_values = some []
each_one_of (v ∷ rest) allowed_values = elim (one_of v allowed_values) [
  | none ↦ none
  | some value ↦ elim (each_one_of rest allowed_values) [
    | none ↦ none
    | some values ↦ some (value ∷ values)
  ]
]

abbrev pub text_of : {V : Type 0} → Input V → Option String
text_of (text value) = some value
text_of _ = none

-- The values of a filter: an array, or one value. `text_in` reads an element that is a text.
abbrev pub values_of : {V : Type 0} → (V → Option String) → Input V → List (Option String)
values_of text_in (array vs) = map text_in vs
values_of text_in (text value) = some value ∷ []
values_of text_in _ = none ∷ []

-- `filterValues`
unfoldable pub filter_values :
    {V : Type 0} → (V → Option String) → Input V → List String → ℕ → Option (List String)
unfolding each_one_of
filter_values text_in value allowed_values max_values =
    if ltb max_values (length (values_of text_in value))
    then none
    else each_one_of (values_of text_in value) allowed_values
