-- ===== src/Assistant/Patterns.antt =====
-- The regular expressions that the validator of plans tests texts by, as the language reads them:
-- a text is given by its UTF-16 code units.
use Prim.Native.Char.{code}
use gldaassurance.Base.{
  true, ◌&&◌, Option, [], zero, not, is_empty, false, ◌||◌, ◌+◌, List, some, ◌-◌, suc, Bool, none,
  ◌∷◌, ℕ, leb, String, nat_eqb, if◌then◌else◌, ◌%◌, ◌++◌, ltb, ◌/◌,
}

-- The UTF-16 code units of a character: a surrogate pair from 65536 on.
abbrev pub units_of : ℕ → List ℕ
units_of c =
    if ltb c 65536 then c ∷ [] else (55296 + (c - 65536) / 1024) ∷ (56320 + (c - 65536) % 1024) ∷ []

unfoldable pub codes : String → List ℕ
codes String.[] = []
codes (String.◌∷◌ c s) = units_of (code c) ++ codes s

-- `edge` is `\b`, `many p` is `p*` and `up_to n p` is `p{0,n}`, for a class of characters `p`.
pub data Pattern : Type 0 where
  no_chars : Pattern
  one_char : (ℕ → Bool) → Pattern
  edge : Pattern
  then_pattern : Pattern → Pattern → Pattern
  either : Pattern → Pattern → Pattern
  many : (ℕ → Bool) → Pattern
  up_to : ℕ → (ℕ → Bool) → Pattern

abbrev pub between : ℕ → ℕ → ℕ → Bool
between low high c = leb low c && leb c high

abbrev pub is_digit_code : ℕ → Bool
is_digit_code = between b'0' b'9'

abbrev pub is_upper_code : ℕ → Bool
is_upper_code = between b'A' b'Z'

-- `\w`
abbrev pub is_word : ℕ → Bool
is_word c = is_digit_code c || is_upper_code c || between b'a' b'z' c || nat_eqb c b'_'

abbrev pub word_before : Option ℕ → Bool
word_before none = false
word_before (some c) = is_word c

abbrev pub word_after : List ℕ → Bool
word_after [] = false
word_after (c ∷ cs) = is_word c

abbrev pub differ : Bool → Bool → Bool
differ true b = not b
differ false b = b

-- What stands behind a match decides it: the character before and the characters after.
abbrev pub Rest : Type 0
Rest = Option ℕ → List ℕ → Bool

unfoldable pub match_many : (ℕ → Bool) → Rest → Option ℕ → List ℕ → Bool
match_many p k before [] = k before []
match_many p k before (c ∷ cs) =
    let more = match_many p k (some c) cs in k before (c ∷ cs) || (p c && more)

unfoldable pub match_up_to : ℕ → (ℕ → Bool) → Rest → Option ℕ → List ℕ → Bool
match_up_to zero p k before cs = k before cs
match_up_to (suc n) p k before [] = k before []
match_up_to (suc n) p k before (c ∷ cs) =
    let more = match_up_to n p k (some c) cs in k before (c ∷ cs) || (p c && more)

unfoldable pub matches : Pattern → Rest → Option ℕ → List ℕ → Bool
unfolding match_many match_up_to
matches no_chars k before cs = k before cs
matches (one_char p) k before [] = false
matches (one_char p) k before (c ∷ cs) = p c && k (some c) cs
matches edge k before cs = differ (word_before before) (word_after cs) && k before cs
matches (then_pattern a b) k before cs = matches a (matches b k) before cs
matches (either a b) k before cs = matches a k before cs || matches b k before cs
matches (many p) k before cs = match_many p k before cs
matches (up_to n p) k before cs = match_up_to n p k before cs

-- A match that may begin anywhere.
unfoldable pub search_from : Pattern → Option ℕ → List ℕ → Bool
unfolding matches
search_from p before [] = matches p (λ _ _. true) before []
search_from p before (c ∷ cs) =
    let later = search_from p (some c) cs in matches p (λ _ _. true) before (c ∷ cs) || later

-- `p.test`, and `/^p$/.test`
unfoldable pub finds : Pattern → String → Bool
unfolding search_from codes
finds p s = search_from p none (codes s)

unfoldable pub fits : Pattern → String → Bool
unfolding matches codes
fits p s = matches p (λ _ rest. is_empty rest) none (codes s)

-- A letter under the flag `i`.
abbrev pub fold_case : ℕ → ℕ
fold_case c = if is_upper_code c then c + 32 else c

abbrev pub word_of : List ℕ → Pattern
word_of [] = no_chars
word_of (c ∷ cs) = then_pattern (one_char (λ d. nat_eqb (fold_case d) (fold_case c))) (word_of cs)

unfoldable pub word : String → Pattern
unfolding codes
word s = word_of (codes s)

-- `p{n}` and `p{1,n}`
abbrev pub repeated : ℕ → (ℕ → Bool) → Pattern
repeated zero p = no_chars
repeated (suc n) p = then_pattern (one_char p) (repeated n p)

abbrev pub one_up_to : ℕ → (ℕ → Bool) → Pattern
one_up_to n p = then_pattern (one_char p) (up_to (n - 1) p)
