-- ===== src/Prelude/Pattern.antt =====
-- The regular expressions that the program searches texts with: a matcher with continuations over
-- the text that is left and the code unit before it, which `\b` and `^` look at.
use Prim.Native.String.{String}
use csboard_extension.Prelude.{
  ℕ, zero, suc, ◌+◌, ◌≡◌, refl, Bool, true, false, not, ◌&&◌, ◌||◌, Option, none, some, List, [],
  ◌∷◌, leb, ◌==◌, length, if◌then◌else◌,
}
use csboard_extension.Prelude.Text.{Text, codes, is_digit, is_upper, is_lower}

pub data Regex : Type 0 where
  empty start finish boundary : Regex
  unit : (ℕ → Bool) → Regex
  seq alt : Regex → Regex → Regex
  star : Regex → Regex

-- `\w` and `\b`.
abbrev pub is_word : ℕ → Bool
is_word c = is_digit c || is_upper c || is_lower c || c == b'_'

abbrev is_word_at : Option ℕ → Bool
is_word_at none = false
is_word_at (some c) = is_word c

abbrev first : Text → Option ℕ
first [] = none
first (c ∷ s) = some c

abbrev is_none : Option ℕ → Bool
is_none none = true
is_none (some c) = false

abbrev differ : Bool → Bool → Bool
differ true b = not b
differ false b = b

abbrev Rest : Type 0
Rest = Option ℕ → Text → Bool

abbrev Matcher : Type 0
Matcher = Option ℕ → Text → Rest → Bool

one : (ℕ → Bool) → Matcher
one class before [] rest = false
one class before (c ∷ s) rest = class c && rest (some c) s

-- No round of a star needs to match the empty text, so the length of the text bounds the rounds.
rounds : ℕ → Matcher → Matcher
rounds zero m before s rest = rest before s
rounds (suc fuel) m before s rest =
    let again = m before s (λ b t. rounds fuel m b t rest) in if rest before s then true else again

unfoldable pub run : Regex → Matcher
unfolding one rounds
run empty before s rest = rest before s
run start before s rest = is_none before && rest before s
run finish before s rest = is_none (first s) && rest before s
run boundary before s rest = differ (is_word_at before) (is_word_at (first s)) && rest before s
run (unit class) before s rest = one class before s rest
run (seq r q) before s rest = run r before s (λ b t. run q b t rest)
run (alt r q) before s rest = run r before s rest || run q before s rest
run (star r) before s rest = rounds (length s) (run r) before s rest

search_from : Regex → Option ℕ → Text → Bool
search_from r before [] = run r before [] (λ _ _. true)
search_from r before (c ∷ s) = run r before (c ∷ s) (λ _ _. true) || search_from r (some c) s

-- `pattern.test(text)`.
unfoldable pub test : Regex → Text → Bool
unfolding search_from run
test r s = search_from r none s

abbrev pub to_lower : ℕ → ℕ
to_lower c = if is_upper c then c + 32 else c

-- A literal under the flag i.
unfoldable pub word : Text → Regex
word [] = empty
word (c ∷ s) = seq (unit (λ d. to_lower d == to_lower c)) (word s)

abbrev pub one_of : List Regex → Regex
one_of [] = unit (λ _. false)
one_of (r ∷ []) = r
one_of (r ∷ rs) = alt r (one_of rs)

abbrev pub literal : String → Regex
unfolding word
literal s = word (codes s)

abbrev pub plus : Regex → Regex
plus r = seq r (star r)

abbrev pub at_least : ℕ → Regex → Regex
at_least zero r = star r
at_least (suc n) r = seq r (at_least n r)

abbrev pub is_space : ℕ → Bool
is_space c =
    (leb 9 c && leb c 13)
    || c == 0x20
    || c == 0xa0
    || c == 0x1680
    || (leb 0x2000 c && leb c 0x200a)
    || c == 0x2028
    || c == 0x2029
    || c == 0x202f
    || c == 0x205f
    || c == 0x3000
    || c == 0xfeff

test_bearer : test (seq boundary (literal "ab")) (codes "x-Ab") ≡ true
unfolding test word
test_bearer = refl

test_inside : test (seq boundary (literal "ab")) (codes "xAb") ≡ false
unfolding test word
test_inside = refl
