-- ===== src/Session/Values.antt =====
-- background/steam-read-session-provider.ts: how fields of Steam's answers are read. `String` of a
-- number, `Number` of a value and `toLowerCase` are the language's, and parameters.
use csboard_extension.Prelude.{
  ℕ, zero, suc, max, Bool, false, ◌&&◌, ◌||◌, Option, none, some, List, [], ◌∷◌, ltb, ◌==◌, length,
  if◌then◌else◌,
}
use csboard_extension.Prelude.Int.{pos, is_safe_integer}
use csboard_extension.Prelude.Text.{Text, codes, ◌===◌, is_digit, is_run_of}
use csboard_extension.Prelude.Pattern.{
  Regex, empty, boundary, unit, seq, alt, one_of, plus, test, is_space,
}
use csboard_extension.Shared.Result.{ok, err, ◌>>◌}
use csboard_extension.Gateway.Error.{Checked, invalid_at_path, require}
use csboard_extension.Gateway.Identity.{decimal}
use csboard_extension.Gateway.Payload.{Number, int, Js, num, str, arr, obj, Fields}
use csboard_extension.Client.Body.{lookup, elements}
use csboard_extension.Portfolio.Records.{MarketplaceHint, buff163, csfloat}

pub record Language : Type 0 where
  pub number_text : Number → Text
  pub numeric : Js → Number
  pub lower_case : Text → Text

abbrev pub as_record : Js → Checked Fields
as_record (obj fields) = ok fields
as_record _ = err invalid_at_path

-- Anything but an array counts as an empty one.
abbrev pub as_array : Js → List Js
as_array (arr items) = elements items
as_array _ = []

unfoldable pub trim_start : Text → Text
trim_start [] = []
trim_start (c ∷ s) = if is_space c then trim_start s else c ∷ s

unfoldable pub reversed : Text → Text → Text
reversed [] done = done
reversed (c ∷ s) done = reversed s (c ∷ done)

-- `String.prototype.trim`
unfoldable pub trim : Text → Text
unfolding trim_start reversed
trim s = reversed (trim_start (reversed (trim_start s) [])) []

abbrev pub bounded : ℕ → Text → Option Text
bounded max_length s = if length s == 0 || ltb max_length (length s) then none else some s

abbrev pub required_run : ℕ → Option Text → Checked Text
required_run max_length none = err invalid_at_path
required_run max_length (some s) =
    require (is_run_of is_digit 1 max_length s) invalid_at_path >> ok s

abbrev pub safe_natural : Number → Option ℕ
safe_natural (int (pos n)) = if is_safe_integer (pos n) then some n else none
safe_natural _ = none

abbrev pub positive : Option ℕ → Option ℕ
positive none = none
positive (some n) = if ltb 0 n then some n else none

-- A date is between its two marks: `[date]`, one to ten digits, `[/date]`.
unfoldable pub after_prefix : Text → Text → Option Text
after_prefix [] s = some s
after_prefix (c ∷ prefix) [] = none
after_prefix (c ∷ prefix) (d ∷ s) = if c == d then after_prefix prefix s else none

-- The longest run of digits, and the rest.
unfoldable pub digits_of : Text → Text × Text
digits_of [] = ([], [])
digits_of (c ∷ s) =
    let (digits, rest) = digits_of s in if is_digit c then (c ∷ digits, rest) else ([], c ∷ s)

abbrev closed_date : Text × Text → Option Text → ℕ
closed_date (digits, rest) none = 0
closed_date (digits, rest) (some after) =
    if is_run_of is_digit 1 10 digits then decimal digits else 0

abbrev dated : Option Text → ℕ
dated none = 0
dated (some s) = closed_date (digits_of s) (after_prefix (codes "[/date]") (digits_of s).1)

-- The latest date in a text, or 0. Marks do not overlap, so that every place may be tried.
unfoldable pub latest_date : Text → ℕ
unfolding after_prefix digits_of decimal
latest_date [] = 0
latest_date (c ∷ s) = max (dated (after_prefix (codes "[date]") (c ∷ s))) (latest_date s)

abbrev pub nonzero : ℕ → Option ℕ
nonzero zero = none
nonzero (suc n) = some (suc n)

-- A literal of a pattern without flags.
unfoldable pub exact_word : Text → Regex
exact_word [] = empty
exact_word (c ∷ s) = seq (unit (λ d. d == c)) (exact_word s)

abbrev spaces : Regex
spaces = plus (unit is_space)

abbrev bounded_by : Regex → Regex
bounded_by r = seq boundary (seq r boundary)

-- A pattern that may be absent.
abbrev optional : Regex → Regex
optional r = alt r empty

unfoldable pub explicit_buff_pattern : Regex
unfolding exact_word
explicit_buff_pattern = bounded_by (
    one_of (
      exact_word (codes "buff163")
      ∷ seq (exact_word (codes "buff.163")) (optional (exact_word (codes ".com")))
      ∷ exact_word (codes "buff.market")
      ∷ []))

unfoldable pub bare_buff_pattern : Regex
unfolding exact_word
bare_buff_pattern = bounded_by (exact_word (codes "buff"))

unfoldable pub from_buff_pattern : Regex
unfolding exact_word
from_buff_pattern = bounded_by (
    seq
      (one_of (exact_word (codes "from") ∷ exact_word (codes "via") ∷ exact_word (codes "on") ∷ []))
      (seq spaces (exact_word (codes "buff"))))

unfoldable pub buff_order_pattern : Regex
unfolding exact_word
buff_order_pattern = bounded_by (
    seq (exact_word (codes "buff")) (
      seq spaces (
        one_of (
          exact_word (codes "order")
          ∷ exact_word (codes "purchase")
          ∷ exact_word (codes "delivery")
          ∷ []))))

unfoldable pub csfloat_pattern : Regex
unfolding exact_word
csfloat_pattern = bounded_by (
    seq (one_of (exact_word (codes "csfloat") ∷ exact_word (codes "csgofloat") ∷ []))
      (optional (exact_word (codes ".com"))))

-- `replace(/\s+/g, ' ')`, where `within` says that a space was just written.
unfoldable pub compact : Bool → Text → Text
compact within [] = []
compact within (c ∷ s) =
    let rest = compact (is_space c) s in
    if is_space c then (if within then rest else 0x20 ∷ rest) else c ∷ rest

-- Both venues or none give no hint.
unfoldable pub hint_of : Text → Option MarketplaceHint
unfolding explicit_buff_pattern bare_buff_pattern from_buff_pattern buff_order_pattern
    csfloat_pattern compact trim
hint_of message =
    let explicit = test explicit_buff_pattern message in
    let venue =
      compact false (trim message) === codes "buff"
      || test from_buff_pattern message
      || test buff_order_pattern message in
    let float = test csfloat_pattern message in
    if (explicit || test bare_buff_pattern message) && float
    then none
    else if explicit || venue
    then (if float then none else some buff163)
    else if float
    then some csfloat
    else none

abbrev pub hint_in : Option Text → Option MarketplaceHint
hint_in none = none
hint_in (some message) = if length message == 0 then none else hint_of message

module _ (language : Language) where
  unfoldable pub optional_string : Js → ℕ → Option Text
  unfolding trim
  optional_string (str s) max_length = bounded max_length (trim s)
  optional_string (num n) max_length = bounded max_length (trim (language.number_text n))
  optional_string _ max_length = none

  unfoldable pub required_digits : Js → ℕ → Checked Text
  unfolding optional_string
  required_digits value max_length = required_run max_length (optional_string value max_length)

  unfoldable pub optional_integer : Js → Option ℕ
  optional_integer (num n) = safe_natural n
  optional_integer value = safe_natural (language.numeric value)

  unfoldable pub optional_positive_timestamp : Js → Option ℕ
  unfolding optional_integer
  optional_positive_timestamp value = positive (optional_integer value)

  -- `Number(value) === 1`
  abbrev pub is_one : Js → Bool
  is_one value = is_int_one (language.numeric value)
    where
      is_int_one : Number → Bool
      is_int_one (int (pos n)) = n == 1
      is_int_one _ = false

  unfoldable pub marketplace_hint_from_offer_message : Js → Option MarketplaceHint
  unfolding optional_string
  marketplace_hint_from_offer_message value = hint_in (lowered (optional_string value 1024))
    where
      lowered : Option Text → Option Text
      lowered none = none
      lowered (some s) = some (language.lower_case s)

  abbrev date_in : Js → ℕ
  date_in (obj fields) = text_date (optional_string (lookup (codes "value") fields) 1024)
    where
      text_date : Option Text → ℕ
      text_date none = 0
      text_date (some s) = latest_date s
  date_in _ = 0

  unfoldable pub latest_of : List Js → ℕ
  unfolding latest_date optional_string
  latest_of [] = 0
  latest_of (entry ∷ entries) = max (date_in entry) (latest_of entries)

  unfoldable pub tradable_after_from_owner_descriptions : Fields → Option ℕ
  unfolding latest_of
  tradable_after_from_owner_descriptions description =
      nonzero (latest_of (as_array (lookup (codes "owner_descriptions") description)))
