-- ===== src/Gateway/Payload/Size.antt =====
-- shared/gateway-dto.ts: the size of `JSON.stringify(value)` in UTF-8 bytes, which is that of
-- `canonicalStringify` too, since the order of an object's keys does not change it. Numbers are
-- those of the payloads, below 10 ^ 21.
use csboard_extension.Prelude.{
  ℕ, zero, suc, ◌+◌, ◌-◌, ◌/◌, max, Bool, true, false, ◌&&◌, ◌||◌, [], ◌∷◌, leb, ltb, ◌==◌,
  if◌then◌else◌,
}
use csboard_extension.Prelude.Int.{ℤ, pos, negsuc, pos_part, neg_part}
use csboard_extension.Prelude.Text.{Text}
use csboard_extension.Shared.Result.{ok, ◌>>◌}
use csboard_extension.Gateway.Error.{Checked}
use csboard_extension.Gateway.Payload.{
  Number, int, fraction, non_finite, Js, undefined, null, opaque, instance_of, bool, num, str, arr,
  obj, Items, nil, cons, Fields, end, field, assert_safe_gateway_payload,
}

abbrev is_high : ℕ → Bool
is_high c = leb 0xd800 c && leb c 0xdbff

abbrev is_low : ℕ → Bool
is_low c = leb 0xdc00 c && leb c 0xdfff

-- A quote, a backslash and \b \t \n \f \r are escaped by two bytes, other controls by six.
unit_bytes : ℕ → ℕ
unit_bytes c =
    if c == 0x22 || c == 0x5c || (leb 8 c && leb c 10) || c == 12 || c == 13
    then 2
    else (if ltb c 0x20 || is_high c || is_low c
        then 6
        else (if ltb c 0x80 then 1 else if ltb c 0x800 then 2 else 3))

-- A pair of surrogates is one character of four bytes; a lone one is escaped.
text_bytes : Text → ℕ
unfolding unit_bytes
text_bytes [] = 0
text_bytes (c ∷ []) = unit_bytes c
text_bytes (c ∷ d ∷ s) = elim (is_high c && is_low d) [
  | true ↦ 4 + text_bytes s
  | false ↦ unit_bytes c + text_bytes (d ∷ s)
]

unfoldable pub string_bytes : Text → ℕ
unfolding text_bytes
string_bytes s = 2 + text_bytes s

digit_count : ℕ → ℕ → ℕ
digit_count zero n = 1
digit_count (suc fuel) n = let rest = digit_count fuel (n / 10) in if ltb n 10 then 1 else suc rest

decimal_digits : ℕ → ℕ
unfolding digit_count
decimal_digits n = digit_count 20 n

sign_bytes : ℤ → ℕ
sign_bytes (pos n) = 0
sign_bytes (negsuc n) = 1

-- The k digits of m / 10 ^ e have a point among them, or stand behind "0." and zeros, or before an
-- exponent where the value is below 10 ^ -6.
fraction_bytes : ℕ → ℕ → ℕ
unfolding decimal_digits
fraction_bytes k e =
    if ltb e k
    then k + 1
    else (if ltb (e - k) 6
        then e + 2
        else (if k == 1 then 1 else k + 1) + 2 + decimal_digits (e - k + 1))

unfoldable pub number_bytes : Number → ℕ
unfolding decimal_digits sign_bytes fraction_bytes
number_bytes (int n) = sign_bytes n + decimal_digits (pos_part n + neg_part n)
number_bytes (fraction m e) =
    sign_bytes m + fraction_bytes (decimal_digits (pos_part m + neg_part m)) e
number_bytes non_finite = 4

-- Each entry counts a comma too many, in place of the opening bracket; an empty list has none.
unfoldable mutual
  pub json_bytes : Js → ℕ
  json_bytes undefined = 0
  json_bytes (opaque type_of) = 0
  json_bytes null = 4
  json_bytes instance_of = 2
  json_bytes (bool true) = 4
  json_bytes (bool false) = 5
  json_bytes (num n) = number_bytes n
  json_bytes (str s) = string_bytes s
  json_bytes (arr items) = 1 + max 1 (items_bytes items)
  json_bytes (obj fields) = 1 + max 1 (fields_bytes fields)

  pub items_bytes : Items → ℕ
  items_bytes nil = 0
  items_bytes (cons undefined rest) = 5 + items_bytes rest
  items_bytes (cons (opaque type_of) rest) = 5 + items_bytes rest
  items_bytes (cons entry rest) = 1 + json_bytes entry + items_bytes rest

  pub fields_bytes : Fields → ℕ
  fields_bytes end = 0
  fields_bytes (field key undefined rest) = fields_bytes rest
  fields_bytes (field key (opaque type_of) rest) = fields_bytes rest
  fields_bytes (field key entry rest) = string_bytes key + 2 + json_bytes entry + fields_bytes rest

-- `canonicalJson` scans the value before it is encoded.
unfoldable pub byte_length_of_canonical_json : Js → Checked ℕ
unfolding assert_safe_gateway_payload json_bytes items_bytes fields_bytes string_bytes number_bytes
byte_length_of_canonical_json value = do assert_safe_gateway_payload value; ok (json_bytes value)
