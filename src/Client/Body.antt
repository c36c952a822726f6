-- ===== src/Client/Body.antt =====
-- background/gateway-client.ts: the objects that the gateway answers with, as JSON.parse gives them.
use csboard_extension.Prelude.{
  Bool, true, false, ◌&&◌, Option, none, some, List, [], ◌∷◌, if◌then◌else◌,
}
use csboard_extension.Prelude.Int.{ℤ, pos, is_safe_integer, eqb_ℤ, leb_ℤ, eq_of_parts}
use csboard_extension.Prelude.{◌≡◌, ap, arith}
use csboard_extension.Prelude.Text.{Text, ◌===◌, ===_iff}
use csboard_extension.Gateway.Payload.{
  Js, undefined, null, instance_of, opaque, bool, num, str, arr, obj, Items, nil, cons, Fields, end,
  field, int, fraction, non_finite,
}
use csboard_extension.Portfolio.Order.{compare_text, sort}

-- `Object.keys(value)` and `value[key]`.
unfoldable pub object_keys : Fields → List Text
object_keys end = []
object_keys (field key entry rest) = key ∷ object_keys rest

unfoldable pub lookup : Text → Fields → Js
lookup key end = undefined
lookup key (field k entry rest) = if k === key then entry else lookup key rest

-- The entries of an array, and `a ?? b`.
abbrev pub elements : Items → List Js
elements nil = []
elements (cons x xs) = x ∷ elements xs

abbrev pub coalesce : Js → Js → Js
coalesce undefined other = other
coalesce null other = other
coalesce value other = value

unfoldable pub same_texts : List Text → List Text → Bool
same_texts [] [] = true
same_texts [] (y ∷ ys) = false
same_texts (x ∷ xs) [] = false
same_texts (x ∷ xs) (y ∷ ys) = x === y && same_texts xs ys

unfoldable pub has_exact_keys : Fields → List Text → Bool
has_exact_keys value expected =
    same_texts (sort compare_text (object_keys value)) (sort compare_text expected)

abbrev pub is_true : Js → Bool
is_true (bool b) = b
is_true _ = false

abbrev pub is_boolean : Js → Bool
is_boolean (bool b) = true
is_boolean _ = false

-- `value === text`, and the same for what may be undefined.
unfoldable pub is_text : Text → Js → Bool
is_text text (str s) = s === text
is_text text _ = false

unfoldable pub is_optional_text : Option Text → Js → Bool
unfolding is_text
is_optional_text none undefined = true
is_optional_text none _ = false
is_optional_text (some text) value = is_text text value

unfoldable pub is_integer : ℤ → Js → Bool
is_integer n (num (int m)) = eqb_ℤ m n
is_integer n _ = false

unfoldable pub is_optional_integer : Option ℤ → Js → Bool
unfolding is_integer
is_optional_integer none undefined = true
is_optional_integer none _ = false
is_optional_integer (some n) value = is_integer n value

-- `Number.isSafeInteger(value) && value >= 0`
abbrev pub is_count : Js → Bool
is_count (num (int n)) = is_safe_integer n && leb_ℤ (pos 0) n
is_count _ = false

pub is_text_sound : (text : Text) (value : Js) → is_text text value ≡ true → value ≡ str text
unfolding is_text
is_text_sound text (str s) h = ap str ((===_iff s text).0 h)
is_text_sound text undefined h = cc
is_text_sound text null h = cc
is_text_sound text instance_of h = cc
is_text_sound text (opaque type_of) h = cc
is_text_sound text (bool b) h = cc
is_text_sound text (num n) h = cc
is_text_sound text (arr items) h = cc
is_text_sound text (obj fields) h = cc

pub is_integer_sound : (n : ℤ) (value : Js) → is_integer n value ≡ true → value ≡ num (int n)
unfolding is_integer
is_integer_sound n (num (int m)) h = ap (λ z. num (int z)) (eq_of_parts m n (ground arith))
is_integer_sound n (num (fraction m e)) h = cc
is_integer_sound n (num non_finite) h = cc
is_integer_sound n (str s) h = cc
is_integer_sound n undefined h = cc
is_integer_sound n null h = cc
is_integer_sound n instance_of h = cc
is_integer_sound n (opaque type_of) h = cc
is_integer_sound n (bool b) h = cc
is_integer_sound n (arr items) h = cc
is_integer_sound n (obj fields) h = cc
