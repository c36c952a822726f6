-- ===== src/Gateway/Payload/Contents.antt =====
-- shared/gateway-dto.ts: what stands anywhere in a payload, and the payloads that may leave the
-- browser, said by it and not by the walk of `assertSafeGatewayPayload`.
use csboard_extension.Prelude.{
  ℕ, suc, ◌+◌, ◌≤◌, max, ◌≡◌, Bool, true, false, ◌&&◌, List, [], ◌∷◌, ◌++◌, All,
}
use csboard_extension.Prelude.Text.{Text}
use csboard_extension.Shared.Result.{ok}
use csboard_extension.Gateway.Payload.{
  Number, non_finite, Js, undefined, opaque, instance_of, num, str, arr, obj, Items, nil, cons,
  Fields, end, field, max_validation_depth, is_forbidden_key, visit_string,
}

unfoldable mutual
  pub keys_of : Js → List Text
  keys_of (arr items) = keys_of_items items
  keys_of (obj fields) = keys_of_fields fields
  keys_of _ = []

  pub keys_of_items : Items → List Text
  keys_of_items nil = []
  keys_of_items (cons entry rest) = keys_of entry ++ keys_of_items rest

  pub keys_of_fields : Fields → List Text
  keys_of_fields end = []
  keys_of_fields (field key entry rest) = key ∷ (keys_of entry ++ keys_of_fields rest)

unfoldable mutual
  pub strings_of : Js → List Text
  strings_of (str s) = s ∷ []
  strings_of (arr items) = strings_of_items items
  strings_of (obj fields) = strings_of_fields fields
  strings_of _ = []

  pub strings_of_items : Items → List Text
  strings_of_items nil = []
  strings_of_items (cons entry rest) = strings_of entry ++ strings_of_items rest

  pub strings_of_fields : Fields → List Text
  strings_of_fields end = []
  strings_of_fields (field key entry rest) = strings_of entry ++ strings_of_fields rest

-- How many brackets enclose the deepest value, and one more inside an array or object with entries.
unfoldable mutual
  pub nesting : Js → ℕ
  nesting (arr items) = nesting_of_items items
  nesting (obj fields) = nesting_of_fields fields
  nesting _ = 0

  pub nesting_of_items : Items → ℕ
  nesting_of_items nil = 0
  nesting_of_items (cons entry rest) = max (suc (nesting entry)) (nesting_of_items rest)

  pub nesting_of_fields : Fields → ℕ
  nesting_of_fields end = 0
  nesting_of_fields (field key entry rest) = max (suc (nesting entry)) (nesting_of_fields rest)

-- Plain data: null, Booleans, finite numbers, texts, arrays and plain objects.
abbrev is_finite : Number → Bool
is_finite non_finite = false
is_finite n = true

unfoldable mutual
  pub is_plain : Js → Bool
  is_plain undefined = false
  is_plain (opaque type_of) = false
  is_plain instance_of = false
  is_plain (num n) = is_finite n
  is_plain (arr items) = are_plain items
  is_plain (obj fields) = are_plain_fields fields
  is_plain _ = true

  pub are_plain : Items → Bool
  are_plain nil = true
  are_plain (cons entry rest) = is_plain entry && are_plain rest

  pub are_plain_fields : Fields → Bool
  are_plain_fields end = true
  are_plain_fields (field key entry rest) = is_plain entry && are_plain_fields rest

abbrev pub IsSafeKey : Text → Type 0
IsSafeKey key = is_forbidden_key key ≡ false

abbrev pub IsSafeString : Text → Type 0
IsSafeString s = visit_string s ≡ ok tt

pub record IsSafe (depth : ℕ) (value : Js) : Type 0 where
  pub shallow : depth + nesting value ≤ max_validation_depth
  pub plain : is_plain value ≡ true
  pub keys : All IsSafeKey (keys_of value)
  pub strings : All IsSafeString (strings_of value)

pub record AreSafe (depth : ℕ) (items : Items) : Type 0 where
  pub shallow : depth + nesting_of_items items ≤ suc max_validation_depth
  pub plain : are_plain items ≡ true
  pub keys : All IsSafeKey (keys_of_items items)
  pub strings : All IsSafeString (strings_of_items items)

pub record AreSafeFields (depth : ℕ) (fields : Fields) : Type 0 where
  pub shallow : depth + nesting_of_fields fields ≤ suc max_validation_depth
  pub plain : are_plain_fields fields ≡ true
  pub keys : All IsSafeKey (keys_of_fields fields)
  pub strings : All IsSafeString (strings_of_fields fields)
