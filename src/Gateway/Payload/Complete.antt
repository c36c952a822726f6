-- ===== src/Gateway/Payload/Complete.antt =====
-- shared/gateway-dto.ts: `assertSafeGatewayPayload` admits every safe payload, so it admits exactly
-- these.
use csboard_extension.Prelude.{
  ℕ, suc, ◌≤◌, ◌≡◌, refl, ◌↔◌, true, arith, All-append_left, All-append_right,
}
use mathlib.Core.Bool.{and-eq-true_iff}
use csboard_extension.Prelude.Text.{Text}
use csboard_extension.Shared.Result.{ok}
use csboard_extension.Gateway.Payload.{
  Js, undefined, null, opaque, instance_of, bool, num, str, arr, obj, Items, nil, cons, Fields, end,
  field, max_validation_depth, visit_depth, visit_number, visit_entry, visit, visit_items,
  visit_fields, assert_safe_gateway_payload,
}
use csboard_extension.Gateway.Payload.Contents.{
  keys_of, keys_of_items, keys_of_fields, strings_of, strings_of_items, strings_of_fields, nesting,
  is_plain, IsSafeKey, IsSafeString, IsSafe, AreSafe, AreSafeFields,
}
use csboard_extension.Gateway.Payload.Safe.{visit_sound}

visit_depth_near : (depth : ℕ) → depth ≤ max_validation_depth → visit_depth depth ≡ ok tt
visit_depth_near depth h = ground arith

module _ {depth : ℕ} where
  AreSafe-head : (entry : Js) (rest : Items) → AreSafe depth (cons entry rest) → IsSafe depth entry
  unfolding keys_of strings_of nesting is_plain
  AreSafe-head entry rest s = record {
    shallow = omega (arith, s.shallow);
    plain = ((and-eq-true_iff _ _).0 s.plain).0;
    keys = All-append_left IsSafeKey (keys_of entry) (keys_of_items rest) s.keys;
    strings = All-append_left IsSafeString (strings_of entry) (strings_of_items rest) s.strings;
  }

  AreSafe-tail : (entry : Js) (rest : Items) → AreSafe depth (cons entry rest) → AreSafe depth rest
  unfolding keys_of strings_of nesting is_plain
  AreSafe-tail entry rest s = record {
    shallow = omega (arith, s.shallow);
    plain = ((and-eq-true_iff _ _).0 s.plain).1;
    keys = All-append_right IsSafeKey (keys_of entry) (keys_of_items rest) s.keys;
    strings = All-append_right IsSafeString (strings_of entry) (strings_of_items rest) s.strings;
  }

  AreSafeFields-head :
      (key : Text) (entry : Js) (rest : Fields)
      → AreSafeFields depth (field key entry rest)
      → IsSafe depth entry
  unfolding keys_of strings_of nesting is_plain
  AreSafeFields-head key entry rest s = record {
    shallow = omega (arith, s.shallow);
    plain = ((and-eq-true_iff _ _).0 s.plain).0;
    keys = All-append_left IsSafeKey (keys_of entry) (keys_of_fields rest) s.keys.1;
    strings = All-append_left IsSafeString (strings_of entry) (strings_of_fields rest) s.strings;
  }

  AreSafeFields-tail :
      (key : Text) (entry : Js) (rest : Fields)
      → AreSafeFields depth (field key entry rest)
      → AreSafeFields depth rest
  unfolding keys_of strings_of nesting is_plain
  AreSafeFields-tail key entry rest s = record {
    shallow = omega (arith, s.shallow);
    plain = ((and-eq-true_iff _ _).0 s.plain).1;
    keys = All-append_right IsSafeKey (keys_of entry) (keys_of_fields rest) s.keys.1;
    strings = All-append_right IsSafeString (strings_of entry) (strings_of_fields rest) s.strings;
  }

visit_entry_plain : (entry : Js) → is_plain entry ≡ true → visit_entry entry ≡ ok tt
unfolding visit_entry is_plain
visit_entry_plain undefined h = cc
visit_entry_plain _ h = refl

mutual
  unfolding visit visit_number keys_of strings_of nesting is_plain

  visit_complete : (value : Js) (depth : ℕ) → IsSafe depth value → visit value depth ≡ ok tt
  visit_complete null depth s = visit_depth_near depth (omega (arith, s.shallow))
  visit_complete (bool b) depth s = visit_depth_near depth (omega (arith, s.shallow))
  visit_complete (num n) depth s = ground (arith, s.shallow, s.plain)
  visit_complete (str t) depth s =
      rw (visit_depth_near depth (omega (arith, s.shallow))) (s.strings.0)
  visit_complete (arr items) depth s = rw (visit_depth_near depth (omega (arith, s.shallow))) (
      visit_items_complete items (suc depth) (record {
        shallow = omega (arith, s.shallow);
        plain = s.plain;
        keys = s.keys;
        strings = s.strings;
      }))
  visit_complete (obj fields) depth s = rw (visit_depth_near depth (omega (arith, s.shallow))) (
      visit_fields_complete fields (suc depth) (record {
        shallow = omega (arith, s.shallow);
        plain = s.plain;
        keys = s.keys;
        strings = s.strings;
      }))
  visit_complete undefined depth s = cc (s.plain)
  visit_complete (opaque type_of) depth s = cc (s.plain)
  visit_complete instance_of depth s = cc (s.plain)

  visit_items_complete :
      (items : Items) (depth : ℕ) → AreSafe depth items → visit_items items depth ≡ ok tt
  visit_items_complete nil depth s = refl
  visit_items_complete (cons entry rest) depth s =
      rw (visit_complete entry depth (AreSafe-head entry rest s))
        (visit_items_complete rest depth (AreSafe-tail entry rest s))

  visit_fields_complete :
      (fields : Fields) (depth : ℕ) → AreSafeFields depth fields → visit_fields fields depth ≡ ok tt
  visit_fields_complete end depth s = refl
  visit_fields_complete (field key entry rest) depth s =
      let head : IsSafe depth entry = AreSafeFields-head key entry rest s in
      rw (s.keys.0, visit_entry_plain entry head.plain, visit_complete entry depth head)
        (visit_fields_complete rest depth (AreSafeFields-tail key entry rest s))

-- The scan admits a payload exactly when the payload holds no forbidden key at any depth, each of
-- its texts is short, without control characters and without a secret's pattern, it nests at most
-- 32 deep, and it is plain data with finite numbers.
pub assert-IsSafe_iff : (value : Js) → (assert_safe_gateway_payload value ≡ ok tt) ↔ IsSafe 0 value
unfolding assert_safe_gateway_payload
assert-IsSafe_iff value = (visit_sound value 0, visit_complete value 0)
