-- ===== src/Gateway/Payload/Safe.antt =====
-- shared/gateway-dto.ts: `assertSafeGatewayPayload` admits safe payloads only.
use csboard_extension.Prelude.{ℕ, suc, ◌≤◌, ◌≡◌, refl, arith, All-append}
use csboard_extension.Prelude.Text.{Text}
use csboard_extension.Shared.Result.{ok, >>-eq-ok, throw_if-eq-ok}
use csboard_extension.Gateway.Payload.{
  Js, undefined, null, opaque, instance_of, bool, num, str, arr, obj, Items, nil, cons, Fields, end,
  field, max_validation_depth, visit_number, visit_entry, visit, visit_items, visit_fields,
}
use csboard_extension.Gateway.Payload.Contents.{
  keys_of, keys_of_items, keys_of_fields, strings_of, strings_of_items, strings_of_fields, nesting,
  is_plain, IsSafeKey, IsSafeString, IsSafe, AreSafe, AreSafeFields,
}

module _ {depth : ℕ} where
  AreSafe-cons :
      (entry : Js) (rest : Items)
      → IsSafe depth entry
      → AreSafe depth rest
      → AreSafe depth (cons entry rest)
  unfolding keys_of strings_of nesting is_plain
  AreSafe-cons entry rest head tail = record {
    shallow = omega (arith, head.shallow, tail.shallow);
    plain = ground (arith, head.plain, tail.plain);
    keys = All-append IsSafeKey (keys_of entry) (keys_of_items rest) head.keys tail.keys;
    strings =
        All-append IsSafeString (strings_of entry) (strings_of_items rest) head.strings
          tail.strings;
  }

  AreSafeFields-field :
      (key : Text) (entry : Js) (rest : Fields)
      → IsSafeKey key
      → IsSafe depth entry
      → AreSafeFields depth rest
      → AreSafeFields depth (field key entry rest)
  unfolding keys_of strings_of nesting is_plain
  AreSafeFields-field key entry rest allowed head tail = record {
    shallow = omega (arith, head.shallow, tail.shallow);
    plain = ground (arith, head.plain, tail.plain);
    keys =
        (allowed, All-append IsSafeKey (keys_of entry) (keys_of_fields rest) head.keys tail.keys);
    strings =
        All-append IsSafeString (strings_of entry) (strings_of_fields rest) head.strings
          tail.strings;
  }

mutual
  unfolding visit visit_number keys_of strings_of nesting is_plain visit_entry

  pub visit_sound : (value : Js) (depth : ℕ) → visit value depth ≡ ok tt → IsSafe depth value
  visit_sound null depth h = ground arith
  visit_sound (bool b) depth h = ground arith
  visit_sound (num n) depth h = ground arith
  visit_sound (str s) depth h = ground arith
  visit_sound (arr items) depth h =
      let (near, inside) = >>-eq-ok _ (visit_items items (suc depth)) h in
      let rest : AreSafe (suc depth) items =
        visit_items_sound items (suc depth) (ground arith) inside in
      record { shallow = omega arith; plain = rest.plain; keys = rest.keys; strings = rest.strings }
  visit_sound (obj fields) depth h =
      let (near, inside) = >>-eq-ok _ (visit_fields fields (suc depth)) h in
      let rest : AreSafeFields (suc depth) fields =
        visit_fields_sound fields (suc depth) (ground arith) inside in
      record { shallow = omega arith; plain = rest.plain; keys = rest.keys; strings = rest.strings }
  visit_sound undefined depth h = ground arith
  visit_sound (opaque type_of) depth h = ground arith
  visit_sound instance_of depth h = ground arith

  pub visit_items_sound :
      (items : Items) (depth : ℕ)
      → depth ≤ suc max_validation_depth
      → visit_items items depth ≡ ok tt
      → AreSafe depth items
  visit_items_sound nil depth near h = record {
    shallow = omega arith;
    plain = refl;
    keys = tt;
    strings = tt;
  }
  visit_items_sound (cons entry rest) depth near h =
      let (first, later) = >>-eq-ok (visit entry depth) (visit_items rest depth) h in
      AreSafe-cons entry rest (visit_sound entry depth first)
        (visit_items_sound rest depth near later)

  pub visit_fields_sound :
      (fields : Fields) (depth : ℕ)
      → depth ≤ suc max_validation_depth
      → visit_fields fields depth ≡ ok tt
      → AreSafeFields depth fields
  visit_fields_sound end depth near h = record {
    shallow = omega arith;
    plain = refl;
    keys = tt;
    strings = tt;
  }
  visit_fields_sound (field key entry rest) depth near h =
      let (before, later) = >>-eq-ok _ (visit_fields rest depth) h in
      let (named, first) = >>-eq-ok _ (visit entry depth) before in
      let (allowed, _) = >>-eq-ok _ (visit_entry entry) named in
      AreSafeFields-field key entry rest (throw_if-eq-ok _ _ allowed)
        (visit_sound entry depth first) (visit_fields_sound rest depth near later)
