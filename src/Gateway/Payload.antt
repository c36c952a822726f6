-- ===== src/Gateway/Payload.antt =====
-- shared/gateway-dto.ts: the values that a payload is made of, and the scan that every payload
-- passes before encryption (`assertSafeGatewayPayload`). A value is a tree, so the scan's test for
-- cycles has nothing to find; paths, which only name the place of an error, are left out.
pub mod Size
pub mod Contents
pub mod Safe
pub mod Complete
use Prim.Native.String.{String}
use csboard_extension.Prelude.{
  ℕ, zero, suc, ◌+◌, Bool, true, false, ◌&&◌, ◌||◌, List, [], ◌∷◌, leb, ltb, ◌==◌, length, any,
  keep, map, if◌then◌else◌,
}
use csboard_extension.Prelude.Int.{ℤ}
use csboard_extension.Prelude.Text.{Text, codes, is_digit, is_upper, is_lower, includes}
use csboard_extension.Prelude.Pattern.{
  Regex, start, boundary, unit, seq, alt, star, test, literal, one_of, plus, at_least, is_space,
}
use csboard_extension.Shared.Result.{ok, err, ◌>>◌, throw_if}
use csboard_extension.Gateway.Error.{Checked, invalid, secret_at_path}

-- A number: an integer, m / 10 ^ e, or one that is not finite.
pub data Number : Type 0 where
  int : ℤ → Number
  fraction : ℤ → ℕ → Number
  non_finite : Number

-- `opaque` stands for functions, symbols and bigints, with their `typeof`, `instance_of` for objects that are not plain.
mutual
  pub data Js : Type 0 where
    undefined null instance_of : Js
    opaque : String → Js
    bool : Bool → Js
    num : Number → Js
    str : Text → Js
    arr : Items → Js
    obj : Fields → Js

  pub data Items : Type 0 where
    nil : Items
    cons : Js → Items → Items

  pub data Fields : Type 0 where
    end : Fields
    field : Text → Js → Fields → Fields

abbrev pub max_validation_depth : ℕ
max_validation_depth = 32

abbrev pub max_normalized_string_length : ℕ
max_normalized_string_length = 4096

-- FORBIDDEN_KEY_NAMES
unfoldable pub forbidden_key_names : List Text
forbidden_key_names =
    codes "authorization"
    ∷ codes "proxyauthorization"
    ∷ codes "cookie"
    ∷ codes "cookies"
    ∷ codes "setcookie"
    ∷ codes "session"
    ∷ codes "sessionid"
    ∷ codes "steamsession"
    ∷ codes "steamsessionid"
    ∷ codes "accesstoken"
    ∷ codes "steamaccesstoken"
    ∷ codes "loyaltywebapitoken"
    ∷ codes "steamguard"
    ∷ codes "steamguardcode"
    ∷ codes "sharedsecret"
    ∷ codes "identitysecret"
    ∷ codes "password"
    ∷ codes "passwd"
    ∷ codes "rawhtml"
    ∷ codes "html"
    ∷ codes "inspectlink"
    ∷ codes "inspecturl"
    ∷ codes "inspectsecret"
    ∷ codes "privatekey"
    ∷ codes "privatejwk"
    ∷ codes "d"
    ∷ []

abbrev digits : Regex
digits = plus (unit is_digit)

abbrev spaces : Regex
spaces = star (unit is_space)

-- [a-z0-9._~+/=-] under the flag i.
abbrev is_token_unit : ℕ → Bool
is_token_unit c =
    is_lower c
    || is_upper c
    || is_digit c
    || c == b'.'
    || c == b'_'
    || c == b'~'
    || c == b'+'
    || c == b'/'
    || c == b'='
    || c == b'-'

-- FORBIDDEN_STRING_PATTERNS
unfoldable pub forbidden_string_patterns : List Regex
forbidden_string_patterns =
    seq (alt start (unit λ c. c == b'?' || c == b'&')) (literal "access_token=")
    ∷ seq boundary (
        seq (alt (literal "authorization") (literal "proxy-authorization"))
          (seq spaces (literal ":")))
    ∷ seq boundary
        (seq (literal "bearer") (seq (plus (unit is_space)) (at_least 8 (unit is_token_unit))))
    ∷ seq (alt (literal "steamLoginSecure") (literal "sessionid")) (literal "=")
    ∷ literal "data-loyalty_webapi_token"
    ∷ literal "steam://rungame/730/"
    ∷ seq (literal "csgo_econ_action_preview") (
        seq (plus (unit is_space)) (
          seq (alt (literal "s") (literal "m"))
            (seq digits (seq (literal "a") (seq digits (seq (literal "d") digits))))))
    ∷ seq (literal "<") (
        seq
          (one_of (
            literal "!doctype"
            ∷ literal "html"
            ∷ literal "body"
            ∷ literal "script"
            ∷ literal "meta"
            ∷ []))
          boundary)
    ∷ []

-- `toLowerCase` where its answer is ASCII: the Kelvin sign and the dotted capital I have one too.
abbrev lower_ascii : ℕ → ℕ
lower_ascii c =
    if is_upper c then c + 32 else if c == 0x212a then b'k' else if c == 0x130 then b'i' else c

unfoldable pub normalize_key_name : Text → Text
normalize_key_name key = keep (λ c. is_lower c || is_digit c) (map lower_ascii key)

unfoldable pub is_forbidden_key : Text → Bool
is_forbidden_key key = includes forbidden_key_names (normalize_key_name key)

unfoldable pub is_forbidden_string : Text → Bool
is_forbidden_string s = any (λ pattern. test pattern s) forbidden_string_patterns

abbrev is_control : ℕ → Bool
is_control c = leb c 0x1f || c == 0x7f

unfoldable pub visit_number : Number → Checked (Unit {0})
visit_number non_finite = err (invalid "non-finite-number")
visit_number n = ok tt

unfoldable pub visit_string : Text → Checked (Unit {0})
visit_string s = do
  throw_if (ltb max_normalized_string_length (length s)) (invalid "string-too-long")
  throw_if (is_forbidden_string s) secret_at_path
  throw_if (any is_control s) (invalid "control-character")

-- An entry that is `undefined` is refused before it is visited.
unfoldable pub visit_entry : Js → Checked (Unit {0})
visit_entry undefined = err (invalid "undefined")
visit_entry entry = ok tt

abbrev pub visit_depth : ℕ → Checked (Unit {0})
visit_depth depth = throw_if (ltb max_validation_depth depth) (invalid "max-depth")

unfoldable mutual
  pub visit : Js → ℕ → Checked (Unit {0})
  visit null depth = visit_depth depth
  visit (bool b) depth = visit_depth depth
  visit (num n) depth = visit_depth depth >> visit_number n
  visit (str s) depth = visit_depth depth >> visit_string s
  visit undefined depth = visit_depth depth >> err (invalid "undefined")
  visit (opaque type_of) depth = visit_depth depth >> err (invalid type_of)
  visit (arr items) depth = visit_depth depth >> visit_items items (suc depth)
  visit instance_of depth = visit_depth depth >> err (invalid "non-plain-object")
  visit (obj fields) depth = visit_depth depth >> visit_fields fields (suc depth)

  pub visit_items : Items → ℕ → Checked (Unit {0})
  visit_items nil depth = ok tt
  visit_items (cons entry rest) depth = visit entry depth >> visit_items rest depth

  pub visit_fields : Fields → ℕ → Checked (Unit {0})
  visit_fields end depth = ok tt
  visit_fields (field key entry rest) depth =
      throw_if (is_forbidden_key key) secret_at_path
      >> visit_entry entry
      >> visit entry depth
      >> visit_fields rest depth

unfoldable pub assert_safe_gateway_payload : Js → Checked (Unit {0})
unfolding visit visit_items visit_fields visit_number visit_string visit_entry
assert_safe_gateway_payload value = visit value 0
