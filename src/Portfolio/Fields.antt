-- ===== src/Portfolio/Fields.antt =====
-- shared/portfolio-dto.ts: the checks of one field, which those of the records are made of.
use csboard_extension.Prelude.{
  ℕ, zero, ◌^◌, Bool, true, false, not, ◌||◌, Option, none, some, List, [], ◌∷◌, map, leb, ltb,
  length, all,
}
use csboard_extension.Prelude.Int.{ℤ, pos, negsuc, ltb_ℤ, is_safe_integer}
use csboard_extension.Prelude.Text.{Text, codes, is_digit, is_run_of}
use csboard_extension.Prelude.Pattern.{is_space}
use csboard_extension.Shared.Result.{ok, ◌>>◌, throw_if, in_order}
use csboard_extension.Gateway.Error.{Checked, invalid_at_path, require}
use csboard_extension.Gateway.Identity.{decimal}
use csboard_extension.Gateway.Payload.{Number, int, fraction, non_finite}
use csboard_extension.Portfolio.Records.{Sticker}

abbrev pub max_inventory_items_per_run : ℕ
max_inventory_items_per_run = 5000

abbrev pub max_trades_per_run : ℕ
max_trades_per_run = 100

abbrev pub max_offers_per_run : ℕ
max_offers_per_run = 1000

pub record Url : Type 0 where
  pub origin : Text
  pub pathname : Text

unfoldable pub assert_identifier : Text → Checked (Unit {0})
assert_identifier value = require (is_run_of is_digit 1 32 value) invalid_at_path

unfoldable pub assert_quantity : Text → Checked (Unit {0})
unfolding assert_identifier
assert_quantity value =
    assert_identifier value
    >> throw_if (ltb (decimal value) 1 || ltb 1000 (decimal value)) invalid_at_path

unfoldable pub assert_timestamp : ℤ → Checked (Unit {0})
assert_timestamp value =
    throw_if (not (is_safe_integer value) || ltb_ℤ value (pos 1) || ltb_ℤ (pos 9_999_999_999) value)
      invalid_at_path

unfoldable pub assert_steam_account_id : Text → Checked (Unit {0})
unfolding assert_identifier
assert_steam_account_id value =
    assert_identifier value >> throw_if (ltb 4_294_967_295 (decimal value)) invalid_at_path

abbrev pub if_present {ℓ} : {A : Type ℓ} → Option A → (A → Checked (Unit {0})) → Checked (Unit {0})
if_present none check = ok tt
if_present (some a) check = check a

-- The element type of the list is read off it.
abbrev pub for_each {ℓ} : {A : Type ℓ} → List A → (A → Checked (Unit {0})) → Checked (Unit {0})
for_each xs check = in_order (map check xs)

-- `!value.trim() || value.length > limit`
unfoldable pub is_bad_name : ℕ → Text → Bool
is_bad_name limit value = all is_space value || ltb limit (length value)

-- A finite number from 0 to 1.
unfoldable pub is_unit_interval : Number → Bool
is_unit_interval (int (pos n)) = leb n 1
is_unit_interval (int (negsuc n)) = false
is_unit_interval (fraction (pos m) e) = leb m (10 ^ e)
is_unit_interval (fraction (negsuc m) e) = false
is_unit_interval non_finite = false

abbrev pub is_zero : ℤ → Bool
is_zero (pos zero) = true
is_zero n = false

abbrev pub in_range : ℕ → ℤ → Checked (Unit {0})
in_range limit n =
    throw_if (not (is_safe_integer n) || ltb_ℤ n (pos 0) || ltb_ℤ (pos limit) n) invalid_at_path

unfoldable pub assert_sticker : Sticker → Checked (Unit {0})
assert_sticker s =
    throw_if
      (not (is_safe_integer s.slot)
        || ltb_ℤ s.slot (pos 0)
        || ltb_ℤ (pos 5) s.slot
        || is_bad_name 160 s.name
        || bad_wear s.wear)
      invalid_at_path
  where
    bad_wear : Option Number → Bool
    bad_wear none = false
    bad_wear (some wear) = not (is_unit_interval wear)

abbrev pub economy_image : Text
economy_image = codes "/economy/image/"

abbrev pub icon_origins : List Text
icon_origins =
    codes "https://community.cloudflare.steamstatic.com"
    ∷ codes "https://steamcommunity-a.akamaihd.net"
    ∷ []

-- A list of at most five stickers, each of which is in order.
abbrev pub assert_stickers : Option (List Sticker) → Checked (Unit {0})
assert_stickers none = ok tt
assert_stickers (some l) = throw_if (ltb 5 (length l)) invalid_at_path >> for_each l assert_sticker
