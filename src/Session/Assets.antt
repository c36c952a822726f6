-- ===== src/Session/Assets.antt =====
-- background/steam-read-session-provider.ts: the items of an inventory. `parseSteamAssetProperties`,
-- which decodes Steam's certificates, is a parameter.
use csboard_extension.Prelude.{ℕ, Bool, false, ◌||◌, Option, none, some, ltb, ◌/◌}
use csboard_extension.Prelude.Int.{ℤ, pos}
use csboard_extension.Prelude.Text.{Text, codes, ◌===◌}
use csboard_extension.Shared.Result.{ok, err, ◌>>=◌}
use csboard_extension.Gateway.Error.{Checked, invalid}
use csboard_extension.Gateway.Payload.{Number, Js, undefined, Fields}
use csboard_extension.Client.Body.{lookup, coalesce}
use csboard_extension.Portfolio.Records.{Item}
use csboard_extension.Session.Values.{
  Language, as_record, optional_string, required_digits, optional_integer, is_one,
  tradable_after_from_owner_descriptions,
}
use csboard_extension.Session.Items.{
  DescriptionMap, described, key_of, ResolvedUrl, normalize_icon_url, normalize_market_name,
  class_ids, amount_of,
}

pub record AssetProperties : Type 0 where
  pub float_value : Option Number
  pub paint_seed : Option ℤ
  pub def_index : Option ℤ
  pub paint_index : Option ℤ

-- Inventories. `properties` gives the asset's own properties, and `decode` reads them.
module _ (language : Language) (resolve : Text → Option ResolvedUrl)
    (decode : Option Fields → AssetProperties) (context_id : Text) (now : ℕ) where
  abbrev described_or_throw : Option Fields → Checked Fields
  described_or_throw none = err (invalid "missing-description")
  described_or_throw (some description) = ok description

  abbrev property_hold : Option Fields → Js
  property_hold none = undefined
  property_hold (some property) = lookup (codes "tradable_after") property

  abbrev or_else : Option ℕ → Option ℕ → Option ℕ
  or_else none other = other
  or_else (some n) other = some n

  -- The end of a trade hold, in seconds.
  unfoldable pub tradable_after : Option Fields → Fields → Fields → Option ℕ
  tradable_after property asset description =
      or_else
        (optional_integer language
          (coalesce (property_hold property) (lookup (codes "tradable_after") asset)))
        (tradable_after_from_owner_descriptions language description)

  abbrev is_later : Option ℕ → Bool
  is_later none = false
  is_later (some seconds) = ltb (now / 1000) seconds

  abbrev seconds_of : Option ℕ → Option ℤ
  seconds_of none = none
  seconds_of (some n) = some (pos n)

  unfoldable pub inventory_item : DescriptionMap → (Text → Option Fields) → Js → Checked Item
  inventory_item descriptions properties value = do
    asset ← as_record value
    asset_id ← required_digits language (lookup (codes "assetid") asset) 32
    ids ← class_ids language resolve asset
    description ← described_or_throw (described descriptions (key_of (ids.0) (ids.1)))
    let property = properties asset_id
    let parsed = decode property
    let hold = tradable_after property asset description
    icon ← normalize_icon_url language resolve (lookup (codes "icon_url") description)
    amount ← amount_of language resolve asset
    market_name ← normalize_market_name language resolve description
    ok (record {
      app_id = codes "730";
      context_id = context_id;
      asset_id = asset_id;
      class_id = ids.0;
      instance_id = ids.1;
      amount = amount;
      market_hash_name = market_name;
      name = optional_string language (lookup (codes "name") description) 240;
      icon_url = icon;
      tradable = is_one language (lookup (codes "tradable") description);
      marketable = is_one language (lookup (codes "marketable") description);
      on_hold = context_id === codes "16" || is_later hold;
      tradable_after = seconds_of hold;
      float_value = parsed.float_value;
      paint_seed = parsed.paint_seed;
      paint_index = parsed.paint_index;
      def_index = parsed.def_index;
      stickers = none;
    })
