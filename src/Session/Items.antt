-- ===== src/Session/Items.antt =====
-- background/steam-read-session-provider.ts: descriptions and the items of inventories, trades and
-- offers. The URL parser is the browser's, and `parseSteamAssetProperties`, which decodes Steam's
-- certificates, is a parameter.
use csboard_extension.Prelude.{
  Bool, true, false, not, ◌&&◌, Option, none, some, List, [], ◌∷◌, ◌++◌, all, ◌==◌, length,
  if◌then◌else◌,
}
use csboard_extension.Prelude.Text.{
  Text, codes, ◌===◌, is_digit, is_base64url, is_run_of, starts_with,
}
use csboard_extension.Shared.Result.{ok, err, ◌>>=◌, ◌>>◌}
use csboard_extension.Gateway.Error.{Checked, invalid_at_path, require}
use csboard_extension.Gateway.Payload.{Js, str, Fields}
use csboard_extension.Client.Body.{lookup, coalesce}
use csboard_extension.Portfolio.Records.{TradeItem}
use csboard_extension.Session.Values.{Language, as_record, optional_string, required_digits}

-- Keyed by class and instance, the latest entry in front.
abbrev pub DescriptionMap : Type 0
DescriptionMap = List (Text × Fields)

unfoldable pub described : DescriptionMap → Text → Option Fields
described [] key = none
described ((k, fields) ∷ map) key = if k === key then some fields else described map key

abbrev pub key_of : Text → Text → Text
key_of class_id instance_id = class_id ++ b':' ∷ instance_id

abbrev pub or_text : Option Text → Text → Text
or_text none default = default
or_text (some s) default = s

-- /^[0-9]+$/
abbrev pub is_digits : Text → Bool
is_digits s = not (length s == 0) && all is_digit s

abbrev is_key_part : Option Text → Bool
is_key_part none = false
is_key_part (some s) = is_digits s

pub record ResolvedUrl : Type 0 where
  pub origin : Text
  pub pathname : Text
  pub search : Text
  pub hash : Text
  pub href : Text

-- /^[A-Za-z0-9_-]+(?:\/[A-Za-z0-9_-]+)*$/, where `within` says that a part has begun.
unfoldable pub is_icon_path : Bool → Text → Bool
is_icon_path within [] = within
is_icon_path within (c ∷ s) =
    let part = is_icon_path true s in
    let slash = is_icon_path false s in
    if is_base64url c then part else (within && c == b'/' && slash)

abbrev pub cdn_origin : Text
cdn_origin = codes "https://community.cloudflare.steamstatic.com"

abbrev pub is_economy_image : ResolvedUrl → Bool
is_economy_image url =
    url.origin === cdn_origin
    && starts_with (codes "/economy/image/") url.pathname
    && length url.search == 0
    && length url.hash == 0

abbrev pub checked_url : Option ResolvedUrl → Checked (Option Text)
checked_url none = err invalid_at_path
checked_url (some url) = require (is_economy_image url) invalid_at_path >> ok (some url.href)

-- `resolve` is `new URL(path, 'https://community.cloudflare.steamstatic.com/economy/image/')`.
module _ (language : Language) (resolve : Text → Option ResolvedUrl) where
  abbrev with_description : Fields → Option Text → Text → DescriptionMap → DescriptionMap
  with_description fields none instance_id map = map
  with_description fields (some class_id) instance_id map =
      if is_digits class_id && is_digits instance_id
      then (key_of class_id instance_id, fields) ∷ map
      else map

  abbrev add_description : DescriptionMap → Fields → DescriptionMap
  add_description map fields =
      with_description fields (optional_string language (lookup (codes "classid") fields) 32)
        (or_text (optional_string language (lookup (codes "instanceid") fields) 32) (codes "0")) map

  build_from : DescriptionMap → List Js → Checked DescriptionMap
  build_from map [] = ok map
  build_from map (entry ∷ entries) =
      as_record entry >>= (λ fields. build_from (add_description map fields) entries)

  unfoldable pub build_description_map : List Js → Checked DescriptionMap
  unfolding build_from
  build_description_map entries = build_from [] entries

  abbrev icon_of : Option Text → Checked (Option Text)
  icon_of none = ok none
  icon_of (some path) =
      require (is_icon_path false path) invalid_at_path >> checked_url (resolve path)

  unfoldable pub normalize_icon_url : Js → Checked (Option Text)
  normalize_icon_url value = icon_of (optional_string language value 512)

  abbrev name_or : Option Text → Option Text → Checked Text
  name_or (some s) other = ok s
  name_or none (some s) = ok s
  name_or none none = err invalid_at_path

  unfoldable pub normalize_market_name : Fields → Checked Text
  normalize_market_name description =
      name_or (optional_string language (lookup (codes "market_hash_name") description) 240)
        (optional_string language (lookup (codes "name") description) 240)

  -- The new identity of a received asset, where both of its parts are well-formed.
  abbrev new_identity : Option Text → Option Text → Option (Text × Text)
  new_identity (some asset_id) (some context_id) =
      if is_run_of is_digit 1 32 asset_id && is_run_of is_digit 1 4 context_id
      then some (asset_id, context_id)
      else none
  new_identity _ _ = none

  abbrev received_identity : Bool → Fields → Option (Text × Text)
  received_identity false asset = none
  received_identity true asset =
      new_identity (optional_string language (lookup (codes "new_assetid") asset) 32)
        (optional_string language (lookup (codes "new_contextid") asset) 4)

  abbrev zero_text : Text → Js
  zero_text s = str s

  -- The asset's id and its context.
  abbrev identity_of : Option (Text × Text) → Fields → Checked (Text × Text)
  identity_of (some identity) asset = ok identity
  identity_of none asset = do
    context_id ←
        required_digits language
          (coalesce (lookup (codes "contextid") asset) (zero_text (codes "2"))) 4
    asset_id ← required_digits language (lookup (codes "assetid") asset) 32
    ok (asset_id, context_id)

  abbrev icon_in : Option Fields → Checked (Option Text)
  icon_in none = ok none
  icon_in (some description) = normalize_icon_url (lookup (codes "icon_url") description)

  abbrev market_name_in : Option Fields → Checked (Option Text)
  market_name_in none = ok none
  market_name_in (some description) = normalize_market_name description >>= (λ name. ok (some name))

  -- The ids of an asset's class.
  abbrev pub class_ids : Fields → Checked (Text × Text)
  class_ids asset = do
    class_id ← required_digits language (lookup (codes "classid") asset) 32
    instance_id ←
        required_digits language
          (coalesce (lookup (codes "instanceid") asset) (zero_text (codes "0"))) 32
    ok (class_id, instance_id)

  abbrev pub amount_of : Fields → Checked Text
  amount_of asset =
      required_digits language (coalesce (lookup (codes "amount") asset) (zero_text (codes "1"))) 32

  game_item : DescriptionMap → Bool → Fields → Checked (Option TradeItem)
  game_item descriptions is_received asset = do
    ids ← class_ids asset
    let description = described descriptions (key_of (ids.0) (ids.1))
    icon ← icon_in description
    identity ← identity_of (received_identity is_received asset) asset
    amount ← amount_of asset
    name ← market_name_in description
    ok (
        some (record {
          app_id = codes "730";
          context_id = identity.1;
          asset_id = identity.0;
          class_id = ids.0;
          instance_id = ids.1;
          amount = amount;
          market_hash_name = name;
          icon_url = icon;
        }))

  -- Items of other games give nothing.
  unfoldable pub normalize_trade_item : DescriptionMap → Bool → Js → Checked (Option TradeItem)
  unfolding game_item
  normalize_trade_item descriptions is_received value = do
    asset ← as_record value
    let app_id = or_text (optional_string language (lookup (codes "appid") asset) 10) (codes "730")
    if app_id === codes "730" then game_item descriptions is_received asset else ok none

  abbrev with_item : Option TradeItem → List TradeItem → List TradeItem
  with_item none items = items
  with_item (some item) items = item ∷ items

  unfoldable pub normalize_trade_items : DescriptionMap → Bool → List Js → Checked (List TradeItem)
  unfolding normalize_trade_item
  normalize_trade_items descriptions is_received [] = ok []
  normalize_trade_items descriptions is_received (value ∷ values) = do
    item ← normalize_trade_item descriptions is_received value
    items ← normalize_trade_items descriptions is_received values
    ok (with_item item items)
