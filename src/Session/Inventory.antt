-- ===== src/Session/Inventory.antt =====
-- background/steam-read-session-provider.ts: `buildAssetPropertiesMap` and `readInventoryContext`. A
-- page is fetched by a call that answers from a state of its own, which is `fetchSteamApi` with the
-- parameters of the source and the given start. The clock is read once.
pub mod Whole
use csboard_extension.Prelude.{
  ℕ, zero, suc, Bool, true, false, not, ◌&&◌, ◌||◌, Option, none, some, List, [], ◌∷◌, ◌++◌,
  if◌then◌else◌,
}
use csboard_extension.Prelude.Text.{Text, codes, ◌===◌, is_digit, is_run_of}
use csboard_extension.Shared.Result.{Result, ok, err, ◌>>=◌, ◌>>◌, throw_if}
use csboard_extension.Gateway.Error.{Checked, invalid, invalid_at_path}
use csboard_extension.Gateway.Payload.{Js, undefined, null, bool, arr, obj, Fields, end, field}
use csboard_extension.Client.Body.{lookup, is_true, elements}
use csboard_extension.Portfolio.Records.{Item}
use csboard_extension.Portfolio.Collector.Trades.{InventoryRead}
use csboard_extension.Session.Values.{Language, as_record, as_array, optional_string, is_one}
use csboard_extension.Session.Items.{
  DescriptionMap, described, is_digits, ResolvedUrl, build_description_map,
}
use csboard_extension.Session.Assets.{AssetProperties, inventory_item}

abbrev pub max_inventory_pages : ℕ
max_inventory_pages = 20

abbrev property_entry : Js → Checked Fields
property_entry (arr items) = ok (field (codes "asset_properties") (arr items) end)
property_entry entry = as_record entry

module _ (language : Language) where
  abbrev with_property : DescriptionMap → Option Text → Fields → DescriptionMap
  with_property map none property = map
  with_property map (some asset_id) property =
      if is_digits asset_id then (asset_id, property) ∷ map else map

  listed_properties : DescriptionMap → List Js → Checked DescriptionMap
  listed_properties map [] = ok map
  listed_properties map (entry ∷ entries) = as_record entry >>= (λ property.
      listed_properties
        (with_property map (optional_string language (lookup (codes "assetid") property) 32)
          property)
        entries)

  keyed_properties : DescriptionMap → Fields → Checked DescriptionMap
  keyed_properties map end = ok map
  keyed_properties map (field asset_id entry rest) =
      if is_run_of is_digit 1 32 asset_id
      then property_entry entry >>= (λ property. keyed_properties ((asset_id, property) ∷ map) rest)
      else keyed_properties map rest

  unfoldable pub build_asset_properties_map : Js → Checked DescriptionMap
  unfolding listed_properties keyed_properties
  build_asset_properties_map (arr items) = listed_properties [] (elements items)
  build_asset_properties_map undefined = ok []
  build_asset_properties_map null = ok []
  build_asset_properties_map value =
      as_record value >>= (λ properties. keyed_properties [] properties)

  -- The answer says that another page follows.
  unfoldable pub has_more_items : Fields → Bool
  has_more_items response =
      is_true (lookup (codes "more_items") response)
      || is_one language (lookup (codes "more_items") response)

  abbrev is_start : Option Text → Text → Bool
  is_start none id = false
  is_start (some start) id = id === start

  abbrev valid_start : Option Text → Option Text → Option Text
  valid_start start none = none
  valid_start start (some id) = if is_start start id || not (is_digits id) then none else some id

  -- The start of the next page: another digit id.
  unfoldable pub next_start : Option Text → Fields → Option Text
  next_start start response =
      valid_start start (optional_string language (lookup (codes "last_assetid") response) 32)

  module _ (resolve : Text → Option ResolvedUrl) (decode : Option Fields → AssetProperties)
      (context_id : Text) (now : ℕ) where
    unfoldable pub items_of : DescriptionMap → DescriptionMap → List Js → Checked (List Item)
    items_of descriptions properties [] = ok []
    items_of descriptions properties (value ∷ values) = do
      item ←
          inventory_item language resolve decode context_id now descriptions (described properties)
            value
      items ← items_of descriptions properties values
      ok (item ∷ items)

    unfoldable pub page_items : Fields → Checked (List Item)
    unfolding items_of
    page_items response = do
      descriptions ←
          build_description_map language resolve (as_array (lookup (codes "descriptions") response))
      properties ← build_asset_properties_map (lookup (codes "asset_properties") response)
      items_of descriptions properties (as_array (lookup (codes "assets") response))

    module _ {W : Type 0} (fetch : Option Text → W → Checked Fields × W) where
      -- What is done with a page: its items, and the start of the next page if there is one.
      abbrev pub PageEnd : Type 0
      PageEnd = List Item × Option Text

      abbrev pub continued : List Item → Option Text → Checked PageEnd
      continued page none = err (invalid "inventory-pagination-invalid")
      continued page (some id) = ok (page, some id)

      abbrev pub ended : List Item → Bool → Option Text → Checked PageEnd
      ended page false next = ok (page, none)
      ended page true next = continued page next

      unfoldable pub read_page : Option Text → Checked Fields → Checked PageEnd
      unfolding page_items
      read_page start reply = do
        response ← reply
        page ← page_items response
        ended page (has_more_items response) (next_start start response)

      abbrev pub prepend : List Item → Checked (List Item) × W → Checked (List Item) × W
      prepend page (ok items, w) = (ok (page ++ items), w)
      prepend page (err error, w) = (err error, w)

      abbrev pub follow_page :
          (Option Text → W → Checked (List Item) × W)
          → Checked PageEnd × W
          → Checked (List Item) × W
      follow_page rest (err error, w) = (err error, w)
      follow_page rest (ok (page, none), w) = (ok page, w)
      follow_page rest (ok (page, some id), w) = prepend page (rest (some id) w)

      -- The loop. The source appends each page to what it has, and throws all of it away on a failure.
      unfoldable pub read_pages : ℕ → Option Text → W → Checked (List Item) × W
      unfolding read_page
      read_pages zero start w = (err (invalid "inventory-pagination-limit"), w)
      read_pages (suc pages) start w =
          let (reply, w') = fetch start w in
          follow_page (read_pages pages) (read_page start reply, w')

      abbrev pub complete_read : Checked (List Item) × W → Checked InventoryRead × W
      complete_read (ok items, w) = (ok (record { complete = true; items = items }), w)
      complete_read (err error, w) = (err error, w)

      unfoldable pub read_inventory_context : W → Checked InventoryRead × W
      unfolding read_pages
      read_inventory_context w =
          if not (context_id === codes "2" || context_id === codes "16")
          then (err invalid_at_path, w)
          else complete_read (read_pages max_inventory_pages none w)
