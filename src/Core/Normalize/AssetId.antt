-- ===== src/Core/Normalize/AssetId.antt =====
-- `_split_asset_id` of normalize.py, on any payload value.
use hpe_com_event_integratio.Base.{String, Bool, false, ◌==◌, ◌||◌, if◌then◌else◌}
use hpe_com_event_integratio.Base.Text.{truthy, has_char, partition}
use hpe_com_event_integratio.Python.{
  Json, null, bool, number, text, array, object, Items, nil, cons, Fields, end, field, Result, ok,
  raised, attribute_error, type_error, ◌or◌,
}

-- `s or None`
abbrev pub text_or_none : String → Json
text_or_none s = if truthy s then text s else null

is_text : String → Json → Bool
is_text s (text t) = t == s
is_text s _ = false

-- `"+" in items` and `"+" in dict`
has_item : String → Items → Bool
has_item s nil = false
has_item s (cons j items) = is_text s j || has_item s items

has_key : String → Fields → Bool
has_key s end = false
has_key s (field k v fs) = k == s || has_key s fs

-- A list or dict that holds "+" has no `partition`.
whole : Bool → Json → Result (Json × Json)
whole found j = if found then raised attribute_error else ok (null, j or null)

split_text : String → Result (Json × Json)
split_text s =
    let (part, serial) = partition b'+' s in
    if has_char b'+' s
    then ok (text_or_none part, text_or_none serial)
    else ok (null, text_or_none s)

-- The part number and the serial number.
unfoldable pub split_asset_id : Json → Result (Json × Json)
unfolding is_text has_item has_key whole split_text
split_asset_id null = ok (null, null)
split_asset_id (text s) = split_text s
split_asset_id (bool b) = if b then raised type_error else ok (null, null)
split_asset_id (number nonzero s) = if nonzero then raised type_error else ok (null, null)
split_asset_id (array items) = whole (has_item "+" items) (array items)
split_asset_id (object fs) = whole (has_key "+" fs) (object fs)
