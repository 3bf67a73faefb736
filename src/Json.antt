-- ===== src/Json.antt =====
-- What `orjson.loads` returns: Python's JSON values. A `dict` keeps its pairs in order; its keys
-- are distinct. A number is kept as its text, since the service reads none from the raw value.
use transcribe_service.Prelude.{
  String, ◌≡◌, refl, Bool, true, false, Option, none, some, ◌==◌, if◌then◌else◌,
}

mutual
  pub data Json : Type 0 where
    null : Json
    bool : Bool → Json
    num : String → Json
    text : String → Json
    arr : Items → Json
    obj : Fields → Json

  pub data Items : Type 0 where
    nil : Items
    cons : Json → Items → Items

  pub data Fields : Type 0 where
    end : Fields
    field : String → Json → Fields → Fields

-- `d.get(key)`
abbrev pub get : String → Fields → Option Json
get key end = none
get key (field k v rest) = if k == key then some v else get key rest

-- `isinstance(v, dict)`
abbrev pub is_dict : Json → Bool
is_dict (obj fields) = true
is_dict v = false

abbrev as_text : Option Json → Option String
as_text (some (text s)) = some s
as_text v = none

abbrev in_meta : Option Json → Option String
in_meta (some (obj meta)) = as_text (get "conversationId" meta)
in_meta v = none

-- `raw["metaData"]["conversationId"]` where both are dicts and the value is a `str`.
abbrev pub body_conversation_id : Json → Option String
body_conversation_id (obj fields) = in_meta (get "metaData" fields)
body_conversation_id v = none

abbrev pub body : Json
body = obj (field "metaData" (obj (field "conversationId" (text "c-1") end)) end)

body_conversation_id_test : body_conversation_id body ≡ some "c-1"
body_conversation_id_test = refl
