-- ===== src/Json.antt =====
-- JSON values, as the crate serde_json gives them to models.rs and ws.rs, and the methods of
-- `Value` and `Map` that the sources call. A number is kept as its text.
use un_tzibbur_bot.Base.{String, Bool, Option, none, some, is_some, str_eq, if◌then◌else◌}

mutual
  pub data Json : Type 0 where
    null : Json
    bool : Bool → Json
    number : String → Json
    string : String → Json
    array : Items → Json
    object : Fields → Json

  pub data Items : Type 0 where
    nil : Items
    item : Json → Items → Items

  pub data Fields : Type 0 where
    end : Fields
    field : (key : String) (value : Json) (rest : Fields) → Fields

-- `Value::as_str`
abbrev pub as_str : Json → Option String
as_str (Json.string s) = some s
as_str _ = none

-- The pattern `Value::Object(inner)`
abbrev pub as_object : Json → Option Fields
as_object (Json.object fields) = some fields
as_object _ = none

-- `Map::get`
unfoldable pub get : String → Fields → Option Json
get k Fields.end = none
get k (Fields.field key value rest) =
    let later = get k rest in if str_eq key k then some value else later

-- What `Map::remove` leaves.
unfoldable pub remove : String → Fields → Fields
remove k Fields.end = Fields.end
remove k (Fields.field key value rest) =
    let later = remove k rest in if str_eq key k then later else Fields.field key value later

-- `map.entry(k).or_insert(v)`
unfoldable pub or_insert : String → Json → Fields → Fields
unfolding get
or_insert k v fields = if is_some (get k fields) then fields else Fields.field k v fields

-- `Option::and_then`
abbrev pub and_then {ℓ ℓ'} : {A : Type ℓ} {B : Type ℓ'} → Option A → (A → Option B) → Option B
and_then none f = none
and_then (some a) f = f a

-- `.and_then(Value::as_str).map(str::to_owned)` of a field
unfoldable pub str_field : String → Fields → Option String
unfolding get
str_field k fields = and_then (get k fields) as_str
