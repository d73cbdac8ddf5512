-- ===== src/Registry/Json.antt =====
-- `readJson` of contract-registry.service.ts. The file system, the path functions and `JSON.parse` are the
-- parameter `Disk`.
use climate_chain.Shared.{
  String, Bool, true, false, not, Option, none, some, List, [], ◌∷◌, str_eq, if◌then◌else◌,
}
use climate_chain.Shared.Text.{append, join}
use climate_chain.Js.{
  Value, undefined, null, arr, obj, error_object, Items, end, prop, as_string, Result, ok, throw,
  ◌>>=◌,
}

-- `existsSync`, `readFileSync`, `JSON.parse`, and `path.join`, which throws on what is not a text.
pub record Disk : Type 0 where
  pub exists : String → Bool
  pub read : String → Result String
  pub parse : String → Result Value
  pub path : String → Value → Result String

abbrev pub error : List String → Value
error parts = error_object (join "" parts) end

-- `v.k`: reading a property of `null` or `undefined` throws.
abbrev pub member : Value → String → Result Value
member undefined k =
    throw (error ("Cannot read properties of undefined (reading '" ∷ k ∷ "')" ∷ []))
member null k = throw (error ("Cannot read properties of null (reading '" ∷ k ∷ "')" ∷ []))
member v k = ok (prop k v)

-- `thrown instanceof Error ? thrown.message : String(thrown)`
abbrev pub message_of : (Value → String) → Value → String
message_of string_of (error_object message fields) = message
message_of string_of thrown = string_of thrown

-- A `catch` block that throws an `Error` with this prefix and the message.
abbrev pub explained : {A : Type 0} → (Value → String) → List String → Result A → Result A
explained string_of prefix (ok a) = ok a
explained string_of prefix (throw thrown) =
    throw (error (append (join "" prefix) (message_of string_of thrown) ∷ []))

-- `v === name`
abbrev pub is_text : Value → String → Bool
is_text v name = elim (as_string v) [ none ↦ false | some s ↦ str_eq s name ]

-- `Array.isArray`
abbrev pub as_items : Value → Option Items
as_items (arr items) = some items
as_items v = none

abbrev pub is_object : Value → Bool
is_object (obj fields) = true
is_object (arr items) = true
is_object v = false

module _ (disk : Disk) (string_of : Value → String) where
  pub read_json : String → String → Result Value
  read_json path label =
      if not (disk.exists path)
      then throw (error ("Missing " ∷ label ∷ ": file not found at " ∷ path ∷ []))
      else do
        raw ←
            explained string_of ("Unable to read " ∷ label ∷ " at " ∷ path ∷ ": " ∷ [])
              (disk.read path)
        explained string_of ("Invalid JSON in " ∷ label ∷ " at " ∷ path ∷ ": " ∷ [])
            (disk.parse raw)
