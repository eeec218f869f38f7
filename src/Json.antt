-- ===== src/Json.antt =====
-- `json.dumps(value, ensure_ascii=False, separators=(",", ":")).encode("utf-8")`, as src/kilix_telemetry/ring.py
-- calls it. The texts of numbers and of quoted strings are the interpreter's, and enter as a
-- parameter; a text is kept as its UTF-8 bytes.
use Prim.Native.Char.{code}
use Prim.Native.String as Str
use kilix_telemetry.Common.{ℤ, String, Bool, true, false, [], ◌∷◌, ◌++◌}
use kilix_telemetry.Bytes.{Bytes}
use kilix_telemetry.Values.{
  Value, Items, Fields, null, bool, int, float, str, list, dict, nil, cons, end, field,
}

pub record JsonText (F : Type 0) : Type 0 where
  pub int_text : ℤ → Bytes
  pub float_text : F → Bytes
  pub string_text : String → Bytes

-- The bytes of an ASCII text of the source.
abbrev pub ascii : String → Bytes
ascii Str.[] = []
ascii (Str.◌∷◌ c s) = code c ∷ ascii s

abbrev pub bool_text : Bool → Bytes
bool_text true = ascii "true"
bool_text false = ascii "false"

module _ {F : Type 0} (text : JsonText F) where
  unfoldable mutual
    pub dumps : Value F → Bytes
    dumps null = ascii "null"
    dumps (bool b) = bool_text b
    dumps (int z) = text.int_text z
    dumps (float f) = text.float_text f
    dumps (str s) = text.string_text s
    dumps (list items) = b'[' ∷ dumps_items items ++ b']' ∷ []
    dumps (dict fields) = b'{' ∷ dumps_fields fields ++ b'}' ∷ []

    pub dumps_items : Items F → Bytes
    dumps_items nil = []
    dumps_items (cons value rest) = dumps value ++ more_items rest

    pub more_items : Items F → Bytes
    more_items nil = []
    more_items (cons value rest) = b',' ∷ dumps value ++ more_items rest

    pub dumps_fields : Fields F → Bytes
    dumps_fields end = []
    dumps_fields (field key value rest) =
        text.string_text key ++ b':' ∷ dumps value ++ more_fields rest

    pub more_fields : Fields F → Bytes
    more_fields end = []
    more_fields (field key value rest) =
        b',' ∷ text.string_text key ++ b':' ∷ dumps value ++ more_fields rest
