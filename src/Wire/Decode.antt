-- ===== src/Wire/Decode.antt =====
-- Reading a decoded CBOR value (wire-rs/src/cbor.rs): the errors of a decode, and the accessors that the
-- generated messages use.
use glade.Prelude.{ℕ, ℤ, Bool, Text, Bytes, codes, ◌==◌, int_eq, if◌then◌else◌, Result, ok, err}
use glade.Wire.Cbor.{Cbor, Items, Entries, int, bytes, text, array, map, end, entry}

pub data MapKey : Type 0 where
  int_key : ℤ → MapKey
  text_key : Text → MapKey
  bool_key : Bool → MapKey

pub data DecodeError : Type 0 where
  truncated trailing_bytes invalid_utf8 non_integer_map_key int_overflow : DecodeError
  unsupported_info unsupported_major non_canonical_int too_deep : ℕ → DecodeError
  duplicate_map_key : MapKey → DecodeError
  negative_map_key missing_key : ℤ → DecodeError
  wrong_type : Text → DecodeError
  unknown_enum : Text → ℤ → DecodeError
  too_large : ℕ → ℕ → DecodeError

-- The first entry of a key.
unfoldable pub find_key : ℤ → Entries → Result DecodeError Cbor
find_key key end = err (DecodeError.missing_key key)
find_key key (entry k v rest) = let later = find_key key rest in if k == key then ok v else later

unfoldable pub try_get : ℤ → Cbor → Result DecodeError Cbor
unfolding find_key
try_get key (map entries) = find_key key entries
try_get key v = err (DecodeError.wrong_type (codes "map"))

unfoldable pub try_int : Cbor → Result DecodeError ℤ
try_int (int n) = ok n
try_int v = err (DecodeError.wrong_type (codes "int"))

unfoldable pub try_text : Cbor → Result DecodeError Text
try_text (text s) = ok s
try_text v = err (DecodeError.wrong_type (codes "text"))

unfoldable pub try_bytes : Cbor → Result DecodeError Bytes
try_bytes (bytes b) = ok b
try_bytes v = err (DecodeError.wrong_type (codes "bytes"))

unfoldable pub try_array : Cbor → Result DecodeError Items
try_array (array items) = ok items
try_array v = err (DecodeError.wrong_type (codes "array"))
