-- ===== src/Inference/Sections.antt =====
-- analytics/inference-common/src/model_info.rs: the sections of a model-info file. A key file is read
-- by GLib, a parameter.
use gstsmith_rs.Prelude.{
  List, [], ◌∷◌, Option, none, some, if◌then◌else◌, is_empty, any, Result, ok, err, ◌>>=◌, ok_or,
  collect, Text, codes, text_eq, trim,
}
use gstsmith_rs.Inference.Shape.{InfoError, invalid_file, missing_key, empty_text}

-- `BTreeMap<String, String>`, of which only `get` is used.
abbrev pub Values : Type 0
Values = List (Text × Text)

unfoldable pub get : Values → Text → Option Text
get [] key = none
get ((k, v) ∷ rest) key = if text_eq k key then some v else get rest key

pub record Section : Type 0 where
  pub name : Text
  pub values : Values

-- What GLib reads from a key file: its groups, the keys of a group, and the value of a key.
pub record KeyFile : Type 0 where
  pub groups : List Text
  pub keys : Text → Option (List Text)
  pub string : Text → Text → Option Text

abbrev known_keys : List Text
known_keys =
    codes "version"
    ∷ codes "group-id"
    ∷ codes "dir"
    ∷ codes "id"
    ∷ codes "type"
    ∷ codes "dims"
    ∷ codes "dims-order"
    ∷ codes "ranges"
    ∷ []

unfoldable pub keep_known : List Text → List Text
keep_known [] = []
keep_known (key ∷ keys) =
    let rest = keep_known keys in if any (text_eq key) known_keys then key ∷ rest else rest

read_value : KeyFile → Text → Text → Result InfoError (Text × Text)
read_value file name key = ok_or (file.string name key) invalid_file >>= λ value. ok (key, value)

read_section : KeyFile → Text → Result InfoError Section
read_section file name = do
  keys ← ok_or (file.keys name) invalid_file
  values ← collect (read_value file name) (keep_known keys)
  ok (record { name = name; values = values })

-- `load` is `KeyFile::load_from_data`.
unfoldable pub parse_sections : (Text → Option KeyFile) → Text → Result InfoError (List Section)
unfolding read_value read_section
parse_sections load contents = do
  file ← ok_or (load contents) invalid_file
  collect (read_section file) file.groups

unfoldable pub require : Section → Text → Result InfoError Text
require section key = ok_or (get section.values key) missing_key

unfoldable pub non_empty : Text → Result InfoError Text
non_empty value = if is_empty (trim value) then err empty_text else ok (trim value)
