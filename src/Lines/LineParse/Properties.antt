-- ===== src/Lines/LineParse/Properties.antt =====
-- text/lines/src/lineparse/imp.rs: the element's properties, `set_property` and `property`.
use Prim.Native.String.{String}
use text.Mathlib.Text.{◌==◌ as str_eq}
use text.Mathlib.TextEquality.{eq_iff}
use gstsmith_rs.Prelude.{ℕ, ◌≡◌, ◌≢◌, refl, Bool, arith, if◌then◌else◌}
use gstsmith_rs.Lines.Delimiter.{Bytes}
use gstsmith_rs.Lines.LineParse.{Settings}

-- A `glib::Value`, by what `get` makes of it. `other_value` is of no type that is asked for; a null
-- string is one such.
pub data Value : Type 0 where
  string : Bytes → Value
  uint : ℕ → Value
  boolean : Bool → Value
  other_value : Value

abbrev get_string : Value → Bytes → Bytes
get_string (string s) old = s
get_string _ old = old

abbrev get_uint : Value → ℕ → ℕ
get_uint (uint n) old = n
get_uint _ old = old

abbrev get_boolean : Value → Bool → Bool
get_boolean (boolean b) old = b
get_boolean _ old = old

-- A value of the wrong type changes nothing, and so does an unknown name (a warning is logged).
unfoldable pub set_property : String → Value → Settings → Settings
set_property name v s =
    if str_eq name "delimiter"
    then record s { delimiter = get_string v s.delimiter }
    else if str_eq name "max-record-size"
    then record s { max_record_size = get_uint v s.max_record_size }
    else if str_eq name "omit-empty"
    then record s { omit_empty = get_boolean v s.omit_empty }
    else s

-- An unknown name gives the default of its specification, which is no value of the settings.
unfoldable pub property : String → Settings → Value
property name s =
    if str_eq name "delimiter"
    then string s.delimiter
    else if str_eq name "max-record-size"
    then uint s.max_record_size
    else if str_eq name "omit-empty"
    then boolean s.omit_empty
    else other_value

-- A property that is set to a value of its type reads as that value.
pub property-set_property :
    (s : Settings) (d : Bytes) (n : ℕ) (b : Bool)
    → (property "delimiter" (set_property "delimiter" (string d) s) ≡ string d)
      × (property "max-record-size" (set_property "max-record-size" (uint n) s) ≡ uint n)
      × (property "omit-empty" (set_property "omit-empty" (boolean b) s) ≡ boolean b)
unfolding property set_property
property-set_property s d n b = (refl, refl, refl)

-- Setting one property leaves the others.
pub property-set_property_ne :
    (s : Settings) (name other : String) (v : Value)
    → name ≢ other
    → property other (set_property name v s) ≡ property other s
unfolding property set_property
property-set_property_ne s name other v h = ground (
  arith,
  eq_iff name "delimiter",
  eq_iff name "max-record-size",
  eq_iff name "omit-empty",
  eq_iff other "delimiter",
  eq_iff other "max-record-size",
  eq_iff other "omit-empty",
)
