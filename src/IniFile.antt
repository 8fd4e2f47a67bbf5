-- ===== src/IniFile.antt =====
-- internal/iniload/iniload.go on a file that the INI library has parsed. The file is data: its sections in
-- order, each key with the text and the values that the library gives for it.
use a_kerno.Common.{
  Bytes, bytes_eq, text, List, [], ◌∷◌, ◌++◌, Option, none, some, Bool, if◌then◌else◌,
}

-- `value` is `Key.String`, `values` is `Key.ValueWithShadows`, `as_bool` is `Key.Bool` where it has no
-- error.
pub record IniKey : Type 0 where
  pub name : Bytes
  pub value : Bytes
  pub values : List Bytes
  pub as_bool : Option Bool

-- `keys` is `Keys`; `inherited` are the keys of its parents, in which `HasKey` and `Key` look for a name that the
-- section itself does not have, where its own name has dots.
pub record Section : Type 0 where
  pub name : Bytes
  pub keys : List IniKey
  pub inherited : List IniKey

-- The sections in order, the one called DEFAULT among them.
pub record IniFile : Type 0 where
  pub sections : List Section

-- `ini.DefaultSection`
abbrev pub default_name : Bytes
default_name = text "DEFAULT"

-- `HasSection` and `Section`
unfoldable pub find_section : Bytes → List Section → Option Section
find_section name [] = none
find_section name (sec ∷ sections) =
    let rest = find_section name sections in if bytes_eq sec.name name then some sec else rest

-- The loop of `NamedSections`.
unfoldable pub without_default : List Section → List Section
without_default [] = []
without_default (sec ∷ sections) =
    let rest = without_default sections in
    if bytes_eq sec.name default_name then rest else sec ∷ rest

-- `NamedSections`
unfoldable pub named_sections : IniFile → List Section
unfolding without_default
named_sections file = without_default file.sections

-- `f.Section(ini.DefaultSection)`; a section that is not there is made without keys.
abbrev or_empty : Option Section → Section
or_empty none = record { name = default_name; keys = []; inherited = [] }
or_empty (some sec) = sec

-- `ProgramSection`
unfoldable pub program_section : IniFile → Section
unfolding find_section named_sections
program_section file =
    let default = or_empty (find_section default_name file.sections) in
    elim default.keys [
      | key ∷ keys ↦ default
      | [] ↦ elim (named_sections file) [ [] ↦ default | first ∷ rest ↦ first ]
    ]

-- The key that a section has or inherits.
unfoldable pub find_key : Bytes → List IniKey → Option IniKey
find_key name [] = none
find_key name (key ∷ keys) =
    let rest = find_key name keys in if bytes_eq key.name name then some key else rest

-- `String`
unfoldable pub string_of : Section → Bytes → Bytes
unfolding find_key
string_of sec name = elim (find_key name (sec.keys ++ sec.inherited)) [
  | none ↦ []
  | some key ↦ key.value
]

-- `Shadows`
unfoldable pub shadows_of : Section → Bytes → List Bytes
unfolding find_key
shadows_of sec name = elim (find_key name (sec.keys ++ sec.inherited)) [
  | none ↦ []
  | some key ↦ key.values
]

abbrev pub bool_or : Bool → Option Bool → Bool
bool_or default none = default
bool_or default (some b) = b

-- `BoolDefault`
unfoldable pub bool_default : Section → Bytes → Bool → Bool
unfolding find_key
bool_default sec name default = elim (find_key name (sec.keys ++ sec.inherited)) [
  | none ↦ default
  | some key ↦ bool_or default key.as_bool
]
