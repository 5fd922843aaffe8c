-- ===== src/Sync/Diff/Names.antt =====
-- backend/sync/diff-engine.ts: the warnings about names that a HEIDENHAIN control cannot open.
-- A text is a list of code points; `String.length` of the source counts UTF-16 units. The
-- upper-case table of Unicode belongs to the JavaScript engine and is the parameter `upper_case`.
use Prim.Native.Char.{code}
use cnc_network_bridge.Base.{
  ℕ, ◌+◌, String, Bool, true, false, ◌&&◌, ◌||◌, Option, none, some, List, [], ◌∷◌, ◌++◌, leb, ltb,
  ◌==◌, if◌then◌else◌, ◌<>◌, str_eq, any_of,
}

abbrev heidenhain_extensions : List String
heidenhain_extensions =
    ".H" ∷ ".I" ∷ ".NC" ∷ ".T" ∷ ".TAB" ∷ ".PNT" ∷ ".CDT" ∷ ".DEP" ∷ ".PGM" ∷ ".CMA" ∷ []

-- `/[<>:"|?*\\\u0000-\u001f]/`, of one character.
heidenhain_forbidden : ℕ → Bool
heidenhain_forbidden c =
    leb c 0x1f
    || c == b'<'
    || c == b'>'
    || c == b':'
    || c == 0x22
    || c == b'|'
    || c == b'?'
    || c == b'*'
    || c == 0x5c

some_char : (ℕ → Bool) → String → Bool
some_char p String.[] = false
some_char p (String.◌∷◌ c s) = p (code c) || some_char p s

-- `s.length`: a code point above 0xffff is a surrogate pair.
utf16_length : String → ℕ
utf16_length String.[] = 0
utf16_length (String.◌∷◌ c s) = (if ltb 0xffff (code c) then 2 else 1) + utf16_length s

-- `s.slice(s.lastIndexOf(c))`, if `c` occurs.
from_last : ℕ → String → Option String
from_last x String.[] = none
from_last x (String.◌∷◌ c s) = elim (from_last x s) [
  | some t ↦ some t
  | none ↦ if code c == x then some (String.◌∷◌ c s) else none
]

drop_first : String → String
drop_first String.[] = ""
drop_first (String.◌∷◌ c s) = s

base_name : String → String
unfolding from_last drop_first
base_name path = elim (from_last b'/' path) [ none ↦ path | some t ↦ drop_first t ]

extension_of : String → String
unfolding from_last
extension_of name = elim (from_last b'.' name) [ none ↦ "" | some t ↦ t ]

-- The range runs from NUL, so the test is the upper bound alone.
is_cp850_encodable : String → Bool
unfolding some_char
is_cp850_encodable text = if some_char (λ c. ltb 0xff c) text then false else true

abbrev warn_if : Bool → String → List String
warn_if true w = w ∷ []
warn_if false w = []

unfoldable pub validate_heidenhain_name : (String → String) → String → List String
unfolding base_name extension_of some_char heidenhain_forbidden is_cp850_encodable utf16_length
validate_heidenhain_name upper_case rel_path =
    let name = base_name rel_path in
    let extension = upper_case (extension_of name) in
    if str_eq name ""
    then []
    else warn_if (some_char heidenhain_forbidden name)
        ("\"" <> name <> "\" contains a character HEIDENHAIN controls cannot use in a filename")
      ++ warn_if (if is_cp850_encodable name then false else true)
          ("\"" <> name <> "\" contains characters outside CP850 and may appear corrupted")
      ++ warn_if (ltb 80 (utf16_length name))
          ("\"" <> name <> "\" exceeds the 80-character filename limit of older controls")
      ++ warn_if
          ((if str_eq extension "" then false else true)
            && (if any_of (λ e. str_eq e extension) heidenhain_extensions then false else true))
          ("\"" <> name <> "\" has extension " <> extension
            <> ", which controls do not open directly")
