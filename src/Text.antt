-- ===== src/Text.antt =====
-- The functions of Go's package `strings` that the program uses, on valid UTF-8.
-- The case tables of Unicode come with Go and are a parameter.
pub mod Words
use gb_516_hydropower_gate_d.Prelude.{
  String, Char, code, ◌≡◌, refl, Bool, true, false, ◌&&◌, ◌||◌, ◌==◌, leb, ◌=ˢ◌, if◌then◌else◌,
  Option, none, some,
}

-- Package `unicode`: `unicode.ToUpper`, `unicode.ToLower`, and whether two runes are equal under
-- simple case folding (`unicode.SimpleFold`).
pub record Unicode : Type 0 where
  pub upper : Char → Char
  pub lower : Char → Char
  pub same_fold : Char → Char → Bool

-- `unicode.IsSpace`
unfoldable pub is_space : Char → Bool
is_space c =
    let n = code c in
    (leb 0x09 n && leb n 0x0d)
    || n == 0x20
    || n == 0x85
    || n == 0xa0
    || n == 0x1680
    || (leb 0x2000 n && leb n 0x200a)
    || n == 0x2028
    || n == 0x2029
    || n == 0x202f
    || n == 0x205f
    || n == 0x3000

unfoldable pub trim_left : String → String
trim_left String.[] = ""
trim_left (String.◌∷◌ c s) = let rest = trim_left s in if is_space c then rest else String.◌∷◌ c s

-- Drops `c` if all that follows it has been dropped.
abbrev pub cons_trimmed : Char → String → String
cons_trimmed c String.[] = if is_space c then "" else String.◌∷◌ c ""
cons_trimmed c (String.◌∷◌ d s) = String.◌∷◌ c (String.◌∷◌ d s)

unfoldable pub trim_right : String → String
trim_right String.[] = ""
trim_right (String.◌∷◌ c s) = cons_trimmed c (trim_right s)

-- `strings.TrimSpace`
unfoldable pub trim_space : String → String
unfolding trim_left trim_right is_space
trim_space s = trim_right (trim_left s)

abbrev map_text : (Char → Char) → String → String
map_text f String.[] = ""
map_text f (String.◌∷◌ c s) = String.◌∷◌ (f c) (map_text f s)

-- `strings.ToUpper`
unfoldable pub to_upper : Unicode → String → String
to_upper u = map_text u.upper

-- `strings.ToLower`
unfoldable pub to_lower : Unicode → String → String
to_lower u = map_text u.lower

-- `strings.HasPrefix`, with `strings.TrimPrefix` where it holds
unfoldable pub strip_prefix : String → String → Option String
strip_prefix String.[] s = some s
strip_prefix (String.◌∷◌ c p) String.[] = none
strip_prefix (String.◌∷◌ c p) (String.◌∷◌ d s) =
    let rest = strip_prefix p s in if code c == code d then rest else none

-- `strings.EqualFold`
unfoldable pub equal_fold : Unicode → String → String → Bool
equal_fold u String.[] String.[] = true
equal_fold u String.[] (String.◌∷◌ d t) = false
equal_fold u (String.◌∷◌ c s) String.[] = false
equal_fold u (String.◌∷◌ c s) (String.◌∷◌ d t) = u.same_fold c d && equal_fold u s t

-- `strings.TrimSpace(s) == ""`
abbrev pub is_blank : String → Bool
is_blank s = trim_space s =ˢ ""
