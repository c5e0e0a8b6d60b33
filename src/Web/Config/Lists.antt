-- ===== src/Web/Config/Lists.antt =====
-- `splitCSV` of backend/internal/config/config.go.
pub mod RoundTrip
use gb_516_hydropower_gate_d.Prelude.{String, Char, code, List, [], ◌∷◌, ◌==◌, ◌=ˢ◌, if◌then◌else◌}
use gb_516_hydropower_gate_d.Text.{trim_space, is_blank}

-- A part with one more character in front.
abbrev pub prepend : Char → List String → List String
prepend c [] = String.◌∷◌ c "" ∷ []
prepend c (part ∷ parts) = String.◌∷◌ c part ∷ parts

-- `strings.Split(value, ",")`
unfoldable pub split_commas : String → List String
split_commas String.[] = "" ∷ []
split_commas (String.◌∷◌ c s) =
    let parts = split_commas s in if code c == 0x2c then "" ∷ parts else prepend c parts

-- The loop over the parts.
unfoldable pub trimmed_parts : List String → List String
trimmed_parts [] = []
trimmed_parts (part ∷ parts) =
    let others = trimmed_parts parts in
    if trim_space part =ˢ "" then others else trim_space part ∷ others

-- `splitCSV`; a nil slice is the empty list.
unfoldable pub split_csv : String → List String
split_csv value = if is_blank value then [] else trimmed_parts (split_commas value)
