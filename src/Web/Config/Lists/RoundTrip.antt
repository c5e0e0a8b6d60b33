-- ===== src/Web/Config/Lists/RoundTrip.antt =====
-- Lists of words, joined by commas, and `splitCSV` of backend/internal/config/config.go.
use Prim.Native.String
use text.Mathlib.TextLemmas.{nil-append, cons-append}
use gb_516_hydropower_gate_d.Prelude.{
  String, Char, code, ◌≡◌, ◌≢◌, refl, Bool, true, false, not, ◌&&◌, List, [], ◌∷◌, ◌==◌, ◌=ˢ◌,
  arith, eq_iff, ap,
}
use gb_516_hydropower_gate_d.Text.{
  is_space, trim_space, trim_left, trim_right, cons_trimmed, is_blank,
}
use gb_516_hydropower_gate_d.Text.Words.{IsWord, no_space, trim_space-IsWord}
use gb_516_hydropower_gate_d.Web.Config.Lists.{split_commas, trimmed_parts, split_csv}

abbrev pub no_comma : String → Bool
no_comma String.[] = true
no_comma (String.◌∷◌ c s) = let rest = no_comma s in not (code c == 0x2c) && rest

-- Words that hold no comma.
abbrev pub AreItems : List String → Type 0
AreItems [] = Unit
AreItems (s ∷ items) = IsWord s × (no_comma s ≡ true) × AreItems items

-- The way that such a list is written, with one item at least.
abbrev pub join : String → List String → String
join s [] = s
join s (t ∷ items) = let rest = join t items in String.◌++◌ s (String.◌∷◌ "," rest)

both : (b c : Bool) → (not b && c) ≡ true → (b ≡ false) × (c ≡ true)
both b c h = (ground arith, ground arith)

split_commas-single : (s : String) → no_comma s ≡ true → split_commas s ≡ s ∷ []
unfolding split_commas
split_commas-single String.[] h = refl
split_commas-single (String.◌∷◌ c s) h =
    let (plain, rest) = both (code c == 0x2c) (no_comma s) h in
    rw (plain, split_commas-single s rest)

split_commas-append :
    (s t : String)
    → no_comma s ≡ true
    → split_commas (String.◌++◌ s (String.◌∷◌ "," t)) ≡ s ∷ split_commas t
unfolding split_commas
split_commas-append String.[] t h = rw (nil-append (String.◌∷◌ "," t))
split_commas-append (String.◌∷◌ c s) t h =
    let (plain, rest) = both (code c == 0x2c) (no_comma s) h in
    rw (cons-append c s (String.◌∷◌ "," t), plain, split_commas-append s t rest)

split_commas-join :
    (s : String) (items : List String)
    → AreItems (s ∷ items)
    → split_commas (join s items) ≡ s ∷ items
split_commas-join s [] (word, plain, rest) = split_commas-single s plain
split_commas-join s (t ∷ items) (word, plain, rest) =
    rw (split_commas-append s (join t items) plain)
      (ap (λ l. s ∷ l) (split_commas-join t items rest))

filled : (s : String) → s ≢ "" → (s =ˢ "") ≡ false
filled s h = ground (arith, eq_iff s "")

trimmed_parts-items : (items : List String) → AreItems items → trimmed_parts items ≡ items
unfolding trimmed_parts
trimmed_parts-items [] h = refl
trimmed_parts-items (s ∷ items) (word, plain, rest) =
    rw (trim_space-IsWord s word, filled s word.0, trimmed_parts-items items rest)

-- What begins with a character that is no white space is not blank.
cons_trimmed_filled :
    (c : Char) (s : String) → is_space c ≡ false → (cons_trimmed c s =ˢ "") ≡ false
cons_trimmed_filled c String.[] h = rw h (filled _ (λ e. absurd (cc (e))))
cons_trimmed_filled c (String.◌∷◌ d s) h = filled _ (λ e. absurd (cc (e)))

solid_filled : (c : Char) (s : String) → is_space c ≡ false → is_blank (String.◌∷◌ c s) ≡ false
unfolding trim_space trim_left trim_right
solid_filled c s h = rw h (cons_trimmed_filled c (trim_right s) h)

append_filled : (s t : String) → IsWord s → is_blank (String.◌++◌ s t) ≡ false
append_filled String.[] t (named, h) = absurd (named refl)
append_filled (String.◌∷◌ c s) t (named, h) =
    rw (cons-append c s t) (solid_filled c (String.◌++◌ s t) (both (is_space c) (no_space s) h).0)

join_filled : (s : String) (items : List String) → IsWord s → is_blank (join s items) ≡ false
join_filled s [] word = rw (trim_space-IsWord s word) (filled s word.0)
join_filled s (t ∷ items) word = append_filled s (String.◌∷◌ "," (join t items)) word

-- A list of words without a comma, written with commas between them, is read back as it is.
pub split_csv-join :
    (s : String) (items : List String) → AreItems (s ∷ items) → split_csv (join s items) ≡ s ∷ items
unfolding split_csv
split_csv-join s items h =
    rw (join_filled s items h.0, split_commas-join s items h) (trimmed_parts-items (s ∷ items) h)
