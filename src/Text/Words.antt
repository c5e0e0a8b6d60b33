-- ===== src/Text/Words.antt =====
-- Texts without white space, and what `strings.TrimSpace` and `strings.TrimPrefix` do to them.
use Prim.Native.String
use text.Mathlib.TextLemmas.{nil-append, cons-append, append-ne-nil_of_right_ne-nil}
use gb_516_hydropower_gate_d.Prelude.{
  String, Char, code, ◌≡◌, ◌≢◌, refl, Bool, true, false, not, ◌&&◌, some, ◌==◌, arith,
}
use gb_516_hydropower_gate_d.Text.{
  is_space, trim_left, trim_right, trim_space, cons_trimmed, strip_prefix,
}

abbrev pub no_space : String → Bool
no_space String.[] = true
no_space (String.◌∷◌ c s) = let rest = no_space s in not (is_space c) && rest

-- A text that is not empty and holds no white space.
abbrev pub IsWord : String → Type 0
IsWord s = (s ≢ "") × (no_space s ≡ true)

both : (b c : Bool) → (not b && c) ≡ true → (b ≡ false) × (c ≡ true)
both b c h = (ground arith, ground arith)

trim_left-no_space : (s : String) → no_space s ≡ true → trim_left s ≡ s
unfolding trim_left
trim_left-no_space String.[] h = refl
trim_left-no_space (String.◌∷◌ c s) h =
    let (solid, _) = both (is_space c) (no_space s) h in rw solid

cons_trimmed_solid :
    (c : Char) (s : String) → is_space c ≡ false → cons_trimmed c s ≡ String.◌∷◌ c s
cons_trimmed_solid c String.[] h = rw h
cons_trimmed_solid c (String.◌∷◌ d s) h = refl

trim_right-no_space : (s : String) → no_space s ≡ true → trim_right s ≡ s
unfolding trim_right
trim_right-no_space String.[] h = refl
trim_right-no_space (String.◌∷◌ c s) h =
    let (solid, rest) = both (is_space c) (no_space s) h in
    rw (trim_right-no_space s rest) (cons_trimmed_solid c s solid)

pub trim_space-IsWord : (s : String) → IsWord s → trim_space s ≡ s
unfolding trim_space
trim_space-IsWord s (_, h) = rw (trim_left-no_space s h) (trim_right-no_space s h)

cons_trimmed_kept : (c : Char) (s : String) → s ≢ "" → cons_trimmed c s ≡ String.◌∷◌ c s
cons_trimmed_kept c String.[] h = absurd (h refl)
cons_trimmed_kept c (String.◌∷◌ d s) h = refl

-- What stands before a word stays too.
trim_right-append : (p s : String) → IsWord s → trim_right (String.◌++◌ p s) ≡ String.◌++◌ p s
unfolding trim_right
trim_right-append String.[] s (_, h) = rw (nil-append s) (trim_right-no_space s h)
trim_right-append (String.◌∷◌ c p) s w =
    rw (cons-append c p s, trim_right-append p s w)
      (cons_trimmed_kept c (String.◌++◌ p s) (append-ne-nil_of_right_ne-nil p w.0))

trim_left-append :
    (c : Char) (p s : String)
    → is_space c ≡ false
    → trim_left (String.◌++◌ (String.◌∷◌ c p) s) ≡ String.◌++◌ (String.◌∷◌ c p) s
unfolding trim_left
trim_left-append c p s h = rw (cons-append c p s, h)

trim_space-append :
    (c : Char) (p s : String)
    → is_space c ≡ false
    → IsWord s
    → trim_space (String.◌++◌ (String.◌∷◌ c p) s) ≡ String.◌++◌ (String.◌∷◌ c p) s
unfolding trim_space
trim_space-append c p s h w = rw (trim_left-append c p s h) (trim_right-append (String.◌∷◌ c p) s w)

strip_prefix-append : (p s : String) → strip_prefix p (String.◌++◌ p s) ≡ some s
unfolding strip_prefix
strip_prefix-append String.[] s = rw (nil-append s)
strip_prefix-append (String.◌∷◌ c p) s =
    let same : (code c == code c) ≡ true = ground arith in
    rw (cons-append c p s, same) (strip_prefix-append p s)

b_solid : is_space "B" ≡ false
unfolding is_space
b_solid = refl

-- The header of a word gives the word back.
pub bearer-IsWord :
    (s : String) → IsWord s → strip_prefix "Bearer " (trim_space (String.◌++◌ "Bearer " s)) ≡ some s
bearer-IsWord s w =
    rw (trim_space-append "B" "earer " s b_solid w) (strip_prefix-append "Bearer " s)
