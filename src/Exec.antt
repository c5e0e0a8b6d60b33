-- ===== src/Exec.antt =====
-- Go functions that read and change the world outside the process and may return an `error`.
-- What was written before an error stays written, so the world comes back beside the error too.
use gb_516_hydropower_gate_d.Prelude.{◌≡◌, refl, Bool, true, false}

-- The errors that the code tells apart: the sentinels of `service` and `repository`, GORM's
-- `ErrRecordNotFound`, the error of an audit entry that lacks a field, and any other error, as of the
-- database. `fmt.Errorf("...: %w", err)` keeps the sentinel, which is all that is looked at.
pub data Error : Type 0 where
  invalid_transition invalid_input forbidden two_person_required : Error
  immutable_state unauthorized inactive_user version_conflict : Error
  record_not_found audit_fields_required database_error : Error

pub data Result {ℓ} (A : Type ℓ) : Type ℓ where
  ok : A → Result A
  err : Error → Result A

abbrev pub Exec : Type 0 → Type 0 → Type 0
Exec W A = W → Result A × W

module _ {W A : Type 0} where
  abbrev pub pure : A → Exec W A
  pure a w = (ok a, w)

  abbrev pub raise : Error → Exec W A
  raise e w = (err e, w)

module _ {W A B : Type 0} where
  abbrev pub continue : Result A → (A → Exec W B) → Exec W B
  continue (ok a) f w = f a w
  continue (err e) f w = (err e, w)

  infixl 5 ◌>>=◌ ◌>>◌
  -- Shut, so that a goal about a `do` block keeps its steps: see `bind-After`.
  unfoldable pub ◌>>=◌ : Exec W A → (A → Exec W B) → Exec W B
  ◌>>=◌ m f w = continue (m w).0 f (m w).1

  abbrev pub ◌>>◌ : Exec W A → Exec W B → Exec W B
  m >> k = m >>= λ _. k

-- `if !test { return err }`
abbrev pub require : {W : Type 0} → Bool → Error → Exec W (Unit {0})
require true e = pure tt
require false e = raise e

-- What holds of a call that has returned: `Q` after a value, `E` after an error.
abbrev pub Holds : {W A : Type 0} → (A → W → Type 0) → (Error → W → Type 0) → Result A × W → Type 0
Holds Q E (ok a, w) = Q a w
Holds Q E (err e, w) = E e w

pub record After {W A : Type 0} (Q : A → W → Type 0) (E : Error → W → Type 0) (r : Result A × W)
    : Type 0 where
  pub holds : Holds Q E r

module _ {W A B : Type 0} {P : A → W → Type 0} {E : Error → W → Type 0} {Q : B → W → Type 0} where
  continue-After :
      (r : Result A × W) (f : A → Exec W B)
      → After P E r
      → ((a : A) (w : W) → P a w → After Q E (f a w))
      → After Q E (continue r.0 f r.1)
  continue-After (ok a, w) f p k = k a w p.holds
  continue-After (err e, w) f p k = record { holds = p.holds }

  -- The rest of a `do` block may use what the first call has established.
  pub bind-After :
      (m : Exec W A) (f : A → Exec W B) (w : W)
      → After P E (m w)
      → ((a : A) (w' : W) → P a w' → After Q E (f a w'))
      → After Q E ((m >>= f) w)
  unfolding ◌>>=◌
  bind-After m f w p k = continue-After (m w) f p k

module _ {W A : Type 0} {P Q : A → W → Type 0} {E F : Error → W → Type 0} where
  -- Weaker postconditions.
  pub After-map :
      (r : Result A × W)
      → After P E r
      → ((a : A) (w : W) → P a w → Q a w)
      → ((e : Error) (w : W) → E e w → F e w)
      → After Q F r
  After-map (ok a, w) p f g = record { holds = f a w p.holds }
  After-map (err e, w) p f g = record { holds = g e w p.holds }

module _ {W B : Type 0} {E : Error → W → Type 0} {Q : B → W → Type 0} where
  pub require-After :
      (b : Bool) (e : Error) (f : Unit {0} → Exec W B) (w : W)
      → E e w
      → (b ≡ true → After Q E (f tt w))
      → After Q E ((require b e >>= f) w)
  unfolding ◌>>=◌
  require-After true e f w bad good = good refl
  require-After false e f w bad good = record { holds = bad }
