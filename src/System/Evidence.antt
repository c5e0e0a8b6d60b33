-- ===== src/System/Evidence.antt =====
-- The approvals on record: `model.DirectiveApproval` rows as evidence.
use gb_516_hydropower_gate_d.Prelude.{
  ℕ, String, ◌≡◌, ◌⊎◌, inr, Bool, true, ◌||◌, List, [], ◌∷◌, Option, none, some, ◌=ˢ◌,
}
use gb_516_hydropower_gate_d.Model.{DirectiveApproval, role_operator, role_reviewer, role_admin}
use gb_516_hydropower_gate_d.Repository.Directives.Laws.{with_approval}

-- Some row says that `actor`, in one of the roles, took this stage of the directive.
abbrev pub HasApproval : ℕ → String → String → (String → Bool) → List DirectiveApproval → Type 0
HasApproval id stage actor roles [] = ⊥
HasApproval id stage actor roles (a ∷ rest) =
    (a.directive_id ≡ id) × (a.stage ≡ stage) × (a.actor ≡ actor) × (roles a.role ≡ true)
    ⊎ HasApproval id stage actor roles rest

-- The roles that may submit, and those that may approve.
abbrev pub submits : String → Bool
submits role = role =ˢ role_operator || role =ˢ role_admin

abbrev pub approves : String → Bool
approves role = role =ˢ role_reviewer || role =ˢ role_admin

-- Evidence stays.
abbrev pub Grows : List DirectiveApproval → List DirectiveApproval → Type 0
Grows l m =
    (id : ℕ) (stage actor : String) (roles : String → Bool)
    → HasApproval id stage actor roles l
    → HasApproval id stage actor roles m

pub Grows-with_approval :
    (k i : ℕ) (approval : Option DirectiveApproval) (l : List DirectiveApproval)
    → Grows l (with_approval k i approval l)
Grows-with_approval k i none l id stage actor roles h = h
Grows-with_approval k i (some a) l id stage actor roles h = inr h
