-- ===== src/Constants.antt =====
-- backend/internal/constants/status.go: the status values and the transition graphs.
pub mod Edges
use gb_516_hydropower_gate_d.Prelude.{
  String, ◌≡◌, refl, Bool, true, false, ◌||◌, Option, none, some, List, [], ◌∷◌, arith, ◌=ˢ◌,
  if◌then◌else◌,
}

-- `map[string]bool` in which every listed key is true: its keys.
abbrev pub Targets : Type 0
Targets = List String

-- `map[string]map[string]bool`
abbrev pub Graph : Type 0
Graph = List (String × Targets)

abbrev pub all_gate_state : List String
all_gate_state = "open" ∷ "closed" ∷ "moving" ∷ "locked" ∷ []

abbrev pub all_directive_state : List String
all_directive_state = "draft" ∷ "pending" ∷ "approved" ∷ "executing" ∷ "completed" ∷ "aborted" ∷ []

abbrev pub reservoir_transitions : Graph
reservoir_transitions =
    ("normal", "warning" ∷ "critical" ∷ [])
    ∷ ("warning", "critical" ∷ "restricted" ∷ "normal" ∷ [])
    ∷ ("critical", "restricted" ∷ "warning" ∷ [])
    ∷ ("restricted", "critical" ∷ [])
    ∷ []

abbrev pub gate_unit_transitions : Graph
gate_unit_transitions =
    ("open", "moving" ∷ "locked" ∷ [])
    ∷ ("closed", "moving" ∷ "locked" ∷ [])
    ∷ ("moving", "open" ∷ "closed" ∷ "locked" ∷ [])
    ∷ ("locked", "closed" ∷ [])
    ∷ []

abbrev pub operation_directive_transitions : Graph
operation_directive_transitions =
    ("draft", "pending" ∷ [])
    ∷ ("pending", "approved" ∷ "aborted" ∷ [])
    ∷ ("approved", "executing" ∷ "aborted" ∷ [])
    ∷ ("executing", "completed" ∷ "aborted" ∷ [])
    ∷ ("completed", [])
    ∷ ("aborted", [])
    ∷ []

abbrev pub execution_confirmation_transitions : Graph
execution_confirmation_transitions =
    ("pending", "confirmed" ∷ "failed" ∷ [])
    ∷ ("confirmed", [])
    ∷ ("failed", "cancelled" ∷ [])
    ∷ ("cancelled", [])
    ∷ []

-- A read of a map: the value at the key, if there is one.
unfoldable pub lookup {ℓ} : {V : Type ℓ} → String → List (String × V) → Option V
lookup k [] = none
lookup k ((j, v) ∷ m) = if k =ˢ j then some v else lookup k m

unfoldable pub contains : String → List String → Bool
contains s [] = false
contains s (t ∷ ts) = s =ˢ t || contains s ts

unfoldable pub can_transition : Graph → String → String → Bool
unfolding lookup contains
can_transition graph from to = elim (lookup from graph) [
  | none ↦ false
  | some targets ↦ contains to targets
]
