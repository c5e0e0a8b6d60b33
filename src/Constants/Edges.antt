-- ===== src/Constants/Edges.antt =====
-- The transition graphs as relations: `can_transition` decides them.
use gb_516_hydropower_gate_d.Prelude.{
  String, ◌≡◌, ◌↔◌, ◌⊎◌, inl, inr, sym, ◌∙◌, subst, Bool-cases, ◌||◌, ◌=ˢ◌, true, List, [], ◌∷◌,
  arith, eq_iff,
}
use gb_516_hydropower_gate_d.Constants.{
  Graph, contains, can_transition, operation_directive_transitions, gate_unit_transitions,
  reservoir_transitions, execution_confirmation_transitions,
}

abbrev pub Among : String → List String → Type 0
Among s [] = ⊥
Among s (t ∷ ts) = (s ≡ t) ⊎ Among s ts

abbrev pub Edge : Graph → String → String → Type 0
Edge [] s t = ⊥
Edge ((j, targets) ∷ graph) s t = (s ≡ j) × Among t targets ⊎ Edge graph s t

pub contains-Among : (s : String) (ts : List String) → contains s ts ≡ true → Among s ts
unfolding contains
contains-Among s [] h = cc
contains-Among s (t ∷ ts) h = ground (arith, eq_iff s t, contains-Among s ts)

can_transition-Edge : (g : Graph) (s t : String) → can_transition g s t ≡ true → Edge g s t
unfolding can_transition
can_transition-Edge [] s t h = cc
can_transition-Edge ((j, targets) ∷ g) s t h =
    ground (arith, eq_iff s j, contains-Among t targets, can_transition-Edge g s t)

-- The seven moves of an operation directive.
pub data DirectiveEdge (s t : String) : Type 0 where
  submit : s ≡ "draft" → t ≡ "pending" → DirectiveEdge s t
  approve : s ≡ "pending" → t ≡ "approved" → DirectiveEdge s t
  withdraw : s ≡ "pending" → t ≡ "aborted" → DirectiveEdge s t
  execute : s ≡ "approved" → t ≡ "executing" → DirectiveEdge s t
  cancel : s ≡ "approved" → t ≡ "aborted" → DirectiveEdge s t
  complete : s ≡ "executing" → t ≡ "completed" → DirectiveEdge s t
  stop : s ≡ "executing" → t ≡ "aborted" → DirectiveEdge s t

DirectiveEdge-of : (s t : String) → Edge operation_directive_transitions s t → DirectiveEdge s t
DirectiveEdge-of s t (inl (e, inl f)) = submit e f
DirectiveEdge-of s t (inl (e, inr x)) = elim x [ ]
DirectiveEdge-of s t (inr (inl (e, inl f))) = approve e f
DirectiveEdge-of s t (inr (inl (e, inr (inl f)))) = withdraw e f
DirectiveEdge-of s t (inr (inl (e, inr (inr x)))) = elim x [ ]
DirectiveEdge-of s t (inr (inr (inl (e, inl f)))) = execute e f
DirectiveEdge-of s t (inr (inr (inl (e, inr (inl f))))) = cancel e f
DirectiveEdge-of s t (inr (inr (inl (e, inr (inr x))))) = elim x [ ]
DirectiveEdge-of s t (inr (inr (inr (inl (e, inl f))))) = complete e f
DirectiveEdge-of s t (inr (inr (inr (inl (e, inr (inl f)))))) = stop e f
DirectiveEdge-of s t (inr (inr (inr (inl (e, inr (inr x)))))) = elim x [ ]
DirectiveEdge-of s t (inr (inr (inr (inr (inl (e, x)))))) = elim x [ ]
DirectiveEdge-of s t (inr (inr (inr (inr (inr (inl (e, x))))))) = elim x [ ]
DirectiveEdge-of s t (inr (inr (inr (inr (inr (inr x)))))) = elim x [ ]

DirectiveEdge-allowed :
    (s t : String) → DirectiveEdge s t → can_transition operation_directive_transitions s t ≡ true
unfolding can_transition
DirectiveEdge-allowed s t (submit e f) = rw (e, f)
DirectiveEdge-allowed s t (approve e f) = rw (e, f)
DirectiveEdge-allowed s t (withdraw e f) = rw (e, f)
DirectiveEdge-allowed s t (execute e f) = rw (e, f)
DirectiveEdge-allowed s t (cancel e f) = rw (e, f)
DirectiveEdge-allowed s t (complete e f) = rw (e, f)
DirectiveEdge-allowed s t (stop e f) = rw (e, f)

-- The graph of the directives allows exactly the seven moves, between any two texts.
pub can_transition-DirectiveEdge :
    (s t : String) → (can_transition operation_directive_transitions s t ≡ true) ↔ DirectiveEdge s t
can_transition-DirectiveEdge s t = (
  λ h. DirectiveEdge-of s t (can_transition-Edge operation_directive_transitions s t h),
  DirectiveEdge-allowed s t,
)

-- The moves of a gate, by the state that it takes.
abbrev pub GateEdge : String → String → Type 0
GateEdge s t =
    (t ≡ "moving") × ((s ≡ "open") ⊎ (s ≡ "closed"))
    ⊎ (t ≡ "open") × (s ≡ "moving")
    ⊎ (t ≡ "closed") × ((s ≡ "moving") ⊎ (s ≡ "locked"))
    ⊎ (t ≡ "locked") × ((s ≡ "open") ⊎ (s ≡ "closed") ⊎ (s ≡ "moving"))

pub can_transition-GateEdge :
    (s t : String) → can_transition gate_unit_transitions s t ≡ true → GateEdge s t
can_transition-GateEdge s t h = ground (arith, can_transition-Edge gate_unit_transitions s t h)

-- What the test before a move of the gate says of its state afterwards.
pub reached-GateEdge :
    (s t after : String)
    → after ≡ t
    → (s =ˢ t || can_transition gate_unit_transitions s t) ≡ true
    → (after ≡ s) ⊎ GateEdge s after
reached-GateEdge s t after e h = elim (Bool-cases (s =ˢ t)) [
  | inl same ↦ inl (e ∙ sym ((eq_iff s t).0 same))
  | inr other ↦ inr (subst (GateEdge s) (sym e) (can_transition-GateEdge s t (rw other at h)))
]

-- The moves of a reservoir, by the state that it takes.
abbrev pub ReservoirEdge : String → String → Type 0
ReservoirEdge s t =
    (t ≡ "normal") × (s ≡ "warning")
    ⊎ (t ≡ "warning") × ((s ≡ "normal") ⊎ (s ≡ "critical"))
    ⊎ (t ≡ "critical") × ((s ≡ "normal") ⊎ (s ≡ "warning") ⊎ (s ≡ "restricted"))
    ⊎ (t ≡ "restricted") × ((s ≡ "warning") ⊎ (s ≡ "critical"))

pub can_transition-ReservoirEdge :
    (s t : String) → can_transition reservoir_transitions s t ≡ true → ReservoirEdge s t
can_transition-ReservoirEdge s t h = ground (arith, can_transition-Edge reservoir_transitions s t h)

-- The moves of a receipt, by the state that it takes.
abbrev pub ReceiptEdge : String → String → Type 0
ReceiptEdge s t =
    (s ≡ "pending") × ((t ≡ "confirmed") ⊎ (t ≡ "failed")) ⊎ (s ≡ "failed") × (t ≡ "cancelled")

pub can_transition-ReceiptEdge :
    (s t : String) → can_transition execution_confirmation_transitions s t ≡ true → ReceiptEdge s t
can_transition-ReceiptEdge s t h =
    ground (arith, can_transition-Edge execution_confirmation_transitions s t h)
