-- ===== src/Examples/Safety.antt =====
-- The theorems about the whole server, applied to the database in memory.
use gb_516_hydropower_gate_d.Prelude.{
  ◌≡◌, ◌↔◌, refl, subst, inl, inr, true, ◌==◌, Bool-cases, arith,
}
use gb_516_hydropower_gate_d.Constants.{can_transition, operation_directive_transitions}
use gb_516_hydropower_gate_d.Constants.Edges.{DirectiveEdge, can_transition-DirectiveEdge}
use gb_516_hydropower_gate_d.System.Serve.{serve_all}
use gb_516_hydropower_gate_d.System.Kinds.{Kind, IsAccounted}
use gb_516_hydropower_gate_d.System.Trail.{serve_all-IsAccounted}
use gb_516_hydropower_gate_d.System.TwoPerson.{serve_all-IsDispatchSafe}
use gb_516_hydropower_gate_d.System.TwoPerson.Invariant.{Evidenced, IsDispatchSafe}
use gb_516_hydropower_gate_d.Examples.Memory.{empty_memory, tables}
use gb_516_hydropower_gate_d.Examples.Database.{memory, memory_laws, ascii}
use gb_516_hydropower_gate_d.Examples.Data.{approval, prepared, evidence_memory, pending_directive}

pending-Evidenced : Evidenced ascii 5 pending_directive evidence_memory.approvals
pending-Evidenced = record {
  submission = λ _. inl (refl, refl, refl, refl);
  named = λ h. absurd (cc (h));
  two_people = λ h. absurd (cc (h));
  approval = λ h. absurd (cc (h));
}

pub evidence_memory-IsDispatchSafe : IsDispatchSafe ascii (tables evidence_memory)
evidence_memory-IsDispatchSafe id x e = elim (Bool-cases (5 == id)) [
  | inl this ↦
      let same : pending_directive ≡ x = cc (rw this at e) in
      let id_eq : 5 ≡ id = ground arith in
      subst (λ k. Evidenced ascii k x evidence_memory.approvals) id_eq
        (subst (λ y. Evidenced ascii 5 y evidence_memory.approvals) same pending-Evidenced)
  | inr other ↦ absurd (cc (rw other at e))
]

serve_all-IsDispatchSafe_example :
    IsDispatchSafe ascii (tables (serve_all ascii memory approval evidence_memory))
serve_all-IsDispatchSafe_example =
    serve_all-IsDispatchSafe ascii memory memory_laws approval evidence_memory
      evidence_memory-IsDispatchSafe

pub empty_memory-IsAccounted : IsAccounted (tables empty_memory)
empty_memory-IsAccounted Kind.reservoir id s e = absurd (cc (e))
empty_memory-IsAccounted Kind.gate id s e = absurd (cc (e))
empty_memory-IsAccounted Kind.directive id s e = absurd (cc (e))
empty_memory-IsAccounted Kind.confirmation id s e = absurd (cc (e))

serve_all-IsAccounted_example : IsAccounted (tables (serve_all ascii memory prepared empty_memory))
serve_all-IsAccounted_example =
    serve_all-IsAccounted ascii memory memory_laws prepared empty_memory empty_memory-IsAccounted

can_transition-DirectiveEdge_example :
    (can_transition operation_directive_transitions "pending" "approved" ≡ true)
    ↔ DirectiveEdge "pending" "approved"
can_transition-DirectiveEdge_example = can_transition-DirectiveEdge "pending" "approved"
