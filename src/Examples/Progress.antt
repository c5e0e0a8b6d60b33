-- ===== src/Examples/Progress.antt =====
-- The database in memory is up, so an approval on it succeeds.
use mathlib.Core.List.{Memᴰ}
use gb_516_hydropower_gate_d.Prelude.{
  ℕ, ◌≡◌, ◌≢◌, String, ◌=ˢ◌, refl, sym, ap, ◌∙◌, true, false, ◌==◌, arith, eq_iff,
}
use gb_516_hydropower_gate_d.Exec.{Result, ok, err, two_person_required, After}
use gb_516_hydropower_gate_d.Text.{trim_space, trim_left, trim_right, is_space, equal_fold}
use gb_516_hydropower_gate_d.Model.{DirectiveApproval}
use gb_516_hydropower_gate_d.Service.Records.{inc}
use gb_516_hydropower_gate_d.Service.Directive
use gb_516_hydropower_gate_d.Service.Directive.{directive_role_allowed}
use gb_516_hydropower_gate_d.Service.Directive.Progress.{
  Never, Answers, IsUp, StageFree, transition-approves, transition-refuses_submitter,
}
use gb_516_hydropower_gate_d.Examples.Memory.{Memory, tables}
use gb_516_hydropower_gate_d.Examples.Database.{memory, ascii, settled}
use gb_516_hydropower_gate_d.Examples.Data.{
  move, submitted_memory, evidence_memory, pending_directive,
}

same_id : (a b : ℕ) → a ≡ b → (a == b) ≡ true
same_id a b h = ground arith

settled_up :
    {A : Type 0} (Q : A → Memory → Type 0) (m : Memory) (r : Result A × Memory)
    → After Q Never r
    → After (λ a m'. (done : Memory) × Q a done × (tables m' ≡ tables done)) Never (settled m r)
settled_up Q m (ok a, done) h = record { holds = (done, h.holds, refl) }
settled_up Q m (err e, done) h = absurd h.holds

memory-Answers : Answers memory
memory-Answers = record {
  first_up = λ id x m found ids. rw (found, same_id x.id id ids) (record { holds = (refl, refl) });
  find_approvals_up = λ id m. record { holds = refl };
}

-- The tables in memory have no column widths.
memory-IsUp : IsUp memory
memory-IsUp = record {
  answers = memory-Answers;
  directive_fits = λ _. Unit;
  approval_fits = λ _. Unit;
  audit_fits = λ _. Unit;
  updates_up = λ id version item old m fits found versions.
      rw (found, same_id old.version version versions)
        (record {
          holds = (
            refl,
            record { old = old; time = m.clock; found = found; versions = versions; stored = refl },
          );
        });
  create_approval_up = λ a m fits free. record { holds = refl };
  create_audit_up = λ a m fits. record { holds = refl };
  transaction_up = λ A body Q m h. settled_up Q m (body m) (h m refl);
  now_up = λ m. record { holds = refl };
}

approved_trimmed : trim_space "approved" ≡ "approved"
unfolding trim_space trim_left trim_right is_space
approved_trimmed = refl

reviewer_approves : directive_role_allowed "pending" "approved" "reviewer" ≡ true
unfolding directive_role_allowed
reviewer_approves = refl

admin_approves : directive_role_allowed "pending" "approved" "admin" ≡ true
unfolding directive_role_allowed
admin_approves = refl

named_ann : pending_directive.submitted_by ≢ ""
named_ann = ground (arith, eq_iff "ann" "")

ann_not_bob : equal_fold ascii "ann" "bob" ≡ false
unfolding equal_fold
ann_not_bob = refl

differ : (s t : String) → (s =ˢ t) ≡ false → s ≢ t
differ s t h e = ground (arith, eq_iff s t)

-- Only the submission is recorded.
approval_free : StageFree 5 "approved" (tables evidence_memory)
approval_free a (Memᴰ.head e) ids stage =
    differ "submitted" "approved" refl (sym (ap (λ (b : DirectiveApproval). b.stage) e) ∙ stage)
approval_free a (Memᴰ.tail x) ids stage = elim x [ ]

transition-approves_example :
    After
      (λ x m'. (x.status ≡ "approved") × (x.approved_by ≡ "bob") × (x.version ≡ inc 2))
      Never
      (Directive.transition ascii memory 5
        (move "approved" 2)
        "bob"
        "reviewer"
        "r2"
        evidence_memory)
unfolding memory-IsUp
transition-approves_example =
    transition-approves ascii memory memory-IsUp 5 (move "approved" 2) "bob" "reviewer" "r2"
      pending_directive evidence_memory refl refl refl refl approved_trimmed reviewer_approves
      named_ann ann_not_bob approval_free (λ _ _. tt) (λ _. tt) (λ _. tt)

ann_is_ann : equal_fold ascii "ann" "Ann" ≡ true
unfolding equal_fold
ann_is_ann = refl

transition-refuses_submitter_example :
    After
      (λ _ _. ⊥)
      (λ e m'. (e ≡ two_person_required) × (tables m' ≡ tables submitted_memory))
      (Directive.transition ascii memory 5 (move "approved" 2) "Ann" "admin" "r2" submitted_memory)
transition-refuses_submitter_example =
    transition-refuses_submitter ascii memory memory-Answers 5 (move "approved" 2) "Ann" "admin"
      "r2" pending_directive submitted_memory refl refl refl approved_trimmed admin_approves
      ann_is_ann
