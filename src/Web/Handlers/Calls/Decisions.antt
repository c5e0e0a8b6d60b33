-- ===== src/Web/Handlers/Calls/Decisions.antt =====
-- When the routes of a record type serve the request that they carry, in backend/internal/handler.
use gb_516_hydropower_gate_d.Prelude.{
  ℕ, String, ◌≡◌, refl, subst, ap, ◌∙◌, true, false, Bool, ◌||◌, Option, none, some, [], ◌∷◌, ◌=ˢ◌,
  arith,
}
use gb_516_hydropower_gate_d.Text.{Unicode, trim_space}
use gb_516_hydropower_gate_d.Constants.{contains}
use gb_516_hydropower_gate_d.Dto.{TransitionRequest}
use gb_516_hydropower_gate_d.Platform.{Platform}
use gb_516_hydropower_gate_d.Platform.Library.{Library}
use gb_516_hydropower_gate_d.System.Serve.{Request}
use gb_516_hydropower_gate_d.Web.Access.{Principal, require_roles}
use gb_516_hydropower_gate_d.Web.Http.{
  context_of, Handler, positive, unless_forbidden, role_from_context,
}
use gb_516_hydropower_gate_d.Web.Handlers.Calls
use gb_516_hydropower_gate_d.Web.Handlers.Resource.{Resource}
use gb_516_hydropower_gate_d.Web.Handlers.Effects.{caller_of, respond_world}
use gb_516_hydropower_gate_d.Web.Handlers.Exact.{
  Requests, requested, with_text, with_both, decided, guard-decided,
}

admin_tested : (role : String) → require_roles ("admin" ∷ []) role ≡ true → (role =ˢ "admin") ≡ true
unfolding require_roles contains
admin_tested role h = or_false (role =ˢ "admin") h
  where
    or_false : (b : Bool) → (b || false) ≡ true → b ≡ true
    or_false b h = ground arith

module _ (u : Unicode) (p : Platform) {C U T : Type 0} (q : Requests C U)
    (k : Calls.Calls p.World C U T) (laws : Calls.CallLaws u p q k) (lib : Library) (pr : Principal)
    (id : String) (w : p.World) where
  abbrev pub IsDecided : Handler p.World → Request → Type 0
  IsDecided h request = (h w).1 ≡ decided u p (context_of pr id) pr.role request w

  abbrev answered : Resource C U → Handler p.World
  answered x = Calls.answer lib k (context_of pr id) x

  create-IsDecided :
      (input : C) → IsDecided (answered (Resource.create (some input))) (q.create input)
  create-IsDecided input =
      guard-decided _ _ (Calls.create lib k (context_of pr id) (some input)) w _
        (laws.create_roles pr.role input)
        (λ _. respond_world _ _ ∙ laws.create_law input (caller_of (context_of pr id)) w)

  update-IsDecided :
      (raw : String) (n : ℕ) (input : U)
      → positive (lib.parse_uint raw) ≡ some n
      → IsDecided (answered (Resource.update raw (some input))) (q.update n input)
  update-IsDecided raw n input e =
      guard-decided _ _ (Calls.update lib k (context_of pr id) raw (some input)) w _
        (laws.update_roles pr.role n input)
        (λ _. rw e (respond_world _ _ ∙ laws.update_law n input (caller_of (context_of pr id)) w))

  transition-IsDecided :
      (raw : String) (n : ℕ) (input : TransitionRequest)
      → positive (lib.parse_uint raw) ≡ some n
      → IsDecided (answered (Resource.transition raw (some input))) (q.transition n input)
  transition-IsDecided raw n input e =
      guard-decided _ _ (Calls.transition lib k (context_of pr id) raw (some input)) w _
        (laws.transition_roles pr.role n input)
        (λ _.
          rw e (respond_world _ _ ∙ laws.transition_law n input (caller_of (context_of pr id)) w))

  remove-IsDecided :
      (raw : String) (n : ℕ)
      → trim_space pr.role ≡ pr.role
      → positive (lib.parse_uint raw) ≡ some n
      → IsDecided (answered (Resource.remove raw)) (q.delete n)
  unfolding unless_forbidden role_from_context
  remove-IsDecided raw n trimmed e =
      guard-decided _ _ (Calls.remove lib k (context_of pr id) raw) w _
        (laws.delete_roles pr.role n)
        (λ allowed.
          let admin : (trim_space pr.role =ˢ "admin") ≡ true =
            ap (λ s. s =ˢ "admin") trimmed ∙ admin_tested pr.role allowed in
          rw (admin, e) (respond_world _ _ ∙ laws.delete_law n (caller_of (context_of pr id)) w))

  pub answer-IsDecided :
      (x : Resource C U) (request : Request)
      → trim_space pr.role ≡ pr.role
      → requested lib q x ≡ some request
      → IsDecided (answered x) request
  answer-IsDecided (Resource.list query) request trimmed e = absurd (cc (e))
  answer-IsDecided (Resource.get raw) request trimmed e = absurd (cc (e))
  answer-IsDecided (Resource.create none) request trimmed e = absurd (cc (e))
  answer-IsDecided (Resource.create (some input)) request trimmed e =
      let same : q.create input ≡ request = cc (e) in
      subst (IsDecided (answered (Resource.create (some input)))) same (create-IsDecided input)
  answer-IsDecided (Resource.update raw body) request trimmed e =
      go body (positive (lib.parse_uint raw)) refl e
    where
      go :
          (b : Option U) (o : Option ℕ)
          → positive (lib.parse_uint raw) ≡ o
          → with_both o b q.update ≡ some request
          → IsDecided (answered (Resource.update raw b)) request
      go b none f e = absurd (cc (e))
      go none (some n) f e = absurd (cc (e))
      go (some input) (some n) f e =
          let same : q.update n input ≡ request = cc (e) in
          subst (IsDecided (answered (Resource.update raw (some input)))) same
            (update-IsDecided raw n input f)
  answer-IsDecided (Resource.transition raw body) request trimmed e =
      go body (positive (lib.parse_uint raw)) refl e
    where
      go :
          (b : Option TransitionRequest) (o : Option ℕ)
          → positive (lib.parse_uint raw) ≡ o
          → with_both o b q.transition ≡ some request
          → IsDecided (answered (Resource.transition raw b)) request
      go b none f e = absurd (cc (e))
      go none (some n) f e = absurd (cc (e))
      go (some input) (some n) f e =
          let same : q.transition n input ≡ request = cc (e) in
          subst (IsDecided (answered (Resource.transition raw (some input)))) same
            (transition-IsDecided raw n input f)
  answer-IsDecided (Resource.remove raw) request trimmed e =
      go (positive (lib.parse_uint raw)) refl e
    where
      go :
          (o : Option ℕ)
          → positive (lib.parse_uint raw) ≡ o
          → with_text o q.delete ≡ some request
          → IsDecided (answered (Resource.remove raw)) request
      go none f e = absurd (cc (e))
      go (some n) f e =
          let same : q.delete n ≡ request = cc (e) in
          subst (IsDecided (answered (Resource.remove raw))) same (remove-IsDecided raw n trimmed f)
