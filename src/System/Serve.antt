-- ===== src/System/Serve.antt =====
-- The write requests of the four services, after the routes and the checks of the middleware, and a
-- server that answers a sequence of them.
use gb_516_hydropower_gate_d.Prelude.{ℕ, String, ◌≡◌, refl, ◌⊎◌, inl, inr, List, [], ◌∷◌}
use gb_516_hydropower_gate_d.Exec.{Error, Result, ok, err, After}
use gb_516_hydropower_gate_d.Text.{Unicode}
use gb_516_hydropower_gate_d.Dto.{
  CreateReservoir, UpdateReservoir, CreateGateUnit, UpdateGateUnit, CreateOperationDirective,
  UpdateOperationDirective, CreateExecutionConfirmation, UpdateExecutionConfirmation,
  TransitionRequest,
}
use gb_516_hydropower_gate_d.Platform.{Platform, PlatformLaws}
use gb_516_hydropower_gate_d.Platform.Schema.{Tables}
use gb_516_hydropower_gate_d.Service.Reservoir
use gb_516_hydropower_gate_d.Service.Reservoir.Effects as ReservoirEffects
use gb_516_hydropower_gate_d.Service.Gate
use gb_516_hydropower_gate_d.Service.Gate.Effects as GateEffects
use gb_516_hydropower_gate_d.Service.Directive
use gb_516_hydropower_gate_d.Service.Directive.Draft
use gb_516_hydropower_gate_d.Service.Directive.Draft.Effects as DraftEffects
use gb_516_hydropower_gate_d.Service.Directive.Transition as DirectiveTransition
use gb_516_hydropower_gate_d.Service.Confirmation
use gb_516_hydropower_gate_d.Service.Confirmation.Proofs as ConfirmationProofs
use gb_516_hydropower_gate_d.System.Changes.{Change}

-- Who calls, as the middleware has established.
pub record Caller : Type 0 where
  pub actor : String
  pub role : String
  pub request_id : String

pub data Request : Type 0 where
  create_reservoir : CreateReservoir → Request
  update_reservoir : ℕ → UpdateReservoir → Request
  transition_reservoir : ℕ → TransitionRequest → Request
  delete_reservoir : ℕ → Request
  create_gate : CreateGateUnit → Request
  update_gate : ℕ → UpdateGateUnit → Request
  transition_gate : ℕ → TransitionRequest → Request
  delete_gate : ℕ → Request
  create_directive : CreateOperationDirective → Request
  update_directive : ℕ → UpdateOperationDirective → Request
  transition_directive : ℕ → TransitionRequest → Request
  delete_directive : ℕ → Request
  create_confirmation : CreateExecutionConfirmation → Request
  update_confirmation : ℕ → UpdateExecutionConfirmation → Request
  transition_confirmation : ℕ → TransitionRequest → Request
  delete_confirmation : ℕ → Request

-- The answer goes to the client; the world stays as the handler left it.
abbrev pub world_after : {W A : Type 0} → Result A × W → W
world_after (r, w) = w

module _ (u : Unicode) (p : Platform) where
  unfoldable pub serve : Caller → Request → p.World → p.World
  serve c (create_reservoir input) w =
      world_after (Reservoir.create u p input c.actor c.request_id w)
  serve c (update_reservoir id input) w =
      world_after (Reservoir.update u p id input c.actor c.request_id w)
  serve c (transition_reservoir id input) w =
      world_after (Reservoir.transition u p id input c.actor c.request_id w)
  serve c (delete_reservoir id) w = world_after (Reservoir.delete u p id c.actor c.request_id w)
  serve c (create_gate input) w = world_after (Gate.create u p input c.actor c.request_id w)
  serve c (update_gate id input) w = world_after (Gate.update u p id input c.actor c.request_id w)
  serve c (transition_gate id input) w =
      world_after (Gate.transition u p id input c.actor c.request_id w)
  serve c (delete_gate id) w = world_after (Gate.delete u p id c.actor c.request_id w)
  serve c (create_directive input) w = world_after (Draft.create u p input c.actor c.request_id w)
  serve c (update_directive id input) w =
      world_after (Draft.update u p id input c.actor c.request_id w)
  serve c (transition_directive id input) w =
      world_after (Directive.transition u p id input c.actor c.role c.request_id w)
  serve c (delete_directive id) w = world_after (Draft.delete u p id c.actor c.request_id w)
  serve c (create_confirmation input) w =
      world_after (Confirmation.create u p input c.actor c.request_id w)
  serve c (update_confirmation id input) w =
      world_after (Confirmation.update u p id input c.actor c.request_id w)
  serve c (transition_confirmation id input) w =
      world_after (Confirmation.transition u p id input c.actor c.request_id w)
  serve c (delete_confirmation id) w =
      world_after (Confirmation.delete u p id c.actor c.request_id w)

  unfoldable pub serve_all : List (Caller × Request) → p.World → p.World
  serve_all [] w = w
  serve_all ((c, r) ∷ rest) w = serve_all rest (serve c r w)

  module _ (laws : PlatformLaws p) where
    -- Both after a value and after an error.
    settle :
        {A : Type 0} {Q : A → p.World → Type 0} {E : Error → p.World → Type 0} (C : Tables → Type 0)
        (r : Result A × p.World)
        → After Q E r
        → ((a : A) (w : p.World) → Q a w → C (p.view w))
        → ((e : Error) (w : p.World) → E e w → C (p.view w))
        → C (p.view (world_after r))
    settle C (ok a, w) h f g = f a w h.holds
    settle C (err e, w) h f g = g e w h.holds

    -- On a late error all has been done.
    done_or_not : {v v' : Tables} {C : Type 0} → (C → Change u v v') → (v' ≡ v) ⊎ C → Change u v v'
    done_or_not f (inl same) = Change.no_change same
    done_or_not f (inr done) = f done

    -- Every request, whatever its answer, makes one of the changes.
    pub serve-Change :
        (c : Caller) (r : Request) (w : p.World) → Change u (p.view w) (p.view (serve c r w))
    unfolding serve
    serve-Change c (create_reservoir input) w =
        settle (Change u (p.view w)) _
          (ReservoirEffects.create-ReservoirCreated u p laws (p.view w) w refl input c.actor
            c.request_id)
          (λ x w'. Change.reservoir_created input c.actor c.request_id x) (λ _ _. Change.no_change)
    serve-Change c (update_reservoir id input) w =
        settle (Change u (p.view w)) _
          (ReservoirEffects.update-ReservoirEdited u p laws (p.view w) w refl id input c.actor
            c.request_id)
          (λ x w' q. Change.reservoir_edited id input c.actor c.request_id q.0)
          (λ _ _. done_or_not (Change.reservoir_edited id input c.actor c.request_id))
    serve-Change c (transition_reservoir id input) w =
        settle (Change u (p.view w)) _
          (ReservoirEffects.transition-ReservoirTransitioned u p laws (p.view w) w refl id input
            c.actor c.request_id)
          (λ x w' q. Change.reservoir_moved id input c.actor c.request_id q.0)
          (λ _ _. done_or_not (Change.reservoir_moved id input c.actor c.request_id))
    serve-Change c (delete_reservoir id) w =
        settle (Change u (p.view w)) _
          (ReservoirEffects.delete-ReservoirDeleted u p laws (p.view w) w refl id c.actor
            c.request_id)
          (λ _ w'. Change.reservoir_deleted id c.actor c.request_id) (λ _ _. Change.no_change)
    serve-Change c (create_gate input) w =
        settle (Change u (p.view w)) _
          (GateEffects.create-GateCreated u p laws (p.view w) w refl input c.actor c.request_id)
          (λ x w'. Change.gate_created input c.actor c.request_id x) (λ _ _. Change.no_change)
    serve-Change c (update_gate id input) w =
        settle (Change u (p.view w)) _
          (GateEffects.update-GateEdited u p laws (p.view w) w refl id input c.actor c.request_id)
          (λ x w' q. Change.gate_edited id input c.actor c.request_id q.0)
          (λ _ _. done_or_not (Change.gate_edited id input c.actor c.request_id))
    serve-Change c (transition_gate id input) w =
        settle (Change u (p.view w)) _
          (GateEffects.transition-GateTransitioned u p laws (p.view w) w refl id input c.actor
            c.request_id)
          (λ x w' q. Change.gate_moved id input c.actor c.request_id q.0)
          (λ _ _. done_or_not (Change.gate_moved id input c.actor c.request_id))
    serve-Change c (delete_gate id) w =
        settle (Change u (p.view w)) _
          (GateEffects.delete-GateDeleted u p laws (p.view w) w refl id c.actor c.request_id)
          (λ _ w'. Change.gate_deleted id c.actor c.request_id) (λ _ _. Change.no_change)
    serve-Change c (create_directive input) w =
        settle (Change u (p.view w)) _
          (DraftEffects.create-DirectiveCreated u p laws (p.view w) w refl input c.actor
            c.request_id)
          (λ x w'. Change.directive_created input c.actor c.request_id x) (λ _ _. Change.no_change)
    serve-Change c (update_directive id input) w =
        settle (Change u (p.view w)) _
          (DraftEffects.update-DirectiveEdited u p laws (p.view w) w refl id input c.actor
            c.request_id)
          (λ x w' q. Change.directive_edited id input c.actor c.request_id q.0)
          (λ _ _. done_or_not (Change.directive_edited id input c.actor c.request_id))
    serve-Change c (transition_directive id input) w =
        settle (Change u (p.view w)) _
          (DirectiveTransition.transition-Transitioned u p laws id input c.actor c.role c.request_id
            (p.view w) w refl)
          (λ x w' q. Change.directive_moved id input c.actor c.role c.request_id q.0)
          (λ _ _. done_or_not (Change.directive_moved id input c.actor c.role c.request_id))
    serve-Change c (delete_directive id) w =
        settle (Change u (p.view w)) _
          (DraftEffects.delete-DirectiveDeleted u p laws (p.view w) w refl id c.actor c.request_id)
          (λ _ w'. Change.directive_deleted id c.actor c.request_id) (λ _ _. Change.no_change)
    serve-Change c (create_confirmation input) w =
        settle (Change u (p.view w)) _
          (ConfirmationProofs.create-ConfirmationCreated u p laws (p.view w) w refl input c.actor
            c.request_id)
          (λ x w'. Change.confirmation_created input c.actor c.request_id x)
          (λ _ _. Change.no_change)
    serve-Change c (update_confirmation id input) w =
        settle (Change u (p.view w)) _
          (ConfirmationProofs.update-ConfirmationEdited u p laws (p.view w) w refl id input c.actor
            c.request_id)
          (λ x w' q. Change.confirmation_edited id input c.actor c.request_id q.0)
          (λ _ _. done_or_not (Change.confirmation_edited id input c.actor c.request_id))
    serve-Change c (transition_confirmation id input) w =
        settle (Change u (p.view w)) _
          (ConfirmationProofs.transition-ConfirmationTransitioned u p laws (p.view w) w refl id
            input c.actor c.request_id)
          (λ x w' q. Change.confirmation_moved id input c.actor c.request_id q.0)
          (λ _ _. done_or_not (Change.confirmation_moved id input c.actor c.request_id))
    serve-Change c (delete_confirmation id) w =
        settle (Change u (p.view w)) _
          (ConfirmationProofs.delete-ConfirmationDeleted u p laws (p.view w) w refl id c.actor
            c.request_id)
          (λ _ w'. Change.confirmation_deleted id c.actor c.request_id) (λ _ _. Change.no_change)

    -- What every change keeps holds after any sequence of requests.
    pub serve_all_keeps :
        (P : Tables → Type 0)
        → ((v v' : Tables) → Change u v v' → P v → P v')
        → (requests : List (Caller × Request)) (w : p.World) → P (p.view w)
        → P (p.view (serve_all requests w))
    unfolding serve_all
    serve_all_keeps P keep [] w h = h
    serve_all_keeps P keep ((c, r) ∷ rest) w h =
        serve_all_keeps P keep rest (serve c r w) (keep _ _ (serve-Change c r w) h)
