-- ===== src/Web/Routes.antt =====
-- Who may ask for what, in backend/internal/handler: the table that the routes' guards are compared with.
use gb_516_hydropower_gate_d.Prelude.{String, Bool, true, false, not, ◌||◌, ◌&&◌, ◌=ˢ◌}
use gb_516_hydropower_gate_d.System.Serve.{Request}

abbrev pub is_deletion : Request → Bool
is_deletion (Request.delete_reservoir id) = true
is_deletion (Request.delete_gate id) = true
is_deletion (Request.delete_directive id) = true
is_deletion (Request.delete_confirmation id) = true
is_deletion r = false

abbrev pub moves_directive : Request → Bool
moves_directive (Request.transition_directive id input) = true
moves_directive r = false

-- An administrator may ask for anything, an operator for anything but a deletion, and a reviewer for
-- the transition of a directive.
abbrev pub may_ask : String → Request → Bool
may_ask role r =
    role =ˢ "admin"
    || (role =ˢ "operator" && not (is_deletion r))
    || (role =ˢ "reviewer" && moves_directive r)
