-- ===== src/Web/Handlers/Resource.antt =====
-- The routes that a handler's `Register` adds, with what a request to each carries: the text of its id
-- and its body, if that binds.
use gb_516_hydropower_gate_d.Prelude.{String, Option}
use gb_516_hydropower_gate_d.Dto.{PageQuery, TransitionRequest}

pub data Resource (C U : Type 0) : Type 0 where
  list : PageQuery → Resource C U
  get : String → Resource C U
  create : Option C → Resource C U
  update : String → Option U → Resource C U
  transition : String → Option TransitionRequest → Resource C U
  remove : String → Resource C U
