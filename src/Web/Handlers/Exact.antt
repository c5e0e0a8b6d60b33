-- ===== src/Web/Handlers/Exact.antt =====
-- The write request that a route of backend/internal/handler carries, and when it is served.
use gb_516_hydropower_gate_d.Prelude.{
  ℕ, String, ◌≡◌, refl, Bool, true, false, ◌||◌, ◌&&◌, Option, none, some, if◌then◌else◌,
}
use gb_516_hydropower_gate_d.Text.{Unicode}
use gb_516_hydropower_gate_d.Dto.{TransitionRequest}
use gb_516_hydropower_gate_d.Platform.{Platform}
use gb_516_hydropower_gate_d.Platform.Library.{Library}
use gb_516_hydropower_gate_d.System.Serve.{Request, serve}
use gb_516_hydropower_gate_d.Web.Http.{Context, Handler, unless_forbidden, positive}
use gb_516_hydropower_gate_d.Web.Handlers.Effects.{caller_of}
use gb_516_hydropower_gate_d.Web.Handlers.Resource.{Resource}
use gb_516_hydropower_gate_d.Web.Routes.{may_ask}

-- How an entity's requests are made of what a route carries.
pub record Requests (C U : Type 0) : Type 0 where
  pub create : C → Request
  pub update : ℕ → U → Request
  pub transition : ℕ → TransitionRequest → Request
  pub delete : ℕ → Request

abbrev pub with_text : {A B : Type 0} → Option A → (A → B) → Option B
with_text none f = none
with_text (some a) f = some (f a)

abbrev pub with_both : {A B D : Type 0} → Option A → Option B → (A → B → D) → Option D
with_both none b f = none
with_both (some a) none f = none
with_both (some a) (some b) f = some (f a b)

-- The request, if the id and the body can be read.
abbrev pub requested : {C U : Type 0} → Library → Requests C U → Resource C U → Option Request
requested lib q (Resource.list query) = none
requested lib q (Resource.get raw) = none
requested lib q (Resource.create body) = with_text body q.create
requested lib q (Resource.update raw body) = with_both (positive (lib.parse_uint raw)) body q.update
requested lib q (Resource.transition raw body) =
    with_both (positive (lib.parse_uint raw)) body q.transition
requested lib q (Resource.remove raw) = with_text (positive (lib.parse_uint raw)) q.delete

-- The world after a request that is served if the role may ask for it.
abbrev pub decided : (u : Unicode) (p : Platform) → Context → String → Request → p.World → p.World
decided u p c role request w = if may_ask role request then serve u p (caller_of c) request w else w

pub guard-decided :
    {W : Type 0} (allowed may : Bool) (h : Handler W) (w served : W)
    → allowed ≡ may
    → (allowed ≡ true → (h w).1 ≡ served)
    → (unless_forbidden allowed h w).1 ≡ (if may then served else w)
unfolding unless_forbidden
guard-decided true true h w served e run = run refl
guard-decided false false h w served e run = refl
guard-decided true false h w served e run = absurd (cc (e))
guard-decided false true h w served e run = absurd (cc (e))

-- The roles of a writing route, of the transition of a directive, and of a deletion.
pub writer_exact : (a o v : Bool) → (o || (a || false)) ≡ (a || (o && true) || (v && false))
writer_exact true true v = refl
writer_exact true false v = refl
writer_exact false true v = refl
writer_exact false false true = refl
writer_exact false false false = refl

pub mover_exact : (a o v : Bool) → (o || (v || (a || false))) ≡ (a || (o && true) || (v && true))
mover_exact true true v = refl
mover_exact true false true = refl
mover_exact true false false = refl
mover_exact false true v = refl
mover_exact false false true = refl
mover_exact false false false = refl

pub admin_exact : (a o v : Bool) → (a || false) ≡ (a || (o && false) || (v && false))
admin_exact true o v = refl
admin_exact false true true = refl
admin_exact false true false = refl
admin_exact false false true = refl
admin_exact false false false = refl
