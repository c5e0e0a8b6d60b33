-- ===== src/Web/Handlers/Effects.antt =====
-- What a handler of backend/internal/handler does to the world.
pub mod System
use gb_516_hydropower_gate_d.Prelude.{
  ℕ, String, ◌≡◌, refl, ◌⊎◌, inl, inr, Bool, true, false, not, ◌||◌, ◌&&◌, Option, none, some, List,
  arith,
}
use gb_516_hydropower_gate_d.Exec.{Result, ok, err, Exec, After}
use gb_516_hydropower_gate_d.Text.{Unicode}
use gb_516_hydropower_gate_d.Platform.{Platform}
use gb_516_hydropower_gate_d.Platform.Schema.{Tables}
use gb_516_hydropower_gate_d.Platform.Reads.{IsRead}
use gb_516_hydropower_gate_d.System.Serve.{Caller, Request, world_after, serve}
use gb_516_hydropower_gate_d.Web.Access.{require_roles}
use gb_516_hydropower_gate_d.Web.Http.{
  Context, Response, Handler, respond, respond_with, with_body, with_id, unless_forbidden, guarded,
  is_allowed, actor_from_context, role_from_context,
}
use gb_516_hydropower_gate_d.Web.Routes.{may_ask}

-- What a handler tells a service of its caller.
abbrev pub caller_of : Context → Caller
caller_of c = record {
  actor = actor_from_context c;
  role = role_from_context c;
  request_id = c.request_id;
}

-- The role that the middleware has set may ask for the request.
abbrev pub Permits : Context → Request → Type 0
Permits c request = (role : String) × (c.role ≡ some role) × (may_ask role request ≡ true)

-- The role that the middleware has set is among these.
abbrev pub HasRole : Context → List String → Type 0
HasRole c roles = (role : String) × (c.role ≡ some role) × (require_roles roles role ≡ true)

is_allowed-HasRole :
    (c : Context) (roles : List String) (o : Option String)
    → c.role ≡ o
    → is_allowed roles o ≡ true
    → HasRole c roles
is_allowed-HasRole c roles none e h = absurd (cc (h))
is_allowed-HasRole c roles (some role) e h = (role, e, h)

pub respond_world :
    {W A : Type 0} (f : A → Response) (r : Result A × W) → (respond_with f r).1 ≡ world_after r
unfolding respond_with
respond_world f (ok a, w) = refl
respond_world f (err e, w) = refl

module _ {W : Type 0} (P : W → Type 0) where
  pub with_body_keeps :
      {A : Type 0} (body : Option A) (h : A → Handler W) (w : W)
      → P w
      → ((a : A) → P (h a w).1)
      → P (with_body body h w).1
  with_body_keeps none h w idle run = idle
  with_body_keeps (some a) h w idle run = run a

  pub with_id_keeps :
      (id : Option ℕ) (h : ℕ → Handler W) (w : W)
      → P w
      → ((n : ℕ) → P (h n w).1)
      → P (with_id id h w).1
  with_id_keeps none h w idle run = idle
  with_id_keeps (some n) h w idle run = run n

  pub unless_forbidden_keeps :
      (allowed : Bool) (h : Handler W) (w : W)
      → P w
      → (allowed ≡ true → P (h w).1)
      → P (unless_forbidden allowed h w).1
  unfolding unless_forbidden
  unless_forbidden_keeps true h w idle run = run refl
  unless_forbidden_keeps false h w idle run = idle

module _ {W A : Type 0} (view : W → Tables) (v : Tables) (f : A → Response) where
  pub respond_with_same :
      (r : Result A × W)
      → After (λ _ w'. view w' ≡ v) (λ _ w'. view w' ≡ v) r
      → view (respond_with f r).1 ≡ v
  unfolding respond_with
  respond_with_same (ok a, w) h = h.holds
  respond_with_same (err e, w) h = h.holds

module _ (u : Unicode) (p : Platform) where
  abbrev pub Effect : Context → p.World → p.World → Type 0
  Effect c w w' =
      (p.view w' ≡ p.view w)
      ⊎ (request : Request) × Permits c request × (w' ≡ serve u p (caller_of c) request w)

  pub guarded-Effect :
      (roles : List String) (c : Context) (h : Handler p.World) (w : p.World)
      → (HasRole c roles → Effect c w (h w).1)
      → Effect c w (guarded roles c h w).1
  guarded-Effect roles c h w run =
      unless_forbidden_keeps (Effect c w) (is_allowed roles c.role) h w (inl refl)
        (λ allowed. run (is_allowed-HasRole c roles c.role refl allowed))

  pub read-Effect :
      {A : Type 0} (f : A → Response) (m : Exec p.World A) (c : Context) (w : p.World)
      → IsRead p.view m
      → Effect c w (respond f m w).1
  read-Effect f m c w law = inl (respond_with_same p.view (p.view w) f (m w) (law w))

  -- A handler that calls the service of a request.
  pub served-Effect :
      {A : Type 0} (request : Request) (f : A → Response) (r : Result A × p.World) (c : Context)
      (w : p.World)
      → Permits c request
      → world_after r ≡ serve u p (caller_of c) request w
      → Effect c w (respond_with f r).1
  served-Effect request f r c w permitted same =
      inr (request, permitted, rw (respond_world f r) same)
