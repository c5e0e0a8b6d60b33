-- ===== src/Repository/Lists/Laws.antt =====
-- What the lists of backend/internal/repository/base.go do to the tables.
use gb_516_hydropower_gate_d.Prelude.{ℕ, refl, ◌∙◌, List, [], ◌∷◌}
use gb_516_hydropower_gate_d.Exec.{Exec, After-map, bind-After, pure, ◌>>=◌}
use gb_516_hydropower_gate_d.Text.{Unicode}
use gb_516_hydropower_gate_d.Dto.{PageQuery}
use gb_516_hydropower_gate_d.Model.{OperationDirective}
use gb_516_hydropower_gate_d.Platform.{Platform, PlatformLaws, Statements, StatementLaws}
use gb_516_hydropower_gate_d.Platform.Schema.{Tables, Entity, directive_entity}
use gb_516_hydropower_gate_d.Platform.Reads.{Queries, QueryLaws, IsRead}
use gb_516_hydropower_gate_d.Repository.Store
use gb_516_hydropower_gate_d.Repository.Directives
use gb_516_hydropower_gate_d.Repository.Lists

module _ {World : Type 0} (view : World → Tables) where
  pub pure-IsRead : {A : Type 0} (a : A) → IsRead view (pure a)
  pure-IsRead a w = record { holds = refl }

  -- Reads one after another.
  pub bind-IsRead :
      {A B : Type 0} (m : Exec World A) (f : A → Exec World B)
      → IsRead view m
      → ((a : A) → IsRead view (f a))
      → IsRead view (m >>= f)
  bind-IsRead m f first rest w =
      bind-After m f w (first w)
        (λ a w' same. After-map _ (rest a w') (λ _ _ e. e ∙ same) (λ _ _ e. e ∙ same))

  pub list-IsRead :
      {T : Type 0} (q : Queries World T) (laws : QueryLaws view q) (u : Unicode) (query : PageQuery)
      → IsRead view (Lists.list q u query)
  unfolding Lists.list
  list-IsRead q laws u query =
      bind-IsRead _ _ (laws.count_law _)
        (λ total. bind-IsRead _ _ (laws.find_law _ _ _) (λ items. pure-IsRead _))

module _ (p : Platform) {T : Type 0} (e : Entity T) (s : Statements p.World T)
    (laws : StatementLaws p.view e s) where
  pub get-IsRead : (id : ℕ) → IsRead p.view (Store.get p s id)
  unfolding Store.get
  get-IsRead id w = After-map _ (laws.first_law id w) (λ _ _ q. q.2) (λ _ _ same. same)

module _ (p : Platform) (laws : PlatformLaws p) where
  pub get_directive-IsRead : (id : ℕ) → IsRead p.view (Directives.get p id)
  unfolding Directives.get Store.get
  get_directive-IsRead id =
      bind-IsRead p.view _ _ (get-IsRead p directive_entity p.directives laws.directive_laws id)
        (λ item.
          bind-IsRead p.view _ _ (laws.find_approvals_law id)
            (λ found. pure-IsRead p.view (record item { approvals = found })))

  module _ (q : Queries p.World OperationDirective) (reads : QueryLaws p.view q) where
    with_approvals-IsRead :
        (l : List OperationDirective) → IsRead p.view (Lists.with_approvals p q l)
    unfolding Lists.with_approvals
    with_approvals-IsRead [] = pure-IsRead p.view []
    with_approvals-IsRead (d ∷ rest) =
        bind-IsRead p.view _ _ (laws.find_approvals_law d.id) (λ found.
          bind-IsRead p.view _ _ (with_approvals-IsRead rest) (λ others. pure-IsRead p.view _))

    pub list_directives-IsRead :
        (u : Unicode) (query : PageQuery) → IsRead p.view (Lists.list_directives p q u query)
    unfolding Lists.list_directives
    list_directives-IsRead u query =
        bind-IsRead p.view _ _ (list-IsRead p.view q reads u query) (λ page.
          bind-IsRead p.view _ _ (with_approvals-IsRead page.items) (λ items. pure-IsRead p.view _))
