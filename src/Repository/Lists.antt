-- ===== src/Repository/Lists.antt =====
-- backend/internal/repository/base.go: lists and counts by state.
pub mod Laws
use gb_516_hydropower_gate_d.Prelude.{
  ℕ, String, ◌-◌, ◌*◌, Option, none, some, List, [], ◌∷◌, ◌=ˢ◌, if◌then◌else◌,
}
use Prim.Native.String
use gb_516_hydropower_gate_d.Ints.{ℤ, pos, negsuc, wrap64}
use gb_516_hydropower_gate_d.Exec.{Exec, pure, ◌>>=◌}
use gb_516_hydropower_gate_d.Text.{Unicode, trim_space, to_lower}
use gb_516_hydropower_gate_d.Dto.{PageQuery}
use gb_516_hydropower_gate_d.Platform.{Platform}
use gb_516_hydropower_gate_d.Platform.Reads.{Queries, Selection}
use gb_516_hydropower_gate_d.Model.{OperationDirective}
use gb_516_hydropower_gate_d.Web.Queries.{normalize_page}

pub record Page (T : Type 0) : Type 0 where
  pub items : List T
  pub total : ℕ
  pub page : ℤ
  pub page_size : ℤ

abbrev pub unless_empty : String → Option String
unless_empty s = if s =ˢ "" then none else some s

-- `"%" + search + "%"`
abbrev pub wildcard : String → String
wildcard search = String.◌++◌ "%" (String.◌++◌ search "%")

abbrev pub pattern_of : String → Option String
pattern_of search = if search =ˢ "" then none else some (wildcard search)

-- The conditions of a list.
unfoldable pub selection_of : Unicode → PageQuery → Selection
selection_of u query = record {
  pattern = pattern_of (trim_space (to_lower u query.search));
  status = unless_empty (trim_space query.status);
}

-- `(page - 1) * pageSize` in 64 bits, of a page and a size that are positive by then.
unfoldable pub page_offset : ℤ → ℤ → ℤ
page_offset (pos page) (pos size) = wrap64 ((page - 1) * size)
page_offset page size = pos 0

module _ {World T : Type 0} (q : Queries World T) where
  unfoldable pub list : Unicode → PageQuery → Exec World (Page T)
  list u query = do
    let bounds = normalize_page (query.page, query.page_size)
    let selection = selection_of u query
    total ← q.count selection
    items ← q.find selection (page_offset bounds.0 bounds.1) bounds.1
    pure (record { items = items; total = total; page = bounds.0; page_size = bounds.1 })

  unfoldable pub count_by_status : Exec World (List (String × ℕ))
  count_by_status = q.count_by_status

module _ (p : Platform) (q : Queries p.World OperationDirective) where
  -- The loop over the page: each directive gets its approvals, and the first error ends it.
  unfoldable pub with_approvals : List OperationDirective → Exec p.World (List OperationDirective)
  with_approvals [] = pure []
  with_approvals (d ∷ rest) = do
    approvals ← p.find_approvals d.id
    others ← with_approvals rest
    pure (record d { approvals = approvals } ∷ others)

  -- `operationDirectiveRepository.List`
  unfoldable pub list_directives : Unicode → PageQuery → Exec p.World (Page OperationDirective)
  list_directives u query = do
    page ← list q u query
    items ← with_approvals page.items
    pure (record page { items = items })
