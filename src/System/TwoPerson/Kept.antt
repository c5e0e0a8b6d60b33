-- ===== src/System/TwoPerson/Kept.antt =====
-- Writes that leave the directives and their approvals alone.
use gb_516_hydropower_gate_d.Prelude.{ℕ, String, ◌≡◌, refl, sym, ◌∙◌, subst, Option}
use gb_516_hydropower_gate_d.Model.{AuditLog}
use gb_516_hydropower_gate_d.Platform.Schema.{Tables, Entity}
use gb_516_hydropower_gate_d.Service.Records.{Written, Created, Deleted}

-- Tables that agree on directives and approvals.
abbrev pub Kept : Tables → Tables → Type 0
Kept v v' = (v'.directives ≡ v.directives) × (v'.approvals ≡ v.approvals)

pub Kept-trans : (v m v' : Tables) → Kept v m → Kept m v' → Kept v v'
Kept-trans v m v' (d, a) (d', a') = (d' ∙ d, a' ∙ a)

-- From an equation that gives the new tables.
pub Kept-eq : (v m v' : Tables) → v' ≡ m → Kept v m → Kept v v'
Kept-eq v m v' e k = subst (Kept v) (sym e) k

-- The entities other than directives are stored elsewhere.
module _ {T : Type 0} (e : Entity T)
    (apart : (id : ℕ) (row : Option T) (v : Tables) → Kept v (e.put id row v)) where
  pub Written-Kept :
      {id version : ℕ} {item : T} {entry : ℕ → AuditLog} (v v' : Tables)
      → Written e id version item entry v v'
      → Kept v v'
  Written-Kept v v' c =
      Kept-trans v c.middle v' (Kept-eq v _ c.middle c.row.stored (apart _ _ v))
        (Kept-eq c.middle _ v' c.trail.audited (refl, refl))

  pub Created-Kept :
      {name detail actor request_id : String} {item x : T} (v v' : Tables)
      → Created e name detail actor request_id item x v v'
      → Kept v v'
  Created-Kept v v' c =
      Kept-trans v c.middle v' (Kept-eq v _ c.middle c.row.inserted (apart _ _ v))
        (Kept-eq c.middle _ v' c.trail.audited (refl, refl))

  pub Deleted-Kept :
      {id : ℕ} {entry : ℕ → AuditLog} (v v' : Tables) → Deleted e id entry v v' → Kept v v'
  Deleted-Kept v v' c =
      Kept-trans v c.middle v' (Kept-eq v _ c.middle c.row.removed (apart _ _ v))
        (Kept-eq c.middle _ v' c.trail.audited (refl, refl))
