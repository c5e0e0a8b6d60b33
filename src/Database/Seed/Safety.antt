-- ===== src/Database/Seed/Safety.antt =====
-- `Seed` of backend/internal/database/database.go and the two-person rule.
use gb_516_hydropower_gate_d.Prelude.{
  ℕ, ◌≡◌, refl, sym, subst, not, Bool, true, false, Option, none, some, List, [], ◌∷◌, ◌==◌,
  if◌then◌else◌,
}
use gb_516_hydropower_gate_d.Exec.{Exec, After, After-map, bind-After, pure, ◌>>=◌}
use gb_516_hydropower_gate_d.Text.{Unicode, equal_fold}
use gb_516_hydropower_gate_d.Model.{User}
use gb_516_hydropower_gate_d.Platform.Schema.{
  Tables, Entity, reservoir_entity, gate_entity, directive_entity, confirmation_entity,
}
use gb_516_hydropower_gate_d.Platform.Reads.{IsRead}
use gb_516_hydropower_gate_d.Platform.Library.{Library}
use gb_516_hydropower_gate_d.Repository.Lists.Laws.{pure-IsRead, bind-IsRead}
use gb_516_hydropower_gate_d.Database.Setup.{Bulk, Setup, BulkLaws, SetupLaws, InsertedAll}
use gb_516_hydropower_gate_d.Database.Seed
use gb_516_hydropower_gate_d.Database.Seed.Evidence.{seeded-IsDispatchSafe}
use gb_516_hydropower_gate_d.System.TwoPerson.Kept.{Kept, Kept-trans, Kept-eq}
use gb_516_hydropower_gate_d.System.TwoPerson.Invariant.{IsDispatchSafe, kept-IsDispatchSafe}
use gb_516_hydropower_gate_d.Web.Config.{Config}

module _ {World : Type 0} (view : World → Tables) (s : Setup World) (laws : SetupLaws view s)
    (lib : Library) where
  create_accounts-IsRead : (o : Option (List User)) → IsRead view (Seed.create_accounts s lib o)
  create_accounts-IsRead none = λ w. record { holds = refl }
  create_accounts-IsRead (some users) = laws.create_users_law users

  accounts_if-IsRead :
      (b : Bool) (o : Option (List User))
      → IsRead view (if b then Seed.create_accounts s lib o else pure tt)
  accounts_if-IsRead true o = create_accounts-IsRead o
  accounts_if-IsRead false o = pure-IsRead view tt

  -- The accounts are in none of the tables.
  pub seed_accounts-IsRead : (cfg : Config) → IsRead view (Seed.seed_accounts s lib cfg)
  unfolding Seed.seed_accounts
  seed_accounts-IsRead cfg =
      bind-IsRead view _ _ laws.count_users_law
        (λ users. accounts_if-IsRead (users == 0) (Seed.seed_users lib (Seed.accounts cfg)))

  module _ (P : Tables → Type 0) where
    -- A call that keeps a property of the tables, if it returns a value.
    abbrev Keeps : {A : Type 0} → Exec World A → Type 0
    Keeps m = (w : World) → P (view w) → After (λ _ w'. P (view w')) (λ _ _. Unit {0}) (m w)

    IsRead-Keeps : {A : Type 0} (m : Exec World A) → IsRead view m → Keeps m
    IsRead-Keeps m h w p = After-map (m w) (h w) (λ _ w' same. subst P (sym same) p) (λ _ _ _. tt)

    bind-Keeps :
        {A B : Type 0} (m : Exec World A) (f : A → Exec World B)
        → Keeps m
        → ((a : A) → Keeps (f a))
        → Keeps (m >>= f)
    bind-Keeps m f first rest w p = bind-After m f w (first w p) (λ a w' q. rest a w' q)

    filled_or-Keeps :
        (b : Bool) (m : Exec World (Unit {0})) → Keeps m → Keeps (if not b then pure tt else m)
    filled_or-Keeps true m h = h
    filled_or-Keeps false m h = IsRead-Keeps (pure tt) (pure-IsRead view tt)

    unless_filled-Keeps :
        {T : Type 0} (e : Entity T) (b : Bulk World T) (fill : ℕ → Exec World (Unit {0}))
        → BulkLaws view e b
        → ((now : ℕ) → Keeps (fill now))
        → Keeps (Seed.unless_filled s lib b fill)
    unless_filled-Keeps e b fill blaws h =
        bind-Keeps _ _
          (IsRead-Keeps b.count
            (λ w. After-map _ (blaws.count_law w) (λ _ _ q. q.0) (λ _ _ same. same)))
          (λ count.
            filled_or-Keeps (count == 0) _ (bind-Keeps _ _ (IsRead-Keeps s.now laws.now_law) h))

  module _ (u : Unicode) where
    InsertedAll-Kept :
        {T : Type 0} (e : Entity T)
        → ((id : ℕ) (row : Option T) (v : Tables) → Kept v (e.put id row v))
        → (items xs : List T) (v v' : Tables) → InsertedAll e items xs v v'
        → Kept v v'
    InsertedAll-Kept e apart [] [] v v' same = Kept-eq v v v' same (refl, refl)
    InsertedAll-Kept e apart (item ∷ items) (x ∷ xs) v v' (m, i, rest) =
        Kept-trans v m v' (Kept-eq v _ m i.inserted (apart _ _ v))
          (InsertedAll-Kept e apart items xs m v' rest)
    InsertedAll-Kept e apart [] (x ∷ xs) v v' h = absurd h
    InsertedAll-Kept e apart (item ∷ items) [] v v' h = absurd h

    -- Filling a table other than that of the directives.
    create_all-Keeps :
        {T : Type 0} (e : Entity T) (b : Bulk World T) (items : List T)
        → ((id : ℕ) (row : Option T) (v : Tables) → Kept v (e.put id row v))
        → BulkLaws view e b
        → Keeps (IsDispatchSafe u) (b.create_all items >>= λ _. pure tt)
    create_all-Keeps e b items apart blaws =
        bind-Keeps (IsDispatchSafe u) _ _
          (λ w h.
            After-map _ (blaws.create_all_law items w)
              (λ xs w' all.
                kept-IsDispatchSafe u (view w) (view w')
                  (InsertedAll-Kept e apart items xs (view w) (view w') all) h)
              (λ _ _ _. tt))
          (λ _. IsRead-Keeps (IsDispatchSafe u) (pure tt) (pure-IsRead view tt))

    create_directives-Keeps :
        equal_fold u "operator" "reviewer" ≡ false
        → (now : ℕ) → Keeps (IsDispatchSafe u) (Seed.create_directives s lib now)
    create_directives-Keeps apart now w h =
        bind-After _ _ w
          (After-map _ (laws.directive_laws.create_all_law _ w) (λ xs w' all. all) (λ _ _ _. tt))
          (λ xs w' all.
            After-map _ (laws.create_approvals_law _ w')
              (λ _ w'' added.
                seeded-IsDispatchSafe u lib now xs (view w) (view w') (view w'') apart all added h)
              (λ _ _ _. tt))

    -- If every directive has the evidence of the two-person rule before the server seeds the database,
    -- and "operator" and "reviewer" are different under case folding, every directive has it after
    -- seeding that succeeds, the seeded ones included.
    pub seed-IsDispatchSafe :
        (cfg : Config) (w : World)
        → equal_fold u "operator" "reviewer" ≡ false
        → IsDispatchSafe u (view w)
        → After (λ _ w'. IsDispatchSafe u (view w')) (λ _ _. Unit {0}) (Seed.seed s lib cfg w)
    unfolding Seed.seed Seed.seed_reservoir Seed.seed_gate_unit Seed.seed_operation_directive
        Seed.seed_execution_confirmation
    seed-IsDispatchSafe cfg w apart =
        let safe = IsDispatchSafe u in
        bind-Keeps safe _ _ (IsRead-Keeps safe _ (seed_accounts-IsRead cfg))
          (λ _.
            bind-Keeps safe _ _
              (unless_filled-Keeps safe reservoir_entity s.reservoirs _ laws.reservoir_laws (λ now.
                create_all-Keeps reservoir_entity s.reservoirs _ (λ _ _ _. (refl, refl))
                  laws.reservoir_laws))
              (λ _.
                bind-Keeps safe _ _
                  (unless_filled-Keeps safe gate_entity s.gates _ laws.gate_laws (λ now.
                    create_all-Keeps gate_entity s.gates _ (λ _ _ _. (refl, refl)) laws.gate_laws))
                  (λ _.
                    bind-Keeps safe _ _
                      (unless_filled-Keeps safe directive_entity s.directives _ laws.directive_laws
                        (create_directives-Keeps apart))
                      (λ _.
                        unless_filled-Keeps safe confirmation_entity s.confirmations _
                          laws.confirmation_laws
                          (λ now.
                            create_all-Keeps confirmation_entity s.confirmations _
                              (λ _ _ _. (refl, refl)) laws.confirmation_laws)))))
          w
