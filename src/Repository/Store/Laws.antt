-- ===== src/Repository/Store/Laws.antt =====
-- What the operations of `Store[T]` do to the tables. A read leaves them alone; a write has its effect
-- or fails.
use gb_516_hydropower_gate_d.Prelude.{
  ℕ, String, ◌≡◌, refl, ◌∙◌, subst, ◌⊎◌, inl, inr, not, some, ◌==◌,
}
use gb_516_hydropower_gate_d.Exec.{Error, Exec, require, After, bind-After, After-map}
use gb_516_hydropower_gate_d.Text.{Unicode}
use gb_516_hydropower_gate_d.Platform.{Platform, Statements, StatementLaws, PlatformLaws}
use gb_516_hydropower_gate_d.Platform.Schema.{Tables, Entity, Stored, Inserted, Removed}
use gb_516_hydropower_gate_d.Repository.Store

-- An error of a step inside a transaction: nothing is known of the world, since it is rolled back.
abbrev pub AnyError : {W : Type 0} → Error → W → Type 0
AnyError e w = Unit

module _ (p : Platform) {T : Type 0} (e : Entity T) (s : Statements p.World T)
    (laws : StatementLaws p.view e s) where
  module _ (v : Tables) {E : Error → p.World → Type 0}
      (fail : (x : Error) (w : p.World) → p.view w ≡ v → E x w) where
    pub get-After :
        (id : ℕ) (w : p.World)
        → p.view w ≡ v
        → After
            (λ x w'. (e.rows v id ≡ some x) × ((e.base x).id ≡ id) × (p.view w' ≡ v))
            E
            (Store.get p s id w)
    unfolding Store.get
    get-After id w h =
        After-map _ (laws.first_law id w) (λ x w' q. (rw (← h) q.0, q.1, q.2 ∙ h))
          (λ x w' q. fail x w' (q ∙ h))

    pub get_by_code-After :
        (u : Unicode) (c : String) (w : p.World)
        → p.view w ≡ v
        → After
            (λ x w'.
              (e.rows v (e.base x).id ≡ some x)
              × ((e.base x).code ≡ Store.normal_code u c)
              × (p.view w' ≡ v))
            E
            (Store.get_by_code p s u c w)
    unfolding Store.get_by_code
    get_by_code-After u c w h =
        After-map _ (laws.first_by_code_law (Store.normal_code u c) w)
          (λ x w' q. (rw (← h) q.0, q.1, q.2 ∙ h)) (λ x w' q. fail x w' (q ∙ h))

  -- The read that follows a commit, where an error comes too late to undo anything.
  pub get_committed-After :
      (v : Tables) (C : Tables → Type 0) (id : ℕ) (w : p.World)
      → C (p.view w)
      → After
          (λ x w'. C (p.view w') × (e.rows (p.view w') id ≡ some x))
          (λ _ w'. (p.view w' ≡ v) ⊎ C (p.view w'))
          (Store.get p s id w)
  get_committed-After v C id w done =
      After-map _ (get-After (p.view w) {E = λ _ w'. p.view w' ≡ p.view w} (λ _ _ e. e) id w refl)
        (λ x w' q. rw q.2 (done, q.0)) (λ _ w' same. inr (rw same done))

  -- `RowsAffected` is the evidence of the write.
  affected-After :
      (n : ℕ) (x : Error) (w : p.World) (Q : p.World → Type 0) (E : Error → p.World → Type 0)
      → ((n ≡ 0) × E x w) ⊎ ((n ≡ 1) × Q w)
      → After {A = Unit {0}} (λ _ w'. Q w') E (require (not (n == 0)) x w)
  affected-After n x w Q E (inl (none_affected, bad)) = rw none_affected (record { holds = bad })
  affected-After n x w Q E (inr (one_affected, q)) = rw one_affected (record { holds = q })

  pub update-After :
      (v : Tables) (id version : ℕ) (item : T) (w : p.World)
      → p.view w ≡ v
      → After
          (λ _ w'. Stored e id version item v (p.view w'))
          AnyError
          (Store.update p s id version item w)
  unfolding Store.update
  update-After v id version item w h =
      bind-After _ _ _
        (After-map _ (laws.updates_law id version item w) (λ n w' q. q) (λ _ _ _. tt))
        λ n w' q.
          affected-After n Store.version_conflict w'
            (λ w''. Stored e id version item v (p.view w'')) AnyError
            (elim q [
              | inl (none_affected, same) ↦ inl (none_affected, tt)
              | inr (one_affected, stored) ↦ inr (one_affected, rw (← h) stored)
            ])

  pub delete-After :
      (v : Tables) (id : ℕ) (w : p.World)
      → p.view w ≡ v
      → After (λ _ w'. Removed e id v (p.view w')) AnyError (Store.delete p s id w)
  unfolding Store.delete
  delete-After v id w h =
      bind-After _ _ _ (After-map _ (laws.delete_law id w) (λ n w' q. q) (λ _ _ _. tt)) λ n w' q.
        affected-After n Store.record_not_found w' (λ w''. Removed e id v (p.view w'')) AnyError
          (elim q [
            | inl (none_affected, same) ↦ inl (none_affected, tt)
            | inr (one_affected, removed) ↦ inr (one_affected, rw (← h) removed)
          ])

  pub create-After :
      (v : Tables) (item : T) (w : p.World)
      → p.view w ≡ v
      → After (λ x w'. Inserted e item x v (p.view w')) AnyError (Store.create p s item w)
  unfolding Store.create
  create-After v item w h =
      After-map _ (laws.create_law item w) (λ x w' q. rw (← h) q) (λ _ _ _. tt)

module _ (p : Platform) (laws : PlatformLaws p) where
  -- A transaction leaves no trace of a body that fails.
  pub transaction-After :
      {A : Type 0} (v : Tables) {E : Error → p.World → Type 0} (Q : A → Tables → Type 0)
      → ((x : Error) (w : p.World) → p.view w ≡ v → E x w)
      → (body : Exec p.World A) (w : p.World) → p.view w ≡ v
      → ((w' : p.World) → p.view w' ≡ v → After (λ a w''. Q a (p.view w'')) AnyError (body w'))
      → After (λ a w'. Q a (p.view w')) E (p.transaction A body w)
  transaction-After {A} v {E} Q fail body w h k =
      After-map _ (laws.transaction_law A body w)
        (λ a w' q.
          let (begun, done, at_start, ran, at_end) = q in
          rw at_end
            (subst (After (λ b w''. Q b (p.view w'')) AnyError) ran (k begun (at_start ∙ h))).holds)
        (λ x w' q. fail x w' (q ∙ h))
