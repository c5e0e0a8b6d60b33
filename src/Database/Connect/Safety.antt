-- ===== src/Database/Connect/Safety.antt =====
-- `Open` of backend/internal/database/database.go and the two-person rule.
use gb_516_hydropower_gate_d.Prelude.{
  ℕ, zero, suc, ◌≡◌, refl, sym, ◌∙◌, subst, Bool, true, false, not, ◌=ˢ◌, Bool-cases, inl, inr,
}
use gb_516_hydropower_gate_d.Exec.{After, After-map, bind-After}
use gb_516_hydropower_gate_d.Text.{Unicode, equal_fold}
use gb_516_hydropower_gate_d.Platform.Schema.{Tables}
use gb_516_hydropower_gate_d.Platform.Reads.{IsRead}
use gb_516_hydropower_gate_d.Platform.Library.{Library}
use gb_516_hydropower_gate_d.Database.Setup.{Setup, SetupLaws}
use gb_516_hydropower_gate_d.Database.Seed.Safety.{seed-IsDispatchSafe}
use gb_516_hydropower_gate_d.Database.Connect
use gb_516_hydropower_gate_d.System.TwoPerson.Invariant.{IsDispatchSafe}
use gb_516_hydropower_gate_d.Web.Config.{Config}

module _ {World : Type 0} (view : World → Tables) where
  -- Connecting, waiting and migrating leave the rows as they are.
  abbrev IsQuiet : (World → Bool × World) → Type 0
  IsQuiet f = (w : World) → view (f w).1 ≡ view w

  pub record DriverLaws (d : Connect.Driver World) : Type 0 where
    pub open_connection_law : IsQuiet d.open_connection
    pub handle_law : IsQuiet d.handle
    pub ping_law : IsQuiet d.ping
    pub wait_law : IsQuiet d.wait
    pub migrate_law : IsRead view d.migrate
    pub redis_ping_law : IsQuiet d.redis_ping

module _ {World : Type 0} (view : World → Tables) (d : Connect.Driver World)
    (laws : DriverLaws view d) where
  second_ping_same : (x : Bool × World) → view (Connect.second_ping d x).1 ≡ view x.1
  second_ping_same (true, w) = refl
  second_ping_same (false, w) = refl

  first_ping_same : (x : Bool × World) → view (Connect.first_ping d x).1 ≡ view x.1
  first_ping_same (true, w) = refl
  first_ping_same (false, w) = second_ping_same (d.ping w) ∙ laws.ping_law w

  with_handle_same : (x : Bool × World) → view (Connect.with_handle d x).1 ≡ view x.1
  with_handle_same (true, w) = first_ping_same (d.ping w) ∙ laws.ping_law w
  with_handle_same (false, w) = refl

  with_connection_same : (x : Bool × World) → view (Connect.with_connection d x).1 ≡ view x.1
  with_connection_same (true, w) = with_handle_same (d.handle w) ∙ laws.handle_law w
  with_connection_same (false, w) = refl

  attempt_same : (w : World) → view (Connect.attempt d w).1 ≡ view w
  unfolding Connect.attempt
  attempt_same w = with_connection_same (d.open_connection w) ∙ laws.open_connection_law w

  proceed_same :
      (v : Tables) (a : Connect.Attempt) (tried : World) (waited : Bool × World)
      (continue : Connect.Attempt → World → Connect.Outcome × World)
      → view tried ≡ v
      → view waited.1 ≡ v
      → ((b : Connect.Attempt) → view (continue b waited.1).1 ≡ v)
      → view (Connect.proceed d a tried waited continue).1 ≡ v
  proceed_same v Connect.Attempt.ready tried waited continue h k rest = h
  proceed_same v Connect.Attempt.late tried (true, later) continue h k rest =
      rest Connect.Attempt.late
  proceed_same v Connect.Attempt.late tried (false, later) continue h k rest = k
  proceed_same v Connect.Attempt.down tried (true, later) continue h k rest =
      rest Connect.Attempt.down
  proceed_same v Connect.Attempt.down tried (false, later) continue h k rest = k

  connect_from_same :
      (n : ℕ) (last : Connect.Attempt) (w : World)
      → view (Connect.connect_from d n last w).1 ≡ view w
  unfolding Connect.connect_from
  connect_from_same zero last w = refl
  connect_from_same (suc n) last w =
      let tried = (Connect.attempt d w).1 in
      let waited : view (d.wait tried).1 ≡ view w = laws.wait_law tried ∙ attempt_same w in
      proceed_same (view w) (Connect.attempt d w).0 tried (d.wait tried) _ (attempt_same w) waited
        (λ b. connect_from_same n b (d.wait tried).1 ∙ waited)

  module _ (s : Setup World) (setup : SetupLaws view s) (lib : Library) (cfg : Config)
      (u : Unicode) where
    when_redis-After :
        (x : Bool × World)
        → IsDispatchSafe u (view x.1)
        → After (λ _ w'. IsDispatchSafe u (view w')) (λ _ _. Unit {0}) (Connect.when_redis d x)
    when_redis-After (true, w) h = record { holds = h }
    when_redis-After (false, w) h = record { holds = tt }

    connect_redis-After :
        (w : World)
        → IsDispatchSafe u (view w)
        → After
            (λ _ w'. IsDispatchSafe u (view w'))
            (λ _ _. Unit {0})
            (Connect.connect_redis d cfg w)
    connect_redis-After w h = elim (Bool-cases (cfg.redis_addr =ˢ "")) [
      | inl off ↦ rw off (record { holds = h })
      | inr on ↦ rw on (
          when_redis-After (d.redis_ping w)
            (subst (IsDispatchSafe u) (sym (laws.redis_ping_law w)) h))
    ]

    prepare-After :
        (w : World)
        → equal_fold u "operator" "reviewer" ≡ false
        → IsDispatchSafe u (view w)
        → After
            (λ _ w'. IsDispatchSafe u (view w'))
            (λ _ _. Unit {0})
            (Connect.prepare d s lib cfg w)
    prepare-After w apart h =
        bind-After _ _ w
          (After-map _ (laws.migrate_law w) (λ _ w' same. subst (IsDispatchSafe u) (sym same) h)
            (λ _ _ _. tt))
          (λ _ w' safe.
            bind-After _ _ w' (seed-IsDispatchSafe view s setup lib u cfg w' apart safe)
              (λ _ w'' after. connect_redis-After w'' after))

    when_connected-After :
        (x : Connect.Outcome × World)
        → equal_fold u "operator" "reviewer" ≡ false
        → IsDispatchSafe u (view x.1)
        → After
            (λ _ w'. IsDispatchSafe u (view w'))
            (λ _ _. Unit {0})
            (Connect.when_connected d (Connect.prepare d s lib cfg) x)
    when_connected-After (Connect.Outcome.connected, w) apart h = prepare-After w apart h
    when_connected-After (Connect.Outcome.unreachable, w) apart h = record { holds = tt }
    when_connected-After (Connect.Outcome.cancelled, w) apart h = record { holds = tt }

    -- If every directive has the evidence of the two-person rule, and "operator" and "reviewer" are
    -- different under case folding, every directive has it when the server has been started without an
    -- error: after the attempts to connect, the migration, the seeding and the connection to Redis.
    pub open_database-IsDispatchSafe :
        (w : World)
        → equal_fold u "operator" "reviewer" ≡ false
        → IsDispatchSafe u (view w)
        → After
            (λ _ w'. IsDispatchSafe u (view w'))
            (λ _ _. Unit {0})
            (Connect.open_database d s lib cfg w)
    unfolding Connect.open_database Connect.connect
    open_database-IsDispatchSafe w apart h =
        elim (Bool-cases (not (Connect.is_supported d cfg.database_driver))) [
          | inl other ↦ rw other (record { holds = tt })
          | inr supported ↦ rw supported (
              when_connected-After (Connect.connect d w) apart (
                subst (IsDispatchSafe u)
                  (sym (connect_from_same (Connect.attempts d) Connect.Attempt.late w)) h))
        ]
