-- ===== src/Database/Connect.antt =====
-- `Open` of backend/internal/database/database.go. GORM's connection, the timer and Redis's client are
-- parameters.
pub mod Reach
pub mod Safety
use gb_516_hydropower_gate_d.Prelude.{
  ℕ, zero, suc, String, Bool, true, false, not, ◌||◌, ◌=ˢ◌, if◌then◌else◌,
}
use gb_516_hydropower_gate_d.Exec.{Exec, Result, ok, err, database_error, ◌>>=◌, ◌>>◌}
use gb_516_hydropower_gate_d.Platform.Library.{Library}
use gb_516_hydropower_gate_d.Database.Setup.{Setup}
use gb_516_hydropower_gate_d.Database.Seed.{seed}
use gb_516_hydropower_gate_d.Web.Config.{Config}

-- Each answer says whether the call succeeded.
pub record Driver (World : Type 0) : Type 0 where
  -- `gorm.Open`, `db.DB()` and `PingContext`
  pub open_connection : World → Bool × World
  pub handle : World → Bool × World
  pub ping : World → Bool × World
  -- A second passes before the context is done.
  pub wait : World → Bool × World
  -- `AutoMigrate`
  pub migrate : Exec World (Unit {0})
  -- `redisClient.Ping`
  pub redis_ping : World → Bool × World

-- How an attempt ends: the loop is left; or it goes on, without an error of the second ping, or with
-- one.
pub data Attempt : Type 0 where
  ready late down : Attempt

pub data Outcome : Type 0 where
  connected unreachable cancelled : Outcome

module _ {World : Type 0} (d : Driver World) where
  -- What the second ping says, after the first has failed.
  abbrev pub second_ping : Bool × World → Attempt × World
  second_ping (true, w) = (Attempt.late, w)
  second_ping (false, w) = (Attempt.down, w)

  abbrev pub first_ping : Bool × World → Attempt × World
  first_ping (true, w) = (Attempt.ready, w)
  first_ping (false, w) = second_ping (d.ping w)

  abbrev pub with_handle : Bool × World → Attempt × World
  with_handle (true, w) = first_ping (d.ping w)
  with_handle (false, w) = (Attempt.down, w)

  abbrev pub with_connection : Bool × World → Attempt × World
  with_connection (true, w) = with_handle (d.handle w)
  with_connection (false, w) = (Attempt.down, w)

  -- The body of the loop up to its `break`.
  unfoldable pub attempt : World → Attempt × World
  attempt w = with_connection (d.open_connection w)

  -- `err` after the loop has run out of attempts.
  abbrev pub exhausted : Attempt → Outcome
  exhausted Attempt.ready = Outcome.connected
  exhausted Attempt.late = Outcome.connected
  exhausted Attempt.down = Outcome.unreachable

  -- What follows an attempt: the loop is left, or it goes on after a second, unless the context is
  -- done.
  abbrev pub proceed :
      Attempt → World → Bool × World → (Attempt → World → Outcome × World) → Outcome × World
  proceed Attempt.ready tried waited continue = (Outcome.connected, tried)
  proceed Attempt.late tried (true, later) continue = continue Attempt.late later
  proceed Attempt.late tried (false, later) continue = (Outcome.cancelled, later)
  proceed Attempt.down tried (true, later) continue = continue Attempt.down later
  proceed Attempt.down tried (false, later) continue = (Outcome.cancelled, later)

  -- The loop: so many attempts are left, and the last one ended like this.
  unfoldable pub connect_from : ℕ → Attempt → World → Outcome × World
  connect_from zero last w = (exhausted last, w)
  connect_from (suc n) last w =
      let (found, tried) = attempt w in
      proceed found tried (d.wait tried) (λ a later. connect_from n a later)

  abbrev pub attempts : ℕ
  attempts = 20

  unfoldable pub connect : World → Outcome × World
  connect w = connect_from attempts Attempt.late w

  abbrev pub when_connected : Exec World (Unit {0}) → Outcome × World → Result (Unit {0}) × World
  when_connected rest (Outcome.connected, w) = rest w
  when_connected rest (Outcome.unreachable, w) = (err database_error, w)
  when_connected rest (Outcome.cancelled, w) = (err database_error, w)

  abbrev pub when_redis : Bool × World → Result (Unit {0}) × World
  when_redis (true, w) = (ok tt, w)
  when_redis (false, w) = (err database_error, w)

  -- Redis, if it has an address.
  abbrev pub connect_redis : Config → Exec World (Unit {0})
  connect_redis cfg w = if cfg.redis_addr =ˢ "" then (ok tt, w) else when_redis (d.redis_ping w)

  abbrev pub prepare : Setup World → Library → Config → Exec World (Unit {0})
  prepare s lib cfg = do d.migrate; seed s lib cfg; connect_redis cfg

  abbrev pub is_supported : String → Bool
  is_supported driver = driver =ˢ "postgres" || driver =ˢ "mysql" || driver =ˢ "sqlite"

  -- `Open`, with `migrate` and `Seed`.
  unfoldable pub open_database : Setup World → Library → Config → Exec World (Unit {0})
  open_database s lib cfg w =
      if not (is_supported cfg.database_driver)
      then (err database_error, w)
      else when_connected (prepare s lib cfg) (connect w)
