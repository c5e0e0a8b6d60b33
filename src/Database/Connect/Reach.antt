-- ===== src/Database/Connect/Reach.antt =====
-- When the loop of `Open` of backend/internal/database/database.go connects.
use gb_516_hydropower_gate_d.Prelude.{
  ℕ, zero, suc, ◌≡◌, ◌≢◌, refl, ap, ◌∙◌, ◌<◌, Bool, true, false, arith,
}
use gb_516_hydropower_gate_d.Database.Connect.{
  Driver, Attempt, Outcome, attempt, proceed, connect_from, connect,
}

module _ {World : Type 0} (d : Driver World) where
  -- The world before an attempt, counted from 0, if every attempt before it failed and the wait
  -- after each passed.
  abbrev pub after_round : World → World
  after_round w = (d.wait (attempt d w).1).1

  abbrev pub round : ℕ → World → World
  round zero w = w
  round (suc n) w = round n (after_round w)

  -- The first rounds fail, and the context is not done in any of them.
  abbrev pub FailsFor : ℕ → World → Type 0
  FailsFor zero w = Unit
  FailsFor (suc n) w =
      ((attempt d w).0 ≢ Attempt.ready)
      × ((d.wait (attempt d w).1).0 ≡ true)
      × FailsFor n (after_round w)

  proceed_busy :
      (a : Attempt) (tried : World) (waited : Bool × World)
      (continue : Attempt → World → Outcome × World)
      → a ≢ Attempt.ready
      → waited.0 ≡ true
      → proceed d a tried waited continue ≡ continue a waited.1
  proceed_busy Attempt.ready tried waited continue busy passed = absurd (busy refl)
  proceed_busy Attempt.late tried (true, later) continue busy passed = refl
  proceed_busy Attempt.late tried (false, later) continue busy passed = absurd (cc (passed))
  proceed_busy Attempt.down tried (true, later) continue busy passed = refl
  proceed_busy Attempt.down tried (false, later) continue busy passed = absurd (cc (passed))

  proceed-ready :
      (a : Attempt) (tried : World) (waited : Bool × World)
      (continue : Attempt → World → Outcome × World)
      → a ≡ Attempt.ready
      → (proceed d a tried waited continue).0 ≡ Outcome.connected
  proceed-ready Attempt.ready tried waited continue found = refl
  proceed-ready Attempt.late tried waited continue found = absurd (cc (found))
  proceed-ready Attempt.down tried waited continue found = absurd (cc (found))

  rounds_connect :
      (k n : ℕ) (last : Attempt) (w : World)
      → k < n
      → FailsFor k w
      → (attempt d (round k w)).0 ≡ Attempt.ready
      → (connect_from d n last w).0 ≡ Outcome.connected
  unfolding connect_from
  rounds_connect zero zero last w h fails found = absurd (ground arith)
  rounds_connect (suc k) zero last w h fails found = absurd (ground arith)
  rounds_connect zero (suc n) last w h fails found =
      proceed-ready (attempt d w).0 (attempt d w).1 _ _ found
  rounds_connect (suc k) (suc n) last w h (busy, passed, fails) found =
      ap (λ (x : Outcome × World). x.0)
        (proceed_busy (attempt d w).0 (attempt d w).1 (d.wait (attempt d w).1)
          (λ a later. connect_from d n a later) busy passed)
      ∙ rounds_connect k n (attempt d w).0 (after_round w) (ground arith) fails found

  -- If fewer than 20 attempts fail, the context is not done in the second after each of them, and the
  -- attempt that follows is answered, the server is connected.
  pub connect-FailsFor :
      (k : ℕ) (w : World)
      → k < 20
      → FailsFor k w
      → (attempt d (round k w)).0 ≡ Attempt.ready
      → (connect d w).0 ≡ Outcome.connected
  unfolding connect
  connect-FailsFor k w h fails found = rounds_connect k 20 Attempt.late w h fails found
