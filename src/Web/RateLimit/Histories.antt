-- ===== src/Web/RateLimit/Histories.antt =====
-- The local counters count exactly: the limiter of backend/internal/middleware/ratelimit.go.
use gb_516_hydropower_gate_d.Prelude.{
  ℕ, String, suc, ◌≡◌, refl, sym, ap, ◌∙◌, ◌<◌, ◌≤◌, inl, inr, List, [], ◌∷◌, ◌==◌, ◌=ˢ◌, leb, ◌&&◌,
  if◌then◌else◌, Bool-cases, arith,
}
use gb_516_hydropower_gate_d.Web.RateLimit.{Buckets, truncate, increment_local}
use gb_516_hydropower_gate_d.Web.RateLimit.{admit}
use gb_516_hydropower_gate_d.Web.RateLimit.Counts.{
  counted, counted-this, counted-later, counted-other, strictly, not_equal, and_false,
  counted_nothing, increment_local-counted,
}
use gb_516_hydropower_gate_d.Prelude.{none}

-- The requests of a history, newest first, that carry the key and fall into the window.
abbrev pub hits : String → ℕ → List (String × ℕ) → ℕ
hits key w [] = 0
hits key w ((k, time) ∷ earlier) =
    let before = hits key w earlier in if k =ˢ key && truncate time == w then suc before else before

-- The buckets agree with the history from the window `now` on, and the history has nothing later.
pub record Tracks (now : ℕ) (history : List (String × ℕ)) (buckets : Buckets) : Type 0 where
  pub agree : (key : String) (w : ℕ) → now ≤ w → counted key w buckets ≡ hits key w history
  pub no_later : (key : String) (w : ℕ) → now < w → hits key w history ≡ 0

-- The buckets after a history of requests, all counted locally.
abbrev pub respond : List (String × ℕ) → Buckets
respond [] = []
respond ((key, time) ∷ earlier) =
    let buckets = respond earlier in (increment_local key time buckets).1

-- The clock does not go back.
abbrev pub InOrder : ℕ → List (String × ℕ) → Type 0
InOrder now [] = Unit
InOrder now ((key, time) ∷ earlier) = (truncate time ≤ now) × InOrder (truncate time) earlier

Tracks-increment_local :
    (key : String) (time : ℕ) (earlier : List (String × ℕ)) (l : Buckets)
    → Tracks (truncate time) earlier l
    → Tracks (truncate time) ((key, time) ∷ earlier) (increment_local key time l).1
Tracks-increment_local key time earlier l t = record {
  agree = λ other w h. elim (Bool-cases (key =ˢ other)) [
    | inr that ↦ rw that (counted-other key time l w h other that ∙ t.agree other w h)
    | inl this ↦ elim (Bool-cases (truncate time == w)) [
      | inl now ↦
          rw (this, now) (counted-this key time l w h other this now ∙ ap suc (t.agree other w h))
      | inr later ↦
          rw (this, later)
            (counted-later key time l w h other this later
              ∙ sym (t.no_later other w (strictly (truncate time) w h later)))
    ]
  ];
  no_later = λ other w h.
      rw (not_equal (truncate time) w h, and_false (key =ˢ other)) (t.no_later other w h);
}

at_most_self : (n : ℕ) → n ≤ n
at_most_self n = ground arith

at_least : (a b c : ℕ) → a ≤ b → b ≤ c → a ≤ c
at_least a b c h k = ground arith

after : (a b c : ℕ) → a ≤ b → b < c → a < c
after a b c h k = ground arith

Tracks-respond :
    (now : ℕ) (history : List (String × ℕ))
    → InOrder now history
    → Tracks now history (respond history)
Tracks-respond now [] o = record {
  agree = λ key w h. counted_nothing w;
  no_later = λ key w h. refl;
}
Tracks-respond now ((key, time) ∷ earlier) (before, o) =
    let t =
      Tracks-increment_local key time earlier (respond earlier)
        (Tracks-respond (truncate time) earlier o) in
    record {
      agree = λ other w h. t.agree other w (at_least (truncate time) now w before h);
      no_later = λ other w h. t.no_later other w (after (truncate time) now w before h);
    }

-- While Redis does not answer and the clock does not go back, a request is counted with all earlier
-- requests of its key in the same minute, whatever other keys did and whatever was cleaned up; and it
-- is admitted exactly if that count is within the limit.
pub admit-hits :
    (limit : ℕ) (key : String) (time : ℕ) (earlier : List (String × ℕ))
    → InOrder (truncate time) earlier
    → (increment_local key time (respond earlier)).0 ≡ suc (hits key (truncate time) earlier)
      × ((admit limit none key time (respond earlier)).0
          ≡ leb (suc (hits key (truncate time) earlier)) limit)
unfolding admit
admit-hits limit key time earlier o =
    let t = Tracks-respond (truncate time) earlier o in
    let exact : (increment_local key time (respond earlier)).0
        ≡ suc (hits key (truncate time) earlier) =
      increment_local-counted key time (respond earlier)
      ∙ ap suc (t.agree key (truncate time) (at_most_self (truncate time))) in
    (exact, ap (λ n. leb n limit) exact)
