-- ===== src/Web/RateLimit.antt =====
-- backend/internal/middleware/ratelimit.go: the limiter's windows of one minute, kept in memory when
-- Redis does not answer. An instant counts nanoseconds from Go's zero time.
pub mod Counts
pub mod Histories
use gb_516_hydropower_gate_d.Prelude.{
  ℕ, String, suc, ◌+◌, ◌-◌, ◌*◌, ◌^◌, ◌%◌, Bool, Option, none, some, List, [], ◌∷◌, ◌==◌, ◌=ˢ◌, ltb,
  leb, length, if◌then◌else◌,
}

pub record Bucket : Type 0 where
  pub window : ℕ
  pub count : ℕ

-- `map[string]bucket`
abbrev pub Buckets : Type 0
Buckets = List (String × Bucket)

-- The value of a key, and the zero value of a key that is not there.
abbrev pub bucket_of : Buckets → String → Bucket
bucket_of [] key = record { window = 0; count = 0 }
bucket_of ((k, b) ∷ rest) key = if k =ˢ key then b else bucket_of rest key

abbrev pub set : Buckets → String → Bucket → Buckets
set [] key b = (key, b) ∷ []
set ((k, old) ∷ rest) key b =
    let others = set rest key b in if k =ˢ key then (k, b) ∷ rest else (k, old) ∷ others

abbrev pub remove : Buckets → String → Buckets
remove [] key = []
remove ((k, b) ∷ rest) key =
    let others = remove rest key in if k =ˢ key then others else (k, b) ∷ others

-- `t.Truncate(time.Minute)`
abbrev pub minute : ℕ
minute = 60 * 10 ^ 9

abbrev pub truncate : ℕ → ℕ
truncate t = t - t % minute

-- The loop of `cleanupLocal` over the keys.
unfoldable pub drop_stale : ℕ → Buckets → Buckets → Buckets
drop_stale current_window [] buckets = buckets
drop_stale current_window ((key, _) ∷ rest) buckets =
    let dropped = drop_stale current_window rest buckets in
    if ltb (bucket_of dropped key).window current_window then remove dropped key else dropped

unfoldable pub cleanup_local : ℕ → Buckets → Buckets
cleanup_local current_window buckets =
    if ltb (length buckets) 512 then buckets else drop_stale current_window buckets buckets

-- The bucket to count in: a new one if the window has changed.
abbrev pub current_bucket : ℕ → Bucket → Bucket
current_bucket now value = if value.window == now then value else record { window = now; count = 0 }

-- The count of the request, and the buckets after it.
unfoldable pub increment_local : String → ℕ → Buckets → ℕ × Buckets
increment_local key time buckets =
    let now = truncate time in
    let cleaned = cleanup_local now buckets in
    let value = current_bucket now (bucket_of cleaned key) in
    let counted = record value { count = suc value.count } in
    (counted.count, set cleaned key counted)

-- `Middleware`: Redis's count if it answers, and the local one otherwise; a request above the limit
-- is answered with 429.
unfoldable pub admit : ℕ → Option ℕ → String → ℕ → Buckets → Bool × Buckets
admit limit (some count) key time buckets = (leb count limit, buckets)
admit limit none key time buckets =
    let (count, after) = increment_local key time buckets in (leb count limit, after)
