-- ===== src/Web/RateLimit/Counts.antt =====
-- What one request does to the local counters of backend/internal/middleware/ratelimit.go.
use gb_516_hydropower_gate_d.Prelude.{
  ℕ, String, suc, ◌≡◌, refl, sym, ap, ◌∙◌, ◌<◌, ◌≤◌, inl, inr, Bool, true, false, [], ◌∷◌, ◌==◌,
  ◌=ˢ◌, ltb, ◌&&◌, length, if◌then◌else◌, Bool-cases, arith, eq_iff,
}
use gb_516_hydropower_gate_d.Web.RateLimit.{
  Bucket, Buckets, bucket_of, set, remove, truncate, drop_stale, cleanup_local, current_bucket,
  increment_local,
}

-- What a bucket counts in a window.
abbrev pub in_window : ℕ → Bucket → ℕ
in_window w b = if b.window == w then b.count else 0

abbrev pub counted : String → ℕ → Buckets → ℕ
counted key w buckets = in_window w (bucket_of buckets key)

same_text : (s t : String) → (s =ˢ t) ≡ true → s ≡ t
same_text s t h = ground (arith, eq_iff s t)

apart : (k key other : String) → (k =ˢ key) ≡ false → (k =ˢ other) ≡ true → (key =ˢ other) ≡ false
apart k key other differs this = ground (arith, eq_iff k key, eq_iff k other, eq_iff key other)

bucket_of-set :
    (key other : String) (b : Bucket) (l : Buckets)
    → bucket_of (set l key b) other ≡ (if key =ˢ other then b else bucket_of l other)
bucket_of-set key other b [] = refl
bucket_of-set key other b ((k, old) ∷ rest) = elim (Bool-cases (k =ˢ key)) [
  | inl same ↦
      let other_eq : (k =ˢ other) ≡ (key =ˢ other) = ap (λ t. t =ˢ other) (same_text k key same) in
      elim (Bool-cases (key =ˢ other)) [
        | inl this ↦ rw (same, other_eq, this)
        | inr that ↦ rw (same, other_eq, that)
      ]
  | inr differs ↦ elim (Bool-cases (k =ˢ other)) [
    | inl this ↦ rw (differs, this, apart k key other differs this)
    | inr that ↦ rw (differs, that) (bucket_of-set key other b rest)
  ]
]

pub counted_nothing : (w : ℕ) → in_window w (record { window = 0; count = 0 }) ≡ 0
counted_nothing w = ground arith

pub counted-remove :
    (key other : String) (w : ℕ) (l : Buckets)
    → counted other w (remove l key) ≡ (if key =ˢ other then 0 else counted other w l)
counted-remove key other w [] = elim (Bool-cases (key =ˢ other)) [
  | inl this ↦ rw this (counted_nothing w)
  | inr that ↦ rw that
]
counted-remove key other w ((k, b) ∷ rest) = elim (Bool-cases (k =ˢ key)) [
  | inl same ↦
      let other_eq : (k =ˢ other) ≡ (key =ˢ other) = ap (λ t. t =ˢ other) (same_text k key same) in
      elim (Bool-cases (key =ˢ other)) [
        | inl this ↦ rw (same, counted-remove key other w rest, this)
        | inr that ↦ rw (same, counted-remove key other w rest, that, other_eq, that)
      ]
  | inr differs ↦ elim (Bool-cases (k =ˢ other)) [
    | inl this ↦ rw (differs, this, apart k key other differs this)
    | inr that ↦ rw (differs, that, counted-remove key other w rest)
  ]
]

-- A stale bucket counts nothing in the windows that are left.
stale_counted : (w now : ℕ) (b : Bucket) → now ≤ w → ltb b.window now ≡ true → in_window w b ≡ 0
stale_counted w now b h stale = ground arith

pub counted-drop_stale :
    (other : String) (w now : ℕ) (l buckets : Buckets)
    → now ≤ w
    → counted other w (drop_stale now l buckets) ≡ counted other w buckets
unfolding drop_stale
counted-drop_stale other w now [] buckets h = refl
counted-drop_stale other w now ((key, _) ∷ rest) buckets h =
    let dropped = drop_stale now rest buckets in
    let ih = counted-drop_stale other w now rest buckets h in
    elim (Bool-cases (ltb (bucket_of dropped key).window now)) [
      | inr fresh ↦ rw fresh ih
      | inl stale ↦ elim (Bool-cases (key =ˢ other)) [
        | inl this ↦
            let nothing : counted key w dropped ≡ 0 =
              stale_counted w now (bucket_of dropped key) h stale in
            let moved : counted other w dropped ≡ counted key w dropped =
              ap (λ k. counted k w dropped) (sym (same_text key other this)) in
            rw (stale, counted-remove key other w dropped, this) (sym (sym ih ∙ moved ∙ nothing))
        | inr that ↦ rw (stale, counted-remove key other w dropped, that) ih
      ]
    ]

pub counted-cleanup_local :
    (other : String) (w now : ℕ) (buckets : Buckets)
    → now ≤ w
    → counted other w (cleanup_local now buckets) ≡ counted other w buckets
unfolding cleanup_local
counted-cleanup_local other w now buckets h = elim (Bool-cases (ltb (length buckets) 512)) [
  | inl few ↦ rw few
  | inr many ↦ rw many (counted-drop_stale other w now buckets buckets h)
]

pub counted-set :
    (key other : String) (w : ℕ) (b : Bucket) (l : Buckets)
    → counted other w (set l key b) ≡ (if key =ˢ other then in_window w b else counted other w l)
counted-set key other w b l = elim (Bool-cases (key =ˢ other)) [
  | inl this ↦ rw (bucket_of-set key other b l, this)
  | inr that ↦ rw (bucket_of-set key other b l, that)
]

in_window-same :
    (now w : ℕ) (b : Bucket)
    → (now == w) ≡ true
    → in_window w (record (current_bucket now b) { count = suc (current_bucket now b).count })
      ≡ suc (in_window w b)
in_window-same now w b h = ground arith

in_window-later :
    (now w : ℕ) (b : Bucket)
    → (now == w) ≡ false
    → in_window w (record (current_bucket now b) { count = suc (current_bucket now b).count }) ≡ 0
in_window-later now w b h = ground arith

pub strictly : (a b : ℕ) → a ≤ b → (a == b) ≡ false → a < b
strictly a b h e = ground arith

pub and_false : (b : Bool) → (b && false) ≡ false
and_false true = refl
and_false false = refl

pub not_equal : (a b : ℕ) → a < b → (a == b) ≡ false
not_equal a b h = ground arith

module _ (key : String) (time : ℕ) (l : Buckets) (w : ℕ) (h : truncate time ≤ w) where
  pub counted-this :
      (other : String)
      → (key =ˢ other) ≡ true
      → (truncate time == w) ≡ true
      → counted other w (increment_local key time l).1 ≡ suc (counted other w l)
  unfolding increment_local
  counted-this other this now =
      rw
        (
          counted-set key other w _ (cleanup_local (truncate time) l),
          this,
          in_window-same (truncate time) w (bucket_of (cleanup_local (truncate time) l) key) now,
        )
        (ap suc (
          ap (λ k. counted k w (cleanup_local (truncate time) l)) (same_text key other this)
          ∙ counted-cleanup_local other w (truncate time) l h))

  pub counted-later :
      (other : String)
      → (key =ˢ other) ≡ true
      → (truncate time == w) ≡ false
      → counted other w (increment_local key time l).1 ≡ 0
  unfolding increment_local
  counted-later other this later =
      rw (counted-set key other w _ (cleanup_local (truncate time) l), this)
        (in_window-later (truncate time) w (bucket_of (cleanup_local (truncate time) l) key) later)

  pub counted-other :
      (other : String)
      → (key =ˢ other) ≡ false
      → counted other w (increment_local key time l).1 ≡ counted other w l
  unfolding increment_local
  counted-other other that =
      rw (counted-set key other w _ (cleanup_local (truncate time) l), that)
        (counted-cleanup_local other w (truncate time) l h)

bucket_count : (now : ℕ) (b : Bucket) → (current_bucket now b).count ≡ in_window now b
bucket_count now b = ground arith

at_most_self : (n : ℕ) → n ≤ n
at_most_self n = ground arith

-- The answer is one more than what the window counted before.
pub increment_local-counted :
    (key : String) (time : ℕ) (l : Buckets)
    → (increment_local key time l).0 ≡ suc (counted key (truncate time) l)
unfolding increment_local
increment_local-counted key time l = ap suc (
    bucket_count (truncate time) (bucket_of (cleanup_local (truncate time) l) key)
    ∙ counted-cleanup_local key (truncate time) (truncate time) l (at_most_self (truncate time)))
