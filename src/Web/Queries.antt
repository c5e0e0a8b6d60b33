-- ===== src/Web/Queries.antt =====
-- How the numbers of a query are brought into range: `bindPage` of backend/internal/handler/system.go,
-- `normalizePage` of backend/internal/repository/base.go, backend/internal/dto/common.go, and the
-- ranges of the audit reports in backend/internal/service/security.go. A Go `int` is an integer.
use gb_516_hydropower_gate_d.Prelude.{
  ℕ, ◌≡◌, refl, ◌≤◌, ◌*◌, ◌+◌, ◌-◌, ◌^◌, false, ◌||◌, ltb, if◌then◌else◌, Bool-cases, inl, inr,
  arith,
}
use gb_516_hydropower_gate_d.Ints.{ℤ, pos, negsuc, below, above}

-- `bindPage`
unfoldable pub bind_page : ℤ × ℤ → ℤ × ℤ
bind_page (page, page_size) = (
  (if below page 1 then pos 1 else page),
  (if below page_size 1 || above page_size 100 then pos 20 else page_size),
)

-- `normalizePage`
unfoldable pub normalize_page : ℤ × ℤ → ℤ × ℤ
normalize_page (page, page_size) =
    let size = if below page_size 1 then pos 20 else page_size in
    ((if below page 1 then pos 1 else page), (if above size 100 then pos 100 else size))

-- `EntityHistoryQuery.NormalizedLimit`
unfoldable pub normalized_limit : ℤ → ℤ
normalized_limit limit =
    if below limit 1 then pos 20 else if above limit 100 then pos 100 else limit

-- The limit that `EntityHistory` of the repository uses.
unfoldable pub history_limit : ℤ → ℤ
history_limit limit =
    let raised = if below limit 1 then pos 20 else limit in
    if above raised 100 then pos 100 else raised

-- `AuditSummaryQuery.Window`, in hours
unfoldable pub window_hours : ℤ → ℤ
window_hours hours =
    let raised = if below hours 1 then pos 24 else hours in
    if above raised (24 * 90) then pos (24 * 90) else raised

-- The window that `AuditSummary` uses, in nanoseconds.
abbrev pub hour : ℕ
hour = 3600 * 10 ^ 9

unfoldable pub summary_window : ℤ → ℤ
summary_window window =
    let raised = if below window hour then pos (24 * hour) else window in
    if above raised (90 * 24 * hour) then pos (90 * 24 * hour) else raised

-- A number between the bounds.
abbrev pub IsWithin : ℕ → ℕ → ℤ → Type 0
IsWithin low high (pos n) = (low ≤ n) × (n ≤ high)
IsWithin low high (negsuc n) = ⊥

-- A page with a size that may be asked of the database.
abbrev pub IsPage : ℤ × ℤ → Type 0
IsPage (page, page_size) = (below page 1 ≡ false) × IsWithin 1 100 page_size

-- A size that the handler has bound stays as it is in the repository.
abbrev bound_size : ℤ → ℤ
bound_size size = if below size 1 || above size 100 then pos 20 else size

abbrev clamped_size : ℤ → ℤ
clamped_size size =
    let raised = if below size 1 then pos 20 else size in
    if above raised 100 then pos 100 else raised

in_range : (n low high : ℕ) → (ltb n low || ltb high n) ≡ false → (low ≤ n) × (n ≤ high)
in_range n low high h = (ground arith, ground arith)

tests_in_range : (n : ℕ) → (ltb n 1 || ltb 100 n) ≡ false → (ltb n 1 ≡ false) × (ltb 100 n ≡ false)
tests_in_range n h = (ground arith, ground arith)

bound_size-IsWithin : (size : ℤ) → IsWithin 1 100 (bound_size size)
bound_size-IsWithin (negsuc n) = (ground arith, ground arith)
bound_size-IsWithin (pos n) = elim (Bool-cases (ltb n 1 || ltb 100 n)) [
  | inl out ↦ rw out (ground arith, ground arith)
  | inr within ↦ rw within (in_range n 1 100 within)
]

clamped_size-bound_size : (size : ℤ) → clamped_size (bound_size size) ≡ bound_size size
clamped_size-bound_size (negsuc n) = refl
clamped_size-bound_size (pos n) = elim (Bool-cases (ltb n 1 || ltb 100 n)) [
  | inl out ↦ rw out
  | inr within ↦ let (low, high) = tests_in_range n within in rw (within, low, high)
]

abbrev bound_number : ℤ → ℤ
bound_number page = if below page 1 then pos 1 else page

bound_number-below : (page : ℤ) → below (bound_number page) 1 ≡ false
bound_number-below (negsuc n) = refl
bound_number-below (pos n) = elim (Bool-cases (ltb n 1)) [
  | inl low ↦ rw low
  | inr fine ↦ rw (fine, fine)
]

bound_number-again : (page : ℤ) → bound_number (bound_number page) ≡ bound_number page
bound_number-again page = rw (bound_number-below page)

pair_eq : {a b c d : ℤ} → a ≡ b → c ≡ d → ◌≡◌ {A = ℤ × ℤ} (a, c) (b, d)
pair_eq p q = cc (p, q)

-- Whatever page is asked for, the handler binds one that is at least 1, of a size from 1 to 100, and
-- the repository's own normalisation leaves it as it is.
pub bind_page-IsPage :
    (page page_size : ℤ)
    → IsPage (bind_page (page, page_size))
      × (normalize_page (bind_page (page, page_size)) ≡ bind_page (page, page_size))
unfolding bind_page normalize_page
bind_page-IsPage page page_size = (
  (bound_number-below page, bound_size-IsWithin page_size),
  pair_eq (bound_number-again page) (clamped_size-bound_size page_size),
)

-- The limit of an audit history is from 1 to 100 and is the same in the handler and the repository.
pub history_limit-normalized_limit :
    (limit : ℤ)
    → IsWithin 1 100 (normalized_limit limit)
      × (history_limit (normalized_limit limit) ≡ normalized_limit limit)
      × (history_limit limit ≡ normalized_limit limit)
unfolding history_limit normalized_limit
history_limit-normalized_limit (negsuc n) = ((ground arith, ground arith), refl, refl)
history_limit-normalized_limit (pos n) = elim (Bool-cases (ltb n 1)) [
  | inl low ↦ rw low ((ground arith, ground arith), refl, refl)
  | inr fine ↦ elim (Bool-cases (ltb 100 n)) [
    | inl high ↦ rw (fine, high) ((ground arith, ground arith), refl, refl)
    | inr within ↦ rw (fine, within, fine, within) ((ground arith, ground arith), refl, refl)
  ]
]

-- `time.Duration(hours) * time.Hour`, of a number that is not negative.
abbrev pub nanoseconds : ℤ → ℤ
nanoseconds (pos n) = pos (n * hour)
nanoseconds (negsuc n) = negsuc (n * hour + (hour - 1))

duration_in_range :
    (n : ℕ)
    → ltb n 1 ≡ false
    → ltb 2160 n ≡ false
    → (ltb (n * hour) hour ≡ false) × (ltb (90 * 24 * hour) (n * hour) ≡ false)
duration_in_range n low high = (ground arith, ground arith)

-- The window of an audit summary is from 1 hour to 90 days, and the service leaves what the handler
-- has bound as it is.
pub summary_window-window_hours :
    (hours : ℤ)
    → IsWithin 1 2160 (window_hours hours)
      × (summary_window (nanoseconds (window_hours hours)) ≡ nanoseconds (window_hours hours))
unfolding window_hours summary_window
summary_window-window_hours (negsuc n) = ((ground arith, ground arith), refl)
summary_window-window_hours (pos n) = elim (Bool-cases (ltb n 1)) [
  | inl low ↦ rw low ((ground arith, ground arith), refl)
  | inr fine ↦ elim (Bool-cases (ltb 2160 n)) [
    | inl high ↦ rw (fine, high) ((ground arith, ground arith), refl)
    | inr within ↦
        let (above_hour, below_quarter) = duration_in_range n fine within in
        rw (fine, within) ((ground arith, ground arith), rw (above_hour, below_quarter))
  ]
]
