-- ===== src/Web/RequestId.antt =====
-- `normalizeRequestID` of backend/internal/middleware/request.go. A fresh UUID is a parameter.
use gb_516_hydropower_gate_d.Prelude.{
  ℕ, String, Char, code, ◌≡◌, ◌≢◌, eq_iff, ◌≤◌, Bool, true, false, ◌&&◌, ◌||◌, ltb, leb, ◌==◌, ◌=ˢ◌,
  not, ◌+◌, if◌then◌else◌, Bool-cases, inl, inr, ◌⊎◌, refl, arith,
}
use gb_516_hydropower_gate_d.Text.{trim_space}

-- A letter or a digit of ASCII, or one of `._:-`.
abbrev pub is_id_character : Char → Bool
is_id_character c =
    let n = code c in
    (leb 0x61 n && leb n 0x7a)
    || (leb 0x41 n && leb n 0x5a)
    || (leb 0x30 n && leb n 0x39)
    || (n == 0x2e || n == 0x5f || n == 0x3a || n == 0x2d)

abbrev pub all_id_characters : String → Bool
all_id_characters String.[] = true
all_id_characters (String.◌∷◌ c s) = let rest = all_id_characters s in is_id_character c && rest

-- `len` of a string: the bytes of its UTF-8 encoding.
abbrev pub byte_length : String → ℕ
byte_length String.[] = 0
byte_length (String.◌∷◌ c s) =
    let n = code c in
    let rest = byte_length s in
    (if ltb n 0x80 then 1 else if ltb n 0x800 then 2 else if ltb n 0x10000 then 3 else 4) + rest

unfoldable pub normalize_request_id : String → String → String
normalize_request_id fresh value =
    let id = trim_space value in
    if id =ˢ "" || ltb 64 (byte_length id) || not (all_id_characters id) then fresh else id

-- What is put on the audit trail and into the logs.
abbrev pub IsRequestId : String → Type 0
IsRequestId id = (id ≢ "") × (byte_length id ≤ 64) × (all_id_characters id ≡ true)

id_tests :
    (id : String) (length : ℕ) (characters : Bool)
    → (id =ˢ "" || ltb 64 length || not characters) ≡ false
    → (id ≢ "") × (length ≤ 64) × (characters ≡ true)
id_tests id length characters h = ground (arith, eq_iff id "")

id_passes :
    (id : String) (length : ℕ) (characters : Bool)
    → (id ≢ "") × (length ≤ 64) × (characters ≡ true)
    → (id =ˢ "" || ltb 64 length || not characters) ≡ false
id_passes id length characters (named, short, plain) = ground (arith, eq_iff id "")

id_fails :
    (id : String) (length : ℕ) (characters : Bool)
    → (id =ˢ "" || ltb 64 length || not characters) ≡ true
    → (id ≢ "") × (length ≤ 64) × (characters ≡ true)
    → ⊥
id_fails id length characters bad (named, short, plain) = ground (arith, eq_iff id "")

-- If a fresh id is a request id, so is every normalised one.
normalize_request_id-IsRequestId :
    (fresh value : String) → IsRequestId fresh → IsRequestId (normalize_request_id fresh value)
unfolding normalize_request_id
normalize_request_id-IsRequestId fresh value h =
    let id = trim_space value in
    elim (Bool-cases (id =ˢ "" || ltb 64 (byte_length id) || not (all_id_characters id))) [
      | inl bad ↦ rw bad h
      | inr good ↦ rw good (id_tests id (byte_length id) (all_id_characters id) good)
    ]

-- If a fresh id is a request id (not empty, at most 64 bytes, plain characters), so is every normalised
-- one. It is the trimmed value if that is a request id, and the fresh id otherwise.
pub normalize_request_id_lem :
    (fresh value : String)
    → IsRequestId fresh
    → IsRequestId (normalize_request_id fresh value)
      × (IsRequestId (trim_space value) × (normalize_request_id fresh value ≡ trim_space value)
          ⊎ ¬ IsRequestId (trim_space value) × (normalize_request_id fresh value ≡ fresh))
unfolding normalize_request_id
normalize_request_id_lem fresh value h =
    let id = trim_space value in
    (
      normalize_request_id-IsRequestId fresh value h,
      elim (Bool-cases (id =ˢ "" || ltb 64 (byte_length id) || not (all_id_characters id))) [
        | inl bad ↦
            inr ((λ k. id_fails id (byte_length id) (all_id_characters id) bad k), rw bad refl)
        | inr good ↦ inl (id_tests id (byte_length id) (all_id_characters id) good, rw good refl)
      ],
    )
