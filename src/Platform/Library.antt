-- ===== src/Platform/Library.antt =====
-- Functions of Go's library and of third parties, as parameters.
use gb_516_hydropower_gate_d.Prelude.{ℕ, String, Bool, Option}
use gb_516_hydropower_gate_d.Ints.{ℤ}

-- The claims that a token carries.
pub record Claims : Type 0 where
  pub subject : String
  pub username : String
  pub name : String
  pub role : String
  pub issued_at : ℕ
  pub expires_at : ℕ
  pub issuer : String

pub record Library : Type 0 where
  -- `strconv.ParseUint(s, 10, 64)`, `strconv.Atoi` and `time.ParseDuration`, if they return no error
  pub parse_uint : String → Option ℕ
  pub atoi : String → Option ℤ
  pub parse_duration : String → Option ℤ
  -- `fmt.Sprint(id)`
  pub print : ℕ → String
  -- `int64(d.Seconds())`
  pub seconds : ℤ → ℤ
  -- `t.Unix()`
  pub unix : ℕ → ℕ
  -- `t.Add(d)`
  pub add : ℕ → ℤ → ℕ
  -- `bcrypt.CompareHashAndPassword(hash, password) == nil`
  pub matches_password : String → String → Bool
  -- `bcrypt.GenerateFromPassword(password, bcrypt.DefaultCost)`
  pub hash_password : String → Option String
  -- `jwt.NewWithClaims(jwt.SigningMethodHS256, claims).SignedString(secret)`
  pub sign : String → Claims → Option String
