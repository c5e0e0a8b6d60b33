-- ===== src/Examples/Outside.antt =====
-- Concrete accounts, tokens and settings, and a library with them.
use gb_516_hydropower_gate_d.Prelude.{
  ℕ, String, ◌≡◌, refl, true, Option, none, some, List, [], ◌∷◌, ◌+◌, ◌=ˢ◌, ◌==◌, if◌then◌else◌,
  length, Bool-cases, inl, inr, arith, eq_iff,
}
use gb_516_hydropower_gate_d.Ints.{pos, negsuc}
use gb_516_hydropower_gate_d.Exec.{ok}
use gb_516_hydropower_gate_d.Model.{User}
use gb_516_hydropower_gate_d.Platform.Library.{Library}
use gb_516_hydropower_gate_d.Platform.Reads.{Queries, QueryLaws, Reads, ReadLaws}
use gb_516_hydropower_gate_d.Web.Access.{Principal, Token}
use gb_516_hydropower_gate_d.Web.Config.{Config}
use gb_516_hydropower_gate_d.Examples.Memory.{Memory, Versions, find, tables}

abbrev pub parse_one : String → Token
parse_one raw =
    if raw =ˢ "t1"
    then Token.valid
        (record { subject = "7"; username = "ann"; display_name = "A"; role = "admin" })
    else Token.invalid

abbrev pub find_one : String → Option User
find_one name =
    if name =ˢ "ann"
    then some (record {
      id = 7;
      username = "ann";
      display_name = "Ann";
      password_hash = "";
      role = "operator";
      active = true;
      created_at = 1;
      updated_at = 1;
    })
    else none

abbrev pub print_one : ℕ → String
print_one id = if id == 7 then "7" else "0"

abbrev pub ann_now : Principal
ann_now = record { subject = "7"; username = "ann"; display_name = "Ann"; role = "operator" }

abbrev pub production : Config
production = record {
  app_name = "gates";
  environment = "production";
  port = "8080";
  database_driver = "postgres";
  database_dsn = "dsn";
  redis_addr = "";
  redis_password = "";
  jwt_secret = "0123456789abcdef0123456789abcdef";
  bootstrap_admin_password = "correct-horse";
  bootstrap_operator_password = "battery-staple";
  bootstrap_reviewer_password = "another-phrase";
  request_limit = pos 180;
  login_request_limit = pos 8;
  token_ttl = pos 28800;
  trusted_proxies = [];
  startup_timeout = pos 35;
  shutdown_timeout = pos 10;
  read_header_timeout = pos 5;
  read_timeout = pos 15;
  write_timeout = pos 20;
  idle_timeout = pos 60;
}

-- The stored hash is the password, and every signature is the same token.
abbrev pub library : Library
library = record {
  parse_uint = λ s. if s =ˢ "7" then some 7 else none;
  atoi = λ s. if s =ˢ "90" then some (pos 90) else none;
  parse_duration = λ s. none;
  print = print_one;
  seconds = λ d. d;
  unix = λ t. t;
  add = λ t d. elim d [ pos n ↦ t + n | negsuc n ↦ t ];
  matches_password = λ hash password. hash =ˢ password;
  hash_password = λ password. some password;
  sign = λ secret claims. some "t1";
}

-- The live rows of a table.
abbrev live : {T : Type 0} → Versions T → Versions T → List T
live all [] = []
live all ((id, _) ∷ rest) =
    let others = live all rest in elim (find all id) [ none ↦ others | some x ↦ x ∷ others ]

abbrev queries : {T : Type 0} → (Memory → Versions T) → Queries Memory T
queries versions = record {
  count = λ selection m. (ok (length (live (versions m) (versions m))), m);
  find = λ selection offset limit m. (ok (live (versions m) (versions m)), m);
  count_by_status = λ m. (ok [], m);
}

abbrev pub reads : Reads Memory
reads = record {
  reservoirs = queries (λ m. m.reservoirs);
  gates = queries (λ m. m.gates);
  directives = queries (λ m. m.directives);
  confirmations = queries (λ m. m.confirmations);
  find_user = λ m name. find_one name;
  count_audits = λ pattern m. (ok (length m.audits), m);
  find_audits = λ pattern offset limit m. (ok m.audits, m);
  count_since = λ t m. (ok (length m.audits), m);
  count_transitions_since = λ t m. (ok 0, m);
  count_actors_since = λ t m. (ok 0, m);
  group_actions_since = λ t m. (ok [], m);
  group_entities_since = λ t m. (ok [], m);
  find_history = λ entity_type id limit m. (ok m.audits, m);
  ping = λ m. true;
  redis_ping = λ m. none;
}

find_one_law :
    (name : String) (user : User)
    → find_one name ≡ some user
    → (user.username ≡ name) × (user.active ≡ true)
find_one_law name user e = elim (Bool-cases (name =ˢ "ann")) [
  | inl this ↦
      let same : name ≡ "ann" = ground (arith, eq_iff name "ann") in
      (cc (rw this at e, same), cc (rw this at e))
  | inr other ↦ absurd (cc (rw other at e))
]

query_laws : {T : Type 0} (versions : Memory → Versions T) → QueryLaws tables (queries versions)
query_laws versions = record {
  count_law = λ s m. record { holds = refl };
  find_law = λ s offset limit m. record { holds = refl };
  count_by_status_law = λ m. record { holds = refl };
}

pub reads_laws : ReadLaws tables reads
reads_laws = record {
  reservoir_laws = query_laws (λ m. m.reservoirs);
  gate_laws = query_laws (λ m. m.gates);
  directive_laws = query_laws (λ m. m.directives);
  confirmation_laws = query_laws (λ m. m.confirmations);
  count_audits_law = λ s m. record { holds = refl };
  find_audits_law = λ s offset limit m. record { holds = refl };
  count_since_law = λ t m. record { holds = refl };
  count_transitions_since_law = λ t m. record { holds = refl };
  count_actors_since_law = λ t m. record { holds = refl };
  group_actions_since_law = λ t m. record { holds = refl };
  group_entities_since_law = λ t m. record { holds = refl };
  find_history_law = λ entity_type id limit m. record { holds = refl };
  find_user_law = λ m name user e. find_one_law name user e;
}
