-- ===== src/Examples/Requests.antt =====
-- The theorems about what stands before the services, at concrete requests.
use gb_516_hydropower_gate_d.Prelude.{
  ◌⊎◌, ℕ, suc, String, ◌≡◌, refl, none, List, [], ◌∷◌, leb, arith, eq_iff,
}
use gb_516_hydropower_gate_d.Text.{
  trim_space, trim_left, trim_right, is_space, strip_prefix, to_lower,
}
use gb_516_hydropower_gate_d.Web.RateLimit.{increment_local, admit, truncate}
use gb_516_hydropower_gate_d.Web.RateLimit.Histories.{hits, respond, InOrder, admit-hits}
use gb_516_hydropower_gate_d.Web.Access.{Verdict, authenticate, role_rank}
use gb_516_hydropower_gate_d.Web.Access.Accounts.{Account, authenticate-Account}
use gb_516_hydropower_gate_d.Ints.{pos, negsuc}
use gb_516_hydropower_gate_d.Web.Queries.{
  bind_page, normalize_page, normalized_limit, history_limit, IsPage, IsWithin, bind_page-IsPage,
  history_limit-normalized_limit, window_hours, summary_window, nanoseconds,
  summary_window-window_hours,
}
use gb_516_hydropower_gate_d.Web.RequestId.{
  normalize_request_id, IsRequestId, normalize_request_id_lem,
}
use gb_516_hydropower_gate_d.Web.Config.{validate, IsHardened, validate-IsHardened}
use gb_516_hydropower_gate_d.Examples.Outside.{parse_one, find_one, print_one, ann_now, production}
use gb_516_hydropower_gate_d.Examples.Database.{ascii}

-- Two keys, the second request of the first one a second later.
abbrev earlier : List (String × ℕ)
earlier = ("a:/api", 121000000000) ∷ ("b:/api", 120000000000) ∷ ("a:/api", 61000000000) ∷ []

earlier-InOrder : InOrder (truncate 122000000000) earlier
earlier-InOrder = (ground arith, (ground arith, (ground arith, tt)))

admit-hits_example :
    ((increment_local "a:/api" 122000000000 (respond earlier)).0
      ≡ suc (hits "a:/api" (truncate 122000000000) earlier))
    × ((admit 1 none "a:/api" 122000000000 (respond earlier)).0
        ≡ leb (suc (hits "a:/api" (truncate 122000000000) earlier)) 1)
admit-hits_example = admit-hits 1 "a:/api" 122000000000 earlier earlier-InOrder

pub ann_admitted : authenticate parse_one find_one print_one " Bearer t1" ≡ Verdict.admitted ann_now
unfolding authenticate strip_prefix trim_space trim_left trim_right is_space role_rank
ann_admitted = refl

authenticate-Account_example : Account find_one print_one ann_now
authenticate-Account_example =
    authenticate-Account parse_one find_one print_one " Bearer t1" ann_now ann_admitted

bind_page-IsPage_example :
    IsPage (bind_page (negsuc 3, pos 500))
    × (normalize_page (bind_page (negsuc 3, pos 500)) ≡ bind_page (negsuc 3, pos 500))
bind_page-IsPage_example = bind_page-IsPage (negsuc 3) (pos 500)

history_limit-normalized_limit_example :
    IsWithin 1 100 (normalized_limit (pos 101))
    × (history_limit (normalized_limit (pos 101)) ≡ normalized_limit (pos 101))
    × (history_limit (pos 101) ≡ normalized_limit (pos 101))
history_limit-normalized_limit_example = history_limit-normalized_limit (pos 101)

plain_id : IsRequestId "req-1"
plain_id = (ground (arith, eq_iff "req-1" ""), ground arith, refl)

normalize_request_id_lem_example :
    IsRequestId (normalize_request_id "req-1" " a b ")
    × (IsRequestId (trim_space " a b ")
          × (normalize_request_id "req-1" " a b " ≡ trim_space " a b ")
        ⊎ ¬ IsRequestId (trim_space " a b ") × (normalize_request_id "req-1" " a b " ≡ "req-1"))
normalize_request_id_lem_example = normalize_request_id_lem "req-1" " a b " plain_id

production_valid : validate ascii production ≡ none
unfolding validate trim_space trim_left trim_right is_space strip_prefix to_lower
production_valid = refl

validate-IsHardened_example : IsHardened ascii production
validate-IsHardened_example = validate-IsHardened ascii production refl production_valid

summary_window-window_hours_example :
    IsWithin 1 2160 (window_hours (pos 5000))
    × (summary_window (nanoseconds (window_hours (pos 5000)))
        ≡ nanoseconds (window_hours (pos 5000)))
summary_window-window_hours_example = summary_window-window_hours (pos 5000)
