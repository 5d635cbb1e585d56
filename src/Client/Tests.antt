-- ===== src/Client/Tests.antt =====
-- A feed whose filter changes while it loads more, a transfer whose connection breaks, a body that is
-- no JSON, and a key from given bytes.
use pstu_final.Base.{ℕ, Bool, true, false, Option, none, some, List, [], ◌∷◌, ◌≡◌, refl, arith}
use mathlib.Core.Logic.{◌↔◌}
use pstu_final.Base.Text.{Text, codes, matches_uuid_pattern}
use pstu_final.Money.Parse.{trim_start, trim_end}
use pstu_final.Client.Key.{
  key_bytes, hex_text, new_idempotency_key, matches_uuid_pattern-new_idempotency_key,
}
use pstu_final.Client.Request.{
  Browser, failed, responded, Method, RequestOptions, returned, thrown, Thrown, api_error,
  is_ambiguous, is_state_changing, split_cookies, starts_with, read_cookie, ensure_csrf_token,
  sent_with, conclude_fetch, request,
}
use pstu_final.Client.Feed.{
  FeedPage, Feed, FeedStep, page_came, more_asked, more_came, mounted, change_params, page_arrived,
  load_more, more_arrived,
}
use pstu_final.Client.Whole.{InPages, IsWhole, CalmRun, start, after, CalmRun-IsWhole}
use pstu_final.Client.Outcome.{request-Ambiguous}

new_key : new_idempotency_key (λ i. 255) ≡ codes "ffffffff-ffff-4fff-bfff-ffffffffffff"
unfolding new_idempotency_key key_bytes hex_text
new_key = refl

matches_uuid_pattern-new_idempotency_key_example :
    matches_uuid_pattern (new_idempotency_key (λ i. 171)) ≡ true
matches_uuid_pattern-new_idempotency_key_example =
    matches_uuid_pattern-new_idempotency_key (λ i. 171) (λ i. omega arith)

abbrev broken : Browser ℕ
broken = record {
  cookie = some (codes "a=1; csrf_token=xyz");
  cookie_after = none;
  csrf_fetched = failed;
  decode_uri = λ t. some t;
  fetch = λ sent. failed;
}

abbrev transfer : RequestOptions
transfer = record { method = Method.post; body = some (codes "{}"); idempotency_key = none }

abbrev lost : Thrown
lost = api_error (record { code = "AMBIGUOUS_OUTCOME"; status = 0; request_id = none })

reads : read_cookie (λ t. some t) broken.cookie (codes "csrf_token") ≡ returned (some (codes "xyz"))
unfolding read_cookie split_cookies starts_with trim_start trim_end
reads = refl

loses : request broken transfer ≡ thrown lost
unfolding request conclude_fetch ensure_csrf_token read_cookie split_cookies starts_with trim_start
    trim_end
loses = refl

-- A transfer that was made, whose response was cut off: the client reports INTERNAL_ERROR.
cut_off :
    request
      (record broken {
        fetch = λ sent. responded (record { is_ok = true; status = 201; payload = none });
      })
      transfer
    ≡ thrown (api_error (record { code = "INTERNAL_ERROR"; status = 201; request_id = none }))
unfolding request conclude_fetch ensure_csrf_token read_cookie split_cookies starts_with trim_start
    trim_end
cut_off = refl

request-Ambiguous_example :
    (is_ambiguous lost ≡ true)
    ↔ (is_state_changing transfer.method ≡ true)
      × (t : Text) × (ensure_csrf_token broken ≡ returned t)
      × (broken.fetch (sent_with broken transfer (some t)) ≡ failed)
request-Ambiguous_example = request-Ambiguous broken transfer lost (λ token. tt) loses

-- Two lists of two pages each.
abbrev two_pages : Bool → Option ℕ → FeedPage ℕ ℕ
two_pages true none = record { items = 1 ∷ []; next_cursor = some 5 }
two_pages true (some cursor) = record { items = 2 ∷ []; next_cursor = none }
two_pages false none = record { items = 7 ∷ []; next_cursor = some 6 }
two_pages false (some cursor) = record { items = 8 ∷ []; next_cursor = none }

abbrev second_page : Bool → ℕ → List ℕ
second_page kind cursor = (two_pages kind (some cursor)).items

two_pages-InPages : InPages two_pages second_page
two_pages-InPages true cursor = refl
two_pages-InPages false cursor = refl

abbrev first_shown : Feed Bool ℕ ℕ
first_shown = page_arrived (two_pages true none) (mounted true)

abbrev asking_more : Feed Bool ℕ ℕ
asking_more = load_more first_shown

abbrev all_shown : Feed Bool ℕ ℕ
all_shown = more_arrived (two_pages true (some 5)) [] asking_more

run : CalmRun two_pages second_page true all_shown
unfolding mounted page_arrived load_more
run =
    after asking_more all_shown
      (after first_shown asking_more
        (after (mounted true) first_shown start (page_came (mounted true) refl) tt)
        (more_asked first_shown) refl)
      (more_came true 5 [] [] asking_more refl) tt

CalmRun-IsWhole_example : IsWhole two_pages second_page all_shown
CalmRun-IsWhole_example = CalmRun-IsWhole two_pages second_page two_pages-InPages true all_shown run

-- The filter changes while loadMore is under way: its page stands behind one of another filter.
abbrev crossed : Feed Bool ℕ ℕ
crossed = page_arrived (two_pages false none) (change_params false asking_more)

crosses : FeedStep two_pages crossed (more_arrived (two_pages true (some 5)) [] crossed)
unfolding mounted page_arrived load_more change_params
crosses = more_came true 5 [] [] crossed refl

mixes : (more_arrived (two_pages true (some 5)) [] crossed).items ≡ 7 ∷ 2 ∷ []
unfolding mounted page_arrived load_more change_params more_arrived
mixes = refl
