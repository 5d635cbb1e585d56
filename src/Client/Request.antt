-- ===== src/Client/Request.antt =====
-- One call of the API: readCookie, ensureCsrfToken, request and apiRequestPage of
-- apps/web/lib/api-client.ts. What the browser does meanwhile is a record of its answers.
use pstu_final.Base.{
  ℕ, zero, suc, String, Bool, true, false, ◌&&◌, Option, none, some, List, [], ◌∷◌, ◌++◌, map,
  length, find_where, str_eq, ◌==◌, if◌then◌else◌,
}
use pstu_final.Base.Text.{Text, codes}
use pstu_final.Money.Parse.{trim_start, trim_end}

pub record ApiError : Type 0 where
  pub code : String
  pub status : ℕ
  pub request_id : Option String

-- What a call throws: an ApiError, or what the browser itself threw.
pub data Thrown : Type 0 where
  api_error : ApiError → Thrown
  abort_error network_error uri_error : Thrown

pub data Reply (A : Type 0) : Type 0 where
  returned : A → Reply A
  thrown : Thrown → Reply A

module _ {A B : Type 0} where
  abbrev pub and_then : Reply A → (A → Reply B) → Reply B
  and_then (returned a) next = next a
  and_then (thrown e) next = thrown e

abbrev pub is_ambiguous : Thrown → Bool
is_ambiguous (api_error e) = str_eq e.code "AMBIGUOUS_OUTCOME"
is_ambiguous abort_error = false
is_ambiguous network_error = false
is_ambiguous uri_error = false

-- A body that was read, with the members of both envelopes.
pub record Payload (D : Type 0) : Type 0 where
  pub data_of : D
  pub next_cursor : Option String
  pub error_code : Option String
  pub request_id : Option String

-- `payload` is `none` for null and for a body that is no JSON.
pub record Response (D : Type 0) : Type 0 where
  pub is_ok : Bool
  pub status : ℕ
  pub payload : Option (Payload D)

pub data Fetched (D : Type 0) : Type 0 where
  responded : Response D → Fetched D
  aborted failed : Fetched D

pub data Method : Type 0 where
  get post patch delete : Method

pub record RequestOptions : Type 0 where
  pub method : Method
  pub body : Option Text
  pub idempotency_key : Option Text

-- What fetch is given.
pub record Sent : Type 0 where
  pub method : Method
  pub has_json : Bool
  pub csrf_header : Option Text
  pub idempotency_header : Option Text
  pub body : Option Text

pub record Browser (D : Type 0) : Type 0 where
  -- document.cookie, where there is a document; again after GET /auth/csrf
  pub cookie : Option Text
  pub cookie_after : Option Text
  pub csrf_fetched : Fetched (Unit {0})
  -- decodeURIComponent, `none` where it throws
  pub decode_uri : Text → Option Text
  pub fetch : Sent → Fetched D

abbrev onto_first_part : ℕ → List Text → List Text
onto_first_part c [] = (c ∷ []) ∷ []
onto_first_part c (part ∷ parts) = (c ∷ part) ∷ parts

-- split(';')
unfoldable pub split_cookies : Text → List Text
split_cookies [] = [] ∷ []
split_cookies (c ∷ t) =
    let rest = split_cookies t in if c == b';' then [] ∷ rest else onto_first_part c rest

unfoldable pub starts_with : Text → Text → Bool
starts_with [] t = true
starts_with (c ∷ prefix) [] = false
starts_with (c ∷ prefix) (d ∷ t) = c == d && starts_with prefix t

abbrev pub behind_name : ℕ → Text → Text
behind_name zero t = t
behind_name (suc n) [] = []
behind_name (suc n) (c ∷ t) = behind_name n t

abbrev pub decoded : Option Text → Reply (Option Text)
decoded none = thrown uri_error
decoded (some t) = returned (some t)

abbrev pub match_value : (Text → Option Text) → Text → Option Text → Reply (Option Text)
match_value decode_uri name none = returned none
match_value decode_uri name (some part) =
    decoded (decode_uri (behind_name (suc (length name)) part))

unfoldable pub read_cookie : (Text → Option Text) → Option Text → Text → Reply (Option Text)
unfolding split_cookies starts_with trim_start trim_end
read_cookie decode_uri none name = returned none
read_cookie decode_uri (some cookie) name = match_value decode_uri name (
    find_where (starts_with (name ++ b'=' ∷ []))
      (map (λ t. trim_start (trim_end t)) (split_cookies cookie)))

abbrev pub csrf_cookie : Text
csrf_cookie = codes "csrf_token"

abbrev no_session : Thrown
no_session = api_error (record { code = "SERVICE_UNAVAILABLE"; status = 0; request_id = none })

-- An answer with another status than 2xx counts as well as any.
abbrev pub awaited : Fetched (Unit {0}) → Reply (Unit {0})
awaited (responded r) = returned tt
awaited aborted = thrown abort_error
awaited failed = thrown network_error

-- The token, where there is one.
abbrev pub issued : Option Text → Reply Text
issued none = thrown no_session
issued (some t) = if length t == 0 then thrown no_session else returned t

abbrev pub is_state_changing : Method → Bool
is_state_changing Method.get = false
is_state_changing Method.post = true
is_state_changing Method.patch = true
is_state_changing Method.delete = true

abbrev key_header : Option Text → Option Text
key_header none = none
key_header (some key) = if length key == 0 then none else some key

abbrev has_body : Option Text → Bool
has_body none = false
has_body (some body) = true

abbrev pub or_internal_error : Option String → String
or_internal_error none = "INTERNAL_ERROR"
or_internal_error (some code) = code

abbrev pub or_missing : {A B : Type 0} → Option A → (A → Option B) → Option B
or_missing none f = none
or_missing (some a) f = f a

module _ {D : Type 0} (b : Browser D) where
  abbrev pub ask_for_token : Option Text → Reply Text
  ask_for_token (some (c ∷ t)) = returned (c ∷ t)
  ask_for_token other =
      and_then (awaited b.csrf_fetched)
        (λ u. and_then (read_cookie b.decode_uri b.cookie_after csrf_cookie) issued)

  unfoldable pub ensure_csrf_token : Reply Text
  unfolding read_cookie
  ensure_csrf_token = and_then (read_cookie b.decode_uri b.cookie csrf_cookie) ask_for_token

  unfoldable pub sent_with : RequestOptions → Option Text → Sent
  sent_with o token = record {
    method = o.method;
    has_json = has_body o.body;
    csrf_header = token;
    idempotency_header = key_header o.idempotency_key;
    body = o.body;
  }

  -- What becomes of an answer, and of none.
  abbrev api_response : Response D → Reply (Payload D)
  api_response r =
      if r.is_ok
      then elim r.payload [
        | none ↦
            thrown
              (api_error (record { code = "INTERNAL_ERROR"; status = r.status; request_id = none }))
        | some payload ↦ returned payload
      ]
      else thrown (
          api_error (record {
            code = or_internal_error (or_missing r.payload (λ (x : Payload D). x.error_code));
            status = r.status;
            request_id = or_missing r.payload (λ (x : Payload D). x.request_id);
          }))

  unfoldable pub conclude_fetch : Bool → Fetched D → Reply (Payload D)
  conclude_fetch state_changing (responded r) = api_response r
  conclude_fetch state_changing aborted = thrown abort_error
  conclude_fetch state_changing failed = thrown (
      api_error (record {
        code = if state_changing then "AMBIGUOUS_OUTCOME" else "NETWORK_ERROR";
        status = 0;
        request_id = none;
      }))

  unfoldable pub request : RequestOptions → Reply (Payload D)
  unfolding ensure_csrf_token sent_with conclude_fetch
  request o =
      if is_state_changing o.method
      then and_then ensure_csrf_token
          (λ token. conclude_fetch true (b.fetch (sent_with o (some token))))
      else conclude_fetch false (b.fetch (sent_with o none))

  unfoldable pub api_request : RequestOptions → Reply D
  unfolding request
  api_request o = and_then (request o) (λ envelope. returned envelope.data_of)
