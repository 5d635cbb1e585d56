-- ===== src/Client/Outcome.antt =====
-- What a client may conclude from an error: request of apps/web/lib/api-client.ts.
use pstu_final.Base.{
  suc, [], ◌∷◌, length, ◌==◌, Bool, Bool-cases, Option-cases, subst, true, false, Option, none,
  some, ◌≡◌, inl, inr, refl, arith, str_eq,
}
use pstu_final.Base.Text.{Text}
use mathlib.Core.Logic.{◌↔◌}
use pstu_final.Client.Request.{
  Reply, returned, thrown, Thrown, Payload, Fetched, responded, aborted, failed, Browser,
  RequestOptions, and_then, is_ambiguous, is_state_changing, or_internal_error, or_missing,
  csrf_cookie, behind_name, match_value, awaited, issued, ask_for_token, ensure_csrf_token,
  sent_with, conclude_fetch, read_cookie, request,
}

-- An error that leaves no doubt.
abbrev Certain : {A : Type 0} → Reply A → Type 0
Certain (returned a) = Unit
Certain (thrown e) = is_ambiguous e ≡ false

and_then-Certain :
    {A B : Type 0} (r : Reply A) (next : A → Reply B)
    → Certain r
    → ((a : A) → Certain (next a))
    → Certain (and_then r next)
and_then-Certain (returned a) next certain rest = rest a
and_then-Certain (thrown e) next certain rest = certain

match_value-Certain :
    (decode_uri : Text → Option Text) (name : Text) (part : Option Text)
    → Certain (match_value decode_uri name part)
match_value-Certain decode_uri name none = tt
match_value-Certain decode_uri name (some part) =
    elim (Option-cases (decode_uri (behind_name (suc (length name)) part))) [
      | inl e ↦ rw e refl
      | inr (t, e) ↦ rw e tt
    ]

awaited-Certain : (f : Fetched (Unit {0})) → Certain (awaited f)
awaited-Certain (responded r) = tt
awaited-Certain aborted = refl
awaited-Certain failed = refl

issued-Certain : (t : Option Text) → Certain (issued t)
issued-Certain none = refl
issued-Certain (some []) = refl
issued-Certain (some (c ∷ t)) =
    let full : (suc (length t) == 0) ≡ false = ground arith in rw full tt

module _ {D : Type 0} where
  -- The server names another code than the one that the client keeps for itself.
  abbrev pub Quiet : Fetched D → Type 0
  Quiet (responded r) =
      str_eq (or_internal_error (or_missing r.payload (λ (x : Payload D). x.error_code)))
        "AMBIGUOUS_OUTCOME"
      ≡ false
  Quiet aborted = Unit
  Quiet failed = Unit

  module _ (b : Browser D) where
    doubtless : (f e : Thrown) → is_ambiguous f ≡ false → f ≡ e → is_ambiguous e ≡ true → ⊥
    doubtless f e certain same amb = ground arith

    conclude_fetch-Ambiguous :
        (changing : Bool) (x : Fetched D) (e : Thrown)
        → Quiet x
        → conclude_fetch b changing x ≡ thrown e
        → (is_ambiguous e ≡ true) ↔ (changing ≡ true) × (x ≡ failed)
    unfolding conclude_fetch
    conclude_fetch-Ambiguous changing (responded r) e quiet h = ground arith
    conclude_fetch-Ambiguous changing aborted e quiet h = ground arith
    conclude_fetch-Ambiguous true failed e quiet h = ground arith
    conclude_fetch-Ambiguous false failed e quiet h = ground arith

    read_cookie-Certain :
        (cookie : Option Text) (name : Text) → Certain (read_cookie b.decode_uri cookie name)
    unfolding read_cookie
    read_cookie-Certain none name = tt
    read_cookie-Certain (some cookie) name = match_value-Certain b.decode_uri name _

    asked : Certain (
        and_then
          (awaited b.csrf_fetched)
          (λ u. and_then (read_cookie b.decode_uri b.cookie_after csrf_cookie) issued))
    asked = and_then-Certain (awaited b.csrf_fetched) _ (awaited-Certain b.csrf_fetched) (λ u.
        and_then-Certain (read_cookie b.decode_uri b.cookie_after csrf_cookie) issued
          (read_cookie-Certain b.cookie_after csrf_cookie) issued-Certain)

    ask_for_token-Certain : (cookie : Option Text) → Certain (ask_for_token b cookie)
    ask_for_token-Certain (some (c ∷ t)) = tt
    ask_for_token-Certain (some []) = asked
    ask_for_token-Certain none = asked

    ensure_csrf_token-Certain : Certain (ensure_csrf_token b)
    unfolding ensure_csrf_token
    ensure_csrf_token-Certain =
        and_then-Certain (read_cookie b.decode_uri b.cookie csrf_cookie) (ask_for_token b)
          (read_cookie-Certain b.cookie csrf_cookie) ask_for_token-Certain

    sent-Ambiguous :
        (o : RequestOptions) (e : Thrown) (token : Reply Text)
        → Certain token
        → ((t : Text) → Quiet (b.fetch (sent_with b o (some t))))
        → and_then token (λ t. conclude_fetch b true (b.fetch (sent_with b o (some t)))) ≡ thrown e
        → (is_ambiguous e ≡ true)
          ↔ (t : Text) × (token ≡ returned t) × (b.fetch (sent_with b o (some t)) ≡ failed)
    sent-Ambiguous o e (thrown f) certain quiet h = (
      λ amb. absurd (doubtless f e certain (ground arith) amb),
      λ x. let not_returned : thrown f ≡ returned x.0 = x.1 in ground arith,
    )
    sent-Ambiguous o e (returned t) certain quiet h =
        let (to, from) =
          conclude_fetch-Ambiguous true (b.fetch (sent_with b o (some t))) e (quiet t) h in
        (
          λ amb. (t, refl, (to amb).1),
          λ x.
              let returned_it : returned t ≡ returned x.0 = x.1 in
              let same : x.0 ≡ t = ground arith in
              from (refl, subst (λ (u : Text). b.fetch (sent_with b o (some u)) ≡ failed) same x.2),
        )

    -- What a call throws is an AMBIGUOUS_OUTCOME exactly where the call may change something, had a
    -- CSRF token, sent the request with it, and fetch failed on it otherwise than by the caller's own
    -- abort, as long as the server does not use that code itself; so a read never throws it, nor does
    -- a call that was aborted or that the server answered.
    pub request-Ambiguous :
        (o : RequestOptions) (e : Thrown)
        → ((token : Option Text) → Quiet (b.fetch (sent_with b o token)))
        → request b o ≡ thrown e
        → (is_ambiguous e ≡ true)
          ↔ (is_state_changing o.method ≡ true)
            × (t : Text) × (ensure_csrf_token b ≡ returned t)
            × (b.fetch (sent_with b o (some t)) ≡ failed)
    unfolding request
    request-Ambiguous o e quiet h = elim (Bool-cases (is_state_changing o.method)) [
      | inl changing ↦
          let sent =
            sent-Ambiguous o e (ensure_csrf_token b) ensure_csrf_token-Certain (λ t. quiet (some t))
              (rw changing at h) in
          (
            λ amb. let (t, token, fell) = sent.0 amb in (changing, t, token, fell),
            λ x. sent.1 (x.1, x.2, x.3),
          )
      | inr reads ↦
          let (to, from) =
            conclude_fetch-Ambiguous false (b.fetch (sent_with b o none)) e (quiet none)
              (rw reads at h) in
          (λ amb. let no = (to amb).0 in ground arith, λ x. let yes = x.0 in ground arith)
    ]
