-- ===== src/Http/Guarded.antt =====
-- A handler runs for users whose account is active.
use pstu_final.Base.{
  ℕ, String, Option-cases, Bool-cases, true, false, Option, none, some, ◌≡◌, ◌⊎◌, refl, subst, sym,
  inl, inr, arith, find_where, ◌==◌,
}
use pstu_final.Store.Rows.{User}
use pstu_final.Store.Tx.{Db, Tx, Result, err, ◌>>=◌}
use pstu_final.Platform.{Env}
use pstu_final.Audit.{record_detached}
use pstu_final.Auth.Service.{is_active}
use pstu_final.Http.{
  given_text, unauthenticated_failure, inactive_failure, find_status, refuse_inactive, jwt_guard,
  guarded,
}

-- The row of a user.
abbrev UserIs : Db → ℕ → Option User → Type 0
UserIs s id found = find_where (λ (u : User). u.id == id) s.users ≡ found

module _ {A : Type 0} (jwt_verify : String → Option ℕ) (handler : ℕ → Tx A) (s : Db) where
  -- The four ways of a request: it runs the handler for an active user; its cookie says nothing; its
  -- token names nobody; its user is not active.
  pub data Passage (cookie : Option String) : Result A × Db → Type 0 where
    admitted :
        (token : String) (id : ℕ) (user : User)
        → given_text cookie ≡ some token
        → jwt_verify token ≡ some id
        → UserIs s id (some user)
        → is_active user.status ≡ true
        → Passage cookie (handler id s)
    unsigned :
        (given_text cookie ≡ none)
          ⊎ ((token : String) × (given_text cookie ≡ some token) × (jwt_verify token ≡ none))
        → Passage cookie (err unauthenticated_failure, s)
    nobody :
        (token : String) (id : ℕ)
        → given_text cookie ≡ some token
        → jwt_verify token ≡ some id
        → UserIs s id none
        → Passage cookie (err unauthenticated_failure, s)
    inactive :
        (token : String) (id : ℕ) (user : User) (t : Db)
        → given_text cookie ≡ some token
        → jwt_verify token ≡ some id
        → UserIs s id (some user)
        → is_active user.status ≡ false
        → t ≡ record s { audit = t.audit }
        → Passage cookie (err inactive_failure, t)

  module _ (e : Env) (path : String) (cookie : Option String) where
    guarded-none :
        given_text cookie ≡ none
        → guarded jwt_verify e path handler cookie s ≡ (err unauthenticated_failure, s)
    unfolding guarded jwt_guard ◌>>=◌
    guarded-none missing = rw missing refl

    module _ (token : String) (text : given_text cookie ≡ some token) where
      guarded-unsigned :
          jwt_verify token ≡ none
          → guarded jwt_verify e path handler cookie s ≡ (err unauthenticated_failure, s)
      unfolding guarded jwt_guard ◌>>=◌
      guarded-unsigned unsigned_token = ground arith

      module _ (id : ℕ) (verified : jwt_verify token ≡ some id) where
        guarded-nobody :
            UserIs s id none
            → guarded jwt_verify e path handler cookie s ≡ (err unauthenticated_failure, s)
        unfolding guarded jwt_guard find_status ◌>>=◌
        guarded-nobody missing = ground arith

        guarded-active :
            (user : User)
            → UserIs s id (some user)
            → is_active user.status ≡ true
            → guarded jwt_verify e path handler cookie s ≡ handler id s
        unfolding guarded jwt_guard find_status refuse_inactive ◌>>=◌
        guarded-active user found active = ground arith

        guarded-inactive :
            (user : User)
            → UserIs s id (some user)
            → is_active user.status ≡ false
            → ((guarded jwt_verify e path handler cookie s).0 ≡ err inactive_failure)
              × ((guarded jwt_verify e path handler cookie s).1
                  ≡ record s { audit = (guarded jwt_verify e path handler cookie s).1.audit })
        unfolding guarded jwt_guard find_status refuse_inactive record_detached ◌>>=◌
        guarded-inactive user found blocked = ground arith

    -- A handler behind the guard runs for the user that a valid token names, and only while the row of
    -- that user is active; every other request gets 401 or 403, and changes nothing but the audit log.
    pub guarded-Passage : Passage cookie (guarded jwt_verify e path handler cookie s)
    guarded-Passage = elim (Option-cases (given_text cookie)) [
      | inl missing ↦ rw (guarded-none missing) (unsigned (inl missing))
      | inr (token, text) ↦ elim (Option-cases (jwt_verify token)) [
        | inl bad ↦ rw (guarded-unsigned token text bad) (unsigned (inr (token, text, bad)))
        | inr (id, verified) ↦ elim (Option-cases (find_where (λ (u : User). u.id == id) s.users)) [
          | inl missing ↦
              rw (guarded-nobody token text id verified missing)
                (nobody token id text verified missing)
          | inr (user, found) ↦ elim (Bool-cases (is_active user.status)) [
            | inl active ↦
                rw (guarded-active token text id verified user found active)
                  (admitted token id user text verified found active)
            | inr blocked ↦
                let (answer, kept) = guarded-inactive token text id verified user found blocked in
                subst
                  (λ (r : Result A).
                    Passage cookie (r, (guarded jwt_verify e path handler cookie s).1))
                  (sym answer) (inactive token id user _ text verified found blocked kept)
          ]
        ]
      ]
    ]
