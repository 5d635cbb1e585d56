-- ===== src/Store/Run.antt =====
-- A call that returned: what its parts returned.
use pstu_final.Base.{ap, ◌∙◌, ◌⊎◌, inl, inr, ◌≡◌, refl, sym, arith, Bool, false, Option, some}
use pstu_final.Store.Failure.{Failure}
use pstu_final.Store.Tx.{Db, Tx, Result, ok, err, throw_if, or_throw, ◌>>=◌}

module _ {A B : Type 0} where
  bound : (f : A → Tx B) (x : Result A × Db) → Result B × Db
  bound f (ok a, s) = f a s
  bound f (err e, s) = (err e, s)

  bound-inv :
      (f : A → Tx B) (x : Result A × Db) {b : B} {s' : Db}
      → bound f x ≡ (ok b, s')
      → (a : A) × (t : Db) × (x ≡ (ok a, t)) × (f a t ≡ (ok b, s'))
  unfolding bound
  bound-inv f (ok a, t) h = (a, t, refl, h)
  bound-inv f (err e, t) h = ground arith

  >>=-eq-bound : (m : Tx A) (f : A → Tx B) (s : Db) → (m >>= f) s ≡ bound f (m s)
  unfolding bound ◌>>=◌
  >>=-eq-bound m f s = ground arith

  -- The two calls of a sequence that returned.
  pub >>=-inv :
      (m : Tx A) (f : A → Tx B) (s : Db) {b : B} {s' : Db}
      → (m >>= f) s ≡ (ok b, s')
      → (a : A) × (t : Db) × (m s ≡ (ok a, t)) × (f a t ≡ (ok b, s'))
  >>=-inv m f s h = bound-inv f (m s) (rw >>=-eq-bound at h)

module _ {A B : Type 0} where
  -- Where a call has only one way to return, the rest of a sequence runs on that result.
  pub >>=-exact :
      (m : Tx A) (f : A → Tx B) (s : Db) (a : A) (t : Db) {b : B} {s' : Db}
      → ((x : A) (u : Db) → m s ≡ (ok x, u) → (x ≡ a) × (u ≡ t))
      → (m >>= f) s ≡ (ok b, s')
      → f a t ≡ (ok b, s')
  >>=-exact m f s a t only h =
      let (x, u, e, r) = >>=-inv m f s h in rw (sym (only x u e).0, sym (only x u e).1) r

-- The two calls of a sequence that returned, handed to what needs them.
pub >>=-elim {ℓ} :
    {A B : Type 0} {C : Type ℓ} (m : Tx A) (f : A → Tx B) (s : Db) {b : B} {s' : Db}
    → (m >>= f) s ≡ (ok b, s')
    → ((a : A) (t : Db) → m s ≡ (ok a, t) → f a t ≡ (ok b, s') → C)
    → C
>>=-elim m f s h k = let (a, t, e, r) = >>=-inv m f s h in k a t e r

pub throw_if-inv :
    (c : Bool) (f : Failure) (s : Db) {u : Unit {0}} {s' : Db}
    → throw_if c f s ≡ (ok u, s')
    → (s' ≡ s) × (c ≡ false)
throw_if-inv c f s h = ground arith

pub or_throw-inv :
    {A : Type 0} (o : Option A) (f : Failure) (s : Db) {a : A} {s' : Db}
    → or_throw o f s ≡ (ok a, s')
    → (s' ≡ s) × (o ≡ some a)
or_throw-inv o f s h = ground arith

module _ {A B : Type 0} where
  thrown :
      (f : A → Tx B) (x : Result A × Db) {g : Failure} {s' : Db}
      → bound f x ≡ (err g, s')
      → (x ≡ (err g, s')) ⊎ ((a : A) × (t : Db) × (x ≡ (ok a, t)) × (f a t ≡ (err g, s')))
  unfolding bound
  thrown f (ok a, t) h = inr (a, t, refl, h)
  thrown f (err e, s) h = inl (ground arith)

  -- A sequence that threw: one of its calls did.
  pub >>=-throw {ℓ} :
      {C : Type ℓ} (m : Tx A) (f : A → Tx B) (s : Db) {g : Failure} {s' : Db}
      → (m >>= f) s ≡ (err g, s')
      → (m s ≡ (err g, s') → C)
      → ((a : A) (t : Db) → m s ≡ (ok a, t) → f a t ≡ (err g, s') → C)
      → C
  >>=-throw m f s h first second = elim (thrown f (m s) (rw >>=-eq-bound at h)) [
    | inl e ↦ first e
    | inr (a, t, e, r) ↦ second a t e r
  ]

  -- A sequence whose first call is known to return.
  pub >>=-ok :
      (m : Tx A) (f : A → Tx B) (s : Db) (a : A) (t : Db) → m s ≡ (ok a, t) → (m >>= f) s ≡ f a t
  unfolding bound
  >>=-ok m f s a t h = >>=-eq-bound m f s ∙ ap (bound f) h
