-- ===== src/Notifications/Redelivery.antt =====
-- An event that is delivered again.
use pstu_final.Base.{
  Option-cases, ℕ, Bool, Bool-cases, true, false, some, List, [], ◌∷◌, ◌++◌, ◌≡◌, refl, ap, ◌∙◌,
  inl, inr, arith, any, any-append, All,
}
use pstu_final.Store.Rows.{Notification}
use pstu_final.Store.Tx.{Db, ok, ◌>>=◌}
use pstu_final.Store.Run.{>>=-elim, >>=-ok}
use pstu_final.Platform.{Platform, Env}
use pstu_final.Outbox.Queue.{ClaimedOutboxEvent}
use pstu_final.Notifications.Repository.{
  new_notification, CreateNotificationData, insert_if_absent, same_source,
}
use pstu_final.Notifications.Consumer.{Language, PlannedNotification, plan, insert_all, handle}

module _ (p : Platform) (source : ℕ) where
  abbrev creation : PlannedNotification → CreateNotificationData
  creation planned = record {
    user_id = planned.user_id;
    type = planned.type;
    title = planned.title;
    body = planned.body;
    resource_type = planned.resource_type;
    resource_id = planned.resource_id;
    source_event_id = source;
  }

  -- The event has told this user, and the ids of the plan can be cast.
  record Told (rows : List Notification) (planned : PlannedNotification) : Type 0 where
    user : ℕ
    resource : ℕ
    user_cast : p.uuid_in planned.user_id ≡ some user
    resource_cast : p.uuid_in planned.resource_id ≡ some resource
    there : any (same_source source user) rows ≡ true

  told :
      (t : Db) (planned : PlannedNotification) (user resource : ℕ)
      → p.uuid_in planned.user_id ≡ some user
      → p.uuid_in planned.resource_id ≡ some resource
      → any (same_source source user) t.notifications ≡ true
      → Told t.notifications planned
  told t planned user resource c c' h = record {
    user = user;
    resource = resource;
    user_cast = c;
    resource_cast = c';
    there = h;
  }

  insert_if_absent-Told :
      (e : Env) (planned : PlannedNotification) (s : Db) (b : Bool) (t : Db)
      → insert_if_absent p e (creation planned) s ≡ (ok b, t)
      → Told t.notifications planned
        × ((user : ℕ)
            → any (same_source source user) s.notifications ≡ true
            → any (same_source source user) t.notifications ≡ true)
  unfolding insert_if_absent ◌>>=◌
  insert_if_absent-Told e planned s b t h = elim (Option-cases (p.uuid_in planned.user_id)) [
    | inl uncast ↦ ground arith
    | inr (user, cast) ↦ elim (Option-cases (p.uuid_in planned.resource_id)) [
      | inl uncast ↦ ground arith
      | inr (resource, cast') ↦ elim (Bool-cases (any (same_source source user) s.notifications)) [
        | inl there ↦
            let same : t ≡ s = ground arith in
            (
              told t planned user resource cast cast'
                  (ap (λ (x : Db). any (same_source source user) x.notifications) same ∙ there),
              λ u h. ap (λ (x : Db). any (same_source source u) x.notifications) same ∙ h,
            )
        | inr missing ↦
            let row = new_notification p e (creation planned) user resource in
            let added : t.notifications ≡ s.notifications ++ row ∷ [] = ground arith in
            (
              told t planned user resource cast cast' (
                  ap (any (same_source source user)) added
                  ∙ any-append (same_source source user) s.notifications (row ∷ [])
                  ∙ ground arith),
              λ u h.
                  ap (any (same_source source u)) added
                  ∙ any-append (same_source source u) s.notifications (row ∷ [])
                  ∙ ground arith,
            )
      ]
    ]
  ]

  insert_if_absent-again :
      (d : Env) (planned : PlannedNotification) (t : Db)
      → Told t.notifications planned
      → insert_if_absent p d (creation planned) t ≡ (ok false, t)
  unfolding insert_if_absent ◌>>=◌
  insert_if_absent-again d planned t told = rw (told.user_cast, told.resource_cast, told.there) refl

  Told-later :
      (s t : Db) (planned : PlannedNotification)
      → ((user : ℕ)
          → any (same_source source user) s.notifications ≡ true
          → any (same_source source user) t.notifications ≡ true)
      → Told s.notifications planned
      → Told t.notifications planned
  Told-later s t planned stays r =
      told t planned r.user r.resource r.user_cast r.resource_cast (stays r.user r.there)

  insert_all-Told :
      (e : Env) (planned : List PlannedNotification) (s : Db) (u : Unit {0}) (t : Db)
      → insert_all p e source planned s ≡ (ok u, t)
      → All (Told t.notifications) planned
        × ((user : ℕ)
            → any (same_source source user) s.notifications ≡ true
            → any (same_source source user) t.notifications ≡ true)
  unfolding insert_all
  insert_all-Told e [] s u t h =
      let same : t ≡ s = ground arith in
      (tt, λ user h. ap (λ (x : Db). any (same_source source user) x.notifications) same ∙ h)
  insert_all-Told e (x ∷ rest) s u t h = >>=-elim _ _ s h λ b v first later.
      let (one, stays) = insert_if_absent-Told e x s b v first in
      let (others, stays') = insert_all-Told e rest v u t later in
      ((Told-later v t x stays' one, others), λ user h. stays' user (stays user h))

  insert_all-again :
      (d : Env) (planned : List PlannedNotification) (t : Db)
      → All (Told t.notifications) planned
      → insert_all p d source planned t ≡ (ok tt, t)
  unfolding insert_all
  insert_all-again d [] t all = refl
  insert_all-again d (x ∷ rest) t all =
      >>=-ok (insert_if_absent p d (creation x)) (λ b. insert_all p d source rest) t false t
        (insert_if_absent-again d x t all.0)
      ∙ insert_all-again d rest t all.1

module _ (p : Platform) (l : Language) where
  plan-exact :
      (event : ClaimedOutboxEvent) (s t : Db) (planned : List PlannedNotification) (s' : Db)
      → plan l event s ≡ (ok planned, s')
      → (s' ≡ s) × (plan l event t ≡ (ok planned, t))
  unfolding plan ◌>>=◌
  plan-exact event s t planned s' h = ground arith

  -- An event that has been handled can be handled again, at any time and with any ids: nothing is
  -- written, and nothing is thrown.
  pub handle_again :
      (e d : Env) (event : ClaimedOutboxEvent) (s t : Db)
      → handle p l e event s ≡ (ok tt, t)
      → handle p l d event t ≡ (ok tt, t)
  unfolding handle
  handle_again e d event s t h = >>=-elim _ _ s h λ planned v first later.
      let (same, again) = plan-exact event s t planned v first in
      >>=-ok (plan l event) (insert_all p d event.id) t planned t again
      ∙ insert_all-again p event.id d planned t
          (insert_all-Told p event.id e planned v tt t later).0
