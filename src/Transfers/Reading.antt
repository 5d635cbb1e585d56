-- ===== src/Transfers/Reading.antt =====
-- Who may read a transfer: `getForParticipant` of apps/api/src/transfers/transfer-query.service.ts.
use pstu_final.Base.{
  [], ℕ, String, ◌≡◌, ◌≢◌, ◌⊎◌, inl, inr, true, some, none, arith, find_where, Option-cases, ◌==◌,
}
use pstu_final.Base.Text.{codes, matches_uuid_pattern}
use pstu_final.Store.Rows.{Transfer}
use pstu_final.Store.Dto.{TransferDto}
use pstu_final.Store.Tx.{Db, ok, ◌>>=◌}
use pstu_final.Platform.{Platform}
use pstu_final.Transfers.Service.{get_for_participant}

module _ (p : Platform) where
  -- What a reader is given stands in the table under the id of the path, names the reader as its
  -- sender or its receiver, and shows no balance; nothing is written.
  pub get_for_participant_sound :
      (path : String) (user : ℕ) (s : Db) (dto : TransferDto) (s' : Db)
      → get_for_participant p path user s ≡ (ok dto, s')
      → (s' ≡ s)
        × (dto.sender_balance_after_minor ≡ none)
        × (dto.sender_user_id ≡ user ⊎ dto.receiver_user_id ≡ user)
        × ((id : ℕ) × (t : Transfer) × (p.uuid_in path ≡ some id)
            × (find_where (λ (x : Transfer). x.id == id) s.transfers ≡ some t)
            × (dto.amount_minor ≡ t.amount_minor)
            × (dto.sender_user_id ≡ t.sender_user_id)
            × (dto.receiver_user_id ≡ t.receiver_user_id))
  unfolding get_for_participant ◌>>=◌
  get_for_participant_sound path user s dto s' h = elim (Option-cases (p.uuid_in path)) [
    | inl bad ↦ ground arith
    | inr (id, cast) ↦ elim (Option-cases (find_where (λ (x : Transfer). x.id == id) s.transfers)) [
      | inl missing ↦ ground arith
      | inr (t, found) ↦ (
        ground arith,
        ground arith,
        ground arith,
        (id, t, cast, found, ground arith, ground arith, ground arith),
      )
    ]
  ]

  -- Asked under an id for a transfer that is there, a user who is no party to it is told what is told
  -- where no transfer is there.
  pub get_for_participant_hides :
      (path : String) (user id : ℕ) (s : Db) (t : Transfer)
      → p.uuid_in path ≡ some id
      → matches_uuid_pattern (codes path) ≡ true
      → find_where (λ (x : Transfer). x.id == id) s.transfers ≡ some t
      → t.sender_user_id ≢ user
      → t.receiver_user_id ≢ user
      → (get_for_participant p path user s).0
        ≡ (get_for_participant p path user (record s { transfers = [] })).0
  unfolding get_for_participant ◌>>=◌
  get_for_participant_hides path user id s t cast form found no_sender no_receiver = ground arith
