-- ===== src/Transfers/Wallets.antt =====
-- The wallets under a balance delta: ids, balances and their sum.
use pstu_final.Base.{
  ℕ, ◌≡◌, ◌≢◌, refl, ap, Bool, true, false, Option, none, some, List, [], ◌∷◌, arith, ◌==◌, any,
  find_where, if◌then◌else◌,
}
use pstu_final.Base.Int.{ℤ, pos, ◌+ℤ◌, ◌≤ℤ◌, int_laws}
use pstu_final.Store.Rows.{User, Wallet}
use pstu_final.Platform.{Platform}
use pstu_final.Transfers.Repository.{LockedWallet, joined, bigint_max}
use pstu_final.Transfers.Authorise.{any-joined}
use pstu_final.Transfers.Moves.{credited}

abbrev pub has_id : ℕ → Wallet → Bool
has_id id w = w.id == id

-- The primary key of the table.
abbrev pub HasUniqueIds : List Wallet → Type 0
HasUniqueIds [] = Unit
HasUniqueIds (w ∷ ws) = (any (has_id w.id) ws ≡ false) × HasUniqueIds ws

-- The CHECK constraint and the type of the column `balance_minor`.
abbrev pub AreInRange : List Wallet → Type 0
AreInRange [] = Unit
AreInRange (w ∷ ws) = (pos 0 ≤ℤ w.balance_minor) × (w.balance_minor ≤ℤ bigint_max) × AreInRange ws

-- All the money there is.
abbrev pub total : List Wallet → ℤ
total [] = pos 0
total (w ∷ ws) = w.balance_minor +ℤ total ws

abbrev pub balance_of : ℕ → List Wallet → Option ℤ
balance_of id [] = none
balance_of id (w ∷ ws) = if w.id == id then some w.balance_minor else balance_of id ws

abbrev pub add_if : Bool → ℤ → Option ℤ → Option ℤ
add_if changes delta none = none
add_if changes delta (some b) = some (if changes then b +ℤ delta else b)

module _ (id : ℕ) (delta : ℤ) where
  pub any-credited :
      (k : ℕ) (ws : List Wallet) → any (has_id k) (credited id delta ws) ≡ any (has_id k) ws
  any-credited k [] = refl
  any-credited k (w ∷ ws) = ground (arith, any-credited k ws)

  pub credited-HasUniqueIds :
      (ws : List Wallet) → HasUniqueIds ws → HasUniqueIds (credited id delta ws)
  credited-HasUniqueIds [] h = tt
  credited-HasUniqueIds (w ∷ ws) h =
      ground (arith, any-credited w.id ws, credited-HasUniqueIds ws h.1)

  total-credited_none :
      (ws : List Wallet) → any (has_id id) ws ≡ false → total (credited id delta ws) ≡ total ws
  total-credited_none [] h = refl
  total-credited_none (w ∷ ws) h = ground (arith, total-credited_none ws)

  -- A delta on a wallet that is there changes the sum by itself.
  pub total-credited :
      (ws : List Wallet)
      → HasUniqueIds ws
      → any (has_id id) ws ≡ true
      → total (credited id delta ws) ≡ total ws +ℤ delta
  total-credited [] u h = ground arith
  total-credited (w ∷ ws) u h = grind (int_laws, total-credited ws u.1, total-credited_none ws)

  pub balance_of-credited :
      (k : ℕ) (ws : List Wallet)
      → balance_of k (credited id delta ws) ≡ add_if (id == k) delta (balance_of k ws)
  balance_of-credited k [] = refl
  balance_of-credited k (w ∷ ws) = ground (arith, balance_of-credited k ws)

-- An id that is among the rows is not one that is not.
any_ne :
    (id k : ℕ) (ws : List Wallet) → any (has_id id) ws ≡ true → any (has_id k) ws ≡ false → k ≢ id
any_ne id k ws yes_id no_k e = cc (ap (λ (n : ℕ). any (has_id n) ws) e)

module _ (p : Platform) where
  -- The row of an id, found through its user, is the row of that id.
  pub find_where-joined :
      (test : LockedWallet → Bool) (users : List User) (ws : List Wallet) (x : LockedWallet)
      → HasUniqueIds ws
      → find_where test (joined p users ws) ≡ some x
      → find_where (λ (y : LockedWallet). y.id == x.id) (joined p users ws) ≡ some x
  find_where-joined test users [] x u h = ground arith
  find_where-joined test users (w ∷ ws) x u h = ground (
    arith,
    find_where-joined test users ws x u.1,
    any-joined p x.id users ws x,
    any_ne x.id w.id ws,
  )

  pub balance_of-joined :
      (id : ℕ) (users : List User) (ws : List Wallet) (x : LockedWallet)
      → HasUniqueIds ws
      → find_where (λ (y : LockedWallet). y.id == id) (joined p users ws) ≡ some x
      → balance_of id ws ≡ some x.balance_minor
  balance_of-joined id users [] x u h = ground arith
  balance_of-joined id users (w ∷ ws) x u h =
      ground
        (arith, balance_of-joined id users ws x u.1, any-joined p id users ws x, any_ne id w.id ws)
