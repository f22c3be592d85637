-- ===== src/Playground/Ledger/Audit.antt =====
-- The cash ledger is auditable line by line, and the positions are a map.
use stock_analyser.Prelude.{
  ℕ, ◌≡◌, inl, inr, refl, true, false, arith, if◌then◌else◌, ◌==◌, ==_iff, Option, List, [], ◌∷◌, ℤ,
  pos, ◌+ℤ◌, Bool-cases,
}
use stock_analyser.Positions.{Position}
use stock_analyser.Playground.Store.{Listing, same_listing, Db, PositionRow, CashEntry, CashKind}
use stock_analyser.Playground.Ledger.{
  cash_of, cash_balance, add_cash, position_of, get_position, upsert_position, save_position,
}

-- Every row's balance is the portfolio's balance before it plus the row's amount.
abbrev pub IsAudited : List CashEntry → Type 0
IsAudited [] = Unit
IsAudited (e ∷ es) = (e.balance_after ≡ cash_of es e.portfolio_id +ℤ e.amount) × IsAudited es

-- The sum of a portfolio's movements.
abbrev pub moved : List CashEntry → ℕ → ℤ
moved [] pid = pos 0
moved (e ∷ es) pid = if e.portfolio_id == pid then moved es pid +ℤ e.amount else moved es pid

pub add_cash-IsAudited :
    (db : Db) (pid : ℕ) (kind : CashKind) (amount : ℤ) (ref : Option ℕ)
    → IsAudited db.cash_ledger
    → IsAudited (add_cash db pid kind amount ref).cash_ledger
unfolding add_cash
add_cash-IsAudited db pid kind amount ref h = (refl, h)

cash_of-eq-moved : (es : List CashEntry) (pid : ℕ) → IsAudited es → cash_of es pid ≡ moved es pid
unfolding cash_of
cash_of-eq-moved [] pid h = refl
cash_of-eq-moved (e ∷ es) pid h = elim (Bool-cases (e.portfolio_id == pid)) [
  | inl same ↦
      let p : e.portfolio_id ≡ pid = (==_iff e.portfolio_id pid).0 same in
      rw same (rw (← cash_of-eq-moved es pid h.1) (rw p at h.0))
  | inr other ↦ rw other (cash_of-eq-moved es pid h.1)
]

-- In an audited ledger the cash of a portfolio is the sum of all its movements.
pub cash_balance-eq-moved :
    (db : Db) (pid : ℕ) → IsAudited db.cash_ledger → cash_balance db pid ≡ moved db.cash_ledger pid
unfolding cash_balance
cash_balance-eq-moved db pid h = cash_of-eq-moved db.cash_ledger pid h

-- A movement changes the balance of its portfolio by its amount and no other balance.
pub cash_balance-add_cash :
    (db : Db) (pid other : ℕ) (kind : CashKind) (amount : ℤ) (ref : Option ℕ)
    → cash_balance (add_cash db pid kind amount ref) other
      ≡ (if pid == other then cash_balance db pid +ℤ amount else cash_balance db other)
unfolding cash_balance add_cash cash_of
cash_balance-add_cash db pid other kind amount ref = refl

-- Two listings that test as the same are the same.
pub same_listing_iff_sound : (a b : Listing) → same_listing a b ≡ true → a ≡ b
unfolding same_listing
same_listing_iff_sound a b h = ground arith

pub same_listing_refl : (a : Listing) → same_listing a a ≡ true
unfolding same_listing
same_listing_refl a = ground arith

other_listing :
    (a at other : Listing)
    → same_listing a other ≡ true
    → same_listing a at ≡ false
    → same_listing at other ≡ false
unfolding same_listing
other_listing a at other s e = ground arith

position_of-upsert :
    (rs : List PositionRow) (at other : Listing) (p : Position)
    → position_of (upsert_position rs at p) other
      ≡ (if same_listing at other then p else position_of rs other)
unfolding position_of upsert_position
position_of-upsert [] at other p = refl
position_of-upsert (r ∷ rs) at other p = elim (Bool-cases (same_listing r.listing at)) [
  | inl e ↦
      let q : r.listing ≡ at = same_listing_iff_sound r.listing at e in
      rw e
        (rw q (elim (Bool-cases (same_listing at other)) [ inl s ↦ rw s refl | inr s ↦ rw s refl ]))
  | inr e ↦ rw e (
      rw (position_of-upsert rs at other p) (elim (Bool-cases (same_listing r.listing other)) [
        | inl s ↦ rw s (rw (other_listing r.listing at other s e) refl)
        | inr s ↦ rw s refl
      ]))
]

-- Saving a position is read back at its own listing, and leaves every other position alone.
pub get_position-save_position :
    (db : Db) (at other : Listing) (p : Position)
    → get_position (save_position db at p) other
      ≡ (if same_listing at other then p else get_position db other)
unfolding get_position save_position
get_position-save_position db at other p = position_of-upsert db.positions at other p
