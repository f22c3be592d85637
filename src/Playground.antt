-- ===== src/Playground.antt =====
-- backend/src/stk/playground: the paper-trading book. `Store` is its tables, `Ledger` cash and
-- positions, `Book` placing and closing orders, `Fill` turning a touched price into a trade.
pub mod Store
pub mod Ledger
pub mod Book
pub mod Fill
pub mod Passes
pub mod Actions
