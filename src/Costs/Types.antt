-- ===== src/Costs/Types.antt =====
-- `Side` and `Product` of domain/costs.py.
pub data Side : Type 0 where
  buy sell : Side

pub data Product : Type 0 where
  delivery intraday : Product
