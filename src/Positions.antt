-- ===== src/Positions.antt =====
-- backend/src/stk/domain/positions.py: average-cost positions. Share counts are naturals.
pub mod Accounting
pub mod Splits
use stock_analyser.Prelude.{
  ℕ, ◌+◌, ◌-◌, Bool, if◌then◌else◌, ltb, ◌==◌, ℤ, pos, Result, ok, err, ◌>>=◌, ◌>>◌, raise_if, ◌||◌,
}
use stock_analyser.Decimal.{
  Decimal, of_nat, zero_d, ◌+d◌, ◌-d◌, ◌*d◌, div_nat, div, led, ltd, floor_nat,
}
use stock_analyser.Money.{to_money}

pub data PositionError : Type 0 where
  buy_not_positive sell_not_positive oversold bad_volume_factor bad_dividend : PositionError

pub record Position : Type 0 where
  pub qty : ℕ
  pub avg_cost : Decimal
  pub realised_pnl : Decimal

-- `Position()`
abbrev pub no_position : Position
no_position = record { qty = 0; avg_cost = zero_d; realised_pnl = zero_d }

unfoldable pub cost_basis : Position → Decimal
cost_basis p = p.avg_cost *d of_nat p.qty

unfoldable pub unrealised : Position → Decimal → Decimal
unrealised p mark = (mark -d p.avg_cost) *d of_nat p.qty

unfoldable pub apply_buy : Position → ℕ → Decimal → Result PositionError Position
apply_buy p qty price = do
  raise_if (ltb qty 1) buy_not_positive
  let total = p.qty + qty
  let avg = div_nat (p.avg_cost *d of_nat p.qty +d price *d of_nat qty) total
  ok (record { qty = total; avg_cost = avg; realised_pnl = p.realised_pnl })

unfoldable pub apply_sell : Position → ℕ → Decimal → Result PositionError Position
apply_sell p qty price = do
  raise_if (ltb qty 1) sell_not_positive
  raise_if (ltb p.qty qty) oversold
  let remaining = p.qty - qty
  ok (record {
    qty = remaining;
    avg_cost = if remaining == 0 then zero_d else p.avg_cost;
    realised_pnl = p.realised_pnl +d (price -d p.avg_cost) *d of_nat qty;
  })

pub record SplitResult : Type 0 where
  pub position : Position
  pub dropped_shares : Decimal
  pub dropped_cost : Decimal

-- The part of `apply_split_or_bonus` behind its guards.
unfoldable pub split_to : Position → Decimal → ℕ → SplitResult
unfolding cost_basis
split_to p exact new_qty =
    if new_qty == 0
    then record {
      position = record { qty = 0; avg_cost = zero_d; realised_pnl = p.realised_pnl };
      dropped_shares = exact;
      dropped_cost = cost_basis p;
    }
    else (let kept_cost = div (cost_basis p *d of_nat new_qty) exact in
        record {
          position = record {
            qty = new_qty;
            avg_cost = div_nat kept_cost new_qty;
            realised_pnl = p.realised_pnl;
          };
          dropped_shares = exact -d of_nat new_qty;
          dropped_cost = cost_basis p -d kept_cost;
        })

unfoldable pub apply_split_or_bonus : Position → Decimal → Result PositionError SplitResult
unfolding split_to
apply_split_or_bonus p volume_factor = do
  raise_if (led volume_factor zero_d) bad_volume_factor
  let exact = of_nat p.qty *d volume_factor
  ok (
      if p.qty == 0
      then record { position = p; dropped_shares = zero_d; dropped_cost = zero_d }
      else split_to p exact (floor_nat exact))

-- `dividend_cash` in paise, for a count of shares.
unfoldable pub dividend_cash : ℕ → Decimal → Result PositionError ℤ
dividend_cash qty_held per_share = do
  raise_if (ltd per_share zero_d) bad_dividend
  ok (to_money (per_share *d of_nat qty_held))
