-- ===== src/Tests/Orders.antt =====
-- Examples for the order rules.
use stock_analyser.Prelude.{arith, refl, ◌↔◌, ◌≡◌, ◌≤◌, ◌⊎◌}
use stock_analyser.Decimal.{Decimal, max_d, min_d, of_nat, one_d, zero_d, ◌≤d◌}
use stock_analyser.Fills.{unlocked}
use stock_analyser.Orders.{Hit, collect_hits, market, resolve_oco, stop_loss, try_fill}
use stock_analyser.Orders.FillRules.{Honours, IsTraded, try_fill_price}
use stock_analyser.Orders.Oco.{IsHit, resolve_oco-some}
use stock_analyser.Orders.Touch.{
  Fills, IsFillable, IsInside, Touches, try_fill_iff, try_fill_timely,
}
use stock_analyser.Tests.Data.{candle, pair, stop_fill, stop_hit, stop_order}

-- `try_fill_iff` at a concrete input.
try_fill_iff_example : Fills stop_order candle unlocked ↔ (
    IsFillable stop_order candle unlocked
    × Touches stop_order.side stop_order.order_type stop_order.limit_price stop_order.trigger_price
        candle)
try_fill_iff_example = try_fill_iff stop_order candle unlocked

-- `try_fill_price` at a concrete input.
try_fill_price_example :
    IsTraded stop_fill.price candle × Honours stop_order stop_order.order_type stop_fill.price
unfolding try_fill stock_analyser.Decimal.led stock_analyser.Decimal.min_d
    stock_analyser.Decimal.ltd
try_fill_price_example =
    try_fill_price stop_order candle unlocked {f = stop_fill}
      (record {
        low_open = ground arith;
        open_high = ground arith;
        low_close = ground arith;
        close_high = ground arith;
      })
      refl

-- `try_fill_timely` at a concrete input.
try_fill_timely_example :
    (stop_order.created_at ≤ candle.start)
    ⊎ ((stop_order.order_type ≡ market)
        × IsInside stop_order.created_at candle.start candle.finish
        × (stop_fill.price ≡ candle.closing))
unfolding try_fill stock_analyser.Decimal.led stock_analyser.Decimal.min_d
    stock_analyser.Decimal.ltd
try_fill_timely_example = try_fill_timely stop_order candle unlocked {f = stop_fill} refl

-- `resolve_oco-some` at a concrete input.
resolve_oco-some_example :
    IsHit pair candle unlocked stop_hit
    × ((other : Hit)
        → IsHit pair candle unlocked other
        → other.0.order_type ≡ stop_loss
        → stop_hit.0.order_type ≡ stop_loss)
unfolding resolve_oco collect_hits try_fill stock_analyser.Decimal.led stock_analyser.Decimal.min_d
    stock_analyser.Decimal.max_d stock_analyser.Decimal.ltd
resolve_oco-some_example = resolve_oco-some pair candle unlocked {hit = stop_hit} refl
