-- ===== src/Orders/Inversion.antt =====
-- What a fill tells of the order and the candle.
use stock_analyser.Prelude.{◌≡◌, inl, inr, false, ok, some, Bool-cases}
use stock_analyser.Fills.{Lock}
use stock_analyser.Orders.{Order, Candle, Fill, blocked, try_fill, fill_by_type}

module _ (order : Order) (candle : Candle) (lock : Lock) {f : Fill} where
  pub try_fill-not_blocked :
      try_fill order candle lock ≡ ok (some f) → blocked order candle lock ≡ false
  unfolding try_fill
  try_fill-not_blocked h = elim (Bool-cases (blocked order candle lock)) [
    | inl e ↦ absurd (let h' = rw (e) at h in cc)
    | inr e ↦ e
  ]

  pub try_fill-by_type :
      try_fill order candle lock ≡ ok (some f)
      → fill_by_type order.order_type order candle ≡ ok (some f)
  unfolding try_fill
  try_fill-by_type h = rw (try_fill-not_blocked h) at h
