-- ===== src/Tests/Passes.antt =====
-- Examples for the passes.
use stock_analyser.Prelude.{arith, ◌≡◌}
use stock_analyser.Playground.Ledger.{held_at_start_of}
use stock_analyser.Playground.Ledger.Audit.{IsAudited}
use stock_analyser.Playground.Passes.Days.{eod_pass_keeps, intraday_pass_keeps}
use stock_analyser.Playground.Store.{day_of}
use stock_analyser.Tests.Data.{
  after_day, after_feed, audited, bars, ctx, day-run, day_result, db, feed-run, feed_result, feeds,
  place, turnover,
}

-- `eod_pass_keeps` at a concrete input.
eod_pass_keeps_example :
    IsAudited after_day.cash_ledger
    × (held_at_start_of after_day place 0 ≡ held_at_start_of db place 0)
eod_pass_keeps_example =
    eod_pass_keeps db ctx 0 bars turnover 60000 place {result = day_result} {db' = after_day}
      audited day-run

-- `intraday_pass_keeps` at a concrete input.
intraday_pass_keeps_example :
    IsAudited after_feed.cash_ledger
    × (held_at_start_of after_feed place 0 ≡ held_at_start_of db place 0)
unfolding day_of
intraday_pass_keeps_example =
    intraday_pass_keeps db ctx feeds 5 turnover turnover 34000 0 place {result = feed_result}
      {db' = after_feed} (ground arith) audited feed-run
