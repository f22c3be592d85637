-- ===== src/Dsl/Names.antt =====
-- The indicators of backend/src/stk/domain/dsl/catalogue.py by number, in the order of its table.
use stock_analyser.Prelude.{ℕ}

abbrev pub open_price : ℕ
open_price = 1

abbrev pub high : ℕ
high = 2

abbrev pub low : ℕ
low = 3

abbrev pub close : ℕ
close = 4

abbrev pub close_raw : ℕ
close_raw = 5

abbrev pub volume : ℕ
volume = 6

abbrev pub sma : ℕ
sma = 7

abbrev pub ema : ℕ
ema = 8

abbrev pub rsi : ℕ
rsi = 9

abbrev pub atr : ℕ
atr = 10

abbrev pub atr_pct : ℕ
atr_pct = 11

abbrev pub ret : ℕ
ret = 12

abbrev pub mom_12_1 : ℕ
mom_12_1 = 13

abbrev pub high_prior : ℕ
high_prior = 14

abbrev pub low_prior : ℕ
low_prior = 15

abbrev pub high_252_prox : ℕ
high_252_prox = 16

abbrev pub vol_ratio : ℕ
vol_ratio = 17

abbrev pub gap_pct : ℕ
gap_pct = 18

abbrev pub close_location : ℕ
close_location = 19

abbrev pub range_pct_prior : ℕ
range_pct_prior = 20

abbrev pub turnover_med : ℕ
turnover_med = 21

abbrev pub bar_count : ℕ
bar_count = 22

abbrev pub delivery_pct : ℕ
delivery_pct = 23

abbrev pub delivery_pct_sma : ℕ
delivery_pct_sma = 24

abbrev pub rs : ℕ
rs = 25

abbrev pub roce : ℕ
roce = 26

abbrev pub de_ratio : ℕ
de_ratio = 27

abbrev pub sales_cagr : ℕ
sales_cagr = 28

abbrev pub profit_cagr : ℕ
profit_cagr = 29

abbrev pub pe_ttm : ℕ
pe_ttm = 30

abbrev pub fund_age_days : ℕ
fund_age_days = 31
