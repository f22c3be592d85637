-- ===== src/Dsl/Catalogue.antt =====
-- backend/src/stk/domain/dsl/catalogue.py: the closed table of indicators. A date is the number of
-- its day since 1970-01-01. The notes are left out.
use stock_analyser.Dsl.Names
use stock_analyser.Prelude.{ℕ, ◌==◌, Option, none, some, List, [], ◌∷◌, find_first}

pub data Kind : Type 0 where
  price price_raw ratio pct osc rupees count fund : Kind

pub record Indicator : Type 0 where
  pub name : ℕ
  pub kind : Kind
  pub periods : List ℕ
  pub available_from : Option ℕ

-- A column's name: the indicator's name followed by the period, where there is one.
pub record Column : Type 0 where
  pub base : ℕ
  pub period : Option ℕ

abbrev pub column : Indicator → Option ℕ → Column
column e period = record { base = e.name; period = period }

-- 2012-02-21
abbrev nifty500_from : ℕ
nifty500_from = 15391

-- 2019-09-30
abbrev delivery_from : ℕ
delivery_from = 18169

abbrev entry_of : ℕ → Kind → List ℕ → Option ℕ → Indicator
entry_of name kind periods available = record {
  name = name;
  kind = kind;
  periods = periods;
  available_from = available;
}

abbrev pub catalogue : List Indicator
catalogue =
    entry_of Names.open_price price [] none
    ∷ entry_of Names.high price [] none
    ∷ entry_of Names.low price [] none
    ∷ entry_of Names.close price [] none
    ∷ entry_of Names.close_raw price_raw [] none
    ∷ entry_of Names.volume count [] none
    ∷ entry_of Names.sma price (20 ∷ 50 ∷ 100 ∷ 200 ∷ []) none
    ∷ entry_of Names.ema price (10 ∷ 20 ∷ 50 ∷ 100 ∷ 200 ∷ []) none
    ∷ entry_of Names.rsi osc (2 ∷ 14 ∷ []) none
    ∷ entry_of Names.atr price (14 ∷ []) none
    ∷ entry_of Names.atr_pct pct (14 ∷ []) none
    ∷ entry_of Names.ret pct (1 ∷ 5 ∷ 20 ∷ 60 ∷ 120 ∷ 250 ∷ []) none
    ∷ entry_of Names.mom_12_1 pct [] none
    ∷ entry_of Names.high_prior price (20 ∷ 55 ∷ 252 ∷ []) none
    ∷ entry_of Names.low_prior price (20 ∷ 60 ∷ 252 ∷ []) none
    ∷ entry_of Names.high_252_prox ratio [] none
    ∷ entry_of Names.vol_ratio ratio (20 ∷ []) none
    ∷ entry_of Names.gap_pct pct [] none
    ∷ entry_of Names.close_location ratio [] none
    ∷ entry_of Names.range_pct_prior pct (10 ∷ 20 ∷ []) none
    ∷ entry_of Names.turnover_med rupees (20 ∷ []) none
    ∷ entry_of Names.bar_count count [] none
    ∷ entry_of Names.delivery_pct pct [] (some delivery_from)
    ∷ entry_of Names.delivery_pct_sma pct (20 ∷ []) (some delivery_from)
    ∷ entry_of Names.rs ratio (63 ∷ 126 ∷ 252 ∷ []) (some nifty500_from)
    ∷ entry_of Names.roce fund [] none
    ∷ entry_of Names.de_ratio fund [] none
    ∷ entry_of Names.sales_cagr fund (3 ∷ []) none
    ∷ entry_of Names.profit_cagr fund (3 ∷ []) none
    ∷ entry_of Names.pe_ttm fund [] none
    ∷ entry_of Names.fund_age_days fund [] none
    ∷ []

-- `CATALOGUE.get(name)`
unfoldable pub find_indicator : ℕ → Option Indicator
find_indicator name = find_first (λ (e : Indicator). e.name == name) catalogue

abbrev pub column_of : Option Indicator → Option ℕ → Option Column
column_of none period = none
column_of (some e) period = some (column e period)

-- `column_for`; `none` is the `KeyError`.
unfoldable pub column_for : ℕ → Option ℕ → Option Column
unfolding find_indicator
column_for name period = column_of (find_indicator name) period
