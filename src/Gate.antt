-- ===== src/Gate.antt =====
-- backend/src/stk/domain/gate.py, `evaluate_gate`: the promotion gate over walk-forward windows.
-- The floats (drawdowns, the pass ratio and their thresholds) stand for exact fractions, so that
-- the rounding of one float division is left out, and a check's detail text too.
use stock_analyser.Prelude.{
  ℕ, zero, suc, ◌+◌, ◌≤◌, ◌≡◌, ◌↔◌, inl, inr, refl, Member, true, false, arith, Bool, ◌&&◌, ◌||◌,
  not, if◌then◌else◌, leb, ◌==◌, List, [], ◌∷◌,
}
use stock_analyser.Decimal.{Decimal, of_nat, zero_d, div_nat, min_d, ◌*d◌, ◌≤d◌, led}
use stock_analyser.Decimal.Order.{led-cases, ≤d_trans, min_d-le, min_d-cases}

pub record GateThresholds : Type 0 where
  pub min_scored_windows : ℕ
  pub min_pass_ratio : Decimal
  pub max_drawdown : Decimal
  pub min_total_trades : ℕ

pub data Outcome : Type 0 where
  won lost no_benchmark no_trades : Outcome

-- `won` and `lost` are the source's 'pass' and 'fail'.
pub record WindowSummary : Type 0 where
  pub outcome : Outcome
  pub max_drawdown : Decimal
  pub trade_count : ℕ

pub data Verdict : Type 0 where
  pass fail insufficient_evidence : Verdict

-- The `passed` of the four checks, in their order.
pub record GateReport : Type 0 where
  pub verdict : Verdict
  pub scored_windows : Bool
  pub beats_benchmark : Bool
  pub within_drawdown : Bool
  pub enough_trades : Bool

-- `GateReport.passed`
abbrev pub passed : Verdict → Bool
passed pass = true
passed _ = false

abbrev pub is_scored : Outcome → Bool
is_scored won = true
is_scored lost = true
is_scored _ = false

abbrev pub is_win : Outcome → Bool
is_win won = true
is_win _ = false

-- `sum(1 for w in windows if p(w.outcome))`
unfoldable pub count_of : (Outcome → Bool) → List WindowSummary → ℕ
count_of p [] = 0
count_of p (w ∷ ws) = (if p w.outcome then 1 else 0) + count_of p ws

unfoldable pub trades_of : List WindowSummary → ℕ
trades_of [] = 0
trades_of (w ∷ ws) = w.trade_count + trades_of ws

-- `min(...)` from the first window on
abbrev pub worst_from : Decimal → List WindowSummary → Decimal
worst_from worst [] = worst
worst_from worst (w ∷ ws) = worst_from (min_d worst w.max_drawdown) ws

unfoldable pub worst_drawdown : List WindowSummary → Decimal
worst_drawdown [] = zero_d
worst_drawdown (w ∷ ws) = worst_from w.max_drawdown ws

-- `wins / len(scored) if scored else 0.0`
unfoldable pub pass_ratio : ℕ → ℕ → Decimal
pass_ratio wins scored = if scored == 0 then zero_d else div_nat (of_nat wins) scored

unfoldable pub evaluate_gate : List WindowSummary → GateThresholds → GateReport
unfolding count_of trades_of worst_drawdown pass_ratio
evaluate_gate windows t =
    let scored = count_of is_scored windows in
    let wins = count_of (λ o. is_scored o && is_win o) windows in
    let enough = leb t.min_scored_windows scored in
    let beats = led t.min_pass_ratio (pass_ratio wins scored) in
    let within = led t.max_drawdown (worst_drawdown windows) in
    let trades = leb t.min_total_trades (trades_of windows) in
    record {
      verdict =
          if not enough || not trades
          then insufficient_evidence
          else if enough && (beats && (within && trades))
          then pass
          else fail;
      scored_windows = enough;
      beats_benchmark = beats;
      within_drawdown = within;
      enough_trades = trades;
    }

-- What a window adds to the number of wins, and to that of losses.
abbrev pub win_of : Outcome → ℕ
win_of won = 1
win_of lost = 0
win_of no_benchmark = 0
win_of no_trades = 0

abbrev pub loss_of : Outcome → ℕ
loss_of won = 0
loss_of lost = 1
loss_of no_benchmark = 0
loss_of no_trades = 0

unfoldable pub sum_over : (WindowSummary → ℕ) → List WindowSummary → ℕ
sum_over f [] = 0
sum_over f (w ∷ ws) = f w + sum_over f ws

-- Windows won, windows scored (those won or lost), and trades.
abbrev pub all_wins : List WindowSummary → ℕ
all_wins windows = sum_over (λ (w : WindowSummary). win_of w.outcome) windows

abbrev pub all_scored : List WindowSummary → ℕ
all_scored windows = all_wins windows + sum_over (λ (w : WindowSummary). loss_of w.outcome) windows

abbrev pub all_trades : List WindowSummary → ℕ
all_trades windows = sum_over (λ (w : WindowSummary). w.trade_count) windows

-- The evidence is enough to judge: windows that were scored, and trades.
abbrev pub IsEnough : List WindowSummary → GateThresholds → Type 0
IsEnough windows t =
    (t.min_scored_windows ≤ all_scored windows) × (t.min_total_trades ≤ all_trades windows)

-- The wins are at least the threshold's part of the scored windows; where none is scored the share
-- counts as 0.
abbrev pub WinsEnough : List WindowSummary → GateThresholds → Type 0
WinsEnough windows t =
    (t.min_pass_ratio *d of_nat (all_scored windows) ≤d of_nat (all_wins windows))
    × (all_scored windows ≡ 0 → t.min_pass_ratio ≤d zero_d)

-- No window's drawdown is below the limit (drawdowns and the limit are negative numbers); without
-- windows the drawdown counts as 0.
abbrev pub IsShallow : List WindowSummary → GateThresholds → Type 0
IsShallow windows t =
    ((w : WindowSummary) → Member w windows → t.max_drawdown ≤d w.max_drawdown)
    × (windows ≡ [] → t.max_drawdown ≤d zero_d)

count_of-scored : (windows : List WindowSummary) → count_of is_scored windows ≡ all_scored windows
unfolding count_of sum_over
count_of-scored [] = refl
count_of-scored (w ∷ ws) = ground (arith, count_of-scored ws)

count_of-wins :
    (windows : List WindowSummary)
    → count_of (λ o. is_scored o && is_win o) windows ≡ all_wins windows
unfolding count_of sum_over
count_of-wins [] = refl
count_of-wins (w ∷ ws) = ground (arith, count_of-wins ws)

trades_of-eq-sum : (windows : List WindowSummary) → trades_of windows ≡ all_trades windows
unfolding trades_of sum_over
trades_of-eq-sum [] = refl
trades_of-eq-sum (w ∷ ws) = omega (arith, trades_of-eq-sum ws)

le-min_d : (a b c : Decimal) → (a ≤d min_d b c) ↔ ((a ≤d b) × (a ≤d c))
le-min_d a b c = (
  λ h. (≤d_trans a (min_d b c) b h (min_d-le b c).0, ≤d_trans a (min_d b c) c h (min_d-le b c).1),
  λ h. elim (min_d-cases b c) [ inl e ↦ rw e h.0 | inr e ↦ rw e h.1 ],
)

worst_from_iff :
    (a worst : Decimal) (windows : List WindowSummary)
    → (a ≤d worst_from worst windows)
      ↔ ((a ≤d worst) × ((w : WindowSummary) → Member w windows → a ≤d w.max_drawdown))
worst_from_iff a worst [] = (λ h. (h, λ w m. absurd m), λ h. h.0)
worst_from_iff a worst (w ∷ ws) =
    let rest = worst_from_iff a (min_d worst w.max_drawdown) ws in
    let step = le-min_d a worst w.max_drawdown in
    (
      λ h.
          let (low, all) = rest.0 h in
          ((step.0 low).0, λ x m. elim m [ inl e ↦ rw e (step.0 low).1 | inr n ↦ all x n ]),
      λ h. rest.1 (step.1 (h.0, h.1 w (inl refl)), λ x m. h.1 x (inr m)),
    )

worst_drawdown_iff :
    (windows : List WindowSummary) (t : GateThresholds)
    → (t.max_drawdown ≤d worst_drawdown windows) ↔ IsShallow windows t
unfolding worst_drawdown
worst_drawdown_iff [] t = (λ h. (λ w m. absurd m, λ e. h), λ h. h.1 refl)
worst_drawdown_iff (w ∷ ws) t =
    let rest = worst_from_iff t.max_drawdown w.max_drawdown ws in
    (
      λ h.
          let (low, all) = rest.0 h in
          (λ x m. elim m [ inl e ↦ rw e low | inr n ↦ all x n ], λ e. cc),
      λ h. rest.1 (h.0 w (inl refl), λ x m. h.0 x (inr m)),
    )

ratio_iff :
    (a : Decimal) (wins scored : ℕ)
    → (a ≤d pass_ratio wins scored)
      ↔ ((a *d of_nat scored ≤d of_nat wins) × (scored ≡ 0 → a ≤d zero_d))
unfolding pass_ratio div_nat ◌*d◌
ratio_iff a wins zero = (λ h. (omega arith, λ e. omega arith), λ h. omega (arith, h.1 refl))
ratio_iff a wins (suc n) =
    let scored : (suc n == 0) ≡ false = ground arith in
    rw scored (
      λ h. (omega (arith, h), λ e. absurd (omega arith)),
      λ h. let part = h.0 in omega (arith, part),
    )

verdict_iff :
    (windows : List WindowSummary) (t : GateThresholds)
    → (((evaluate_gate windows t).verdict ≡ pass) ↔ (
        IsEnough windows t
        × (t.min_pass_ratio ≤d pass_ratio (all_wins windows) (all_scored windows))
        × (t.max_drawdown ≤d worst_drawdown windows)))
      × (((evaluate_gate windows t).verdict ≡ insufficient_evidence) ↔ ¬ (IsEnough windows t))
unfolding evaluate_gate
verdict_iff windows t =
    rw (count_of-wins windows, count_of-scored windows, trades_of-eq-sum windows)
      (ground (
        arith,
        led-cases t.min_pass_ratio (pass_ratio (all_wins windows) (all_scored windows)),
        led-cases t.max_drawdown (worst_drawdown windows),
      ))

-- The gate passes a strategy exactly when there is enough evidence (scored windows, and trades), its
-- wins reach the threshold's share of the scored windows and no window's drawdown goes below the
-- limit; and it reports insufficient evidence, whatever the results, exactly when there is not
-- enough. Without scored windows the share counts as 0, and without windows the drawdown does.
pub evaluate_gate_iff :
    (windows : List WindowSummary) (t : GateThresholds)
    → (((evaluate_gate windows t).verdict ≡ pass)
        ↔ (IsEnough windows t × WinsEnough windows t × IsShallow windows t))
      × (((evaluate_gate windows t).verdict ≡ insufficient_evidence) ↔ ¬ (IsEnough windows t))
evaluate_gate_iff windows t =
    let (passes, lacks) = verdict_iff windows t in
    let ratio = ratio_iff t.min_pass_ratio (all_wins windows) (all_scored windows) in
    let drawdown = worst_drawdown_iff windows t in
    (
      (
        λ h. let (enough, wins, low) = passes.0 h in (enough, ratio.0 wins, drawdown.0 low),
        λ h. passes.1 (h.0, ratio.1 h.1, drawdown.1 h.2),
      ),
      lacks,
    )
