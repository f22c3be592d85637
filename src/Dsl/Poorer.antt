-- ===== src/Dsl/Poorer.antt =====
-- Missing cells in the arithmetic and the comparisons of backend/src/stk/domain/dsl/evaluate.py.
use stock_analyser.Prelude.{
  ◌≡◌, refl, ◌⊎◌, inl, inr, Bool, true, false, ◌&&◌, ◌||◌, arith, Bool-cases, Result, ok, err,
  ◌>>=◌,
}
use stock_analyser.Dsl.{Arith, op_mul, op_add, op_sub, op_div}
use stock_analyser.Dsl.Cells.{
  Cell, missing, fin, mul_cell, add_cell, sub_cell, div_cell, replace_zero, lt_cell, le_cell,
}
use stock_analyser.Decimal.{Decimal, zero_d, eqd}
use stock_analyser.Dsl.Catalogue.{Column}
use stock_analyser.Dsl.Evaluate.{
  Row, EvalError, arith_scalars, Value, scalar, column_value, cell_or_missing, as_series,
  arith_value, arith_cells, divisor,
}

pub and_map :
    {a b c d : Bool} → (a ≡ true → c ≡ true) → (b ≡ true → d ≡ true) → a && b ≡ true → c && d ≡ true
and_map p q h = ground arith

pub or_map :
    {a b c d : Bool} → (a ≡ true → c ≡ true) → (b ≡ true → d ≡ true) → a || b ≡ true → c || d ≡ true
or_map p q h = ground arith

pub and_split : {a b : Bool} → a && b ≡ true → (a ≡ true) × (b ≡ true)
and_split h = ground arith

-- The first cell is the second one, or missing.
abbrev pub IsPoorer : Cell → Cell → Type 0
IsPoorer a b = (a ≡ missing) ⊎ (a ≡ b)

-- Some cells of the second row are missing in the first, and all others are the same.
abbrev pub IsPoorerRow : Row → Row → Type 0
IsPoorerRow row row' =
    (col : Column) (prev : Bool)
    → IsPoorer (cell_or_missing (row.cell col prev)) (cell_or_missing (row'.cell col prev))

pub arith_cells-missing : (o : Arith) (b : Cell) → arith_cells o missing b ≡ missing
unfolding mul_cell add_cell sub_cell div_cell
arith_cells-missing op_mul b = refl
arith_cells-missing op_add b = refl
arith_cells-missing op_sub b = refl
arith_cells-missing op_div b = refl

pub arith_cells-missing_right : (o : Arith) (a : Cell) → arith_cells o a missing ≡ missing
unfolding mul_cell add_cell sub_cell div_cell
arith_cells-missing_right op_mul a = ground arith
arith_cells-missing_right op_add a = ground arith
arith_cells-missing_right op_sub a = ground arith
arith_cells-missing_right op_div a = ground arith

pub arith_cells-IsPoorer :
    (o : Arith) (a a' b b' : Cell)
    → IsPoorer a a'
    → IsPoorer b b'
    → IsPoorer (arith_cells o a b) (arith_cells o a' b')
arith_cells-IsPoorer o a a' b b' (inl e) k = inl (rw e (arith_cells-missing o b))
arith_cells-IsPoorer o a a' b b' (inr e) (inl k) = inl (rw k (arith_cells-missing_right o a))
arith_cells-IsPoorer o a a' b b' (inr e) (inr k) = inr (rw (e, k) refl)

pub divisor-IsPoorer :
    (o : Arith) (b b' : Cell) → IsPoorer b b' → IsPoorer (divisor o b) (divisor o b')
unfolding replace_zero
divisor-IsPoorer op_div b b' (inl e) = inl (rw e refl)
divisor-IsPoorer op_div b b' (inr e) = inr (rw e refl)
divisor-IsPoorer op_mul b b' h = h
divisor-IsPoorer op_add b b' h = h
divisor-IsPoorer op_sub b b' h = h

pub compare-missing : (b : Cell) → (lt_cell b missing ≡ false) × (le_cell b missing ≡ false)
unfolding lt_cell le_cell
compare-missing b = ground arith

-- A comparison that holds of poorer cells holds of the full ones.
pub lt_cell-IsPoorer :
    (a a' b b' : Cell) → IsPoorer a a' → IsPoorer b b' → lt_cell a b ≡ true → lt_cell a' b' ≡ true
unfolding lt_cell
lt_cell-IsPoorer a a' b b' (inl e) k h = let bad = rw e at h in cc
lt_cell-IsPoorer a a' b b' (inr e) (inl k) h =
    let bad = rw k at h in let z = (compare-missing a).0 in cc
lt_cell-IsPoorer a a' b b' (inr e) (inr k) h = rw (← e, ← k) h

pub le_cell-IsPoorer :
    (a a' b b' : Cell) → IsPoorer a a' → IsPoorer b b' → le_cell a b ≡ true → le_cell a' b' ≡ true
unfolding le_cell
le_cell-IsPoorer a a' b b' (inl e) k h = let bad = rw e at h in cc
le_cell-IsPoorer a a' b b' (inr e) (inl k) h =
    let bad = rw k at h in let z = (compare-missing a).1 in cc
le_cell-IsPoorer a a' b b' (inr e) (inr k) h = rw (← e, ← k) h

-- Two runs that raise the same, or have related values.
abbrev pub Related :
    {A B : Type 0} → (A → B → Type 0) → Result EvalError A → Result EvalError B → Type 0
Related R (ok a) (ok b) = R a b
Related R (err e) (err f) = e ≡ f
Related R _ _ = ⊥

pub Related-bind :
    {A B C D : Type 0} (R : A → B → Type 0) (S : C → D → Type 0) (run : Result EvalError A)
    (run' : Result EvalError B) (f : A → Result EvalError C) (g : B → Result EvalError D)
    → Related R run run'
    → ((a : A) (b : B) → R a b → Related S (f a) (g b))
    → Related S (run >>= f) (run' >>= g)
Related-bind R S (ok a) (ok b) f g h k = k a b h
Related-bind R S (err e) (err e') f g h k = h
Related-bind R S (ok a) (err e') f g h k = elim h [ ]
Related-bind R S (err e) (ok b) f g h k = elim h [ ]

abbrev pub PoorerValue : Value → Value → Type 0
PoorerValue (scalar d) (scalar d') = d ≡ d'
PoorerValue (column_value c) (column_value c') = IsPoorer c c'
PoorerValue _ _ = ⊥

abbrev pub Implies : Bool → Bool → Type 0
Implies b b' = b ≡ true → b' ≡ true

pub scalars-Related :
    (o : Arith) (a b : Decimal) → Related PoorerValue (arith_scalars o a b) (arith_scalars o a b)
scalars-Related op_mul a b = refl
scalars-Related op_add a b = refl
scalars-Related op_sub a b = refl
scalars-Related op_div a b = elim (Bool-cases (eqd b zero_d)) [
  | inl e ↦ rw e refl
  | inr e ↦ rw e refl
]

pub arith_value-Related :
    (o : Arith) (a a' b b' : Value)
    → PoorerValue a a'
    → PoorerValue b b'
    → Related PoorerValue (arith_value o a b) (arith_value o a' b')
unfolding arith_value
arith_value-Related o (scalar a) (scalar a') (scalar b) (scalar b') h k =
    rw (← h, ← k) (scalars-Related o a b)
arith_value-Related o (scalar a) (scalar a') (column_value b) (column_value b') h k =
    rw (← h) (arith_cells-IsPoorer o (fin a) (fin a) _ _ (inr refl) (divisor-IsPoorer o b b' k))
arith_value-Related o (column_value a) (column_value a') (scalar b) (scalar b') h k =
    rw (← k) (arith_cells-IsPoorer o a a' (fin b) (fin b) h (inr refl))
arith_value-Related o (column_value a) (column_value a') (column_value b) (column_value b') h k =
    arith_cells-IsPoorer o a a' _ _ h (divisor-IsPoorer o b b' k)
arith_value-Related o (scalar a) (scalar a') (scalar b) (column_value b') h k = elim k [ ]
arith_value-Related o (scalar a) (scalar a') (column_value b) (scalar b') h k = elim k [ ]
arith_value-Related o (scalar a) (column_value a') b _ h k = elim h [ ]
arith_value-Related o (column_value a) (scalar a') b _ h k = elim h [ ]
arith_value-Related o (column_value a) (column_value a') (scalar b) (column_value b') h k =
    elim k [ ]
arith_value-Related o (column_value a) (column_value a') (column_value b) (scalar b') h k =
    elim k [ ]

pub as_series-IsPoorer : (v w : Value) → PoorerValue v w → IsPoorer (as_series v) (as_series w)
as_series-IsPoorer (scalar d) (scalar e) h = inr (rw h refl)
as_series-IsPoorer (column_value c) (column_value d) h = h
as_series-IsPoorer (scalar d) (column_value _) h = elim h [ ]
as_series-IsPoorer (column_value c) (scalar e) h = elim h [ ]
