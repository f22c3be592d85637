-- ===== src/Dsl/Combinations.antt =====
-- `param_combinations` of backend/src/stk/domain/dsl/validate.py.
use stock_analyser.Prelude.{
  ℕ, suc, ◌*◌, ◌≡◌, refl, ap, ◌∙◌, sym, subst, ◌↔◌, inl, inr, arith, max, List, [], ◌∷◌, map,
  length, length-append, Member, Member-append, append-Member,
}
use stock_analyser.Decimal.{Decimal}
use stock_analyser.Dsl.Evaluate.{Params}
use stock_analyser.Dsl.Params.{Defs, grid_of, prefix_all, param_combinations}
use stock_analyser.Dsl.Validate.{combos}

length-map : {A B : Type 0} (f : A → B) (xs : List A) → length (map f xs) ≡ length xs
length-map f [] = refl
length-map f (x ∷ xs) = ap suc (length-map f xs)

length-prefix_all :
    (n : ℕ) (vs : List Decimal) (later : List Params)
    → length (prefix_all n vs later) ≡ length vs * length later
unfolding prefix_all
length-prefix_all n [] later = omega arith
length-prefix_all n (v ∷ vs) later =
    length-append (map (λ ps. (n, v) ∷ ps) later) (prefix_all n vs later)
    ∙ omega (arith, length-map (λ (ps : Params). (n, v) ∷ ps) later, length-prefix_all n vs later)

length-grid_of : (d : Decimal) (grid : List Decimal) → length (grid_of d grid) ≡ max 1 (length grid)
length-grid_of d [] = refl
length-grid_of d (v ∷ vs) = omega arith

pub length-param_combinations : (defs : Defs) → length (param_combinations defs) ≡ combos defs
unfolding param_combinations combos
length-param_combinations [] = refl
length-param_combinations ((n, p) ∷ rest) =
    length-prefix_all n (grid_of p.default p.grid) (param_combinations rest)
    ∙ rw (length-grid_of p.default p.grid, length-param_combinations rest) refl

-- A choice of one grid value for each parameter, in their order; of a parameter without a grid, its
-- default.
abbrev pub Chooses : Defs → Params → Type 0
Chooses [] [] = Unit
Chooses ((n, p) ∷ rest) ((k, v) ∷ ps) =
    (k ≡ n) × Member v (grid_of p.default p.grid) × Chooses rest ps
Chooses _ _ = ⊥

Member-map :
    (n : ℕ) (v : Decimal) (ps : Params) (later : List Params)
    → Member ps (map (λ qs. (n, v) ∷ qs) later)
    → (qs : Params) × Member qs later × (ps ≡ (n, v) ∷ qs)
Member-map n v ps [] m = elim m [ ]
Member-map n v ps (qs ∷ later) (inl e) = (qs, inl refl, e)
Member-map n v ps (qs ∷ later) (inr m) =
    let (rs, k, e) = Member-map n v ps later m in (rs, inr k, e)

map-Member :
    (n : ℕ) (v : Decimal) (qs : Params) (later : List Params)
    → Member qs later
    → Member ((n, v) ∷ qs) (map (λ rs. (n, v) ∷ rs) later)
map-Member n v qs [] m = m
map-Member n v qs (rs ∷ later) (inl e) = inl (ap (λ ts. (n, v) ∷ ts) e)
map-Member n v qs (rs ∷ later) (inr m) = inr (map-Member n v qs later m)

Member-prefix_all :
    (n : ℕ) (vs : List Decimal) (later : List Params) (ps : Params)
    → Member ps (prefix_all n vs later)
    → (v : Decimal) × (qs : Params) × Member v vs × Member qs later × (ps ≡ (n, v) ∷ qs)
unfolding prefix_all
Member-prefix_all n [] later ps m = elim m [ ]
Member-prefix_all n (v ∷ vs) later ps m =
    elim (append-Member ps (map (λ qs. (n, v) ∷ qs) later) (prefix_all n vs later) m) [
      | inl k ↦ let (qs, q, e) = Member-map n v ps later k in (v, qs, inl refl, q, e)
      | inr k ↦ let (w, qs, mw, q, e) = Member-prefix_all n vs later ps k in (w, qs, inr mw, q, e)
    ]

prefix_all-Member :
    (n : ℕ) (vs : List Decimal) (later : List Params) (v : Decimal) (qs : Params)
    → Member v vs
    → Member qs later
    → Member ((n, v) ∷ qs) (prefix_all n vs later)
unfolding prefix_all
prefix_all-Member n [] later v qs m k = m
prefix_all-Member n (w ∷ vs) later v qs (inl e) k =
    Member-append _ (map (λ rs. (n, w) ∷ rs) later) _ (inl (rw e (map-Member n w qs later k)))
prefix_all-Member n (w ∷ vs) later v qs (inr m) k =
    Member-append _ (map (λ rs. (n, w) ∷ rs) later) _ (inr (prefix_all-Member n vs later v qs m k))

cons-not-nil : {A : Type 0} (x : A) (xs : List A) → ¬ ([] ≡ x ∷ xs)
cons-not-nil x xs h = cc

-- `param_combinations` lists exactly the choices of one grid value for each parameter.
pub param_combinations_iff :
    (defs : Defs) (ps : Params) → Member ps (param_combinations defs) ↔ Chooses defs ps
unfolding param_combinations
param_combinations_iff [] [] = (λ m. tt, λ h. inl refl)
param_combinations_iff [] (p ∷ ps) = (λ m. elim m [ inl e ↦ cc | inr k ↦ absurd k ], λ h. absurd h)
param_combinations_iff ((n, p) ∷ rest) [] = (
  λ m.
      let (v, qs, mv, q, e) =
        Member-prefix_all n (grid_of p.default p.grid) (param_combinations rest) [] m in
      let bad : ◌≡◌ {A = Params} [] ((n, v) ∷ qs) = e in absurd (cons-not-nil _ _ bad),
  λ h. absurd h,
)
param_combinations_iff ((n, p) ∷ rest) ((k, v) ∷ ps) = (
  λ m.
      let (w, qs, mw, q, e) = Member-prefix_all n _ _ ((k, v) ∷ ps) m in
      let h = (param_combinations_iff rest qs).0 q in
      subst (Chooses ((n, p) ∷ rest)) (sym e) (refl, mw, h),
  λ (e, m, h). rw e (prefix_all-Member n _ _ v ps m ((param_combinations_iff rest ps).1 h)),
)
