-- ===== src/Orders/Oco.antt =====
-- One order of a group of mutually exclusive orders fills: the stop-loss if it is touched.
use stock_analyser.Prelude.{
  ◌≡◌, ◌⊎◌, sym, ap, ◌∙◌, IsOrderedBy, inl, inr, true, false, arith, ok, Option, none, some, List,
  [], ◌∷◌, Member, sort_by, Member-sort_by, sort_by-Member, sort_by-IsOrderedBy, All-Member,
  >>=-eq-ok, ok-injective,
}
use stock_analyser.Fills.{Lock}
use stock_analyser.Orders.{
  Order, Candle, Fill, Hit, stop_loss, try_fill, collect_hits, stop_first, cons_hit, first_hit,
  resolve_oco,
}

-- The pair is a hit: an order of the group with the fill that the candle gives it.
abbrev pub IsHit : List Order → Candle → Lock → Hit → Type 0
IsHit orders candle lock hit = Member hit.0 orders × (try_fill hit.0 candle lock ≡ ok (some hit.1))

stop_wins :
    (a b : Hit) → b.0.order_type ≡ stop_loss → stop_first b a ≡ false → a.0.order_type ≡ stop_loss
stop_wins a b h k = ground arith

cons_hit-Member :
    (order : Order) (r : Option Fill) (hits : List Hit) (hit : Hit)
    → Member hit (cons_hit order r hits)
    → ((r ≡ some hit.1) × (order ≡ hit.0)) ⊎ Member hit hits
cons_hit-Member order none hits hit m = inr m
cons_hit-Member order (some f) hits hit (inl e) = inl (ground arith)
cons_hit-Member order (some f) hits hit (inr m) = inr m

collect_hits_sound :
    (orders : List Order) (candle : Candle) (lock : Lock) (hits : List Hit) (hit : Hit)
    → collect_hits orders candle lock ≡ ok hits
    → Member hit hits
    → IsHit orders candle lock hit
unfolding collect_hits
collect_hits_sound [] candle lock hits hit e m =
    let same : [] ≡ hits = cc in absurd (rw (← same) at m)
collect_hits_sound (o ∷ os) candle lock hits hit e m =
    let (r, er, e') = >>=-eq-ok (try_fill o candle lock) _ e in
    let (hs, es, e'') = >>=-eq-ok (collect_hits os candle lock) _ e' in
    let same : cons_hit o r hs ≡ hits = cc in
    elim (cons_hit-Member o r hs hit (rw (← same) at m)) [
      | inl (f, p) ↦ (inl (sym p), rw (← p) (er ∙ ap ok f))
      | inr m' ↦
          let (there, fills) = collect_hits_sound os candle lock hs hit es m' in (inr there, fills)
    ]

Member-cons_hit :
    (order : Order) (r : Option Fill) (hits : List Hit) (hit : Hit)
    → ((r ≡ some hit.1) × (order ≡ hit.0)) ⊎ Member hit hits
    → Member hit (cons_hit order r hits)
Member-cons_hit order none hits hit (inl e) = cc e.0
Member-cons_hit order none hits hit (inr m) = m
Member-cons_hit order (some f) hits hit (inl e) = inl (ground arith)
Member-cons_hit order (some f) hits hit (inr m) = inr m

collect_hits_complete :
    (orders : List Order) (candle : Candle) (lock : Lock) (hits : List Hit) (hit : Hit)
    → collect_hits orders candle lock ≡ ok hits
    → IsHit orders candle lock hit
    → Member hit hits
unfolding collect_hits
collect_hits_complete [] candle lock hits hit e h = absurd h.0
collect_hits_complete (o ∷ os) candle lock hits hit e (m, fills) =
    let (r, er, e') = >>=-eq-ok (try_fill o candle lock) _ e in
    let (hs, es, e'') = >>=-eq-ok (collect_hits os candle lock) _ e' in
    let same : cons_hit o r hs ≡ hits = cc in
    rw (← same) (
      Member-cons_hit o r hs hit (elim m [
        | inl p ↦
            let g : try_fill o candle lock ≡ ok (some hit.1) = rw (← p) fills in
            inl (ok-injective r (some hit.1) (sym er ∙ g), sym p)
        | inr there ↦ inr (collect_hits_complete os candle lock hs hit es (there, fills))
      ]))

stop_first-asym : (a b : Hit) → stop_first a b ≡ true → stop_first b a ≡ false
stop_first-asym a b h = ground arith

stop_first-chain :
    (a b c : Hit) → stop_first b a ≡ false → stop_first c b ≡ false → stop_first c a ≡ false
stop_first-chain a b c h k = ground arith

-- The first of a sorted list comes from it, and nothing in it should come before it.
first_hit-least :
    (hits : List Hit) (hit : Hit)
    → first_hit (sort_by stop_first hits) ≡ some hit
    → Member hit hits × ((other : Hit) → Member other hits → stop_first other hit ≡ false)
first_hit-least hits hit e =
    go (sort_by stop_first hits) e
      (sort_by-IsOrderedBy stop_first stop_first-asym stop_first-chain hits)
      (λ x. Member-sort_by stop_first x hits) (λ x. sort_by-Member stop_first x hits)
  where
    go :
        (sorted : List Hit)
        → first_hit sorted ≡ some hit
        → IsOrderedBy stop_first sorted
        → ((x : Hit) → Member x sorted → Member x hits)
        → ((x : Hit) → Member x hits → Member x sorted)
        → Member hit hits × ((other : Hit) → Member other hits → stop_first other hit ≡ false)
    go [] e o into from = cc
    go (x ∷ xs) e o into from =
        let same : x ≡ hit = cc in
        (
          into hit (inl (sym same)),
          λ other m. rw (← same) (elim (from other m) [
            | inl p ↦ rw p (ground arith)
            | inr q ↦ All-Member (λ y. stop_first y x ≡ false) xs other o.0 q
          ]),
        )

-- What `resolve_oco` gives is an order of the group with its own fill. If any stop-loss of the
-- group fills on the candle, then the one chosen is a stop-loss.
pub resolve_oco-some :
    (orders : List Order) (candle : Candle) (lock : Lock) {hit : Hit}
    → resolve_oco orders candle lock ≡ ok (some hit)
    → IsHit orders candle lock hit
      × ((other : Hit)
          → IsHit orders candle lock other
          → other.0.order_type ≡ stop_loss
          → hit.0.order_type ≡ stop_loss)
unfolding resolve_oco
resolve_oco-some orders candle lock {hit} e =
    let (hits, eh, e') = >>=-eq-ok (collect_hits orders candle lock) _ e in
    let (m, least) = first_hit-least hits hit (ok-injective _ _ e') in
    (
      collect_hits_sound orders candle lock hits hit eh m,
      λ other h stop.
          stop_wins hit other stop
            (least other (collect_hits_complete orders candle lock hits other eh h)),
    )

-- Where it gives nothing, no order of the group fills on the candle.
pub resolve_oco-none :
    (orders : List Order) (candle : Candle) (lock : Lock)
    → resolve_oco orders candle lock ≡ ok none
    → (hit : Hit) → ¬ IsHit orders candle lock hit
unfolding resolve_oco
resolve_oco-none orders candle lock e hit h =
    let (hits, eh, e') = >>=-eq-ok (collect_hits orders candle lock) _ e in
    nothing (sort_by stop_first hits) (ok-injective _ _ e')
      (sort_by-Member stop_first hit hits (collect_hits_complete orders candle lock hits hit eh h))
  where
    nothing : (sorted : List Hit) → first_hit sorted ≡ none → ¬ Member hit sorted
    nothing [] e m = m
    nothing (x ∷ xs) e m = cc
