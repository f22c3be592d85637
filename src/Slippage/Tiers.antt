-- ===== src/Slippage/Tiers.antt =====
-- Which tier a name falls in.
use stock_analyser.Prelude.{
  ◌≡◌, ◌⊎◌, inl, inr, refl, true, false, ok, none, some, List, [], ◌∷◌, Member, sort_by,
  Member-sort_by, sort_by-Member, sort_by-IsOrderedBy, IsOrderedBy, All-Member, ap, ◌∙◌,
}
use stock_analyser.Decimal.{Decimal, ◌≤d◌, ◌<d◌, max_d}
use stock_analyser.Decimal.Order.{
  ltd_iff, ltd_false, led-cases, ltd-cases, ≤d_refl, ≤d_trans, ≤d_of_<d, le-max_d, max_d-cases,
  not-<d_of_≤d,
}
use stock_analyser.Slippage.{
  SlippageTier, larger_first, max_bps, first_reached, slippage_bps, reached_of,
}

larger_first_false :
    (a b : SlippageTier)
    → larger_first b a ≡ false
    → b.min_adv_turnover_inr ≤d a.min_adv_turnover_inr
larger_first_false a b h = ltd_false a.min_adv_turnover_inr b.min_adv_turnover_inr h

false-larger_first :
    (a b : SlippageTier)
    → b.min_adv_turnover_inr ≤d a.min_adv_turnover_inr
    → larger_first b a ≡ false
false-larger_first a b h = elim (ltd-cases a.min_adv_turnover_inr b.min_adv_turnover_inr) [
  | inl (e, lt) ↦ absurd (not-<d_of_≤d b.min_adv_turnover_inr a.min_adv_turnover_inr h lt)
  | inr (e, le) ↦ e
]

larger_first-asym : (a b : SlippageTier) → larger_first a b ≡ true → larger_first b a ≡ false
larger_first-asym a b h = false-larger_first a b (
    ≤d_of_<d b.min_adv_turnover_inr a.min_adv_turnover_inr
      ((ltd_iff b.min_adv_turnover_inr a.min_adv_turnover_inr).0 h))

larger_first-chain :
    (a b c : SlippageTier)
    → larger_first b a ≡ false
    → larger_first c b ≡ false
    → larger_first c a ≡ false
larger_first-chain a b c h k = false-larger_first a c (
    ≤d_trans c.min_adv_turnover_inr b.min_adv_turnover_inr a.min_adv_turnover_inr
      (larger_first_false b c k) (larger_first_false a b h))

-- The tier that decides at a known turnover: among those that the turnover reaches the one with
-- the highest threshold, or, where it reaches none, the one with the lowest threshold of all.
abbrev pub IsDecisive : Decimal → List SlippageTier → SlippageTier → Type 0
IsDecisive adv tiers t =
    ((t.min_adv_turnover_inr ≤d adv)
      × ((u : SlippageTier)
          → Member u tiers
          → u.min_adv_turnover_inr ≤d adv
          → u.min_adv_turnover_inr ≤d t.min_adv_turnover_inr))
    ⊎ (((u : SlippageTier) → Member u tiers → adv <d u.min_adv_turnover_inr)
        × ((u : SlippageTier) → Member u tiers → t.min_adv_turnover_inr ≤d u.min_adv_turnover_inr))

first_reached-IsDecisive :
    (adv : Decimal) (t : SlippageTier) (ts : List SlippageTier)
    → IsOrderedBy larger_first (t ∷ ts)
    → (d : SlippageTier) × Member d (t ∷ ts)
      × (first_reached adv t ts ≡ d.bps)
      × IsDecisive adv (t ∷ ts) d
first_reached-IsDecisive adv t [] o = elim (led-cases t.min_adv_turnover_inr adv) [
  | inl (e, le) ↦ (
    t,
    inl refl,
    refl,
    inl (le, λ u m h. elim m [ inl p ↦ rw p (≤d_refl t.min_adv_turnover_inr) | inr q ↦ absurd q ]),
  )
  | inr (e, lt) ↦ (
    t,
    inl refl,
    refl,
    inr (
      (λ u m. elim m [ inl p ↦ rw p lt | inr q ↦ absurd q ]),
      (λ u m. elim m [ inl p ↦ rw p (≤d_refl t.min_adv_turnover_inr) | inr q ↦ absurd q ]),
    ),
  )
]
first_reached-IsDecisive adv t (u ∷ us) o = elim (led-cases t.min_adv_turnover_inr adv) [
  | inl (e, le) ↦ rw e (
    t,
    inl refl,
    refl,
    inl (
      le,
      λ v m h. elim m [
        | inl p ↦ rw p (≤d_refl t.min_adv_turnover_inr)
        | inr q ↦
            larger_first_false t v (All-Member (λ y. larger_first y t ≡ false) (u ∷ us) v o.0 q)
      ],
    ),
  )
  | inr (e, lt) ↦
      let (d, m, b, dec) = first_reached-IsDecisive adv u us o.1 in
      let below =
        larger_first_false t d (All-Member (λ y. larger_first y t ≡ false) (u ∷ us) d o.0 m) in
      rw e (
        d,
        inr m,
        b,
        elim dec [
          | inl (le, best) ↦ inl (
            le,
            λ v m' h. elim m' [
              | inl p ↦ absurd (not-<d_of_≤d t.min_adv_turnover_inr adv (rw p at h) lt)
              | inr q ↦ best v q h
            ],
          )
          | inr (none_reached, least) ↦ inr (
            (λ v m'. elim m' [ inl p ↦ rw p lt | inr q ↦ none_reached v q ]),
            (λ v m'. elim m' [ inl p ↦ rw p below | inr q ↦ least v q ]),
          )
        ],
      )
]

-- At a known turnover the slippage is that of the decisive tier.
pub slippage_bps_known :
    (adv : Decimal) (t : SlippageTier) (ts : List SlippageTier)
    → (d : SlippageTier) × Member d (t ∷ ts)
      × (slippage_bps (some adv) (t ∷ ts) ≡ ok d.bps)
      × IsDecisive adv (t ∷ ts) d
unfolding slippage_bps
slippage_bps_known adv t ts =
    go (sort_by larger_first (t ∷ ts))
      (sort_by-IsOrderedBy larger_first larger_first-asym larger_first-chain (t ∷ ts))
      (λ x. Member-sort_by larger_first x (t ∷ ts)) (λ x. sort_by-Member larger_first x (t ∷ ts))
  where
    go :
        (sorted : List SlippageTier)
        → IsOrderedBy larger_first sorted
        → ((x : SlippageTier) → Member x sorted → Member x (t ∷ ts))
        → ((x : SlippageTier) → Member x (t ∷ ts) → Member x sorted)
        → (d : SlippageTier) × Member d (t ∷ ts)
          × (reached_of adv sorted ≡ ok d.bps)
          × IsDecisive adv (t ∷ ts) d
    go [] o into from = absurd (from t (inl refl))
    go (x ∷ xs) o into from =
        let (d, m, b, dec) = first_reached-IsDecisive adv x xs o in
        (
          d,
          into d m,
          ap ok b,
          elim dec [
            | inl (le, best) ↦ inl (le, λ u m' h. best u (from u m') h)
            | inr (none_reached, least) ↦
                inr ((λ u m'. none_reached u (from u m')), λ u m'. least u (from u m'))
          ],
        )

max_bps-least :
    (best : Decimal) (ts : List SlippageTier)
    → ((max_bps best ts ≡ best) ⊎ ((d : SlippageTier) × Member d ts × (max_bps best ts ≡ d.bps)))
      × (best ≤d max_bps best ts)
      × ((u : SlippageTier) → Member u ts → u.bps ≤d max_bps best ts)
max_bps-least best [] = (inl refl, ≤d_refl best, λ u m. absurd m)
max_bps-least best (t ∷ ts) =
    let b = max_d best t.bps in
    let (from, above, all) = max_bps-least b ts in
    let over = le-max_d best t.bps in
    (
      elim from [
        | inl e ↦ elim (max_d-cases best t.bps) [
          | inl p ↦ inl (e ∙ p)
          | inr p ↦ inr (t, inl refl, e ∙ p)
        ]
        | inr (d, m, e) ↦ inr (d, inr m, e)
      ],
      ≤d_trans best b (max_bps b ts) over.0 above,
      λ u m. elim m [
        | inl p ↦ rw p (≤d_trans t.bps b (max_bps b ts) over.1 above)
        | inr q ↦ all u q
      ],
    )

-- At an unknown turnover the slippage is that of one of the tiers, and no tier has more.
pub slippage_bps_unknown :
    (t : SlippageTier) (ts : List SlippageTier)
    → (d : SlippageTier) × Member d (t ∷ ts)
      × (slippage_bps none (t ∷ ts) ≡ ok d.bps)
      × ((u : SlippageTier) → Member u (t ∷ ts) → u.bps ≤d d.bps)
unfolding slippage_bps
slippage_bps_unknown t ts =
    let (from, above, all) = max_bps-least t.bps ts in
    let bound : (u : SlippageTier) → Member u (t ∷ ts) → u.bps ≤d max_bps t.bps ts =
      λ u m. elim m [ inl p ↦ rw p above | inr q ↦ all u q ] in
    elim from [
      | inl e ↦ (t, inl refl, ap ok e, rw e at bound)
      | inr (d, m, e) ↦ (d, inr m, ap ok e, rw e at bound)
    ]
