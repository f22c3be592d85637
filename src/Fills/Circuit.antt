-- ===== src/Fills/Circuit.antt =====
-- What a circuit lock says of the bar that it was read from.
use stock_analyser.Prelude.{
  ℕ, suc, ◌+◌, ◌-◌, ◌*◌, ◌≡◌, ◌≢◌, ◌⊎◌, ◌↔◌, inl, inr, true, arith, refl, Bool-cases, Option, some,
  none, List, [], ◌∷◌, Member, ap, if◌then◌else◌,
}
use stock_analyser.Decimal.{Decimal, den, zero_d, ◌≤d◌, ◌<d◌, ◌≈d◌, ltd, ◌-d◌, ◌*d◌, abs_d}
use stock_analyser.Decimal.Field.{div_pos}
use stock_analyser.Decimal.Order.{led-cases, ltd-cases, eqd_iff, not-<d_of_≤d}
use stock_analyser.Fills.{
  unlocked, upper, lower, BarPrices, is_frozen, band_lock, move_pct, circuit_lock,
}

-- All four prices of the bar are the same.
abbrev pub IsFrozen : BarPrices → Type 0
IsFrozen bar = (bar.opening ≈d bar.high) × (bar.high ≈d bar.low) × (bar.low ≈d bar.closing)

is_frozen_iff : (bar : BarPrices) → (is_frozen bar ≡ true) ↔ IsFrozen bar
unfolding is_frozen
is_frozen_iff bar =
    ground
      (arith, eqd_iff bar.opening bar.high, eqd_iff bar.high bar.low, eqd_iff bar.low bar.closing)

-- The move is upwards exactly when the close is above the previous one.
move_pct_iff :
    (close prev : Decimal) → zero_d <d prev → (zero_d <d move_pct close prev) ↔ (prev <d close)
unfolding move_pct ◌-d◌ ◌*d◌
move_pct_iff close prev h =
    let e : prev.up ≡ prev.down + suc (prev.up - prev.down - 1) = omega arith in
    rw (div_pos close prev (prev.up - prev.down - 1) e)
      (omega (arith, ap (λ (t : ℕ). t * den close) e))

-- Where a band is found, the direction of the move decides the lock.
band_lock-cases :
    (move tolerance : Decimal) (bands : List Decimal)
    → (band_lock move tolerance bands ≡ unlocked)
      ⊎ ((band_lock move tolerance bands ≡ (if ltd zero_d move then upper else lower))
          × ((band : Decimal) × Member band bands × (abs_d (abs_d move -d band) ≤d tolerance)))
unfolding band_lock
band_lock-cases move tolerance [] = inl refl
band_lock-cases move tolerance (band ∷ bands) =
    elim (led-cases (abs_d (abs_d move -d band)) tolerance) [
      | inl (e, h) ↦ rw e (inr (refl, (band, inl refl, h)))
      | inr (e, h) ↦ rw e (elim (band_lock-cases move tolerance bands) [
        | inl u ↦ inl u
        | inr (d, b) ↦ inr (d, (b.0, inr b.1, b.2))
      ])
    ]

-- The move is on a band, within the tolerance.
abbrev pub OnBand : Decimal → List Decimal → Decimal → Type 0
OnBand move bands tolerance =
    (band : Decimal) × Member band bands × (abs_d (abs_d move -d band) ≤d tolerance)

band_lock-locked :
    (move tolerance : Decimal) (bands : List Decimal)
    → band_lock move tolerance bands ≢ unlocked
    → OnBand move bands tolerance
      × ((band_lock move tolerance bands ≡ upper) ↔ (zero_d <d move))
      × ((band_lock move tolerance bands ≡ lower) ↔ (move ≤d zero_d))
band_lock-locked move tolerance bands h = elim (band_lock-cases move tolerance bands) [
  | inl u ↦ absurd (h u)
  | inr (d, b) ↦
      rw d (b, ground (arith, ltd-cases zero_d move), ground (arith, ltd-cases zero_d move))
]

move_pct_down :
    (close prev : Decimal) → zero_d <d prev → (move_pct close prev ≤d zero_d) ↔ (close ≤d prev)
move_pct_down close prev h =
    let up = move_pct_iff close prev h in
    (
      λ x. elim (ltd-cases prev close) [
        | inl (e, lt) ↦ absurd (not-<d_of_≤d (move_pct close prev) zero_d x (up.1 lt))
        | inr (e, le) ↦ le
      ],
      λ x. elim (ltd-cases zero_d (move_pct close prev)) [
        | inl (e, lt) ↦ absurd (not-<d_of_≤d close prev x (up.0 lt))
        | inr (e, le) ↦ le
      ],
    )

-- A bar is locked only if its previous close is known and positive, all its prices are the same,
-- and its move is on a band. It is then an upper lock exactly when it closed above the previous
-- close, and a lower lock exactly when it did not.
pub circuit_lock-locked :
    (bar : BarPrices) (prev_close : Option Decimal) (bands : List Decimal) (tolerance : Decimal)
    → circuit_lock bar prev_close bands tolerance ≢ unlocked
    → (prev : Decimal) × (prev_close ≡ some prev)
      × (zero_d <d prev)
      × IsFrozen bar
      × OnBand (move_pct bar.closing prev) bands tolerance
      × ((circuit_lock bar prev_close bands tolerance ≡ upper) ↔ (prev <d bar.closing))
      × ((circuit_lock bar prev_close bands tolerance ≡ lower) ↔ (bar.closing ≤d prev))
unfolding circuit_lock
circuit_lock-locked bar none bands tolerance h = absurd (h refl)
circuit_lock-locked bar (some prev) bands tolerance h = elim (led-cases prev zero_d) [
  | inl (e, _) ↦ absurd (let h' = rw e at h in h' refl)
  | inr (e, p) ↦
      let h' = rw e at h in
      rw e (elim (Bool-cases (is_frozen bar)) [
        | inr f ↦ absurd (let h'' = rw f at h' in h'' refl)
        | inl f ↦
            let move = move_pct bar.closing prev in
            let h'' : band_lock move tolerance bands ≢ unlocked = rw f at h' in
            let (band, up, down) = band_lock-locked move tolerance bands h'' in
            let ups = move_pct_iff bar.closing prev p in
            let downs = move_pct_down bar.closing prev p in
            rw f (
              prev,
              refl,
              p,
              (is_frozen_iff bar).0 f,
              band,
              (λ x. ups.0 (up.0 x), λ x. up.1 (ups.1 x)),
              (λ x. downs.0 (down.0 x), λ x. down.1 (downs.1 x)),
            )
      ])
]
