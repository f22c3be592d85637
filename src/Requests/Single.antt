-- ===== src/Requests/Single.antt =====
-- At most one open request for a kind and a date (backend/src/stk/store/db/repos/ai_requests.py).
use stock_analyser.Prelude.{
  ℕ, ◌+◌, ◌≤◌, ◌≡◌, inl, inr, refl, true, arith, Bool, if◌then◌else◌, ◌&&◌, Option, none, some,
  Option-cases, List, [], ◌∷◌, ◌⊎◌, ok, err, ok-injective, Bool-cases, subst,
}
use stock_analyser.Requests.{
  integrity_error, AiRequest, RequestStatus, is_open, is_for, is_final, open_request, is_known_kind,
  insert_queued, new_request, next_request_id, answer, enqueue, start_request, finish_rows, finish,
}

-- How many requests of the kind and the date are open.
unfoldable pub count_open : List AiRequest → ℕ → ℕ → ℕ
count_open [] kind date = 0
count_open (r ∷ rs) kind date =
    (if is_for kind date r && is_open r.status then 1 else 0) + count_open rs kind date

abbrev pub IsSingle : List AiRequest → Type 0
IsSingle rows = (kind date : ℕ) → count_open rows kind date ≤ 1

open_request-none :
    (rows : List AiRequest) (kind date : ℕ)
    → open_request rows kind date ≡ none
    → count_open rows kind date ≡ 0
unfolding open_request count_open
open_request-none [] kind date h = refl
open_request-none (r ∷ rs) kind date h = ground (arith, open_request-none rs kind date)

open_request-open :
    (rows : List AiRequest) (kind date : ℕ) {r : AiRequest}
    → open_request rows kind date ≡ some r
    → (r.kind ≡ kind) × (r.business_date ≡ date) × (is_open r.status ≡ true)
unfolding open_request
open_request-open [] kind date h = cc
open_request-open (x ∷ rs) kind date {r = r} h =
    ground (arith, open_request-open rs kind date {r = r})

new-single :
    (rows : List AiRequest) (kind date k d : ℕ) (r : AiRequest)
    → r.kind ≡ kind
    → r.business_date ≡ date
    → count_open rows kind date ≡ 0
    → count_open rows k d ≤ 1
    → count_open (r ∷ rows) k d ≤ 1
unfolding count_open
new-single rows kind date k d r p q none_open single = elim (Bool-cases (is_for k d r)) [
  | inl e ↦
      let same_kind : kind ≡ k = ground (arith, e, p) in
      let same_date : date ≡ d = ground (arith, e, q) in
      let zero_open : count_open rows k d ≡ 0 =
        subst (λ x. count_open rows x d ≡ 0) same_kind
          (subst (λ x. count_open rows kind x ≡ 0) same_date none_open) in
      ground (arith, zero_open)
  | inr e ↦ ground (arith, e, single)
]

open_request-some :
    (rows : List AiRequest) (kind date : ℕ) {r : AiRequest}
    → open_request rows kind date ≡ some r
    → 1 ≤ count_open rows kind date
unfolding open_request count_open
open_request-some [] kind date h = cc
open_request-some (x ∷ rs) kind date {r = r} h =
    ground (arith, open_request-some rs kind date {r = r})

-- The answer is an open request of the asked kind and date, and the rows have at most one of each.
abbrev pub IsAnswered : ℕ → ℕ → AiRequest → List AiRequest → Type 0
IsAnswered kind date r rows' =
    (r.kind ≡ kind) × (r.business_date ≡ date) × (is_open r.status ≡ true) × IsSingle rows'

-- For a kind of the table, in a table with at most one open request of each kind and date, whatever
-- another writer did between the statements: `enqueue` answers with an open request of the asked
-- kind and date, and at most one of each kind and date is open. It raises only where such a request
-- was open at its `INSERT`, but neither at its first query nor at the one after the `INSERT` failed.
pub enqueue-IsSingle :
    (seen rows later : List AiRequest) (kind date : ℕ) (force : Bool) (requested_by now : ℕ)
    → is_known_kind kind ≡ true
    → IsSingle rows
    → IsSingle later
    → ((r : AiRequest) × (rows' : List AiRequest) × (enqueue seen rows later kind date force
            requested_by now
          ≡ ok (r, rows'))
        × IsAnswered kind date r rows')
      ⊎ ((enqueue seen rows later kind date force requested_by now ≡ err integrity_error)
          × (count_open seen kind date ≡ 0)
          × (count_open rows kind date ≡ 1)
          × (count_open later kind date ≡ 0))
unfolding enqueue answer insert_queued is_open
enqueue-IsSingle seen rows later kind date force requested_by now known single still =
    elim (Option-cases (open_request seen kind date)) [
      | inr (r, e) ↦
          let (k, d, o) = open_request-open seen kind date e in
          inl (r, rows, rw e refl, (k, d, o, single))
      | inl e ↦ elim (Option-cases (open_request rows kind date)) [
        | inr (x, f) ↦ elim (Option-cases (open_request later kind date)) [
          | inr (r, g) ↦
              let (k, d, o) = open_request-open later kind date g in
              inl (r, later, rw e (rw (known, f) (rw g refl)), (k, d, o, still))
          | inl g ↦ inr (
            rw e (rw (known, f) (rw g refl)),
            open_request-none seen kind date e,
            omega (arith, single kind date, open_request-some rows kind date f),
            open_request-none later kind date g,
          )
        ]
        | inl f ↦
            let new = new_request (next_request_id rows) kind date force requested_by now in
            inl (
              new,
              new ∷ rows,
              rw e (rw (known, f) refl),
              (
                refl,
                refl,
                refl,
                λ k d.
                    new-single rows kind date k d new refl refl (open_request-none rows kind date f)
                      (single k d),
              ),
            )
      ]
    ]

pub start_request-count :
    (rows : List AiRequest) (id now kind date : ℕ)
    → count_open (start_request rows id now) kind date ≡ count_open rows kind date
unfolding start_request count_open is_open
start_request-count [] id now kind date = refl
start_request-count (r ∷ rs) id now kind date =
    ground (arith, start_request-count rs id now kind date)

finish_rows-count :
    (rows : List AiRequest) (id : ℕ) (status : RequestStatus) (now : ℕ) (run_id error : Option ℕ)
    (kind date : ℕ)
    → is_final status ≡ true
    → count_open (finish_rows rows id status now run_id error) kind date ≤ count_open rows kind date
unfolding finish_rows count_open is_open
finish_rows-count [] id status now run_id error kind date h = omega arith
finish_rows-count (r ∷ rs) id status now run_id error kind date h =
    ground (arith, finish_rows-count rs id status now run_id error kind date h)

-- Claiming and closing requests never makes a second one open.
pub finish-IsSingle :
    (rows : List AiRequest) (id : ℕ) (status : RequestStatus) (now : ℕ) (run_id error : Option ℕ)
    {rows' : List AiRequest}
    → IsSingle rows
    → finish rows id status now run_id error ≡ ok rows'
    → (is_final status ≡ true) × IsSingle rows'
unfolding finish
finish-IsSingle rows id status now run_id error {rows' = rows'} single h =
    elim (Bool-cases (is_final status)) [
      | inl e ↦ (
        e,
        subst IsSingle
            (ok-injective (finish_rows rows id status now run_id error) rows' (rw e at h))
            (λ k d.
              omega (arith, finish_rows-count rows id status now run_id error k d e, single k d)),
      )
      | inr e ↦ absurd (ground (arith, e, h))
    ]
