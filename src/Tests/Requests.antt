-- ===== src/Tests/Requests.antt =====
-- Examples for the request queue.
use stock_analyser.Prelude.{
  List, Member, [], false, none, Option, ok, err, length, ◌+◌, ◌≤◌, ℕ, ◌∷◌, refl, true, ◌&&◌, ◌≡◌,
  ◌⊎◌,
}
use stock_analyser.Requests.{AiRequest, claim_next, enqueue, is_earlier, is_queued, kind_is, queued}
use stock_analyser.Requests.Claims.{claim_next_first, HasKeys, StartsOnly, started}
use stock_analyser.Requests.Single.{IsAnswered, count_open, enqueue-IsSingle}
use stock_analyser.Requests.Worker.{Execute, JobStatus, drain}
use stock_analyser.Requests.Draining.{count_queued, drain_empties}
use stock_analyser.Prelude.{arith, some, inl, inr}
use stock_analyser.Requests.{new_request, integrity_error}
use stock_analyser.Tests.Data.{waiting, waiting_once}

-- A waiting review, a lab and a request of no known kind.
abbrev backlog : List AiRequest
backlog = new_request 1 0 3 true 2 5 ∷ new_request 2 1 3 true 2 5 ∷ new_request 3 7 3 true 2 5 ∷ []

none_open : (kind date : ℕ) → count_open [] kind date ≤ 1
unfolding count_open
none_open kind date = omega arith

-- `enqueue-IsSingle` at a concrete input.
enqueue-IsSingle_example :
    ((r : AiRequest) × (rows' : List AiRequest) × (enqueue [] waiting [] 1 3 true 2 9
        ≡ ok (r, rows'))
      × IsAnswered 1 3 r rows')
    ⊎ ((enqueue [] waiting [] 1 3 true 2 9 ≡ err integrity_error)
        × (count_open [] 1 3 ≡ 0)
        × (count_open waiting 1 3 ≡ 1)
        × (count_open [] 1 3 ≡ 0))
enqueue-IsSingle_example =
    enqueue-IsSingle [] waiting [] 1 3 true 2 9 refl (λ k d. waiting_once k d)
      (λ k d. none_open k d)

backlog_keys : HasKeys backlog
backlog_keys = (
  λ s m. elim m [
    | inl e ↦ rw e (ground arith)
    | inr n ↦ elim n [ inl e ↦ rw e (ground arith) | inr k ↦ absurd k ]
  ],
  (λ s m. elim m [ inl e ↦ rw e (ground arith) | inr k ↦ absurd k ], (λ s m. absurd m, tt)),
)

-- `claim_next_first` at a concrete input.
claim_next_first_example :
    ((claim_next [] backlog none 9 ≡ (none, backlog))
      × ((s : AiRequest) → Member s backlog → (is_queued s.status && kind_is none s) ≡ false))
    ⊎ ((r : AiRequest) × (rows' : List AiRequest) × (claim_next [] backlog none 9
          ≡ (some (started 9 r), rows'))
        × StartsOnly backlog r 9 rows'
        × Member r backlog
        × (r.status ≡ queued)
        × (kind_is none r ≡ true)
        × ((s : AiRequest)
            → Member s backlog
            → (is_queued s.status && kind_is none s) ≡ true
            → is_earlier s r ≡ false))
claim_next_first_example = claim_next_first backlog none 9 backlog_keys

-- A job that raises on every request.
abbrev raises : Execute
raises r = err 4

-- `drain_empties` at a concrete input.
drain_empties_example :
    (count_queued (drain 3 raises backlog 9 []).1 ≡ 0)
    × (length (drain 3 raises backlog 9 []).0 ≤ length {A = ℕ × Option JobStatus} [] + 3)
unfolding count_queued
drain_empties_example = drain_empties 3 raises backlog 9 [] (ground arith)
