-- ===== src/Endpoint/Requests/Dissipated.antt =====
-- What becomes of the requests that only the table holds any more, in
-- src/tateyama/endpoint/common/worker_common.h.
use tateyama.Base.{
  zero, suc, sym, if◌then◌else◌, append_assoc, get_elem?, some, ℕ, ◌≡◌, refl, ap, ◌∙◌, Bool, true,
  false, ◌&&◌, not, ◌<◌, List, [], ◌∷◌, ◌++◌, append-nil, arith, All,
}
use tateyama.Endpoint.Requests.{
  Pending, Table, Notice, request_dissipated, is_dissipated, is_response_completed, cared,
  dissipated_notices, care_reqreses, foreach_reqreses, same_response, has_incomplete_response,
}

-- the pointers of the table itself count
abbrev pub IsHeld : Pending → Type 0
IsHeld p = (0 < p.request_count) × (0 < p.response_count)

cared-foreach_reqreses :
    (ps : List Pending) → All IsHeld ps → cared (foreach_reqreses same_response ps) ≡ cared ps
unfolding cared foreach_reqreses
cared-foreach_reqreses [] h = refl
cared-foreach_reqreses (p ∷ ps) ((a, b), h) = ground (arith, cared-foreach_reqreses ps h)

no_notices :
    (ps : List Pending)
    → All IsHeld ps
    → dissipated_notices (foreach_reqreses same_response ps) ≡ []
unfolding dissipated_notices foreach_reqreses
no_notices [] h = refl
no_notices (p ∷ ps) ((a, b), h) = ground (arith, no_notices ps h)

abbrev pub Appears : Notice → List Notice → Type 0
Appears n ns = (xs : List Notice) × (ys : List Notice) × (ns ≡ xs ++ (n ∷ ys))

behind-Appears :
    (n m : Notice) (b : Bool) (ns : List Notice)
    → Appears n ns
    → Appears n (if b then m ∷ ns else ns)
behind-Appears n m true ns (xs, ys, e) = (m ∷ xs, ys, ap (◌∷◌ m) e)
behind-Appears n m false ns h = h

after-Appears : (n : Notice) (before ns : List Notice) → Appears n ns → Appears n (before ++ ns)
after-Appears n before ns (xs, ys, e) = (
  before ++ xs,
  ys,
  ap (λ (l : List Notice). before ++ l) e ∙ sym (append_assoc before xs (n ∷ ys)),
)

notice_of :
    (ps : List Pending) (i : ℕ) (p : Pending)
    → get_elem? ps i ≡ some p
    → is_dissipated p ≡ true
    → is_response_completed p.response ≡ false
    → Appears (request_dissipated p.slot) (dissipated_notices ps)
unfolding dissipated_notices
notice_of [] i p e d c = absurd (cc)
notice_of (q ∷ qs) zero p e d c =
    let same : q ≡ p = cc in
    let noted : Bool = is_dissipated q && not (is_response_completed q.response) in
    let test : noted ≡ true = ground (
      arith,
      ap is_dissipated same ∙ d,
      ap (λ (r : Pending). is_response_completed r.response) same ∙ c,
    ) in
    (
      [],
      dissipated_notices qs,
      ap
            (λ (b : Bool).
              if b
              then request_dissipated q.slot ∷ dissipated_notices qs
              else dissipated_notices qs)
            test
          ∙ ap (λ (r : Pending). request_dissipated r.slot ∷ dissipated_notices qs) same,
    )
notice_of (q ∷ qs) (suc i) p e d c =
    behind-Appears (request_dissipated p.slot) (request_dissipated q.slot)
      (is_dissipated q && not (is_response_completed q.response)) (dissipated_notices qs)
      (notice_of qs i p e d c)

-- Of a request that only the table holds any more, and whose response is not complete, `care_reqreses`
-- tells the client. But where `has_incomplete_response` looks at the table before it, the same
-- requests go, and `care_reqreses` tells the client nothing. Each pointer of the table counts itself.
pub care_reqreses-has_incomplete_response :
    (t : Table) (i : ℕ) (p : Pending)
    → All IsHeld t.reqreses
    → get_elem? t.reqreses i ≡ some p
    → is_dissipated p ≡ true
    → is_response_completed p.response ≡ false
    → Appears (request_dissipated p.slot) (care_reqreses t).notices
      × ((care_reqreses (has_incomplete_response t).1).reqreses ≡ (care_reqreses t).reqreses)
      × ((care_reqreses (has_incomplete_response t).1).notices ≡ t.notices)
unfolding care_reqreses has_incomplete_response
care_reqreses-has_incomplete_response t i p h e d c = (
  after-Appears (request_dissipated p.slot) t.notices (dissipated_notices t.reqreses)
      (notice_of t.reqreses i p e d c),
  cared-foreach_reqreses t.reqreses h,
  ap (λ (l : List Notice). t.notices ++ l) (no_notices t.reqreses h) ∙ append-nil t.notices,
)
