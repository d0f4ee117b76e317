-- ===== src/Approval/Once.antt =====
-- A pending application is decided once.
use nexusapi_enterprise.Prelude.{
  ℕ, ◌≡◌, ◌≢◌, refl, ap, sym, ◌∙◌, inl, inr, Bool, true, false, ◌&&◌, ◌==◌, Option, some, List, [],
  ◌∷◌, arith, Bool-cases, ok, err, raise_if,
}
use nexusapi_enterprise.Errors.{approval_handled}
use nexusapi_enterprise.Rbac.{Claims}
use nexusapi_enterprise.Approval.{
  ApprovalState, Approval, same_state, get_approval, ReviewerColumn, col_l1, col_l2, reviewed,
  advance_approval, may_decide, column_of, require, decided_state, DispatchEnv, Applicant, Decided,
  decide_approval,
}
use nexusapi_enterprise.Approval.Law.{Authority, request_of, decide_approval-Decision}

reviewed-id :
    (col : ReviewerColumn) (r : ℕ) (to : ApprovalState) (a : Approval)
    → ((reviewed col r to a).id ≡ a.id) × ((reviewed col r to a).state ≡ to)
reviewed-id col_l1 r to a = (refl, refl)
reviewed-id col_l2 r to a = (refl, refl)

advance-hit :
    (id : ℕ) (from to : ApprovalState) (col : ReviewerColumn) (r : ℕ) (a : Approval)
    (rows : List Approval)
    → (a.id == id && same_state a.state from) ≡ true
    → advance_approval id from to col r (a ∷ rows)
      ≡ (true, reviewed col r to a ∷ (advance_approval id from to col r rows).1)
unfolding advance_approval
advance-hit id from to col r a rows e = rw e

advance-miss :
    (id : ℕ) (from to : ApprovalState) (col : ReviewerColumn) (r : ℕ) (a : Approval)
    (rows : List Approval)
    → (a.id == id && same_state a.state from) ≡ false
    → advance_approval id from to col r (a ∷ rows)
      ≡ ((advance_approval id from to col r rows).0, a ∷ (advance_approval id from to col r rows).1)
unfolding advance_approval
advance-miss id from to col r a rows e = rw e

left_behind :
    (id : ℕ) (from to : ApprovalState) (x : Approval)
    → to ≢ from
    → x.state ≡ to
    → (x.id == id && same_state x.state from) ≡ false
left_behind id from to x ne e = ground arith

-- After an UPDATE that named a state, no row of the id is in that state.
advance_approval-again :
    (id : ℕ) (from to to' : ApprovalState) (col col' : ReviewerColumn) (r r' : ℕ)
    (rows : List Approval)
    → to ≢ from
    → (advance_approval id from to' col' r' (advance_approval id from to col r rows).1).0 ≡ false
unfolding advance_approval
advance_approval-again id from to to' col col' r r' [] ne = refl
advance_approval-again id from to to' col col' r r' (a ∷ rows) ne =
    let ih = advance_approval-again id from to to' col col' r r' rows ne in
    let rest = (advance_approval id from to col r rows).1 in
    elim (Bool-cases (a.id == id && same_state a.state from)) [
      | inl hit ↦
          let x = reviewed col r to a in
          let gone = left_behind id from to x ne (reviewed-id col r to a).1 in
          ap (λ p. (advance_approval id from to' col' r' p.1).0)
            (advance-hit id from to col r a rows hit)
          ∙ ap (λ p. p.0) (advance-miss id from to' col' r' x rest gone)
          ∙ ih
      | inr miss ↦
          ap (λ p. (advance_approval id from to' col' r' p.1).0)
            (advance-miss id from to col r a rows miss)
          ∙ ap (λ p. p.0) (advance-miss id from to' col' r' a rest miss)
          ∙ ih
    ]

decided_state-moves :
    (approves : Bool) (c : Claims) (a : Approval)
    → Authority c a
    → decided_state approves a ≢ a.state
unfolding decided_state Authority
decided_state-moves approves c a who = ground arith

-- A request is decided once: after an accepted decision, any decision by anybody of the same
-- organization that had read the request in the same state changes nothing; the UPDATE misses.
pub decide_approval-once :
    (env env' : DispatchEnv) (applicant applicant' : Option Applicant) (c c' : Claims) (id : ℕ)
    (approves approves' comment_fits : Bool) (read_rows now_rows : List Approval) {out : Decided}
    → c'.org_id ≡ c.org_id
    → decide_approval env applicant c id approves comment_fits read_rows now_rows ≡ ok out
    → may_decide c' (request_of c id read_rows) ≡ ok tt
    → decide_approval env' applicant' c' id approves' true read_rows out.rows ≡ err approval_handled
unfolding decide_approval
decide_approval-once env env' applicant applicant' c c' id approves approves' comment_fits read_rows
      now_rows {out} same e who' =
    let d =
      decide_approval-Decision env applicant c id approves comment_fits read_rows now_rows e in
    let a = d.request in
    let read' : get_approval c'.org_id id read_rows ≡ some a = rw same d.read in
    let is_a : request_of c id read_rows ≡ a = rw (d.read, request_of) in
    let may : may_decide c' a ≡ ok tt = rw is_a at who' in
    let missed =
      advance_approval-again id a.state (decided_state approves a) (decided_state approves' a)
        (column_of a.state) (column_of a.state) c.member_id c'.member_id now_rows
        (decided_state-moves approves c a d.authority) in
    let missed' : (advance_approval id a.state (decided_state approves' a) (column_of a.state)
          c'.member_id out.rows).0
        ≡ false =
      ap
        (λ p.
          (advance_approval id a.state (decided_state approves' a) (column_of a.state) c'.member_id
            p.1).0)
        (sym d.written)
      ∙ missed in
    rw (read', require) (rw may (rw (missed', raise_if)))
