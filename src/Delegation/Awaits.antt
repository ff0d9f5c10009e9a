-- ===== src/Delegation/Awaits.antt =====
-- Each round of `registerAwait` and `markAwaitResponded` of
-- src/central/managers/delegation/delegation-manager.ts throws, stays, or makes one conditional write.
use newconduit.Delegation.Worlds.{Outcome}
use newconduit.Base.{
  Among, Among-All, Bool-cases, List, Option-cases, String, [], any, ap, arith, default, find,
  further, get, here, inl, inr, is_some, list_eq, nat_eq, option_eq, pair_eq, refl, some, string_eq,
  subst, sym, values, ℕ, ◌+◌, ◌==◌, ◌∙◌, ◌∷◌, ◌≡◌,
}
use newconduit.Delegation.{amended, awaited_call, responded_call}
use newconduit.Delegation.Rounds.{
  await_round, commit_relation, find_call, needs_response, read_call, respond_round,
}
use newconduit.Model.{
  DelegationCallRecord, DelegationRecord, condition_eq, event_type_eq, lifecycle_eq, status_eq,
}
use newconduit.Storage.Records.{read_delegations}
use newconduit.World.{World, call_not_found}
use newconduit.Delegation.Changes.{amend_one}
use newconduit.Delegation.Soundness.{find-Among}
use newconduit.Session.Pause.{request}
use newconduit.Delegation.Operations.{Located, commits, stays, throws}

same_pair : (x y : DelegationRecord × DelegationCallRecord) → some x ≡ some y → x ≡ y
same_pair x y h = ap (λ o. default o x) h

-- What `find_call` returns is stored, and the call is one of its calls.
find_call-Among :
    (id : String) (ds : List DelegationRecord) (x : DelegationRecord × DelegationCallRecord)
    → find_call id ds ≡ some x
    → Among x.0 ds × Among x.1 x.0.calls
unfolding find_call
find_call-Among id [] x h = absurd (ground (arith, h))
find_call-Among id (d ∷ ds) x h =
    elim (Option-cases (find (λ c. c.delegation_call_id == id) d.calls)) [
      | inl e ↦
          let skip : find_call id (d ∷ ds) ≡ find_call id ds = rw (e, find_call) refl in
          let (m, n) = find_call-Among id ds x (sym skip ∙ h) in (further m, n)
      | inr (c, e) ↦
          let hit : find_call id (d ∷ ds) ≡ some (d, c) = rw (e, find_call) refl in
          let same = same_pair (d, c) x (sym hit ∙ h) in
          (
            here (sym (ap (λ y. y.0) same)),
            subst (λ y. Among y.1 y.0.calls) same (find-Among _ d.calls c e),
          )
    ]

-- A replacement of a found call that keeps its identifier, status and binding.
amends :
    {A : Type 0} (id : String) (w : World) (x : DelegationRecord × DelegationCallRecord)
    (c : DelegationCallRecord) (a : A)
    → Located w
    → find_call id (values w.store.delegations) ≡ some x
    → c.delegation_call_id ≡ x.1.delegation_call_id
    → c.status ≡ x.1.status
    → is_some c.dispatch ≡ is_some x.1.dispatch
    → let t = w.host.clock w.readings in
      Outcome w (commit_relation x.0 (amended x.0 c t) a (record w { readings = w.readings + 1 }))
amends id w x c a at e same status bound =
    let (m, n) = find_call-Among id (values w.store.delegations) x e in
    let t = w.host.clock w.readings in
    commits w x.0 (amended x.0 c t) a (record w { readings = w.readings + 1 })
      (Among-All (λ d. get d.delegation_id w.store.delegations ≡ some d) at m) refl refl refl
      (amend_one x.1 c t n same status bound refl)

pub await_round-Outcome :
    (parent : String) (turn_seq : ℕ) (request id : String) (w : World)
    → Located w
    → Outcome w (await_round parent turn_seq request id w)
unfolding await_round read_call read_delegations awaited_call
await_round-Outcome parent turn_seq request id w at =
    elim (Option-cases (find_call id (values w.store.delegations))) [
      | inl e ↦ rw e (throws w w call_not_found (λ x. cc) refl refl refl)
      | inr (x, e) ↦ rw e (elim (Bool-cases (x.0.parent_session_id == parent)) [
        | inr f ↦ rw f (throws w w call_not_found (λ x. cc) refl refl refl)
        | inl f ↦ rw f (elim (Bool-cases (any (λ a. a.request_id == request) x.1.await_requests)) [
          | inl g ↦ rw g (stays w x.1)
          | inr g ↦ rw g (
              let c = awaited_call x.1 request parent turn_seq (w.host.clock w.readings) in
              amends id w x c c at e refl refl refl)
        ])
      ])
    ]

pub respond_round-Outcome :
    (id request : String) (w : World) → Located w → Outcome w (respond_round id request w)
unfolding respond_round read_call read_delegations responded_call
respond_round-Outcome id request w at =
    elim (Option-cases (find_call id (values w.store.delegations))) [
      | inl e ↦ rw e (throws w w call_not_found (λ x. cc) refl refl refl)
      | inr (x, e) ↦
          rw e
            (elim (Bool-cases
              (needs_response (find (λ a. a.request_id == request) x.1.await_requests))) [
                | inr g ↦ rw g (stays w tt)
                | inl g ↦ rw g (
                    amends id w x (responded_call x.1 request (w.host.clock w.readings)) tt at e
                      refl refl refl)
              ])
    ]
