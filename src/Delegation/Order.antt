-- ===== src/Delegation/Order.antt =====
-- The order in which `dispatchNext` of src/central/managers/delegation/delegation-dispatcher.ts serves
-- the calls of a relation.
use newconduit.Base.{
  All, Among, Among-All, Among-keep, List, Option-cases, String, [], ap, arith, beq_refl, default,
  get, get-put_self, inl, inr, keep, keep-Among, list_eq, nat_eq, none, option_eq, pair_eq, put,
  refl, some, string_eq, subst, suc, sym, true, ℕ, ◌+◌, ◌∷◌, ◌≡◌, ◌≢◌, ◌≤◌,
}
use newconduit.Delegation.{bound_call, dispatched, is_open_relation, is_queued, replace_call}
use newconduit.Delegation.Claims.{earliest-le, next_queued-Among}
use newconduit.Delegation.Queue.{claim_call, claim_round, next_queued}
use newconduit.Delegation.Rounds.{active_of, commit_relation}
use newconduit.Model.{
  DelegationCallDispatch, DelegationCallRecord, DelegationRecord, SessionRecord, condition_eq,
  event_type_eq, lifecycle_eq, pending_command, status_eq,
}
use newconduit.Storage.Claims.{compare_and_set_delegation, write_if}
use newconduit.Storage.Records.{read_delegation, read_session}
use newconduit.World.{World, ok}
use newconduit.World.Contend.{contend}
use newconduit.World.Retry.{retry_first}

next_queued-first :
    (cs : List DelegationCallRecord) (c : DelegationCallRecord)
    → next_queued cs ≡ some c
    → All (λ x. c.call_seq ≤ x.call_seq) cs
next_queued-first [] c h = tt
next_queued-first (x ∷ xs) c h =
    subst (λ y. All (λ z. y.call_seq ≤ z.call_seq) (x ∷ xs)) (ap (λ o. default o x) h)
      (earliest-le x xs)

some_waits :
    (c : DelegationCallRecord) (cs : List DelegationCallRecord) → Among c cs → next_queued cs ≢ none
some_waits c [] m h = absurd (elim m [ ])
some_waits c (x ∷ xs) m h = ground (arith, h)

-- With no other task, the record that was read is replaced.
bind_written :
    {A : Type 0} (d : DelegationRecord) (c : DelegationCallRecord) (t : ℕ) (a : A) (w : World)
    → get d.delegation_id w.store.delegations ≡ some d
    → w.rivals ≡ []
    → commit_relation d (dispatched d c t) a w ≡ (
      ok (some a),
      record w {
        store = record w.store {
          delegations = put d.delegation_id (dispatched d c t) w.store.delegations;
        };
      },
    )
unfolding commit_relation contend compare_and_set_delegation read_delegation write_if dispatched
    replace_call
bind_written d c t a w at alone = rw alone (
    rw at (
      rw (beq_refl d.revision) (
        rw (beq_refl (d.revision + 1)) (
          rw (beq_refl d.parent_session_id) (
            rw (beq_refl d.resolved_delegate.id) (rw (beq_refl (default d.target_ref "")) refl))))))

-- A call that `dispatchNext` takes from the queue, with the relation that it leaves.
pub record Claimed (fuel : ℕ) (id : String) (d : DelegationRecord) (child : SessionRecord)
    (w : World) : Type 0 where
  pub first : DelegationCallRecord
  pub dispatch : DelegationCallDispatch
  pub at : ℕ
  waited : Among first d.calls × (is_queued first.status ≡ true)
  oldest :
      (c : DelegationCallRecord)
      → Among c d.calls
      → is_queued c.status ≡ true
      → first.call_seq ≤ c.call_seq
  pub next_turn : dispatch.child_turn_seq ≡ child.next_turn_seq
  pub returned :
      (claim_call fuel id w).0
      ≡ ok (some (dispatched d (bound_call first dispatch at) at, bound_call first dispatch at))
  pub stored :
      get id (claim_call fuel id w).1.store.delegations
      ≡ some (dispatched d (bound_call first dispatch at) at)

-- Where a call waits in an open relation with no active call, and no other task writes, the dispatcher
-- takes one from the queue: none that waits has a lower number, it is bound to the child session's next
-- turn, and the relation is stored with it as its active call.
pub claim_call-Claimed :
    (fuel : ℕ) (id : String) (d : DelegationRecord) (child : SessionRecord)
    (c : DelegationCallRecord) (w : World)
    → get id w.store.delegations ≡ some d
    → d.delegation_id ≡ id
    → is_open_relation d.status ≡ true
    → active_of d ≡ none
    → get d.child_session_id w.store.sessions ≡ some child
    → Among c d.calls
    → is_queued c.status ≡ true
    → w.rivals ≡ []
    → Claimed (suc fuel) id d child w
unfolding claim_call claim_round read_delegation read_session
claim_call-Claimed fuel id d child c w at own opens free there among waits alone =
    let waiting = keep (λ x. is_queued x.status) d.calls in
    elim (Option-cases (next_queued waiting)) [
      | inl e ↦
          absurd
            (some_waits c waiting (keep-Among (λ x. is_queued x.status) c d.calls among waits) e)
      | inr (first, e) ↦
          let t = w.host.clock w.readings in
          let p : DelegationCallDispatch = record {
            child_turn_seq = child.next_turn_seq;
            input_event_id = w.host.uuid w.drawn;
            command_event_id = w.host.uuid (w.drawn + 1);
            command_state = pending_command;
          } in
          let u : World = record w { readings = w.readings + 1; drawn = w.drawn + 1 + 1 } in
          let next = dispatched d (bound_call first p t) t in
          let after : World = record u {
            store = record w.store { delegations = put d.delegation_id next w.store.delegations };
          } in
          let done =
            bind_written d (bound_call first p t) t
              (some (dispatched d (bound_call first p t) t, bound_call first p t)) u
              (subst (λ k. get k w.store.delegations ≡ some d) (sym own) at) alone in
          let round : claim_round id w ≡ (ok (some (some (next, bound_call first p t))), after) =
            rw at (rw opens (rw free (rw e (rw there done)))) in
          let whole =
            retry_first (claim_round id) fuel w after (some (next, bound_call first p t)) round in
          record {
            first = first;
            dispatch = p;
            at = t;
            waited =
                let (q, m) =
                  Among-keep (λ x. is_queued x.status) first d.calls
                    (next_queued-Among waiting first e) in
                (m, q);
            oldest = λ x m q.
                Among-All (λ y. first.call_seq ≤ y.call_seq) (next_queued-first waiting first e)
                  (keep-Among (λ y. is_queued y.status) x d.calls m q);
            next_turn = refl;
            returned = rw whole refl;
            stored = rw whole (rw own (get-put_self id _ w.store.delegations));
          }
    ]
