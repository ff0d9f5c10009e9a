-- ===== src/Delegation/Room.antt =====
-- The room in the queue of a relation of src/central/managers/delegation/delegation-manager.ts.
use newconduit.Base.{
  Bool-cases, List, String, [], ap, arith, byte_length, inl, inr, leb, list_eq, ltb, nat_eq,
  option_eq, pair_eq, refl, string_eq, subst, text_length, true, ℕ, ◌++◌, ◌+◌, ◌==◌, ◌||◌, ◌∷◌, ◌≡◌,
  ◌≤◌,
}
use newconduit.Delegation.{appended, is_creating, is_open_relation, is_queued, new_call}
use newconduit.Delegation.Start.{StartDelegationCallInput, appended_call, queued_count}
use newconduit.Model.{
  DelegationCallRecord, DelegationRecord, condition_eq, event_type_eq, lifecycle_eq, status_eq,
}
use newconduit.World.{Result, World, err, ok}

queued_count-append :
    (c : DelegationCallRecord) (cs : List DelegationCallRecord)
    → is_queued c.status ≡ true
    → queued_count (cs ++ c ∷ []) ≡ queued_count cs + 1
queued_count-append c [] h = rw h refl
queued_count-append c (x ∷ cs) h = elim (Bool-cases (is_queued x.status)) [
  | inl e ↦ rw e (ground (arith, queued_count-append c cs h))
  | inr e ↦ rw e (queued_count-append c cs h)
]

abbrev call_of : DelegationCallRecord → Result DelegationCallRecord → DelegationCallRecord
call_of d (ok c) = c
call_of d (err e) = d

-- A call that `appendCall` makes for a relation is queued, has the relation's next number and the
-- caller's input, and with it no more calls wait than the delegate allows.
pub appended_call-queued_count :
    (input : StartDelegationCallInput) (hash : String) (d : DelegationRecord)
    (c : DelegationCallRecord) (t : ℕ) (w : World)
    → (appended_call input hash d w).0 ≡ ok c
    → (is_queued c.status ≡ true)
      × (c.call_seq ≡ d.next_call_seq)
      × (c.input ≡ input.input)
      × (queued_count (appended d c t).calls ≤ d.resolved_delegate.max_queued_calls)
unfolding appended_call new_call appended
appended_call-queued_count input hash d c t w h =
    elim (Bool-cases (is_open_relation d.status || is_creating d.status)) [
      | inr e ↦ absurd (ground (arith, rw e at h))
      | inl e ↦ elim (Bool-cases (text_length input.input == 0)) [
        | inl f ↦ absurd (ground (arith, rw (e, f) at h))
        | inr f ↦
            elim (Bool-cases (leb (byte_length input.input) d.resolved_delegate.max_input_bytes)) [
              | inr g ↦ absurd (ground (arith, rw (e, f, g) at h))
              | inl g ↦
                  elim (Bool-cases
                    (ltb (queued_count d.calls) d.resolved_delegate.max_queued_calls)) [
                      | inr q ↦ absurd (ground (arith, rw (e, f, g, q) at h))
                      | inl q ↦
                          let made =
                            new_call (w.host.uuid w.drawn) d.delegation_id d.next_call_seq
                              input.caller_turn_seq input.caller_tool_request_id input.input hash
                              d.resolved_delegate.deadline_ms (w.host.clock w.readings) in
                          let same : made ≡ c = ap (call_of c) (rw (e, f, g, q) at h) in
                          subst
                            (λ x.
                              (is_queued x.status ≡ true)
                              × (x.call_seq ≡ d.next_call_seq)
                              × (x.input ≡ input.input)
                              × (queued_count (d.calls ++ x ∷ [])
                                  ≤ d.resolved_delegate.max_queued_calls))
                            same
                            (
                              refl,
                              refl,
                              refl,
                              ground (arith, queued_count-append made d.calls refl, q),
                            )
                    ]
            ]
      ]
    ]
