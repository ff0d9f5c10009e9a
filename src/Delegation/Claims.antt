-- ===== src/Delegation/Claims.antt =====
-- The call that `dispatchNext` of src/central/managers/delegation/delegation-dispatcher.ts makes active.
use newconduit.Base.{
  All, Among, Among-cons, Among-keep, Bool-cases, List, Option-cases, String, [], ap, arith,
  default, further, get, here, if◌then◌else◌, inl, inr, keep, list_eq, ltb, nat_eq, none, option_eq,
  pair_eq, refl, some, string_eq, subst, sym, ℕ, ◌+◌, ◌∙◌, ◌∷◌, ◌≡◌, ◌≤◌,
}
use newconduit.Delegation.{bound_call, dispatched, is_open_relation, is_queued}
use newconduit.Delegation.Changes.{bind_one}
use newconduit.Delegation.Operations.{commits, stays, throws}
use newconduit.Delegation.Rounds.{active_in}
use newconduit.Delegation.Worlds.{Outcome}
use newconduit.Model.{
  DelegationCallDispatch, DelegationCallRecord, DelegationRecord, condition_eq, event_type_eq,
  lifecycle_eq, pending_command, status_eq,
}
use newconduit.Storage.Records.{read_delegation, read_session}
use newconduit.World.{World, child_missing}
use newconduit.Delegation.Queue.{claim_round, earliest, next_queued}

earliest-Among :
    (best : DelegationCallRecord) (cs : List DelegationCallRecord)
    → Among (earliest best cs) (best ∷ cs)
unfolding earliest
earliest-Among best [] = here refl
earliest-Among best (c ∷ cs) =
    let pick = if ltb c.call_seq best.call_seq then c else best in
    elim (Among-cons (earliest-Among pick cs)) [
      | inr rest ↦ further (further rest)
      | inl first ↦ elim (Bool-cases (ltb c.call_seq best.call_seq)) [
        | inl e ↦ further (here (first ∙ rw e refl))
        | inr e ↦ here (first ∙ rw e refl)
      ]
    ]

pick_le :
    (best c : DelegationCallRecord)
    → let pick = if ltb c.call_seq best.call_seq then c else best in
      (pick.call_seq ≤ best.call_seq) × (pick.call_seq ≤ c.call_seq)
pick_le best c = elim (Bool-cases (ltb c.call_seq best.call_seq)) [
  | inl e ↦ rw e (ground (arith, e), omega arith)
  | inr e ↦ rw e (omega arith, ground (arith, e))
]

le_trans : {a b c : ℕ} → a ≤ b → b ≤ c → a ≤ c
le_trans p q = omega arith

-- No call that is given goes before it.
pub earliest-le :
    (best : DelegationCallRecord) (cs : List DelegationCallRecord)
    → ((earliest best cs).call_seq ≤ best.call_seq)
      × All (λ c. (earliest best cs).call_seq ≤ c.call_seq) cs
unfolding earliest
earliest-le best [] = (omega arith, tt)
earliest-le best (c ∷ cs) =
    let pick = if ltb c.call_seq best.call_seq then c else best in
    let (le, all) = earliest-le pick cs in
    let (first, second) = pick_le best c in (le_trans le first, (le_trans le second, all))

pub next_queued-Among :
    (cs : List DelegationCallRecord) (c : DelegationCallRecord)
    → next_queued cs ≡ some c
    → Among c cs
next_queued-Among [] c h = absurd (ground (arith, h))
next_queued-Among (x ∷ cs) c h =
    subst (λ y. Among y (x ∷ cs)) (ap (λ o. default o x) h) (earliest-Among x cs)

pub claim_round-Outcome :
    (id : String) (w : World)
    → ((d : DelegationRecord) → get id w.store.delegations ≡ some d → d.delegation_id ≡ id)
    → Outcome w (claim_round id w)
unfolding claim_round read_delegation read_session
claim_round-Outcome id w keyed = elim (Option-cases (get id w.store.delegations)) [
  | inl e ↦ rw e (stays w none)
  | inr (d, e) ↦ rw e (elim (Bool-cases (is_open_relation d.status)) [
    | inr f ↦ rw f (stays w none)
    | inl f ↦ rw f (elim (Option-cases (active_in d.active_call_id d.calls)) [
      | inr (c, g) ↦ rw g (stays w (some (d, c)))
      | inl g ↦ rw g (
          let waiting = keep (λ c. is_queued c.status) d.calls in
          elim (Option-cases (next_queued waiting)) [
            | inl q ↦ rw q (stays w none)
            | inr (c, q) ↦ rw q (elim (Option-cases (get d.child_session_id w.store.sessions)) [
              | inl s ↦ rw s (throws w w child_missing (λ x. cc) refl refl refl)
              | inr (child, s) ↦ rw s (
                  let t = w.host.clock w.readings in
                  let p : DelegationCallDispatch = record {
                    child_turn_seq = child.next_turn_seq;
                    input_event_id = w.host.uuid w.drawn;
                    command_event_id = w.host.uuid (w.drawn + 1);
                    command_state = pending_command;
                  } in
                  let next = dispatched d (bound_call c p t) t in
                  commits w d next (some (next, bound_call c p t))
                    (record w { readings = w.readings + 1; drawn = w.drawn + 1 + 1 })
                    (subst (λ k. get k w.store.delegations ≡ some d) (sym (keyed d e)) e) refl refl
                    refl
                    (bind_one c p t f
                      (Among-keep (λ x. is_queued x.status) c d.calls
                        (next_queued-Among waiting c q)).1
                      g refl))
            ])
          ])
    ])
  ])
]
