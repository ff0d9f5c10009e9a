-- ===== src/Delegation/Steps.antt =====
-- A step of a relation of src/central/managers/delegation keeps it sound, follows the diagram of
-- `DelegationStatus`, and has the next revision.
use newconduit.Base.{
  All-both, All-map, Among, Among-All, String, ap, arith, false, is_some, list_eq, nat_eq, none,
  option_eq, pair_eq, refl, some, string_eq, sym, true, ℕ, ◌+◌, ◌==◌, ◌||◌, ◌∙◌, ◌≡◌,
}
use newconduit.Delegation.{
  amended, appended, bound_call, closed_for, completed_one, completed_relation, dispatched,
  fail_queued, fail_unless_terminal, failed_by_turn, failed_one, is_claimed, is_creating,
  is_open_relation, is_queued, is_terminal_call, opened, replace_call, revised, swap_call,
}
use newconduit.Delegation.Changes.{
  Change, IsSound, IsSoundCall, amend_one, append_one, bind_one, close_one, complete_one, fail_one,
  open_one,
}
use newconduit.Delegation.Rounds.{active_of}
use newconduit.Model.{
  DelegationCallDispatch, DelegationCallRecord, DelegationCloseReason, DelegationFailure,
  DelegationRecord, DelegationStatus, closed_relation, closing, condition_eq, creating_child,
  event_type_eq, failed_relation, lifecycle_eq, open_relation, status_eq,
}
use newconduit.Delegation.Soundness.{
  All-over, All-snoc, active_in-Among, active_in-named, active_in-unclaimed,
  fail_queued-IsSoundCall, fail_unless_terminal-IsSoundCall, finished, over-IsSoundCall,
  queued_unclaimed, swap-IsSoundCall, unclaimed, unnamed,
}

module _ (d : DelegationRecord) (v : IsSound d) where
  sound_call :
      (c : DelegationCallRecord) → Among c d.calls → IsSoundCall d.status d.active_call_id c
  sound_call c m = Among-All _ v.sound_calls m

  appended-IsSound :
      (c : DelegationCallRecord) (t : ℕ)
      → (is_open_relation d.status || is_creating d.status) ≡ true
      → is_queued c.status ≡ true
      → (c.delegation_call_id == "") ≡ false
      → IsSound (appended d c t)
  unfolding appended
  appended-IsSound c t o q n = record {
    sound_calls = All-snoc _ d.calls c v.sound_calls (
        unclaimed d.status d.active_call_id c n (queued_unclaimed c.status q)
          (λ f. absurd (ground (arith, f, o))));
    failed_inactive = v.failed_inactive;
  }

  opened-IsSound : (t : ℕ) → is_creating d.status ≡ true → IsSound (opened d t)
  unfolding opened
  opened-IsSound t o = record {
    sound_calls =
        All-map d.calls
          (λ c w. record {
            identified = w.identified;
            claimed_named = w.claimed_named;
            claimed_bound = w.claimed_bound;
            over_when_failed = λ f. absurd (ground (arith, f));
          })
          v.sound_calls;
    failed_inactive = λ f. absurd (ground (arith, f));
  }

  dispatched-IsSound :
      (c : DelegationCallRecord) (p : DelegationCallDispatch) (t : ℕ)
      → is_open_relation d.status ≡ true
      → Among c d.calls
      → active_of d ≡ none
      → IsSound (dispatched d (bound_call c p t) t)
  unfolding dispatched bound_call
  dispatched-IsSound c p t o m idle =
      let a : IsSoundCall d.status (some c.delegation_call_id) (bound_call c p t) = record {
        identified = (sound_call c m).identified;
        claimed_named = λ h. refl;
        claimed_bound = λ h. refl;
        over_when_failed = λ h. absurd (ground (arith, h, o));
      } in
      record {
        sound_calls =
            All-over (IsSoundCall d.status none) (IsSoundCall d.status (some c.delegation_call_id))
              (swap_call (bound_call c p t)) d.calls
              (λ x w. swap-IsSoundCall d.status _ (bound_call c p t) x a (λ ne.
                unclaimed d.status _ x w.identified
                  (unnamed d.status none x w (λ e. ground (arith, e))) w.over_when_failed))
              (All-both d.calls
                (λ x u w. unclaimed d.status none x w.identified u w.over_when_failed)
                (active_in-unclaimed d.status d.active_call_id d.calls v.sound_calls idle)
                v.sound_calls);
        failed_inactive = λ h. absurd (ground (arith, h, o));
      }

  amended-IsSound :
      (c c' : DelegationCallRecord) (t : ℕ)
      → Among c d.calls
      → c'.delegation_call_id ≡ c.delegation_call_id
      → c'.status ≡ c.status
      → is_some c'.dispatch ≡ is_some c.dispatch
      → IsSound (amended d c' t)
  unfolding amended
  amended-IsSound c c' t m i s b =
      let w = sound_call c m in
      let a : IsSoundCall d.status d.active_call_id c' = record {
        identified = rw i w.identified;
        claimed_named = λ h. w.claimed_named (ap is_claimed (sym s) ∙ h) ∙ ap some (sym i);
        claimed_bound = λ h. b ∙ w.claimed_bound (ap is_claimed (sym s) ∙ h);
        over_when_failed = λ f. ap is_terminal_call s ∙ w.over_when_failed f;
      } in
      record {
        sound_calls =
            All-over (IsSoundCall d.status d.active_call_id) (IsSoundCall d.status d.active_call_id)
              (swap_call c') d.calls (λ x u. swap-IsSoundCall d.status _ c' x a (λ ne. u))
              v.sound_calls;
        failed_inactive = v.failed_inactive;
      }

  completed-IsSound :
      (c : DelegationCallRecord) (result digest : String) (t u : ℕ)
      → active_of d ≡ some c
      → IsSound (revised d (completed_relation d (completed_one c result digest t)) u)
  unfolding revised completed_relation completed_one
  completed-IsSound c result digest t u h =
      let w = sound_call c (active_in-Among _ d.calls c h) in
      record {
        sound_calls =
            finished d.status d.active_call_id (completed_one c result digest t) d.calls
              v.sound_calls (active_in-named d.active_call_id d.calls c h)
              (over-IsSoundCall d.status none _ w.identified refl);
        failed_inactive = λ f. refl;
      }

  failed-IsSound :
      (c : DelegationCallRecord) (failure : DelegationFailure) (message : String) (t u : ℕ)
      → active_of d ≡ some c
      → IsSound (revised d (failed_by_turn d (failed_one c failure t) message t) u)
  unfolding revised failed_by_turn failed_one
  failed-IsSound c failure message t u h =
      let w = sound_call c (active_in-Among _ d.calls c h) in
      record {
        sound_calls =
            All-over (IsSoundCall d.status d.active_call_id) (IsSoundCall failed_relation none)
              (fail_queued (failed_one c failure t) message t) d.calls
              (λ x.
                fail_queued-IsSoundCall d.status d.active_call_id (failed_one c failure t) message t
                  x (active_in-named d.active_call_id d.calls c h) refl w.identified)
              v.sound_calls;
        failed_inactive = λ f. refl;
      }

  closed-IsSound :
      (reason : DelegationCloseReason) (failure : DelegationFailure) (t : ℕ)
      → IsSound (closed_for d reason failure t)
  unfolding closed_for
  closed-IsSound reason failure t = record {
    sound_calls =
        All-over (IsSoundCall d.status d.active_call_id) (IsSoundCall failed_relation none)
          (fail_unless_terminal failure t) d.calls
          (fail_unless_terminal-IsSoundCall d.status d.active_call_id failure t) v.sound_calls;
    failed_inactive = λ f. refl;
  }

pub Change-IsSound :
    (d : DelegationRecord) {d' : DelegationRecord} → Change d d' → IsSound d → IsSound d'
Change-IsSound d (append_one c t o q n e) v = rw e (appended-IsSound d v c t o q n)
Change-IsSound d (open_one t o e) v = rw e (opened-IsSound d v t o)
Change-IsSound d (bind_one c p t o m idle e) v = rw e (dispatched-IsSound d v c p t o m idle)
Change-IsSound d (amend_one c c' t m i s b e) v = rw e (amended-IsSound d v c c' t m i s b)
Change-IsSound d (complete_one c result digest t u h e) v =
    rw e (completed-IsSound d v c result digest t u h)
Change-IsSound d (fail_one c failure message t u h e) v =
    rw e (failed-IsSound d v c failure message t u h)
Change-IsSound d (close_one reason failure t e) v = rw e (closed-IsSound d v reason failure t)

-- The diagram: a relation is created, opened, and fails for good. Nothing closes one otherwise.
infix 40 ◌⟶◌
pub data ◌⟶◌ : DelegationStatus → DelegationStatus → Type 0 where
  stay : {s : DelegationStatus} → s ⟶ s
  open_child : creating_child ⟶ open_relation
  fail_status : {s : DelegationStatus} → s ⟶ failed_relation

creating_opens : (s : DelegationStatus) → is_creating s ≡ true → s ⟶ open_relation
creating_opens creating_child h = open_child
creating_opens open_relation h = stay
creating_opens closing h = absurd (ground (arith, h))
creating_opens closed_relation h = absurd (ground (arith, h))
creating_opens failed_relation h = absurd (ground (arith, h))

pub Change-⟶ : (d : DelegationRecord) {d' : DelegationRecord} → Change d d' → d.status ⟶ d'.status
unfolding appended opened dispatched amended revised completed_relation failed_by_turn closed_for
Change-⟶ d (append_one c t o q n e) = rw e stay
Change-⟶ d (open_one t o e) = rw e (creating_opens d.status o)
Change-⟶ d (bind_one c p t o m idle e) = rw e stay
Change-⟶ d (amend_one c c' t m i s b e) = rw e stay
Change-⟶ d (complete_one c result digest t u h e) = rw e stay
Change-⟶ d (fail_one c failure message t u h e) = rw e fail_status
Change-⟶ d (close_one reason failure t e) = rw e fail_status

pub Change-identity :
    (d : DelegationRecord) {d' : DelegationRecord}
    → Change d d'
    → (d'.delegation_id ≡ d.delegation_id) × (d'.revision ≡ d.revision + 1)
unfolding appended opened dispatched amended revised completed_relation failed_by_turn closed_for
    replace_call
Change-identity d (append_one c t o q n e) = rw e (refl, refl)
Change-identity d (open_one t o e) = rw e (refl, refl)
Change-identity d (bind_one c p t o m idle e) = rw e (refl, refl)
Change-identity d (amend_one c c' t m i s b e) = rw e (refl, refl)
Change-identity d (complete_one c result digest t u h e) = rw e (refl, refl)
Change-identity d (fail_one c failure message t u h e) = rw e (refl, refl)
Change-identity d (close_one reason failure t e) = rw e (refl, refl)
