-- ===== src/Delegation/Soundness.antt =====
-- Each write of src/central/managers/delegation keeps a relation sound.
use text.Mathlib.TextEquality.{eq_iff}
use newconduit.Base.{
  All, All-map, Among, Bool, Bool-cases, List, Option, String, [], ap, arith, default, false, find,
  find-test, further, here, inl, inr, list_eq, map, nat_eq, none, option_eq, pair_eq, refl, some,
  string_eq, sym, true, ℕ, ◌++◌, ◌==◌, ◌∙◌, ◌∷◌, ◌≡◌, ◌≢◌,
}
use newconduit.Delegation.{
  fail_queued, fail_unless_terminal, is_claimed, is_queued, is_terminal_call, swap_call,
}
use newconduit.Delegation.Changes.{IsSoundCall, is_failed}
use newconduit.Delegation.Rounds.{active_in}
use newconduit.Model.{
  DelegationCallRecord, DelegationCallStatus, DelegationFailure, DelegationStatus, condition_eq,
  event_type_eq, failed_relation, lifecycle_eq, status_eq,
}

module _ {ℓ} {A : Type ℓ} where
  pub All-over {κ μ} :
      (P : A → Type κ) (Q : A → Type μ) (f : A → A) (xs : List A)
      → ((x : A) → P x → Q (f x))
      → All P xs
      → All Q (map f xs)
  All-over P Q f [] h all = tt
  All-over P Q f (x ∷ xs) h all = (h x all.0, All-over P Q f xs h all.1)

  pub All-snoc {κ} : (P : A → Type κ) (xs : List A) (x : A) → All P xs → P x → All P (xs ++ x ∷ [])
  All-snoc P [] x all p = (p, tt)
  All-snoc P (y ∷ xs) x all p = (all.0, All-snoc P xs x all.1 p)

claimed_open : (s : DelegationCallStatus) → is_terminal_call s ≡ true → is_claimed s ≡ false
claimed_open s h = ground arith

pub queued_unclaimed : (s : DelegationCallStatus) → is_queued s ≡ true → is_claimed s ≡ false
queued_unclaimed s h = ground arith

over_unless :
    (s : DelegationCallStatus)
    → is_queued s ≡ false
    → is_claimed s ≡ false
    → is_terminal_call s ≡ true
over_unless s h k = ground arith

-- A call that nobody claims is sound under every name.
pub unclaimed :
    (status : DelegationStatus) (named : Option String) (c : DelegationCallRecord)
    → (c.delegation_call_id == "") ≡ false
    → is_claimed c.status ≡ false
    → (is_failed status ≡ true → is_terminal_call c.status ≡ true)
    → IsSoundCall status named c
unclaimed status named c n u f = record {
  identified = n;
  claimed_named = λ h. absurd (ground (arith, h, u));
  claimed_bound = λ h. absurd (ground (arith, h, u));
  over_when_failed = f;
}

pub swap-IsSoundCall :
    (s : DelegationStatus) (a : Option String) (c x : DelegationCallRecord)
    → IsSoundCall s a c
    → ((x.delegation_call_id == c.delegation_call_id) ≡ false → IsSoundCall s a x)
    → IsSoundCall s a (swap_call c x)
unfolding swap_call
swap-IsSoundCall s a c x q h = elim (Bool-cases (x.delegation_call_id == c.delegation_call_id)) [
  | inl e ↦ rw e q
  | inr e ↦ rw e (h e)
]

same_name : (x y : String) → some x ≡ some y → x ≡ y
same_name x y e = ap (λ o. default o x) e

pub active_in-named :
    (a : Option String) (cs : List DelegationCallRecord) (c : DelegationCallRecord)
    → active_in a cs ≡ some c
    → a ≡ some c.delegation_call_id
unfolding active_in
active_in-named none cs c h = absurd (ground (arith, h))
active_in-named (some id) cs c h =
    ground (
      arith,
      find-test (λ x. x.delegation_call_id == id) cs {x = c},
      eq_iff c.delegation_call_id id,
    )

pub find-Among {ℓ} :
    {A : Type ℓ} (p : A → Bool) (xs : List A) (x : A) → find p xs ≡ some x → Among x xs
find-Among p [] x h = absurd (ground arith)
find-Among p (y ∷ xs) x h = elim (Bool-cases (p y)) [
  | inl e ↦ here (ground (arith, h, e))
  | inr e ↦ further (find-Among p xs x (ground (arith, h, e)))
]

pub active_in-Among :
    (a : Option String) (cs : List DelegationCallRecord) (c : DelegationCallRecord)
    → active_in a cs ≡ some c
    → Among c cs
unfolding active_in
active_in-Among none cs c h = absurd (ground (arith, h))
active_in-Among (some id) cs c h =
    find-Among (λ x. x.delegation_call_id == id) cs c (ground (arith, h))

pub unnamed :
    (s : DelegationStatus) (a : Option String) (x : DelegationCallRecord)
    → IsSoundCall s a x
    → a ≢ some x.delegation_call_id
    → is_claimed x.status ≡ false
unnamed s a x v ne = elim (Bool-cases (is_claimed x.status)) [
  | inl e ↦ absurd (ne (v.claimed_named e))
  | inr e ↦ e
]

-- Where the name finds no call, no call is claimed.
find-unclaimed :
    (s : DelegationStatus) (id : String) (cs : List DelegationCallRecord)
    → All (IsSoundCall s (some id)) cs
    → find (λ x. x.delegation_call_id == id) cs ≡ none
    → All (λ x. is_claimed x.status ≡ false) cs
find-unclaimed s id [] all h = tt
find-unclaimed s id (x ∷ cs) all h = elim (Bool-cases (is_claimed x.status)) [
  | inl e ↦
      let named = same_name _ _ (all.0.claimed_named e) in
      absurd (ground (arith, h, eq_iff x.delegation_call_id id, named))
  | inr e ↦ (e, find-unclaimed s id cs all.1 (ground (arith, h)))
]

pub active_in-unclaimed :
    (s : DelegationStatus) (a : Option String) (cs : List DelegationCallRecord)
    → All (IsSoundCall s a) cs
    → active_in a cs ≡ none
    → All (λ x. is_claimed x.status ≡ false) cs
unfolding active_in
active_in-unclaimed s none cs all h =
    All-map cs (λ x v. unnamed s none x v (λ e. ground (arith, e))) all
active_in-unclaimed s (some id) cs all h = elim (Bool-cases (id == "")) [
  | inl e ↦
      All-map cs
        (λ x v. unnamed s (some id) x v (λ same.
          ground (
            arith,
            eq_iff id "",
            eq_iff x.delegation_call_id "",
            same_name _ _ same,
            v.identified,
          )))
        all
  | inr e ↦ find-unclaimed s id cs all (ground (arith, h, e))
]

-- A call that is over, with its relation's active call taken off.
pub finished :
    (s : DelegationStatus) (a : Option String) (c : DelegationCallRecord)
    (cs : List DelegationCallRecord)
    → All (IsSoundCall s a) cs
    → a ≡ some c.delegation_call_id
    → IsSoundCall s none c
    → All (IsSoundCall s none) (map (swap_call c) cs)
finished s a c cs all named v =
    All-over (IsSoundCall s a) (IsSoundCall s none) (swap_call c) cs
      (λ x w. swap-IsSoundCall s none c x v (λ ne.
        unclaimed s none x w.identified
          (unnamed s a x w (λ same. ground (
            arith,
            eq_iff x.delegation_call_id c.delegation_call_id,
            same_name _ _ (sym same ∙ named),
          )))
          w.over_when_failed))
      all

pub over-IsSoundCall :
    (s : DelegationStatus) (a : Option String) (c : DelegationCallRecord)
    → (c.delegation_call_id == "") ≡ false
    → is_terminal_call c.status ≡ true
    → IsSoundCall s a c
over-IsSoundCall s a c n t = unclaimed s a c n (claimed_open c.status t) (λ f. t)

pub fail_queued-IsSoundCall :
    (s : DelegationStatus) (a : Option String) (c : DelegationCallRecord) (message : String) (t : ℕ)
    (x : DelegationCallRecord)
    → a ≡ some c.delegation_call_id
    → is_terminal_call c.status ≡ true
    → (c.delegation_call_id == "") ≡ false
    → IsSoundCall s a x
    → IsSoundCall failed_relation none (fail_queued c message t x)
unfolding fail_queued
fail_queued-IsSoundCall s a c message t x named over full v =
    elim (Bool-cases (x.delegation_call_id == c.delegation_call_id)) [
      | inl e ↦ rw e (over-IsSoundCall failed_relation none c full over)
      | inr e ↦ rw e (elim (Bool-cases (is_queued x.status)) [
        | inl q ↦ rw q (over-IsSoundCall failed_relation none _ v.identified refl)
        | inr q ↦ rw q (
            over-IsSoundCall failed_relation none x v.identified (
              over_unless x.status q (
                unnamed s a x v (λ same. ground (
                  arith,
                  eq_iff x.delegation_call_id c.delegation_call_id,
                  e,
                  same_name _ _ (sym same ∙ named),
                )))))
      ])
    ]

pub fail_unless_terminal-IsSoundCall :
    (s : DelegationStatus) (a : Option String) (failure : DelegationFailure) (t : ℕ)
    (x : DelegationCallRecord)
    → IsSoundCall s a x
    → IsSoundCall failed_relation none (fail_unless_terminal failure t x)
unfolding fail_unless_terminal
fail_unless_terminal-IsSoundCall s a failure t x v = elim (Bool-cases (is_terminal_call x.status)) [
  | inl e ↦ rw e (over-IsSoundCall failed_relation none x v.identified e)
  | inr e ↦ rw e (over-IsSoundCall failed_relation none _ v.identified refl)
]
