-- ===== src/Pairing/Once.antt =====
-- `redeemPairingInvite` of src/central/managers/case/case-pairing-manager.ts, twice.
use newconduit.Base.{
  Bool, Bool-cases, Option, Option-cases, String, [], ap, arith, false, get, get-put_self, inl, inr,
  is_some, list_eq, ltb, nat_eq, none, not, option_eq, pair_eq, put, refl, some, string_eq, subst,
  sym, true, ℕ, ◌&&◌, ◌+◌, ◌==◌, ◌∙◌, ◌≡◌, ◌≢◌, ◌⊎◌,
}
use newconduit.Model.{PairingInviteRecord, condition_eq, event_type_eq, lifecycle_eq, status_eq}
use newconduit.Pairing.Crypto.{HashedSecret, compute_hash, derive_device_ref, issue, verify}
use newconduit.Pairing.Manager.{
  PairingOptions, RedeemPairingInput, RedeemPairingResult, bind_device, claim_invite,
  claimed_invite, is_bounded, is_non_empty, is_pending, open_case, owned_invite, redeem_in_case,
  redeem_pairing_invite, rotated_binding, upsert_binding,
}
use newconduit.Storage.Claims.{
  compare_and_set_case_device_binding, compare_and_set_pairing_invite, create_case_device_binding,
  write_if-true, write_if_cases,
}
use newconduit.Storage.Records.{read_case_device_binding, read_pairing_invite, read_session}
use newconduit.World.{
  Fault, M, Result, Store, World, case_closed, case_not_found, continue, continue-pure, ensure, err,
  invalid_input, invite_already_redeemed, let_others, ok, ◌>>=◌,
}
use newconduit.Pairing.Gate.{no_result}
use newconduit.Fanout.Preservation.{stored}
use newconduit.Session.Lifecycle.{is_terminal}

ensure_keeps {ℓ} :
    (P : World → Type ℓ) (c : Result Bool) (e : Fault) (u : World)
    → P u
    → P (continue (λ done. ensure done e) c u).1
ensure_keeps P (ok true) e u p = p
ensure_keeps P (ok false) e u p = p
ensure_keeps P (err x) e u p = p

upsert_binding-invites :
    (o : PairingOptions) (case_id : String) (input : RedeemPairingInput) (ref : String)
    (hashed : HashedSecret) (t : ℕ) (w : World)
    → (upsert_binding o case_id input ref hashed t w).1.store.invites ≡ w.store.invites
unfolding upsert_binding read_case_device_binding create_case_device_binding
    compare_and_set_case_device_binding
upsert_binding-invites o case_id input ref hashed t w =
    elim (Option-cases (get (case_id, ref) w.store.bindings)) [
      | inl e ↦ rw e (rw e refl)
      | inr (b, e) ↦ rw e (
          let c =
            compare_and_set_case_device_binding b.revision (rotated_binding input hashed t b) w in
          ensure_keeps (λ u. u.store.invites ≡ w.store.invites) c.0 invalid_input c.1
            (write_if_cases (λ u. u.store.invites ≡ w.store.invites) _ _ _ _ w refl refl))
    ]

bind_device-invites :
    (o : PairingOptions) (input : RedeemPairingInput) (case_id ref : String) (t : ℕ) (w : World)
    → (bind_device o input case_id ref t w).1.store.invites ≡ w.store.invites
unfolding bind_device issue
bind_device-invites o input case_id ref t w =
    let secret = w.host.token w.drawn 32 in
    let salt = w.host.token (w.drawn + 1) 16 in
    let hashed : HashedSecret = record {
      salt = salt;
      hash = compute_hash w.host o.pepper secret salt;
    } in
    let drawn : World = record w { drawn = w.drawn + 1 + 1 } in
    let u = upsert_binding o case_id input ref hashed t drawn in
    let answer : RedeemPairingResult = record {
      case_id = case_id;
      device_ref = ref;
      binding_credential = secret;
    } in
    ap (λ x. x.store.invites) (continue-pure (λ _. answer) u.0 u.1)
    ∙ upsert_binding-invites o case_id input ref hashed t drawn

claimed_only :
    {A : Type 0} (c : Result Bool) (e : Fault) (f : M A) (u : World) (r : A)
    → (continue (λ b. ensure b e >>= λ _. f) c u).0 ≡ ok r
    → c ≡ ok true
claimed_only (ok true) e f u r h = refl
claimed_only (ok false) e f u r h = absurd (ground arith)
claimed_only (err x) e f u r h = absurd (ground arith)

abbrev IsSpent : String → World → Type 0
IsSpent id w =
    (x : PairingInviteRecord) × (get id w.store.invites ≡ some x) × (is_pending x.status ≡ false)

claim_invite-IsSpent :
    (o : PairingOptions) (input : RedeemPairingInput) (v : PairingInviteRecord) (w : World)
    (r : RedeemPairingResult)
    → (claim_invite o input v w).0 ≡ ok r
    → IsSpent v.invite_id (claim_invite o input v w).1
unfolding claim_invite compare_and_set_pairing_invite claimed_invite
claim_invite-IsSpent o input v w r h =
    let ref = derive_device_ref w.host o.tenant_id v.case_id input.device_id in
    let t = w.host.clock w.readings in
    let next = claimed_invite v ref t in
    let u : World = record w { readings = w.readings + 1 } in
    let c = compare_and_set_pairing_invite v.revision next u in
    let claimed =
      claimed_only c.0 invite_already_redeemed (bind_device o input v.case_id ref t) c.1 r h in
    let after : World = record u {
      store = record u.store { invites = put v.invite_id next u.store.invites };
    } in
    rw claimed (
      next,
      ap (get v.invite_id) (
            bind_device-invites o input v.case_id ref t c.1
            ∙ ap (λ x. x.store.invites) (write_if-true _ _ _ _ u claimed))
          ∙ get-put_self v.invite_id next u.store.invites,
      refl,
    )

-- A redemption that returned has passed a pending invite of the identifier and left it spent.
record Redeems (id : String) (w : World) (res : Result RedeemPairingResult × World) : Type 0 where
  invite : PairingInviteRecord
  found : get id w.store.invites ≡ some invite
  pending : is_pending invite.status ≡ true
  spent : IsSpent invite.invite_id res.1

open_case_cases :
    (o : PairingOptions) (case_id : String) (w : World)
    → ((x : Fault) × (open_case o case_id w ≡ (err x, w))) ⊎ (open_case o case_id w ≡ (ok tt, w))
unfolding open_case read_session
open_case_cases o case_id w = elim (Option-cases (get case_id w.store.sessions)) [
  | inl e ↦ inl (case_not_found, rw (e, open_case) refl)
  | inr (s, e) ↦ elim (Bool-cases (s.tenant_id == o.tenant_id)) [
    | inr foreign ↦ inl (case_not_found, rw (e, open_case) (rw foreign refl))
    | inl own ↦ elim (Bool-cases (is_terminal s.status)) [
      | inl over ↦ inl (case_closed, rw (e, open_case) (rw own (rw over refl)))
      | inr going ↦ inr (rw (e, open_case) (rw own (rw going refl)))
    ]
  ]
]

redeem_in_case-Redeems :
    (o : PairingOptions) (input : RedeemPairingInput) (case_id : String) (w : World)
    (r : RedeemPairingResult)
    → (redeem_in_case o input case_id w).0 ≡ ok r
    → Redeems input.invite_id w (redeem_in_case o input case_id w)
unfolding redeem_in_case read_pairing_invite
redeem_in_case-Redeems o input case_id w r =
    elim (Option-cases (get input.invite_id w.store.invites)) [
      | inl e ↦ rw e (λ h. absurd (no_result _ r h))
      | inr (v, found) ↦ rw found (elim (Bool-cases (owned_invite o v && v.case_id == case_id)) [
        | inr e ↦ rw e (λ h. absurd (no_result _ r h))
        | inl e ↦ rw e (elim (Bool-cases (is_pending v.status && not (is_some v.redeemed_at))) [
          | inr e ↦ rw e (λ h. absurd (no_result _ r h))
          | inl fresh ↦ rw fresh (elim (Bool-cases (ltb (w.host.clock w.readings) v.expires_at)) [
            | inr e ↦ rw e (λ h. absurd (no_result _ r h))
            | inl e ↦
                rw e
                  (elim (Bool-cases (
                    verify w.host o.pepper input.invite_secret
                      (record { salt = v.invite_secret_salt; hash = v.invite_secret_hash }))) [
                        | inr e ↦ rw e (λ h. absurd (no_result _ r h))
                        | inl e ↦
                            rw e
                              (elim (open_case_cases o v.case_id
                                (record w { readings = w.readings + 1 })) [
                                  | inl (x, e) ↦ rw e (λ h. absurd (no_result _ r h))
                                  | inr e ↦ rw e (λ h. record {
                                    invite = v;
                                    found = found;
                                    pending = ground arith;
                                    spent =
                                        claim_invite-IsSpent o input v
                                          (record w { readings = w.readings + 1 }) r h;
                                  })
                                ])
                      ])
          ])
        ])
      ])
    ]

-- The guards before an invite's turn.
redeem-Redeems :
    (o : PairingOptions) (input : RedeemPairingInput) (w : World) (r : RedeemPairingResult)
    → (redeem_pairing_invite o input w).0 ≡ ok r
    → Redeems input.invite_id (let_others w.rivals w) (redeem_pairing_invite o input w)
unfolding redeem_pairing_invite read_pairing_invite
redeem-Redeems o input w r = elim (Bool-cases (is_bounded input.device_id 128)) [
  | inr e ↦ rw e (λ h. absurd (no_result _ r h))
  | inl e ↦ rw e (elim (Bool-cases (is_bounded input.device_label 200)) [
    | inr e ↦ rw e (λ h. absurd (no_result _ r h))
    | inl e ↦ rw e (elim (Bool-cases (is_bounded input.invite_secret 256)) [
      | inr e ↦ rw e (λ h. absurd (no_result _ r h))
      | inl e ↦ rw e (elim (Bool-cases (is_non_empty input.invite_id)) [
        | inr e ↦ rw e (λ h. absurd (no_result _ r h))
        | inl e ↦ rw e (elim (Option-cases (get input.invite_id w.store.invites)) [
          | inl e ↦ rw e (λ h. absurd (no_result _ r h))
          | inr (v, e) ↦ rw e (elim (Bool-cases (owned_invite o v)) [
            | inr e ↦ rw e (λ h. absurd (no_result _ r h))
            | inl e ↦ rw e (redeem_in_case-Redeems o input v.case_id (let_others w.rivals w) r)
          ])
        ])
      ])
    ])
  ])
]

invite_of : PairingInviteRecord → Option PairingInviteRecord → PairingInviteRecord
invite_of v none = v
invite_of v (some u) = u

some_same : {v u : PairingInviteRecord} → some v ≡ some u → v ≡ u
unfolding invite_of
some_same {v} e = ap (invite_of v) e

-- Invites are stored under their identifiers.
abbrev pub InvitesKeyed : Store → Type 0
InvitesKeyed st =
    (id : String) (v : PairingInviteRecord) → get id st.invites ≡ some v → v.invite_id ≡ id

-- Where other tasks leave invites stored under their identifiers, and an invite was redeemed, no
-- later redemption of it returns, for any input and options, while no other task writes.
pub redeemed_once :
    (o o' : PairingOptions) (input input' : RedeemPairingInput) (w : World)
    (r : RedeemPairingResult)
    → InvitesKeyed (let_others w.rivals w).store
    → (redeem_pairing_invite o input w).0 ≡ ok r
    → (redeem_pairing_invite o input w).1.rivals ≡ []
    → input'.invite_id ≡ input.invite_id
    → (r' : RedeemPairingResult)
    → (redeem_pairing_invite o' input' (redeem_pairing_invite o input w).1).0 ≢ ok r'
redeemed_once o o' input input' w r keyed first quiet same r' again =
    let u = (redeem_pairing_invite o input w).1 in
    let d = redeem-Redeems o input w r first in
    let d' = redeem-Redeems o' input' u r' again in
    let (x, stored, dead) = d.spent in
    let named : d.invite.invite_id ≡ input'.invite_id = keyed _ _ d.found ∙ sym same in
    let seen : get input'.invite_id u.store.invites ≡ some d'.invite =
      subst (λ rs. get input'.invite_id (let_others rs u).store.invites ≡ some d'.invite) quiet
        d'.found in
    let alike : some x ≡ some d'.invite =
      sym (subst (λ k. get k u.store.invites ≡ some x) named stored) ∙ seen in
    let known : is_pending x.status ≡ true =
      subst (λ v. is_pending v.status ≡ true) (sym (some_same alike)) d'.pending in
    absurd (ground arith)
