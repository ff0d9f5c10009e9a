-- ===== src/Registries/Resolution.antt =====
-- Lookup in the registries of src/central/registries: what a registry that was built resolves.
use newconduit.Base.{
  All, All-map, Bool-cases, HasDistinct, List, Option, String, [], ap, arith, false, get,
  get-put_ne, get-put_self, inl, inr, is_some, list_eq, nat_eq, none, option_eq, pair_eq, put, refl,
  some, string_eq, subst, sym, truthy, ◌∙◌, ◌∷◌, ◌≡◌, ◌≢◌,
}
use newconduit.Delegation.Operations.{Result-cases}
use newconduit.Model.{Delegate, condition_eq, event_type_eq, lifecycle_eq, status_eq}
use newconduit.Registries.{
  DelegateRegistry, new_delegate_registry, register_all, register_delegate, resolve_delegate,
  validate_delegate,
}
use newconduit.World.{Result, err, ok}

abbrev Registered : Delegate → DelegateRegistry → DelegateRegistry → Type 0
Registered d r r' =
    (get d.id r.delegates_by_id ≡ none) × (r'.delegates_by_id ≡ put d.id d r.delegates_by_id)

abbrev built : DelegateRegistry → Result DelegateRegistry → DelegateRegistry
built d (ok r) = r
built d (err e) = d

present_or_none : {A : Type 0} (o : Option A) → is_some o ≡ false → o ≡ none
present_or_none none h = refl
present_or_none (some a) h = absurd (ground (arith, h))

register_delegate-Registered :
    (d : Delegate) (r r' : DelegateRegistry) → register_delegate d r ≡ ok r' → Registered d r r'
unfolding register_delegate
register_delegate-Registered d r r' h = elim (Result-cases (validate_delegate d)) [
  | inr (x, e) ↦ absurd (ground (arith, h, e))
  | inl (x, e) ↦ elim (Bool-cases (is_some (get d.id r.delegates_by_id))) [
    | inl f ↦ absurd (ground (arith, h, e, f))
    | inr f ↦ elim (Bool-cases (truthy (get d.tool_name r.ids_by_tool_name))) [
      | inl g ↦ absurd (ground (arith, h, e, f, g))
      | inr g ↦
          let was : register_delegate d r
              ≡ ok (record {
                delegates_by_id = put d.id d r.delegates_by_id;
                ids_by_tool_name = put d.tool_name d.id r.ids_by_tool_name;
              }) =
            rw (e, register_delegate) (rw f (rw g refl)) in
          (present_or_none _ f, sym (ap (λ q. (built r q).delegates_by_id) (sym was ∙ h)))
    ]
  ]
]

-- An entry that is there stays.
entry_stays :
    (id : String) (x d : Delegate) (r r' : DelegateRegistry)
    → Registered d r r'
    → get id r.delegates_by_id ≡ some x
    → get id r'.delegates_by_id ≡ some x
entry_stays id x d r r' (free, same) h =
    subst (λ t. get id t ≡ some x) (sym same)
      (get-put_ne d.id id d r.delegates_by_id
          (λ e. absurd (ground (arith, h, subst (λ k. get k r.delegates_by_id ≡ none) e free)))
        ∙ h)

-- What is free after a registration was free before it, and under another identifier.
free_before :
    (id : String) (d : Delegate) (r r' : DelegateRegistry)
    → Registered d r r'
    → get id r'.delegates_by_id ≡ none
    → (get id r.delegates_by_id ≡ none) × (d.id ≢ id)
free_before id d r r' (free, same) h =
    let later : get id (put d.id d r.delegates_by_id) ≡ none =
      subst (λ t. get id t ≡ none) same h in
    let ne : d.id ≢ id = λ e. absurd (
      ground (
        arith,
        subst (λ k. get k (put d.id d r.delegates_by_id) ≡ none) (sym e) later,
        get-put_self d.id d r.delegates_by_id,
      )) in
    (sym (get-put_ne d.id id d r.delegates_by_id ne) ∙ later, ne)

-- A successful registration of several delegates.
register_rest :
    (d : Delegate) (ds : List Delegate) (r r' : DelegateRegistry)
    → register_all (d ∷ ds) r ≡ ok r'
    → (r1 : DelegateRegistry) × Registered d r r1 × (register_all ds r1 ≡ ok r')
unfolding register_all
register_rest d ds r r' h = elim (Result-cases (register_delegate d r)) [
  | inr (x, e) ↦ absurd (ground (arith, h, e))
  | inl (r1, e) ↦ (r1, register_delegate-Registered d r r1 e, sym (rw (e, register_all) refl) ∙ h)
]

entries_stay :
    (id : String) (x : Delegate) (ds : List Delegate) (r r' : DelegateRegistry)
    → register_all ds r ≡ ok r'
    → get id r.delegates_by_id ≡ some x
    → get id r'.delegates_by_id ≡ some x
unfolding register_all
entries_stay id x [] r r' h f = subst (λ q. get id q.delegates_by_id ≡ some x) (ap (built r) h) f
entries_stay id x (d ∷ ds) r r' h f =
    let (r1, was, rest) = register_rest d ds r r' h in
    entries_stay id x ds r1 r' rest (entry_stays id x d r r1 was f)

ids_free :
    (ds : List Delegate) (r r' : DelegateRegistry)
    → register_all ds r ≡ ok r'
    → All (λ d. get d.id r.delegates_by_id ≡ none) ds
ids_free [] r r' h = tt
ids_free (d ∷ ds) r r' h =
    let (r1, was, rest) = register_rest d ds r r' h in
    (was.0, All-map ds (λ y free. (free_before y.id d r r1 was free).0) (ids_free ds r1 r' rest))

ids_stored :
    (ds : List Delegate) (r r' : DelegateRegistry)
    → register_all ds r ≡ ok r'
    → All (λ d. get d.id r'.delegates_by_id ≡ some d) ds × HasDistinct (λ d. d.id) ds
ids_stored [] r r' h = (tt, tt)
ids_stored (d ∷ ds) r r' h =
    let (r1, was, rest) = register_rest d ds r r' h in
    let (found, distinct) = ids_stored ds r1 r' rest in
    let own : get d.id r1.delegates_by_id ≡ some d =
      subst (λ t. get d.id t ≡ some d) (sym was.1) (get-put_self d.id d r.delegates_by_id) in
    (
      (entries_stay d.id d ds r1 r' rest own, found),
      (
        All-map ds (λ y free. (free_before y.id d r r1 was free).1) (ids_free ds r1 r' rest),
        distinct,
      ),
    )

resolve_stored :
    (r : DelegateRegistry) (id : String) (d : Delegate)
    → get id r.delegates_by_id ≡ some d
    → resolve_delegate r id ≡ ok d
unfolding resolve_delegate
resolve_stored r id d h = rw (h, resolve_delegate) refl

-- Where the configured delegates are accepted, their identifiers are distinct, and each identifier
-- resolves to its own delegate.
pub new_delegate_registry-resolve_delegate :
    (ds : List Delegate) (r : DelegateRegistry)
    → new_delegate_registry ds ≡ ok r
    → HasDistinct (λ d. d.id) ds × All (λ d. resolve_delegate r d.id ≡ ok d) ds
unfolding new_delegate_registry
new_delegate_registry-resolve_delegate ds r h =
    let (found, distinct) =
      ids_stored ds (record { delegates_by_id = []; ids_by_tool_name = [] }) r h in
    (distinct, All-map ds (λ d f. resolve_stored r d.id d f) found)
