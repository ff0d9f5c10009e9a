-- ===== src/Pairing/Listing.antt =====
-- Which devices `listCaseDevices` of src/central/managers/case/case-pairing-manager.ts lists.
use newconduit.Base.{
  All, All-both, All-map, Among, Among-cons, Among-values, Bool, Bool-cases, HasDistinct,
  HasDistinct-keep, HasUniqueKeys, List, String, [], ap, arith, further, get, get-values, here, inl,
  inr, keep, keep-Among, list_eq, map, nat_eq, option_eq, pair_eq, refl, some, string_eq, subst,
  sym, true, values, ◌==◌, ◌∙◌, ◌∷◌, ◌≡◌, ◌≢◌,
}
use newconduit.Model.{
  CaseDeviceBindingRecord, CaseDeviceView, active_binding, condition_eq, event_type_eq,
  lifecycle_eq, status_eq,
}
use newconduit.Pairing.Expulsion.{BindingsKeyed}
use newconduit.Pairing.Manager.{PairingOptions, is_non_empty}
use newconduit.Pairing.Revocation.{is_revocable}
use newconduit.Pairing.Lines.{Shows, case_device_view-Shows, of_case-keep}
use newconduit.Pairing.Roster.{
  case_device_view, enlist, list_bindings, list_case_devices, listed_before, sorted,
}
use newconduit.Storage.Records.{of_case, read_case_device_bindings, read_workers}
use newconduit.World.{World, ok}

abbrev ref_of : CaseDeviceView → String
ref_of v = v.device_ref

module _ (before : String → String → Bool) where
  All-enlist {ℓ} :
      (P : CaseDeviceView → Type ℓ) (x : CaseDeviceView) (ys : List CaseDeviceView)
      → P x
      → All P ys
      → All P (enlist before x ys)
  unfolding enlist
  All-enlist P x [] p all = (p, tt)
  All-enlist P x (y ∷ ys) p all = elim (Bool-cases (listed_before before y x)) [
    | inl e ↦ rw e (all.0, All-enlist P x ys p all.1)
    | inr e ↦ rw e (p, all)
  ]

  Among-enlist :
      (v x : CaseDeviceView) (ys : List CaseDeviceView)
      → Among v (x ∷ ys)
      → Among v (enlist before x ys)
  unfolding enlist
  Among-enlist v x [] m = m
  Among-enlist v x (y ∷ ys) m = elim (Bool-cases (listed_before before y x)) [
    | inr e ↦ rw e m
    | inl e ↦ rw e (elim (Among-cons m) [
      | inl same ↦ further (Among-enlist v x ys (here same))
      | inr n ↦ elim (Among-cons n) [
        | inl same ↦ here same
        | inr rest ↦ further (Among-enlist v x ys (further rest))
      ]
    ])
  ]

  HasDistinct-enlist :
      (x : CaseDeviceView) (ys : List CaseDeviceView)
      → HasDistinct ref_of (x ∷ ys)
      → HasDistinct ref_of (enlist before x ys)
  unfolding enlist
  HasDistinct-enlist x [] d = d
  HasDistinct-enlist x (y ∷ ys) d = elim (Bool-cases (listed_before before y x)) [
    | inr e ↦ rw e d
    | inl e ↦ rw e (
      All-enlist (λ z. ref_of y ≢ ref_of z) x ys (λ same. d.0.0 (sym same)) d.1.0,
      HasDistinct-enlist x ys (d.0.1, d.1.1),
    )
  ]

  All-sorted {ℓ} :
      (P : CaseDeviceView → Type ℓ) (xs : List CaseDeviceView) → All P xs → All P (sorted before xs)
  unfolding sorted
  All-sorted P [] all = tt
  All-sorted P (x ∷ xs) all = All-enlist P x (sorted before xs) all.0 (All-sorted P xs all.1)

  Among-sorted :
      (v : CaseDeviceView) (xs : List CaseDeviceView) → Among v xs → Among v (sorted before xs)
  unfolding sorted
  Among-sorted v [] m = m
  Among-sorted v (x ∷ xs) m =
      Among-enlist v x (sorted before xs)
        (elim (Among-cons m) [ inl same ↦ here same | inr rest ↦ further (Among-sorted v xs rest) ])

  HasDistinct-sorted :
      (xs : List CaseDeviceView) → HasDistinct ref_of xs → HasDistinct ref_of (sorted before xs)
  unfolding sorted
  HasDistinct-sorted [] d = tt
  HasDistinct-sorted (x ∷ xs) d =
      HasDistinct-enlist x (sorted before xs)
        (All-sorted (λ z. ref_of x ≢ ref_of z) xs d.0, HasDistinct-sorted xs d.1)

abbrev pair_of : CaseDeviceBindingRecord → String × String
pair_of b = (b.case_id, b.device_ref)

both : {a c x y : String} → a ≡ c → x ≡ y → ◌≡◌ {A = String × String} (a, x) (c, y)
both p q = λ i. (p i, q i)

-- The lines of a roster, before the sort.
module _ (f : CaseDeviceBindingRecord → CaseDeviceView) where
  All-lines {ℓ} :
      (P : CaseDeviceView → Type ℓ) (bs : List CaseDeviceBindingRecord)
      → All (λ b. P (f b)) bs
      → All P (map f bs)
  All-lines P [] all = tt
  All-lines P (b ∷ bs) all = (all.0, All-lines P bs all.1)

  Among-lines :
      (b : CaseDeviceBindingRecord) (bs : List CaseDeviceBindingRecord)
      → Among b bs
      → Among (f b) (map f bs)
  Among-lines b [] m = absurd (elim m [ ])
  Among-lines b (c ∷ bs) m = elim (Among-cons m) [
    | inl same ↦ here (ap f same)
    | inr rest ↦ further (Among-lines b bs rest)
  ]

  HasDistinct-lines :
      (case_id : String) (bs : List CaseDeviceBindingRecord)
      → ((b : CaseDeviceBindingRecord) → ref_of (f b) ≡ b.device_ref)
      → All (λ b. b.case_id ≡ case_id) bs
      → HasDistinct pair_of bs
      → HasDistinct ref_of (map f bs)
  HasDistinct-lines case_id [] refs all d = tt
  HasDistinct-lines case_id (b ∷ bs) refs all d = (
    All-lines (λ z. ref_of (f b) ≢ ref_of z) bs
        (All-both bs
          (λ c same_case other same.
            other (both (all.0 ∙ sym same_case) (sym (refs b) ∙ same ∙ refs c)))
          all.1 d.0),
    HasDistinct-lines case_id bs refs all.1 d.1,
  )

list_bindings-lines :
    (before : String → String → Bool) (o : PairingOptions) (bs : List CaseDeviceBindingRecord)
    (w : World)
    → (list_bindings before o bs w).0
      ≡ ok (
          sorted before (
            map
              (case_device_view
                (keep (λ x. x.tenant_id == o.tenant_id) (values w.store.workers))
                (w.host.clock w.readings))
              bs))
unfolding list_bindings read_workers sorted
list_bindings-lines before o [] w = refl
list_bindings-lines before o (b ∷ bs) w = refl

-- What passes a test and holds of what passes it.
All-kept {κ} :
    (P : CaseDeviceBindingRecord → Type κ) (p : CaseDeviceBindingRecord → Bool)
    (bs : List CaseDeviceBindingRecord)
    → All (λ b. p b ≡ true → P b) bs
    → All P (keep p bs)
All-kept P p [] all = tt
All-kept P p (b ∷ bs) all = elim (Bool-cases (p b)) [
  | inl e ↦ rw e (all.0 e, All-kept P p bs all.1)
  | inr e ↦ rw e (All-kept P p bs all.1)
]

is_revocable-true :
    (o : PairingOptions) (b : CaseDeviceBindingRecord)
    → b.tenant_id ≡ o.tenant_id
    → b.status ≡ active_binding
    → is_revocable o b ≡ true
is_revocable-true o b own alive =
    ground (arith, (string_eq.equal_iff b.tenant_id o.tenant_id).1 own, alive)

-- A stored binding that is listed is of the case, active and of the tenant.
record IsListed (o : PairingOptions) (case_id : String) (w : World) (b : CaseDeviceBindingRecord)
    : Type 0 where
  in_case : b.case_id ≡ case_id
  found : get (pair_of b) w.store.bindings ≡ some b
  live : is_revocable o b ≡ true

module _ (o : PairingOptions) (case_id : String) (w : World)
    (unique : HasUniqueKeys w.store.bindings) (keyed : BindingsKeyed w.store) where
  abbrev listed : List CaseDeviceBindingRecord
  listed = keep (is_revocable o) (of_case case_id w.store.bindings)

  abbrev view : CaseDeviceBindingRecord → CaseDeviceView
  view =
      case_device_view (keep (λ x. x.tenant_id == o.tenant_id) (values w.store.workers))
        (w.host.clock w.readings)

  of_this_case :
      of_case case_id w.store.bindings ≡ keep (λ b. b.case_id == case_id) (values w.store.bindings)
  of_this_case = of_case-keep case_id w.store.bindings unique (λ k b h. (keyed k.0 k.1 b h).0)

  stored_bindings :
      All (λ b. get (pair_of b) w.store.bindings ≡ some b) (values w.store.bindings)
      × HasDistinct pair_of (values w.store.bindings)
  stored_bindings =
      get-values pair_of w.store.bindings unique
        (λ k b h. let (c, r) = keyed k.0 k.1 b h in both c r)

  listed-IsListed : All (IsListed o case_id w) listed
  listed-IsListed = rw of_this_case (
      All-kept (IsListed o case_id w) (is_revocable o) _ (
        All-map _
          (λ b h e. record {
            in_case = (string_eq.equal_iff b.case_id case_id).0 h.1;
            found = h.0;
            live = e;
          })
          (All-kept
            (λ b. (get (pair_of b) w.store.bindings ≡ some b) × ((b.case_id == case_id) ≡ true))
            (λ b. b.case_id == case_id) (values w.store.bindings)
            (All-map _ (λ b h e. (h, e)) stored_bindings.0))))

  listed-HasDistinct : HasDistinct pair_of listed
  listed-HasDistinct = rw of_this_case (
      HasDistinct-keep pair_of (is_revocable o) _
        (HasDistinct-keep pair_of (λ b. b.case_id == case_id) _ stored_bindings.1))

  view-ref : (b : CaseDeviceBindingRecord) → ref_of (view b) ≡ b.device_ref
  unfolding case_device_view
  view-ref b = refl

  -- Where bindings are stored under their case and reference, one record each, and the case has an
  -- identifier that is not empty, its roster is returned, whatever the order of texts. Each line shows
  -- an active binding of the case and the tenant, with its label and time. It names the most recently
  -- registered of the tenant's stored workers that run the device and are neither closed nor expired,
  -- is online exactly if that worker is active and expires later than the time, and ready exactly if it
  -- is online and the worker is ready and has room; if there is no such worker it names none and is not
  -- online. What is online is either ready or busy, and what is not is neither. Each active binding of
  -- the case and the tenant has a line, and no two lines have the same reference.
  pub list_case_devices-Shows :
      (before : String → String → Bool)
      → is_non_empty case_id ≡ true
      → (views : List CaseDeviceView) × ((list_case_devices before o case_id w).0 ≡ ok views)
        × All (Shows o case_id w) views
        × ((ref : String) (b : CaseDeviceBindingRecord)
            → get (case_id, ref) w.store.bindings ≡ some b
            → b.tenant_id ≡ o.tenant_id
            → b.status ≡ active_binding
            → (v : CaseDeviceView) × Among v views × (v.device_ref ≡ ref))
        × HasDistinct ref_of views
  unfolding list_case_devices read_case_device_bindings
  list_case_devices-Shows before named = (
    sorted before (map view listed),
    rw named (list_bindings-lines before o listed w),
    All-sorted before (Shows o case_id w) (map view listed) (
        All-lines view (Shows o case_id w) listed (
          All-map listed
            (λ b l.
              subst (λ c. Shows o c w (view b)) l.in_case
                (case_device_view-Shows o b w l.found l.live))
            listed-IsListed)),
    λ ref b found own alive.
        let (c, r) = keyed case_id ref b found in
        let in_case : Among b (of_case case_id w.store.bindings) = rw of_this_case (
          keep-Among _ b _ (Among-values (case_id, ref) b w.store.bindings found)
            ((string_eq.equal_iff b.case_id case_id).1 c)) in
        let m = keep-Among (is_revocable o) b _ in_case (is_revocable-true o b own alive) in
        (view b, Among-sorted before (view b) (map view listed) (Among-lines view b listed m), r),
    HasDistinct-sorted before (map view listed) (
        HasDistinct-lines view case_id listed view-ref
          (All-map listed (λ b l. l.in_case) listed-IsListed) listed-HasDistinct),
  )
