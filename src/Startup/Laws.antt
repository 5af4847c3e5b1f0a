-- ===== src/Startup/Laws.antt =====
-- What a process leaves open.
use aegis_gateway.Prelude.{
  String, Bool, true, false, ◌&&◌, Option, none, some, List, [], ◌∷◌, ◌++◌, ◌≡◌, refl,
  if◌then◌else◌, ap, arith, Option-cases, inl, inr,
}
use aegis_gateway.Startup.{Resource, close_all, shutdown_order, lifespan, dependencies}

abbrev pub succeeds : Option String → Bool
succeeds none = true
succeeds (some exc) = false

abbrev pub all_succeed : (Resource → Option String) → List Resource → Bool
all_succeed close [] = true
all_succeed close (r ∷ rest) = succeeds (close r) && all_succeed close rest

-- Closing leaves a final part of the list, which starts with the resource whose close raised, if there is one.
pub close_all-splits :
    (close : Resource → Option String) (rs : List Resource)
    → (closed : List Resource) × (closed ++ (close_all close rs).0 ≡ rs)
      × (all_succeed close closed ≡ true)
      × (succeeds (close_all close rs).1 ≡ all_succeed close rs)
unfolding close_all
close_all-splits close [] = ([], refl, refl, refl)
close_all-splits close (r ∷ rest) =
    let (closed, same, fine, whole) = close_all-splits close rest in
    elim (Option-cases (close r)) [
      | inl ok ↦ simp ok ((r ∷ closed, ap (λ l. r ∷ l) same, ground (arith, ok), whole))
      | inr (exc, raises) ↦ simp raises (([], refl, refl, refl))
    ]

abbrev pub started : Option String → Option String → Bool
started pii_redactor_raises warm_up_raises = succeeds pii_redactor_raises && succeeds warm_up_raises

-- Requests are served exactly if the redactor loads and the detector warms up; then everything that the
-- getters of the dependencies read is set, and each resource has been closed in turn up to the first
-- one whose close raises: that one and those behind it stay open, so that all are closed exactly if none raises.
-- If the start-up raises, nothing is set and everything that was opened stays open.
pub lifespan_lem :
    (pii_redactor_raises warm_up_raises : Option String) (close : Resource → Option String)
    → let p = lifespan pii_redactor_raises warm_up_raises close in
      let ok = started pii_redactor_raises warm_up_raises in
      (p.served ≡ ok)
      × (p.attributes ≡ (if ok then dependencies else []))
      × (succeeds p.raised ≡ (ok && all_succeed close shutdown_order))
      × ((closed : List Resource) × (closed ++ p.open_ ≡ shutdown_order)
          × (all_succeed close closed ≡ true)
          × (ok ≡ false → closed ≡ []))
unfolding lifespan
lifespan_lem (some exc) warm_up close = (refl, refl, refl, ([], refl, refl, λ h. refl))
lifespan_lem none (some exc) close = (refl, refl, refl, ([], refl, refl, λ h. refl))
lifespan_lem none none close =
    let (closed, same, fine, whole) = close_all-splits close shutdown_order in
    (refl, refl, whole, (closed, same, fine, λ h. cc))
