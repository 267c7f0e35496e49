-- ===== src/Health/Overall.antt =====
-- What the health of the system says of its components.
use mathlib.Core.List.{append_assoc, append-nil}
use set.Prelude.{
  ℕ, ◌≡◌, ◌↔◌, refl, sym, ◌∙◌, ap, Bool, true, false, Option, none, some, List, [], ◌∷◌, ◌++◌,
  arith, inl, inr, if◌then◌else◌,
}
use set.Prelude.Text.{Text}
use set.Errors.{Thrown}
use set.Effects.{Action, ok, err, outcome_cases}
use set.Health.Rules.{Fine, FineForAll, is_healthy_iff, keeps_overall_iff}
use set.Health.Reads.{ReadBy, FailsBy, AllSound, AllSound-checks_of}
use set.Health.{
  Summary, Component, ComponentHealth, SystemHealthStatus, SystemHealthConfig, is_healthy,
  keeps_overall, succeeded, failed, label, error_text, Check, run_check, run_checks, push,
  checks_of, perform_system_health_check,
}

-- Every entry has a summary, and one that is fine for the system.
abbrev pub AllFine : List ComponentHealth → Type 0
AllFine [] = Unit
AllFine (entry ∷ entries) =
    ((x : Summary) × (entry.summary ≡ some x) × FineForAll x) × AllFine entries

FineForAll-same : (x x' : Summary) → some x ≡ some x' → FineForAll x' → FineForAll x
FineForAll-same x x' same fine = let e : x ≡ x' = cc in rw e fine

if_both : (a k : Bool) → ((if k then a else false) ≡ true) ↔ ((a ≡ true) × (k ≡ true))
if_both a k = ground arith

abbrev entry_of : Component → Summary → ComponentHealth
entry_of c x = record { component = c; healthy = is_healthy x; summary = some x }

abbrev failed_entry : Component → ComponentHealth
failed_entry c = record { component = c; healthy = false; summary = none }

abbrev present : {A : Type 0} → Component → Option A → List Component
present c none = []
present c (some contract) = c ∷ []

module _ {S : Type 0} where
  -- The entries and the errors for a list of components, whose contracts are read one after the other: one
  -- that answers has an entry with its summary, which is called healthy exactly if that is fine; one that
  -- throws has an unhealthy entry and an error.
  pub data Answered (config : SystemHealthConfig S)
      : List Component → S → List ComponentHealth → List Text → S → Type 0 where
    done : (s : S) → Answered config [] s [] [] s
    answers :
        {cs : List Component} {s u t : S} {entries : List ComponentHealth} {texts : List Text}
        (c : Component) (x : Summary) (entry : ComponentHealth)
        → ReadBy config c s x u
        → entry.component ≡ c
        → entry.summary ≡ some x
        → (entry.healthy ≡ true) ↔ Fine x
        → Answered config cs u entries texts t
        → Answered config (c ∷ cs) s (entry ∷ entries) texts t
    throws :
        {cs : List Component} {s u t : S} {entries : List ComponentHealth} {texts : List Text}
        (c : Component) (e : Thrown) (entry : ComponentHealth)
        → FailsBy config c s e u
        → entry.component ≡ c
        → entry.summary ≡ none
        → entry.healthy ≡ false
        → Answered config cs u entries texts t
        → Answered config (c ∷ cs) s (entry ∷ entries) ((label c ++ error_text e) ∷ texts) t

  -- The same of a list of checks.
  data Ran : List (Check S) → S → List ComponentHealth → List Text → S → Type 0 where
    ended : (s : S) → Ran [] s [] [] s
    answered :
        {checks : List (Check S)} {s u t : S} {entries : List ComponentHealth} {texts : List Text}
        (c : Component) (view : Action S Summary) (x : Summary) (entry : ComponentHealth)
        → view s ≡ (ok x, u)
        → entry.component ≡ c
        → entry.summary ≡ some x
        → (entry.healthy ≡ true) ↔ Fine x
        → Ran checks u entries texts t
        → Ran ((c, view) ∷ checks) s (entry ∷ entries) texts t
    threw :
        {checks : List (Check S)} {s u t : S} {entries : List ComponentHealth} {texts : List Text}
        (c : Component) (view : Action S Summary) (e : Thrown) (entry : ComponentHealth)
        → view s ≡ (err e, u)
        → entry.component ≡ c
        → entry.summary ≡ none
        → entry.healthy ≡ false
        → Ran checks u entries texts t
        → Ran ((c, view) ∷ checks) s (entry ∷ entries) ((label c ++ error_text e) ∷ texts) t

  -- What a run of checks adds to a result.
  abbrev Adds : List (Check S) → SystemHealthStatus → S → SystemHealthStatus × S → Type 0
  Adds checks r s (r', t) =
      (entries : List ComponentHealth) × (texts : List Text) × (r'.components
        ≡ r.components ++ entries)
      × (r'.errors ≡ r.errors ++ texts)
      × Ran checks s entries texts t
      × ((r'.overall_healthy ≡ true) ↔ ((r.overall_healthy ≡ true) × AllFine entries))

  Adds-succeeded :
      (c : Component) (view : Action S Summary) (x : Summary) (checks : List (Check S))
      (r r' : SystemHealthStatus) (s u t : S)
      → view s ≡ (ok x, u)
      → Adds checks (succeeded c x r) u (r', t)
      → Adds ((c, view) ∷ checks) r s (r', t)
  Adds-succeeded c view x checks r r' s u t y (es, ts, p, q, a, o) = (
    entry_of c x ∷ es,
    ts,
    p ∙ append_assoc r.components (entry_of c x ∷ []) es,
    q,
    answered c view x (entry_of c x) y refl refl (is_healthy_iff x) a,
    (
      (λ h.
          let (g, all) = o.0 h in
          let (was, kept) = (if_both r.overall_healthy (keeps_overall x)).0 g in
          (was, ((x, refl, (keeps_overall_iff x).0 kept), all))),
      λ h.
          let (was, ((x', same, fine), all)) = h in
          o.1 (
            (if_both r.overall_healthy (keeps_overall x)).1
                (was, (keeps_overall_iff x).1 (FineForAll-same x x' same fine)),
            all,
          ),
    ),
  )

  Adds-failed :
      (c : Component) (view : Action S Summary) (e : Thrown) (checks : List (Check S))
      (r r' : SystemHealthStatus) (s u t : S)
      → view s ≡ (err e, u)
      → Adds checks (failed c e r) u (r', t)
      → Adds ((c, view) ∷ checks) r s (r', t)
  Adds-failed c view e checks r r' s u t y (es, ts, p, q, a, o) = (
    failed_entry c ∷ es,
    (label c ++ error_text e) ∷ ts,
    p ∙ append_assoc r.components (failed_entry c ∷ []) es,
    q ∙ append_assoc r.errors ((label c ++ error_text e) ∷ []) ts,
    threw c view e (failed_entry c) y refl refl refl a,
    ((λ h. let (g, all) = o.0 h in cc), λ h. let (was, ((x, same, fine), all)) = h in cc),
  )

  run_checks-succeeded :
      (c : Component) (view : Action S Summary) (x : Summary) (checks : List (Check S))
      (r : SystemHealthStatus) (s u : S)
      → view s ≡ (ok x, u)
      → run_checks ((c, view) ∷ checks) r s ≡ run_checks checks (succeeded c x r) u
  unfolding run_checks run_check
  run_checks-succeeded c view x checks r s u y =
      rw (run_checks, run_check, y)
        (ap (λ v. run_checks checks (succeeded c x r) v) (ap (λ o. o.1) y))

  run_checks-failed :
      (c : Component) (view : Action S Summary) (e : Thrown) (checks : List (Check S))
      (r : SystemHealthStatus) (s u : S)
      → view s ≡ (err e, u)
      → run_checks ((c, view) ∷ checks) r s ≡ run_checks checks (failed c e r) u
  unfolding run_checks run_check
  run_checks-failed c view e checks r s u y =
      rw (run_checks, run_check, y) (ap (λ v. run_checks checks (failed c e r) v) (ap (λ o. o.1) y))

  run_checks-Adds :
      (checks : List (Check S)) (r : SystemHealthStatus) (s : S)
      → Adds checks r s (run_checks checks r s)
  unfolding run_checks
  run_checks-Adds [] r s = (
    [],
    [],
    sym (append-nil r.components),
    sym (append-nil r.errors),
    ended s,
    ((λ h. (h, tt)), λ h. h.0),
  )
  run_checks-Adds ((c, view) ∷ checks) r s = elim (outcome_cases (view s)) [
    | inl (x, u, y) ↦
        let (r', t) = run_checks checks (succeeded c x r) u in
        rw (run_checks-succeeded c view x checks r s u y)
          (Adds-succeeded c view x checks r r' s u t y (run_checks-Adds checks (succeeded c x r) u))
    | inr (e, u, y) ↦
        let (r', t) = run_checks checks (failed c e r) u in
        rw (run_checks-failed c view e checks r s u y)
          (Adds-failed c view e checks r r' s u t y (run_checks-Adds checks (failed c e r) u))
  ]

  -- The components that are configured.
  abbrev pub configured : SystemHealthConfig S → List Component
  configured config =
      present Component.registry config.registry
      ++ (present Component.paymaster config.paymaster
          ++ (present Component.treasury_vault config.treasury_vault
              ++ (present Component.nav_oracle config.nav_oracle
                  ++ (present Component.mempool config.mempool
                      ++ (present Component.forced_inclusion config.forced_inclusion
                          ++ (present Component.attestation config.attestation
                              ++ (present Component.timelock config.timelock
                                  ++ present Component.threshold_registry
                                      config.threshold_registry)))))))

  abbrev names : List (Check S) → List Component
  names [] = []
  names ((c, view) ∷ checks) = c ∷ names checks

  names-push :
      {A : Type 0} (c : Component) (f : A → Action S Summary) (o : Option A)
      (checks : List (Check S)) {rest : List Component}
      → names checks ≡ rest
      → names (push c f o checks) ≡ present c o ++ rest
  names-push c f none checks h = h
  names-push c f (some contract) checks h = ap (λ cs. c ∷ cs) h

  names-checks_of : (config : SystemHealthConfig S) → names (checks_of config) ≡ configured config
  unfolding checks_of
  names-checks_of config = names-push _ _ config.registry _ (
      names-push _ _ config.paymaster _ (
        names-push _ _ config.treasury_vault _ (
          names-push _ _ config.nav_oracle _ (
            names-push _ _ config.mempool _ (
              names-push _ _ config.forced_inclusion _ (
                names-push _ _ config.attestation _ (
                  names-push _ _ config.timelock _
                    (names-push _ _ config.threshold_registry [] refl ∙ append-nil _))))))))

  Ran-Answered :
      (config : SystemHealthConfig S) {checks : List (Check S)} {s t : S}
      {entries : List ComponentHealth} {texts : List Text}
      → AllSound config checks
      → Ran checks s entries texts t
      → Answered config (names checks) s entries texts t
  Ran-Answered config a (ended s) = done s
  Ran-Answered config a (answered c view x entry y is_c is_x healthy r) =
      answers c x entry (a.0.0 _ x _ y) is_c is_x healthy (Ran-Answered config a.1 r)
  Ran-Answered config a (threw c view e entry y is_c is_x healthy r) =
      throws c e entry (a.0.1 _ e _ y) is_c is_x healthy (Ran-Answered config a.1 r)

  -- `performSystemHealthCheck` adds one entry for each contract that is configured, in their order, and no
  -- other. An entry has the summary that the views of its contract have answered, and is called healthy
  -- exactly if that is fine by the rules of its component; or a view has thrown an error, and the entry
  -- is unhealthy and the error is listed. The system is called healthy exactly if every component could
  -- be read and is fine, where the oracle needs to be fresh only, whatever its score.
  pub perform_system_health_check-Answered :
      (now : ℕ) (config : SystemHealthConfig S) (s : S)
      → let (result, t) = perform_system_health_check now config s in
        Answered config (configured config) s result.components result.errors t
        × ((result.overall_healthy ≡ true) ↔ AllFine result.components)
  unfolding perform_system_health_check
  perform_system_health_check-Answered now config s =
      let start : SystemHealthStatus = record {
        timestamp = now;
        overall_healthy = true;
        components = [];
        errors = [];
      } in
      let (entries, texts, p, q, a, o) = run_checks-Adds (checks_of config) start s in
      rw (p, q, sym (names-checks_of config))
        (Ran-Answered config (AllSound-checks_of config) a, ((λ h. (o.0 h).1), λ h. o.1 (refl, h)))
