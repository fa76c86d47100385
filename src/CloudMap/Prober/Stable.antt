-- ===== src/CloudMap/Prober/Stable.antt =====
-- When the prober tells a pod that its instance is healthy.
use aws_app_mesh_controller.Base.{
  ℕ, Bool, true, false, List, [], ◌∷◌, ◌≤◌, ◌<◌, ◌+◌, ◌≡◌, refl, sym, ◌∙◌, subst, ◌⊎◌, inl, inr,
  All, arith, Result, ok, err, panic, ltb, if◌then◌else◌,
}
use aws_app_mesh_controller.References.{AwsSdk}
use aws_app_mesh_controller.CloudMap.Prober.{
  InstanceProbeEntry, ProbedPod, ProberClient, observe, finish_probe_entry,
  update_instance_probe_entry, refresh_pod,
}

-- A probe: when, and whether the instance was healthy.
abbrev pub Probe : Type 0
Probe = ℕ × Bool

observe-cases :
    (t : ℕ) (h : Bool) (e : InstanceProbeEntry)
    → ((observe t h e).last_healthy_status ≡ h)
      × (((observe t h e).last_transition_time ≡ t)
          ⊎ (((observe t h e).last_transition_time ≡ e.last_transition_time)
              × (e.last_healthy_status ≡ h)))
unfolding observe
observe-cases t h e = ground arith

finish-cases :
    {W E : Type 0} (h : Bool) (e : InstanceProbeEntry) (r : Result E ProbedPod) (w : W)
    → ((finish_probe_entry h e (r, w)).0.1.last_transition_time ≡ e.last_transition_time)
      × ((finish_probe_entry h e (r, w)).0.1.last_healthy_status ≡ e.last_healthy_status)
      × ((finish_probe_entry h e (r, w)).0.0 ≡ ok false → h ≡ true)
unfolding finish_probe_entry
finish-cases true e (ok pod) w = (refl, refl, λ x. refl)
finish-cases false e (ok pod) w = (refl, refl, λ x. cc)
finish-cases h e (err x) w = (refl, refl, λ y. cc)
finish-cases h e panic w = (refl, refl, λ y. cc)

-- The two ends of an update: the probing goes on, or the pod is told.
guarded-cases :
    {W E : Type 0} (b : Bool) (h : Bool) (e : InstanceProbeEntry) (w w' : W)
    (r : Result E ProbedPod)
    → ((if b then ((ok true, e), w') else finish_probe_entry h e (r, w)).0.1.last_transition_time
        ≡ e.last_transition_time)
      × ((if b then ((ok true, e), w') else finish_probe_entry h e (r, w)).0.1.last_healthy_status
          ≡ e.last_healthy_status)
      × ((if b then ((ok true, e), w') else finish_probe_entry h e (r, w)).0.0 ≡ ok false
          → (h ≡ true) × (b ≡ false))
guarded-cases true h e w w' r = (refl, refl, λ x. cc)
guarded-cases false h e w w' r =
    let (time, status, healthy) = finish-cases h e r w in (time, status, λ x. (healthy x, refl))

module _ (sdk : AwsSdk) {W E : Type 0} (client : ProberClient W E) (d : ℕ) where
  update-cases :
      (e : InstanceProbeEntry) (h : Bool) (w : W)
      → ((update_instance_probe_entry sdk client d e h w).0.1.last_transition_time
          ≡ (observe (client.now w).0 h e).last_transition_time)
        × ((update_instance_probe_entry sdk client d e h w).0.1.last_healthy_status
            ≡ (observe (client.now w).0 h e).last_healthy_status)
        × ((update_instance_probe_entry sdk client d e h w).0.0 ≡ ok false
            → (h ≡ true)
              × ((observe (client.now w).0 h e).last_transition_time + d
                  ≤ (client.now (client.now w).1).0))
  unfolding update_instance_probe_entry
  update-cases e h w =
      let o = observe (client.now w).0 h e in
      let run =
        client.retry_on_conflict (refresh_pod sdk client d h o.instance_info.pod)
          (client.now (client.now w).1).1 in
      let (time, status, finished) =
        guarded-cases (ltb (client.now (client.now w).1).0 (o.last_transition_time + d)) h o run.1
          (client.now (client.now w).1).1 run.0 in
      (time, status, λ x. ((finished x).0, ground (arith, (finished x).1)))

  -- The entries that `e₀` becomes, with the probes that were made of it, the last one first.
  pub data Probed (e₀ : InstanceProbeEntry) : List Probe → InstanceProbeEntry → Type 0 where
    new : Probed e₀ [] e₀
    probed :
        {ps : List Probe} {e : InstanceProbeEntry} (h : Bool) (w : W)
        → Probed e₀ ps e
        → All (λ p. p.0 ≤ (client.now w).0) ps
        → Probed e₀
            (((client.now w).0, h) ∷ ps)
            (update_instance_probe_entry sdk client d e h w).0.1

-- The status is the entry's at each probe that is later than the entry's time.
abbrev IsHeld : List Probe → InstanceProbeEntry → Type 0
IsHeld ps e = All (λ p. e.last_transition_time < p.0 → p.1 ≡ e.last_healthy_status) ps

-- An observation after all probes.
observe-IsHeld :
    (t : ℕ) (h : Bool) (e e' : InstanceProbeEntry) (ps : List Probe)
    → (e'.last_transition_time ≡ (observe t h e).last_transition_time)
    → (e'.last_healthy_status ≡ (observe t h e).last_healthy_status)
    → All (λ p. p.0 ≤ t) ps
    → IsHeld ps e
    → IsHeld ps e'
observe-IsHeld t h e e' [] time status before held = tt
observe-IsHeld t h e e' (p ∷ ps) time status before held = (
  λ later.
      let (s, cases) = observe-cases t h e in
      elim cases [
        | inl u ↦ absurd (omega (arith, later, time, u, before.0))
        | inr (u, v) ↦ held.0 (omega (arith, later, time, u)) ∙ v ∙ sym (status ∙ s)
      ],
  observe-IsHeld t h e e' ps time status before.1 held.1,
)

recent :
    (t d later : ℕ) (b : Bool) (ps : List Probe)
    → t + d ≤ later
    → All (λ p. t < p.0 → p.1 ≡ b) ps
    → All (λ p. later < p.0 + d → p.1 ≡ b) ps
recent t d later b [] le all = tt
recent t d later b (p ∷ ps) le all =
    (λ l. all.0 (omega (arith, l, le)), recent t d later b ps le all.1)

module _ (sdk : AwsSdk) {W E : Type 0} (client : ProberClient W E) (d : ℕ) where
  Probed-IsHeld :
      (e₀ : InstanceProbeEntry) {ps : List Probe} {e : InstanceProbeEntry}
      → Probed sdk client d e₀ ps e
      → IsHeld ps e
  Probed-IsHeld e₀ new = tt
  Probed-IsHeld e₀ (probed {ps = ps} {e = e} h w before late) =
      let (time, status, _) = update-cases sdk client d e h w in
      let e' = (update_instance_probe_entry sdk client d e h w).0.1 in
      (
        λ _. sym (status ∙ (observe-cases (client.now w).0 h e).0),
        observe-IsHeld (client.now w).0 h e e' ps time status late (Probed-IsHeld e₀ before),
      )

  -- When a probe is not to be repeated, and the clock has not gone back since the earlier probes of
  -- the entry: the instance was healthy then, and in every earlier probe that is younger than the
  -- transition duration, by the second reading of the clock. A probe that is exactly as old as the
  -- duration is not covered.
  pub done-IsHealthy :
      (e₀ : InstanceProbeEntry) {ps : List Probe} {e : InstanceProbeEntry} (h : Bool) (w : W)
      → Probed sdk client d e₀ ps e
      → All (λ p. p.0 ≤ (client.now w).0) ps
      → (update_instance_probe_entry sdk client d e h w).0.0 ≡ ok false
      → (h ≡ true) × All (λ p. (client.now (client.now w).1).0 < p.0 + d → p.1 ≡ true) ps
  done-IsHealthy e₀ {ps} {e} h w before late done =
      let (time, status, finished) = update-cases sdk client d e h w in
      let (healthy, old) = finished done in
      let held = Probed-IsHeld e₀ (probed h w before late) in
      let is_healthy = status ∙ (observe-cases (client.now w).0 h e).0 ∙ healthy in
      (
        healthy,
        subst (λ b. All (λ p. (client.now (client.now w).1).0 < p.0 + d → p.1 ≡ b) ps) is_healthy
            (recent _ d _ _ ps (omega (arith, old, time)) held.1),
      )
