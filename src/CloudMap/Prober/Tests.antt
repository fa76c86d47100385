-- ===== src/CloudMap/Prober/Tests.antt =====
-- Tests of the health prober with a clock that is the world, and its theorem there.
use aws_app_mesh_controller.Base.Int.{pos}
use aws_app_mesh_controller.Base.{
  ℕ, String, true, false, none, some, [], ◌∷◌, ok, ◌≡◌, ◌<◌, ◌+◌, refl, All, arith, string_eq,
}
use aws_app_mesh_controller.References.{AwsSdk}
use aws_app_mesh_controller.CloudMap.Prober.{
  ProbedPod, InstanceProbeEntry, ProberClient, get_pod_condition, update_pod_condition, observe,
  patch_pod, refresh_pod, finish_probe_entry, update_instance_probe_entry,
}
use aws_app_mesh_controller.CloudMap.Prober.Stable.{new, probed, done-IsHealthy, Probe}

abbrev sdk : AwsSdk
sdk = record {
  string_value = λ o. elim o [ none ↦ "" | some s ↦ s ];
  int64_value = λ o. elim o [ none ↦ pos 0 | some n ↦ n ];
}

abbrev pod : ProbedPod
pod = record { key = record { namespace = "ns"; name = "p" }; conditions = [] }

abbrev client : ProberClient ℕ String
client = record {
  now = λ w. (w, w);
  get_pod = λ k w. (ok pod, w);
  patch_status = λ p old w. (ok p, w);
  retry_on_conflict = λ f. f;
}

abbrev entry : InstanceProbeEntry
entry = record {
  instance_id = "i";
  instance_info = record { attrs = []; pod = some pod };
  last_transition_time = 0;
  last_healthy_status = false;
}

-- The entry after a probe at 5 that finds the instance healthy.
abbrev healthy_at_5 : InstanceProbeEntry
healthy_at_5 = (update_instance_probe_entry sdk client 20 entry true 5).0.1

goes_on : (update_instance_probe_entry sdk client 20 healthy_at_5 true 24).0.0 ≡ ok true
unfolding update_instance_probe_entry observe
goes_on = refl

starts_again : (update_instance_probe_entry sdk client 20 healthy_at_5 false 30).0.0 ≡ ok true
unfolding update_instance_probe_entry observe
starts_again = refl

done_at_25 : (update_instance_probe_entry sdk client 20 healthy_at_5 true 25).0.0 ≡ ok false
unfolding update_instance_probe_entry observe finish_probe_entry refresh_pod patch_pod
    update_pod_condition get_pod_condition
done_at_25 = refl

done-IsHealthy_example :
    (true ≡ true) × All (λ (p : Probe). 25 < p.0 + 20 → p.1 ≡ true) ((5, true) ∷ [])
done-IsHealthy_example =
    done-IsHealthy sdk client 20 entry true 25 (probed true 5 new tt) (omega arith, tt) done_at_25
