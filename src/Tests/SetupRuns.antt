-- ===== src/Tests/SetupRuns.antt =====
-- Runs of the start-up, of the constructor of the containerd runtime, of the collector's loop, and
-- names of tasks.
use kube_snapshot.Base.{
  String, ◌+◌, ◌≡◌, refl, Bool, false, [], ◌∷◌, ◌++◌, ◌||◌, if◌then◌else◌, show_nat,
}
use kube_snapshot.Base.Int.{ℤ, pos, show_int}
use kube_snapshot.World.{Trace, Context, ok, returns, exec, ◌>>=◌}
use kube_snapshot.World.Calls.{Makes}
use kube_snapshot.World.Ensures.{Ensures}
use kube_snapshot.Pod.Setup as PodSetup
use kube_snapshot.Main.{
  default_flags, main, finished, set_up, set_up_controller, rotate_certs, start_all,
}
use kube_snapshot.Main.Started.{Ends, main_sets_up}
use kube_snapshot.Main.Roles.{Role}
use kube_snapshot.Metrics.Collector.{tick, stopped, start}
use kube_snapshot.Metrics.Ticks.{collections, ticks, start_lem}
use kube_snapshot.Pod.Tasks.{task_name}
use kube_snapshot.Pod.Names.{task_name-Injective}
use kube_snapshot.Runtime.{Runtime, commit, pause_flag, text_flag}
use kube_snapshot.Runtime.Setup.{new_containerd_compatible_runtime}
use kube_snapshot.Runtime.Versions.{Connects, compresses}
use kube_snapshot.Tests.Sample.{env}

main_sets_up_example :
    Makes (Role default_flags "") (main env default_flags)
    × Ensures (λ tr. Unit {0}) (main env default_flags) (Ends env default_flags "")
main_sets_up_example = main_sets_up env default_flags "" (λ tr. refl)

-- where nothing fails, the program runs its manager to the end
main_finishes : (main env default_flags []).0 ≡ returns finished
unfolding main set_up set_up_controller rotate_certs start_all PodSetup.setup_with_manager ◌>>=◌
main_finishes = refl

connects : Connects env "nerdctl" [] [] false
connects = record { runs = refl; compares = refl; opens = refl }

compresses_example :
    (rt : Runtime) × ((new_containerd_compatible_runtime env "nerdctl" [] []).0 ≡ returns (ok rt))
    × ((ctx : Context) (container image : String) (pause : Bool) (message author : String)
          (later : Trace)
        → (commit env rt ctx container image pause message author later).1
          ≡ exec ctx "nerdctl" (
              []
              ++ "commit"
                ∷ container
                ∷ image
                ∷ pause_flag pause
                ∷ (text_flag "--message" message
                    ++ (text_flag "--author" author
                        ++ (if false || false then [] else "--compression" ∷ "zstd" ∷ []))))
            ∷ later)
compresses_example = compresses env "nerdctl" [] [] false connects "2.0.0" refl

start_lem_example :
    ((start env (tick ∷ tick ∷ stopped ∷ tick ∷ []) []).0 ≡ returns tt)
    × (collections (start env (tick ∷ tick ∷ stopped ∷ tick ∷ []) []).1
        ≡ ticks (tick ∷ tick ∷ stopped ∷ tick ∷ []) + collections [])
start_lem_example = start_lem env (tick ∷ tick ∷ stopped ∷ tick ∷ []) []

task_name-Injective_example : ◌≡◌ {A = ℤ} (pos 1) (pos 1) × ◌≡◌ {A = String} "web" "web"
task_name-Injective_example = task_name-Injective "nginx" (pos 1) (pos 1) "web" "web" refl

-- Two SnapshotPods may give their tasks the same name.
names_collide : task_name "x" (pos 1) "2-y" ≡ task_name "x-1" (pos 2) "y"
unfolding task_name show_int show_nat
names_collide = refl
