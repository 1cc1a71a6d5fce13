-- ===== src/Tests/Commands.antt =====
-- Commands of a container engine, and the gauges.
use kube_snapshot.Base.{◌≡◌, refl, none, some, [], ◌∷◌, ◌++◌, length, filter_by}
use kube_snapshot.World.{remove_all, ◌>>=◌}
use kube_snapshot.Runtime.{
  Auth, docker_of, docker_runtime, exec_command, require_login, run_logged_in,
  with_login_context_commands, push,
}
use kube_snapshot.Runtime.Login.{docker_config, commands_run, last_call, login_cleans, push_logs_in}
use kube_snapshot.Metrics.Collector.{count_tasks, counts_of}
use kube_snapshot.Metrics.Counts.{count_at, counted, count_tasks_lem}
use kube_snapshot.Tests.Sample.{env, docker, task}

abbrev auth : Auth
auth = record { registry = "docker.io"; config_json = "{}" }

login_cleans_example :
    let after = (with_login_context_commands env docker none (some auth) ("push" ∷ []) []).1 in
    (docker_config after ≡ none) × (last_call after ≡ some (remove_all "/tmp/.docker-config-1"))
unfolding docker_config
login_cleans_example =
    login_cleans env docker none [] "/tmp/.docker-config-1" refl refl auth ("push" ∷ [])

push_logs_in_example :
    commands_run (push env (docker_runtime docker) none "nginx" (some auth) []).1
    ≡ (
      some "/tmp/.docker-config-1",
      (docker_of (docker_runtime docker)).global_args ++ "push" ∷ "nginx" ∷ [],
    )
      ∷ (
        some "/tmp/.docker-config-1",
        (docker_of (docker_runtime docker)).global_args ++ "login" ∷ "docker.io" ∷ [],
      )
      ∷ commands_run []
unfolding push with_login_context_commands run_logged_in require_login exec_command ◌>>=◌
push_logs_in_example =
    push_logs_in env (docker_runtime docker) none [] "/tmp/.docker-config-1" "nginx" auth refl refl

count_tasks_lem_example :
    count_at "created" (counts_of "node-1" (count_tasks [] (task ∷ [])))
    ≡ length (filter_by (counted "node-1" "created") (task ∷ []))
count_tasks_lem_example = count_tasks_lem "node-1" "created" (task ∷ [])
