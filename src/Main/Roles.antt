-- ===== src/Main/Roles.antt =====
-- cmd/main.go: the two roles of the program, by the variable SNAP_TASK_NODE_NAME.
use kube_snapshot.Base.{
  String, ◌≡◌, refl, Bool, true, false, Option, none, some, List, [], ◌∷◌, is_empty, if◌then◌else◌,
  ◌==◌,
}
use kube_snapshot.World.{
  Call, Trace, Env, get_env, read_file, load_config, new_manager, add_controller, add_rotator,
  register_handler, add_webhook, spawn, containerd_client, setup, exec, write_file,
}
use kube_snapshot.World.Calls.{
  Makes, Makes-pure, Makes-if, Makes-bind, Makes-ask, Makes-check, Makes-ask_known, makes_rules,
}
use kube_snapshot.Runtime.Setup.{
  exec_command_p_out, with_server_version, ask_containerd, with_nerdctl_version,
  new_containerd_compatible_runtime,
}
use kube_snapshot.Runtime.{DockerCompatible}
use kube_snapshot.Task.Setup as TaskSetup
use kube_snapshot.Pod.Setup as PodSetup
use kube_snapshot.Main.{
  Flags, tls_protos, copy_docker_config, set_up_node, rotate_certs, set_up_controller, start_all,
  set_up, main, End, exits, unless_exited, manager_options,
}

-- What `main` may do where the variable is `node`: on a node it may set up the tasks' controller and
-- no webhook, otherwise the SnapshotPods' controller with the webhook, and no command is run. Without
-- the flag for HTTP/2, a server offers HTTP/1.1 alone.
abbrev pub Role : Flags → String → Call → Type 0
Role f node (setup (add_controller kind)) =
    kind ≡ (if is_empty node then "SnapshotPod" else "SnapshotPodTask")
Role f node (setup (add_rotator o)) = is_empty node ≡ true
Role f node (setup (spawn what)) = (what == "webhook") ≡ true → is_empty node ≡ true
Role f node (setup (new_manager o)) =
    f.enable_http2 ≡ false → o.next_protos ≡ some ("http/1.1" ∷ [])
Role f node (setup (read_file path)) = is_empty node ≡ false
Role f node (setup (containerd_client ns address)) = is_empty node ≡ false
Role f node (setup (register_handler path)) = ⊥
Role f node (setup (add_webhook kind)) = ⊥
Role f node (setup _) = Unit
Role f node (exec ctx command argv) = is_empty node ≡ false
Role f node (write_file path text) = is_empty node ≡ false
Role f node _ = ⊥

module _ (env : Env) (f : Flags) (node : String) where
  module _ (named : is_empty node ≡ false) where
    pub copy-Makes : Makes (Role f node) (copy_docker_config env f)
    unfolding copy_docker_config
    copy-Makes = search (makes_rules, named) depth 9

    server_version-Makes :
        (d : DockerCompatible) (b : Bool) (sv : String)
        → Makes (Role f node) (with_server_version env d b sv)
    unfolding with_server_version
    server_version-Makes d b sv = search (makes_rules, tt {0}) depth 9

    containerd-Makes :
        (d : DockerCompatible) (o : Option Bool)
        → Makes (Role f node) (with_nerdctl_version env d o)
    unfolding with_nerdctl_version ask_containerd
    containerd-Makes d none = search (makes_rules)
    containerd-Makes d (some less) =
        search (makes_rules, server_version-Makes, named, tt {0}) depth 12

    pub runtime-Makes :
        (cmd : String) (args : List String)
        → Makes (Role f node) (new_containerd_compatible_runtime env cmd args)
    unfolding new_containerd_compatible_runtime exec_command_p_out
    runtime-Makes cmd args = search (makes_rules, containerd-Makes, named) depth 9

    tasks-Role : Role f node (setup (add_controller "SnapshotPodTask"))
    tasks-Role = rw named refl

    tasks-Makes : (n : String) → Makes (Role f node) (TaskSetup.setup_with_manager env n)
    unfolding TaskSetup.setup_with_manager
    tasks-Makes n = search (makes_rules, runtime-Makes, tasks-Role) depth 9

    node-Makes : Makes (Role f node) (set_up_node env f node)
    unfolding set_up_node
    node-Makes = search (makes_rules, copy-Makes, tasks-Makes) depth 9

  module _ (unnamed : is_empty node ≡ true) where
    webhook-Role : Role f node (setup (spawn "webhook"))
    webhook-Role h = unnamed

    rotate-Makes : (ns : String) → Makes (Role f node) (rotate_certs env f ns)
    unfolding rotate_certs
    rotate-Makes ns = search (makes_rules, webhook-Role, unnamed, tt {0}) depth 15

    pods-Role : Role f node (setup (add_controller "SnapshotPod"))
    pods-Role = rw unnamed refl

    controller-Makes : Makes (Role f node) (set_up_controller env f)
    unfolding set_up_controller PodSetup.setup_with_manager
    controller-Makes = search (makes_rules, rotate-Makes, pods-Role, tt {0}) depth 12

  collector-Role : Role f node (setup (spawn "metrics collector"))
  collector-Role h = cc h

  pub start-Makes : Makes (Role f node) (start_all env)
  unfolding start_all
  start-Makes = search (makes_rules, collector-Role, tt {0}) depth 15

  unless-Makes : (o : Option End) → Makes (Role f node) (unless_exited env o)
  unless-Makes (some e) = Makes-pure e
  unless-Makes none = start-Makes

  pub set_up-Makes : Makes (Role f node) (set_up env f node)
  unfolding set_up
  set_up-Makes = search (makes_rules, node-Makes, controller-Makes) depth 6

  manager-Role : Role f node (setup (new_manager (manager_options f)))
  unfolding tls_protos
  manager-Role h = rw h refl

  -- Whatever its calls answer, and wherever it ends, `main` keeps to the role that the variable
  -- SNAP_TASK_NODE_NAME gives it: with a node's name it sets up no controller but that of the tasks, and
  -- neither the rotation of certificates nor the webhook; without one no controller but that of
  -- the SnapshotPods, and it runs no command and touches no file. Without the flag for HTTP/2 the servers
  -- offer HTTP/1.1 alone.
  pub main-Makes :
      ((tr : Trace) → env.host.variable tr "SNAP_TASK_NODE_NAME" ≡ node)
      → Makes (Role f node) (main env f)
  unfolding main
  main-Makes known =
      Makes-bind _ _ (Makes-ask (setup load_config) env.host.has_config tt) λ configured.
        Makes-if configured _ _
          (λ _.
            Makes-bind _ _ (Makes-ask (setup (new_manager (manager_options f))) _ manager-Role)
              λ failure.
                Makes-check failure _ _ (λ e. Makes-pure (exits 1))
                  λ _.
                    Makes-ask_known (setup (get_env "SNAP_TASK_NODE_NAME")) _ node _ known tt
                      (Makes-bind _ _ set_up-Makes unless-Makes))
          (λ _. Makes-pure (exits 1))
