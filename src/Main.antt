-- ===== src/Main.antt =====
-- cmd/main.go: the start of the program.
pub mod Roles
pub mod Failures
pub mod Started
use kube_snapshot.Base.{
  ℕ, String, Bool, true, false, Option, none, some, List, [], ◌∷◌, is_empty, sprint, if◌then◌else◌,
}
use kube_snapshot.Api.{ObjectKey}
use kube_snapshot.World.{
  Error, Result, ok, err, Env, M, ◌>>=◌, ◌>>◌, pure, panic, ask, tell, check, handle, setup,
  write_file, ManagerOptions, RotatorOptions, SetupCall, get_env, read_file, load_config,
  new_manager, add_rotator, spawn, add_healthz_check, add_readyz_check, start_manager,
}
use kube_snapshot.Task.Setup as TaskSetup
use kube_snapshot.Pod.Setup as PodSetup
use kube_snapshot.Webhook.Setup.{setup_webhook_with_manager}

-- the variables that the flags set
pub record Flags : Type 0 where
  pub metrics_addr : String
  pub enable_leader_election : Bool
  pub probe_addr : String
  pub secure_metrics : Bool
  pub enable_http2 : Bool
  pub system_wide_docker_config_path : String
  pub cert_dir : String

-- the flags of a command line that sets none
abbrev pub default_flags : Flags
default_flags = record {
  metrics_addr = ":8080";
  enable_leader_election = false;
  probe_addr = ":8081";
  secure_metrics = false;
  enable_http2 = false;
  system_wide_docker_config_path = "";
  cert_dir = "";
}

-- How `main` ends: by `os.Exit`, or by its return.
pub data End : Type 0 where
  exits : ℕ → End
  finished : End

-- `disableHTTP2`, as a change of the protocols that a server offers; `none` is the default of Go
abbrev pub disable_http2 : Option (List String) → Option (List String)
disable_http2 protos = some ("http/1.1" ∷ [])

-- the functions of `tlsOpts` in turn, from a configuration that names no protocols
unfoldable pub tls_protos : Flags → Option (List String)
tls_protos f = if f.enable_http2 then none else disable_http2 none

abbrev pub manager_options : Flags → ManagerOptions
manager_options f = record {
  bind_address = f.metrics_addr;
  secure_serving = f.secure_metrics;
  next_protos = tls_protos f;
  cert_dir = f.cert_dir;
  health_probe_bind_address = f.probe_addr;
  leader_election = f.enable_leader_election;
  leader_election_id = "bb519aed.baizeai.io";
}

module _ (env : Env) where
  abbrev pub getenv : String → M String
  getenv name = ask (setup (get_env name)) (λ tr. env.host.variable tr name)

  -- a call of which `main` looks at the error alone
  abbrev pub attempt : SetupCall → M (Option Error)
  attempt c = ask (setup c) (λ tr. env.host.setup_error tr c)

  -- `if systemWideDockerConfigPath != "" { … }`
  unfoldable pub copy_docker_config : Flags → M Unit
  copy_docker_config f = if is_empty f.system_wide_docker_config_path then pure tt else do
    let path = f.system_wide_docker_config_path
    got ← ask (setup (read_file path)) (λ tr. env.host.file_at tr path)
    handle got (λ e. panic)
        λ bs. do
          let target = env.host.join_path (env.host.user_home ∷ ".docker" ∷ "config.json" ∷ [])
          failure ← ask (write_file target bs) (λ tr. env.write_error tr target bs)
          check failure (λ e. panic) (pure tt)

  -- the branch for a node
  unfoldable pub set_up_node : Flags → String → M (Option End)
  set_up_node f node = do
    copy_docker_config f
    made ← TaskSetup.setup_with_manager env node
    handle made (λ e. pure (some (exits 1))) (λ r. pure none)

  unfoldable pub rotate_certs : Flags → String → M Unit
  rotate_certs f ns = do
    secret ← getenv "TLS_SECRET_NAME"
    service ← getenv "MUTATE_WEBHOOK_SVC_NAME"
    webhook ← getenv "MUTATE_WEBHOOK_NAME"
    failure ← attempt (
        add_rotator (record {
          secret_key = record { namespace = ns; name = secret };
          cert_dir = f.cert_dir;
          dns_name = sprint (service ∷ "." ∷ ns ∷ ".svc" ∷ []);
          webhook_name = webhook;
        }))
    check failure (λ e. panic) (tell (setup (spawn "webhook")))

  -- the branch for the controller
  unfoldable pub set_up_controller : Flags → M (Option End)
  set_up_controller f = do
    failure ← PodSetup.setup_with_manager env
    check failure (λ e. pure (some (exits 1)))
        do
          ns ← getenv "POD_NAMESPACE"
          if is_empty ns then panic else do rotate_certs f ns; pure none

  -- the end of `main`
  unfoldable pub start_all : M End
  start_all = do
    tell (setup (spawn "metrics collector"))
    failure ← attempt (add_healthz_check "healthz")
    check failure (λ e. pure (exits 1))
        do
          failure ← attempt (add_readyz_check "readyz")
          check failure (λ e. pure (exits 1))
              do
                failure ← attempt start_manager
                check failure (λ e. pure (exits 1)) (pure finished)

  -- what follows the choice of the controller
  abbrev pub unless_exited : Option End → M End
  unless_exited (some e) = pure e
  unless_exited none = start_all

  -- the choice by the name of the node
  unfoldable pub set_up : Flags → String → M (Option End)
  set_up f node = if is_empty node then set_up_controller f else set_up_node f node

  unfoldable pub main : Flags → M End
  main f = do
    configured ← ask (setup load_config) env.host.has_config
    if configured
        then (do
          failure ← attempt (new_manager (manager_options f))
          check failure (λ e. pure (exits 1))
              do node ← getenv "SNAP_TASK_NODE_NAME"; exited ← set_up f node; unless_exited exited)
        else pure (exits 1)

  -- the goroutine that waits for the certificates, from there on
  unfoldable pub serve_webhook : M (Option End)
  serve_webhook = do
    failure ← setup_webhook_with_manager env
    check failure (λ e. pure (some (exits 1))) (pure none)
