-- ===== src/Runtime/Setup.antt =====
-- docker_compatible.go and containerd_compatible.go: the constructors of the runtimes, with the
-- versions of nerdctl and containerd that decide about the compression of a commit.
use kube_snapshot.Base.{String, Bool, Option, none, some, List, [], ◌∷◌, ◌++◌, not, strip_prefix}
use kube_snapshot.World.{
  Error, Result, ok, err, Context, Env, M, ◌>>=◌, ◌>>◌, pure, panic, ask, tell, check, handle, exec,
  setup, containerd_client, containerd_version, containerd_cancel,
}
use kube_snapshot.Runtime.{DockerCompatible, Runtime, docker_runtime, containerd_runtime}

abbrev pub min_nerdctl_version : String
min_nerdctl_version = "2.1.3"

abbrev pub min_containerd_version : String
min_containerd_version = "2.0.0"

-- `strings.TrimPrefix`
abbrev pub trim_prefix : String → String → String
trim_prefix s p = elim (strip_prefix p s) [ some rest ↦ rest | none ↦ s ]

unfoldable pub parse_version : String → String
parse_version str = trim_prefix str "nerdctl version "

unfoldable pub new_docker_compatible_runtime : String → List String → Runtime
new_docker_compatible_runtime cmd args =
    docker_runtime (record { command = cmd; global_args = args })

module _ (env : Env) where
  -- the standard output of the command, and its error
  unfoldable pub exec_command_p_out :
      DockerCompatible → Context → List String → M (String × Option Error)
  exec_command_p_out d ctx args =
      let argv = d.global_args ++ args in
      ask (exec ctx d.command argv)
        (λ tr. (env.host.exec_output tr ctx d.command argv, env.exec_error tr ctx d.command argv))

  -- the comparison with containerd's version, with the deferred `cancel` of the context
  unfoldable pub with_server_version : DockerCompatible → Bool → String → M (Result Runtime)
  with_server_version d nerdctl sv = do
    let less = env.host.version_less sv min_containerd_version
    tell (setup containerd_cancel)
    pure (
        ok (
          containerd_runtime (record {
            docker = d;
            is_nerdctl_version_sufficient = nerdctl;
            is_containerd_version_sufficient = not less;
          })))

  -- the part that asks containerd for its version
  unfoldable pub ask_containerd : DockerCompatible → Bool → M (Result Runtime)
  ask_containerd d nerdctl = do
    let connect = containerd_client "k8s.io" env.host.default_address
    failure ← ask (setup connect) (λ tr. env.host.setup_error tr connect)
    check failure (λ e. pure (err e))
        do
          got ← ask (setup containerd_version) env.host.server_version
          handle got (λ e. do tell (setup containerd_cancel); pure (err e))
              λ sv. with_server_version d nerdctl sv

  -- `semver.MustParse` panics where the output is no version
  unfoldable pub with_nerdctl_version : DockerCompatible → Option Bool → M (Result Runtime)
  with_nerdctl_version d none = panic
  with_nerdctl_version d (some less) = ask_containerd d (not less)

  unfoldable pub new_containerd_compatible_runtime : String → List String → M (Result Runtime)
  new_containerd_compatible_runtime cmd args = do
    let dc : DockerCompatible = record { command = cmd; global_args = args }
    (out, failure) ← exec_command_p_out dc none ("-v" ∷ [])
    check failure (λ e. pure (err e))
        (with_nerdctl_version dc
          (env.host.less_than (parse_version (env.host.trim_space out)) min_nerdctl_version))
