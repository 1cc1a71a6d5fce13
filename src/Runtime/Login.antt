-- ===== src/Runtime/Login.antt =====
-- docker_compatible.go: what a command under a login leaves behind, and in which environment it runs.
use kube_snapshot.Base.{
  String, ◌≡◌, Option, none, some, List, [], ◌∷◌, ◌++◌, ◌==◌, arith, if◌then◌else◌,
}
use kube_snapshot.World.{
  Env, Trace, Call, Context, ok, returns, set_env, unset_env, exec, remove_all, ◌>>=◌,
}
use kube_snapshot.Runtime.{
  Auth, Runtime, DockerCompatible, docker_of, exec_command, require_login, run_logged_in,
  with_login_context_commands, push,
}

-- the value of DOCKER_CONFIG after the calls
unfoldable pub docker_config : Trace → Option String
docker_config [] = none
docker_config (c ∷ tr) =
    let before = docker_config tr in
    elim c [
      | set_env name value ↦ if name == "DOCKER_CONFIG" then some value else before
      | unset_env name ↦ if name == "DOCKER_CONFIG" then none else before
      | _ ↦ before
    ]

-- the commands that were run, the latest first, each with its DOCKER_CONFIG
unfoldable pub commands_run : Trace → List (Option String × List String)
commands_run [] = []
commands_run (c ∷ tr) =
    let before = commands_run tr in
    elim c [ exec ctx command argv ↦ (docker_config tr, argv) ∷ before | _ ↦ before ]

abbrev pub last_call : Trace → Option Call
last_call [] = none
last_call (c ∷ tr) = some c

-- Where a temporary directory can be made, and however a command and its login end, DOCKER_CONFIG
-- is not set afterwards if it was not before, and the directory is removed by the last call.
pub login_cleans :
    (env : Env) (d : DockerCompatible) (ctx : Context) (tr : Trace) (tmp : String)
    → docker_config tr ≡ none
    → env.temp_dir tr ≡ ok tmp
    → (auth : Auth) (args : List String)
    → let after = (with_login_context_commands env d ctx (some auth) args tr).1 in
      (docker_config after ≡ none) × (last_call after ≡ some (remove_all tmp))
unfolding with_login_context_commands run_logged_in require_login exec_command docker_config ◌>>=◌
login_cleans env d ctx tr tmp clear made auth args = (ground arith, ground arith)

-- Where a temporary directory can be made, a push under a login that succeeds has run two
-- commands with that directory for the configuration: the login to the registry, and then the
-- push.
pub push_logs_in :
    (env : Env) (rt : Runtime) (ctx : Context) (tr : Trace) (tmp image : String) (auth : Auth)
    → env.temp_dir tr ≡ ok tmp
    → (push env rt ctx image (some auth) tr).0 ≡ returns none
    → commands_run (push env rt ctx image (some auth) tr).1
      ≡ (some tmp, (docker_of rt).global_args ++ "push" ∷ image ∷ [])
        ∷ (some tmp, (docker_of rt).global_args ++ "login" ∷ auth.registry ∷ [])
        ∷ commands_run tr
unfolding push with_login_context_commands run_logged_in require_login exec_command docker_config
    commands_run ◌>>=◌
push_logs_in env rt ctx tr tmp image auth made done = ground arith
