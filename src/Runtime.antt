-- ===== src/Runtime.antt =====
-- internal/controller/runtime: the container runtimes, by the commands that they run.
-- `Runtime` is the interface of runtime.go, with a constructor for each type that implements it:
-- docker_compatible.go and containerd_compatible.go.
pub mod Quiet
pub mod Login
pub mod Setup
pub mod Versions
pub mod Success
pub mod Effort
use kube_snapshot.Base.{
  String, Bool, true, false, Option, none, some, List, [], ◌∷◌, ◌++◌, ◌&&◌, is_empty, sprint,
  if◌then◌else◌,
}
use kube_snapshot.World.{
  Error, errorf, Result, Context, Env, M, ◌>>=◌, ◌>>◌, pure, ask, tell, check, handle, exec,
  mkdir_temp, remove_all, set_env, unset_env, write_file,
}

pub record Auth : Type 0 where
  pub registry : String
  pub config_json : String

pub record DockerCompatible : Type 0 where
  pub command : String
  pub global_args : List String

pub record ContainerdCompatible : Type 0 where
  pub docker : DockerCompatible
  pub is_nerdctl_version_sufficient : Bool
  pub is_containerd_version_sufficient : Bool

pub data Runtime : Type 0 where
  docker_runtime : DockerCompatible → Runtime
  containerd_runtime : ContainerdCompatible → Runtime

-- `containerdCompatibleRuntime` embeds the other type, and has a `Commit` of its own alone.
abbrev pub docker_of : Runtime → DockerCompatible
docker_of (docker_runtime d) = d
docker_of (containerd_runtime c) = c.docker

-- `fmt.Sprintf("--pause=%v", pause)`
abbrev pub pause_flag : Bool → String
pause_flag true = "--pause=true"
pause_flag false = "--pause=false"

-- `if s != "" { args = append(args, flag, s) }`
abbrev pub text_flag : String → String → List String
text_flag flag s = if is_empty s then [] else flag ∷ s ∷ []

unfoldable pub docker_commit_args : String → String → Bool → String → String → List String
docker_commit_args container image pause message author =
    "commit"
    ∷ pause_flag pause
    ∷ (text_flag "--message" message ++ (text_flag "--author" author ++ (container ∷ image ∷ [])))

unfoldable pub containerd_commit_args :
    String → ContainerdCompatible → String → String → Bool → String → String → List String
containerd_commit_args zstd c container image pause message author =
    "commit"
    ∷ container
    ∷ image
    ∷ pause_flag pause
    ∷ (text_flag "--message" message
        ++ (text_flag "--author" author
            ++ (if c.is_nerdctl_version_sufficient && c.is_containerd_version_sufficient
                then "--compression" ∷ zstd ∷ []
                else [])))

module _ (env : Env) where
  -- The command's two outputs go to the log alone.
  unfoldable pub exec_command : DockerCompatible → Context → List String → M (Option Error)
  exec_command d ctx args =
      let argv = d.global_args ++ args in
      ask (exec ctx d.command argv) (λ tr. env.exec_error tr ctx d.command argv)

  unfoldable pub require_login : DockerCompatible → Context → Option Auth → M (Option Error)
  require_login d ctx none = pure none
  require_login d ctx (some auth) = do
    failure ← exec_command d ctx ("login" ∷ auth.registry ∷ [])
    check failure
        (λ e. pure (some (errorf (sprint ("login '" ∷ auth.registry ∷ "': " ∷ e.text ∷ [])))))
        (pure none)

  -- the body between the two `defer` lines and the returns
  unfoldable pub run_logged_in :
      DockerCompatible → Context → Auth → String → List String → M (Option Error)
  run_logged_in d ctx auth tmp args = do
    let file = sprint (tmp ∷ "/config.json" ∷ [])
    failure ←
        ask (write_file file auth.config_json) (λ tr. env.write_error tr file auth.config_json)
    check failure (λ e. pure (some e))
        do
          failure ← require_login d ctx (some auth)
          check failure (λ e. pure (some e))
              do
                failure ← exec_command d ctx args
                check failure (λ e. pure (some (errorf (sprint ("after login: " ∷ e.text ∷ [])))))
                    (pure none)

  -- The deferred calls run last in, first out, once the body has ended.
  unfoldable pub with_login_context_commands :
      DockerCompatible → Context → Option Auth → List String → M (Option Error)
  with_login_context_commands d ctx none args = exec_command d ctx args
  with_login_context_commands d ctx (some auth) args = do
    made ← ask mkdir_temp env.temp_dir
    handle made (λ e. pure (some e))
        λ tmp. do
          tell (set_env "DOCKER_CONFIG" tmp)
          failure ← run_logged_in d ctx auth tmp args
          tell (unset_env "DOCKER_CONFIG")
          tell (remove_all tmp)
          pure failure

  unfoldable pub commit :
      Runtime → Context → String → String → Bool → String → String → M (Option Error)
  commit (docker_runtime d) ctx container image pause message author = do
    failure ← exec_command d ctx (docker_commit_args container image pause message author)
    check failure (λ e. pure (some (errorf (sprint ("commit image: " ∷ e.text ∷ []))))) (pure none)
  commit (containerd_runtime c) ctx container image pause message author =
      exec_command c.docker ctx
        (containerd_commit_args env.zstd c container image pause message author)

  unfoldable pub image_exists : Runtime → Context → String → M Bool
  image_exists rt ctx image = do
    failure ← exec_command (docker_of rt) ctx ("image" ∷ "inspect" ∷ image ∷ [])
    check failure (λ e. pure false) (pure true)

  unfoldable pub pull : Runtime → Context → String → Option Auth → List String → M (Option Error)
  pull rt ctx image auth args =
      with_login_context_commands (docker_of rt) ctx auth ("pull" ∷ image ∷ args)

  unfoldable pub push : Runtime → Context → String → Option Auth → M (Option Error)
  push rt ctx image auth = with_login_context_commands (docker_of rt) ctx auth ("push" ∷ image ∷ [])
