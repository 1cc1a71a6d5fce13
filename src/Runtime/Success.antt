-- ===== src/Runtime/Success.antt =====
-- docker_compatible.go and containerd_compatible.go where nothing fails.
use kube_snapshot.Base.{String, ◌≡◌, refl, true, Option, none, some, List, Bool}
use kube_snapshot.World.{Call, Trace, Context, Env, Error, ok, M, mkdir_temp, check, ◌>>=◌}
use kube_snapshot.World.Logic.{Runs, Runs-pure, Runs-ask, Runs-tell, Runs-bind, Runs-bind_free}
use kube_snapshot.Runtime.{
  Auth, Runtime, docker_runtime, containerd_runtime, DockerCompatible, docker_of, exec_command,
  require_login, run_logged_in, with_login_context_commands, commit, image_exists, pull, push,
}

-- Every command succeeds, and the temporary files can be made.
pub record CommandsSucceed (env : Env) : Type 0 where
  pub executes :
      (tr : Trace) (ctx : Context) (command : String) (argv : List String)
      → env.exec_error tr ctx command argv ≡ none
  pub makes_dir : (tr : Trace) → (tmp : String) × (env.temp_dir tr ≡ ok tmp)
  pub writes : (tr : Trace) (path text : String) → env.write_error tr path text ≡ none

abbrev pub IsNone : Option Error → Type 0
IsNone o = o ≡ none

module _ {env : Env} (all : CommandsSucceed env) {P : Call → Type 0} (free : (c : Call) → P c) where
  -- what follows a call without an error
  pub then_check :
      {A : Type 0} {Q : A → Type 0} (m : M (Option Error)) (bad : Error → M A) (good : M A)
      → Runs P IsNone m
      → Runs P Q good
      → Runs P Q (m >>= λ failure. check failure bad good)
  then_check m bad good k g = Runs-bind m _ k λ failure e. rw e g

  exec-IsNone :
      (d : DockerCompatible) (ctx : Context) (args : List String)
      → Runs P IsNone (exec_command env d ctx args)
  unfolding exec_command
  exec-IsNone d ctx args = Runs-ask _ _ (free _) (λ tr. all.executes tr ctx d.command _)

  login-IsNone :
      (d : DockerCompatible) (ctx : Context) (auth : Auth)
      → Runs P IsNone (require_login env d ctx (some auth))
  unfolding require_login
  login-IsNone d ctx auth = then_check _ _ _ (exec-IsNone d ctx _) (Runs-pure none refl)

  logged_in-IsNone :
      (d : DockerCompatible) (ctx : Context) (auth : Auth) (tmp : String) (args : List String)
      → Runs P IsNone (run_logged_in env d ctx auth tmp args)
  unfolding run_logged_in
  logged_in-IsNone d ctx auth tmp args =
      then_check _ _ _ (Runs-ask _ _ (free _) (λ tr. all.writes tr _ _)) (
        then_check _ _ _ (login-IsNone d ctx auth)
          (then_check _ _ _ (exec-IsNone d ctx args) (Runs-pure none refl)))

  with_login-IsNone :
      (d : DockerCompatible) (ctx : Context) (auth : Option Auth) (args : List String)
      → Runs P IsNone (with_login_context_commands env d ctx auth args)
  unfolding with_login_context_commands
  with_login-IsNone d ctx none args = exec-IsNone d ctx args
  with_login-IsNone d ctx (some auth) args =
      Runs-bind _ _
        (Runs-ask {Q = λ r. (tmp : String) × (r ≡ ok tmp)} mkdir_temp env.temp_dir (free _)
          all.makes_dir)
        λ made (tmp, e). rw e (
          Runs-bind_free _ _ (Runs-tell _ (free _) tt) λ _.
            Runs-bind _ _ (logged_in-IsNone d ctx auth tmp args) λ failure none_there.
              Runs-bind_free _ _ (Runs-tell _ (free _) tt)
                λ _. Runs-bind_free _ _ (Runs-tell _ (free _) tt) λ _. Runs-pure failure none_there)

  pub commit-IsNone :
      (rt : Runtime) (ctx : Context) (container image : String) (pause : Bool)
      (message author : String)
      → Runs P IsNone (commit env rt ctx container image pause message author)
  unfolding commit
  commit-IsNone (docker_runtime d) ctx container image pause message author =
      then_check _ _ _ (exec-IsNone d ctx _) (Runs-pure none refl)
  commit-IsNone (containerd_runtime c) ctx container image pause message author =
      exec-IsNone c.docker ctx _

  pub image_exists-true :
      (rt : Runtime) (ctx : Context) (image : String)
      → Runs P (λ b. b ≡ true) (image_exists env rt ctx image)
  unfolding image_exists
  image_exists-true rt ctx image =
      then_check _ _ _ (exec-IsNone (docker_of rt) ctx _) (Runs-pure true refl)

  pub pull-IsNone :
      (rt : Runtime) (ctx : Context) (image : String) (auth : Option Auth) (args : List String)
      → Runs P IsNone (pull env rt ctx image auth args)
  unfolding pull
  pull-IsNone rt ctx image auth args = with_login-IsNone (docker_of rt) ctx auth _

  pub push-IsNone :
      (rt : Runtime) (ctx : Context) (image : String) (auth : Option Auth)
      → Runs P IsNone (push env rt ctx image auth)
  unfolding push
  push-IsNone rt ctx image auth = with_login-IsNone (docker_of rt) ctx auth _
