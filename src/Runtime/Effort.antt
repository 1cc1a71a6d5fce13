-- ===== src/Runtime/Effort.antt =====
-- docker_compatible.go and containerd_compatible.go: how many commands an operation runs.
use kube_snapshot.Base.{String, Bool, Option, none, some, List, arith, refl}
use kube_snapshot.World.{Context, Env, mkdir_temp, set_env, unset_env, remove_all, write_file}
use kube_snapshot.World.Calls.{Makes-pure, Makes-tell}
use kube_snapshot.World.Count.{
  AtMost, AtMost-Makes, AtMost-ask, AtMost-weaken, AtMost-bind, AtMost-handle, AtMost-check,
}
use kube_snapshot.Runtime.{
  Auth, Runtime, docker_runtime, containerd_runtime, DockerCompatible, docker_of, exec_command,
  require_login, run_logged_in, with_login_context_commands, commit, image_exists, pull, push,
}

module _ (env : Env) where
  exec-AtMost :
      (d : DockerCompatible) (ctx : Context) (args : List String)
      → AtMost 1 (exec_command env d ctx args)
  unfolding exec_command
  exec-AtMost d ctx args = AtMost-ask _ _

  login-AtMost :
      (d : DockerCompatible) (ctx : Context) (auth : Auth)
      → AtMost 1 (require_login env d ctx (some auth))
  unfolding require_login
  login-AtMost d ctx auth = AtMost-bind {j = 0} _ _ (exec-AtMost d ctx _) λ failure.
      AtMost-check failure _ _ (λ e. AtMost-Makes (Makes-pure _)) (AtMost-Makes (Makes-pure _))

  logged_in-AtMost :
      (d : DockerCompatible) (ctx : Context) (auth : Auth) (tmp : String) (args : List String)
      → AtMost 2 (run_logged_in env d ctx auth tmp args)
  unfolding run_logged_in
  logged_in-AtMost d ctx auth tmp args =
      AtMost-bind {j = 2} _ _ (AtMost-ask (write_file _ _) _) λ failure.
        AtMost-check failure _ _ (λ e. AtMost-weaken (omega arith) (AtMost-Makes (Makes-pure _)))
          (AtMost-bind {j = 1} _ _ (login-AtMost d ctx auth) λ failure.
            AtMost-check failure _ _
              (λ e. AtMost-weaken (omega arith) (AtMost-Makes (Makes-pure _)))
              (AtMost-bind {j = 0} _ _ (exec-AtMost d ctx args) λ failure.
                AtMost-check failure _ _ (λ e. AtMost-Makes (Makes-pure _))
                  (AtMost-Makes (Makes-pure _))))

  with_login-AtMost :
      (d : DockerCompatible) (ctx : Context) (auth : Option Auth) (args : List String)
      → AtMost 2 (with_login_context_commands env d ctx auth args)
  unfolding with_login_context_commands
  with_login-AtMost d ctx none args = AtMost-weaken (omega arith) (exec-AtMost d ctx args)
  with_login-AtMost d ctx (some auth) args =
      AtMost-bind {j = 2} _ _ (AtMost-ask mkdir_temp _) λ made.
        AtMost-handle made _ _ (λ e. AtMost-weaken (omega arith) (AtMost-Makes (Makes-pure _)))
          λ tmp. AtMost-bind {j = 2} _ _ (AtMost-Makes (Makes-tell (set_env _ _) refl)) λ _.
            AtMost-bind {j = 0} _ _ (logged_in-AtMost d ctx auth tmp args) λ failure.
              AtMost-bind {j = 0} _ _ (AtMost-Makes (Makes-tell (unset_env _) refl)) λ _.
                AtMost-bind {j = 0} _ _ (AtMost-Makes (Makes-tell (remove_all _) refl))
                  λ _. AtMost-Makes (Makes-pure failure)

  pub commit-AtMost :
      (rt : Runtime) (ctx : Context) (container image : String) (pause : Bool)
      (message author : String)
      → AtMost 1 (commit env rt ctx container image pause message author)
  unfolding commit
  commit-AtMost (docker_runtime d) ctx container image pause message author =
      AtMost-bind {j = 0} _ _ (exec-AtMost d ctx _) λ failure.
        AtMost-check failure _ _ (λ e. AtMost-Makes (Makes-pure _)) (AtMost-Makes (Makes-pure _))
  commit-AtMost (containerd_runtime c) ctx container image pause message author =
      exec-AtMost c.docker ctx _

  pub image_exists-AtMost :
      (rt : Runtime) (ctx : Context) (image : String) → AtMost 1 (image_exists env rt ctx image)
  unfolding image_exists
  image_exists-AtMost rt ctx image =
      AtMost-bind {j = 0} _ _ (exec-AtMost (docker_of rt) ctx _) λ failure.
        AtMost-check failure _ _ (λ e. AtMost-Makes (Makes-pure _)) (AtMost-Makes (Makes-pure _))

  pub pull-AtMost :
      (rt : Runtime) (ctx : Context) (image : String) (auth : Option Auth) (args : List String)
      → AtMost 2 (pull env rt ctx image auth args)
  unfolding pull
  pull-AtMost rt ctx image auth args = with_login-AtMost (docker_of rt) ctx auth _

  pub push-AtMost :
      (rt : Runtime) (ctx : Context) (image : String) (auth : Option Auth)
      → AtMost 2 (push env rt ctx image auth)
  unfolding push
  push-AtMost rt ctx image auth = with_login-AtMost (docker_of rt) ctx auth _
