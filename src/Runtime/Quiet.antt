-- ===== src/Runtime/Quiet.antt =====
-- A container runtime makes no call of the API server, and does not panic.
use kube_snapshot.Base.{String, Bool, Option, none, some, List}
use kube_snapshot.Api.{Duration}
use kube_snapshot.World.{
  Context, Env, Call, Vector, exec, mkdir_temp, remove_all, set_env, unset_env, write_file, now,
  counter_inc, observe,
}
use kube_snapshot.World.Logic.{Runs, Any, runs_rules}
use kube_snapshot.Runtime.{
  Auth, DockerCompatible, Runtime, docker_runtime, containerd_runtime, docker_of, exec_command,
  require_login, run_logged_in, with_login_context_commands, commit, image_exists, pull, push,
}

-- `P` allows the calls that do not go to the API server.
pub record IsLocal (P : Call → Type 0) : Type 0 where
  pub clock : P now
  pub execs : (ctx : Context) (command : String) (argv : List String) → P (exec ctx command argv)
  pub temp : P mkdir_temp
  pub removes : (dir : String) → P (remove_all dir)
  pub sets : (name value : String) → P (set_env name value)
  pub unsets : (name : String) → P (unset_env name)
  pub writes : (path text : String) → P (write_file path text)
  pub counts : (v : Vector) (labels : List String) → P (counter_inc v labels)
  pub observes : (v : Vector) (labels : List String) (d : Duration) → P (observe v labels d)

module _ {P : Call → Type 0} (p : IsLocal P) (env : Env) where
  open p use {clock, execs, temp, removes, sets, unsets, writes, counts, observes}

  exec_command-Runs :
      (d : DockerCompatible) (ctx : Context) (args : List String)
      → Runs P Any (exec_command env d ctx args)
  unfolding exec_command
  exec_command-Runs d ctx args = search (runs_rules, execs, tt {0})

  require_login-Runs :
      (d : DockerCompatible) (ctx : Context) (auth : Option Auth)
      → Runs P Any (require_login env d ctx auth)
  unfolding require_login
  require_login-Runs d ctx none = search (runs_rules, tt {0})
  require_login-Runs d ctx (some auth) = search (runs_rules, exec_command-Runs, tt {0})

  run_logged_in-Runs :
      (d : DockerCompatible) (ctx : Context) (auth : Auth) (tmp : String) (args : List String)
      → Runs P Any (run_logged_in env d ctx auth tmp args)
  unfolding run_logged_in
  run_logged_in-Runs d ctx auth tmp args =
      search (runs_rules, writes, exec_command-Runs, require_login-Runs, tt {0}) depth 9

  with_login-Runs :
      (d : DockerCompatible) (ctx : Context) (auth : Option Auth) (args : List String)
      → Runs P Any (with_login_context_commands env d ctx auth args)
  unfolding with_login_context_commands
  with_login-Runs d ctx none args = exec_command-Runs d ctx args
  with_login-Runs d ctx (some auth) args =
      search (runs_rules, temp, sets, unsets, removes, run_logged_in-Runs, tt {0}) depth 9

  pub commit-Runs :
      (rt : Runtime) (ctx : Context) (container image : String) (pause : Bool)
      (message author : String)
      → Runs P Any (commit env rt ctx container image pause message author)
  unfolding commit
  commit-Runs (docker_runtime d) ctx container image pause message author =
      search (runs_rules, exec_command-Runs, tt {0})
  commit-Runs (containerd_runtime c) ctx container image pause message author =
      exec_command-Runs c.docker ctx _

  pub image_exists-Runs :
      (rt : Runtime) (ctx : Context) (image : String) → Runs P Any (image_exists env rt ctx image)
  unfolding image_exists
  image_exists-Runs rt ctx image = search (runs_rules, exec_command-Runs, tt {0})

  pub pull-Runs :
      (rt : Runtime) (ctx : Context) (image : String) (auth : Option Auth) (args : List String)
      → Runs P Any (pull env rt ctx image auth args)
  unfolding pull
  pull-Runs rt ctx image auth args = with_login-Runs (docker_of rt) ctx auth _

  pub push-Runs :
      (rt : Runtime) (ctx : Context) (image : String) (auth : Option Auth)
      → Runs P Any (push env rt ctx image auth)
  unfolding push
  push-Runs rt ctx image auth = with_login-Runs (docker_of rt) ctx auth _
