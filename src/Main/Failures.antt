-- ===== src/Main/Failures.antt =====
-- cmd/main.go: which calls of the start-up fail, and that its errors come of them.
use kube_snapshot.Base.{
  ◌++◌, String, ◌≡◌, refl, false, Option, none, some, [], ◌∷◌, ◌⊎◌, inl, inr, Bool, List,
}
use kube_snapshot.World.{
  handle, Call, Error, Result, ok, err, exec, containerd_client, containerd_version, load_config,
  setup, Trace, Env, SetupCall, M, pure, check, ◌>>=◌,
}
use kube_snapshot.World.Ensures.{
  Ensures, Stable, Ensures-pure, Ensures-panic, Ensures-ask, Ensures-bind, Ensures-tell,
  Ensures-weaken, Ensures-any,
}
use kube_snapshot.Main.{attempt}
use kube_snapshot.Runtime.{DockerCompatible}
use kube_snapshot.Runtime.Setup.{
  parse_version, min_nerdctl_version, exec_command_p_out, with_server_version, ask_containerd,
  with_nerdctl_version, new_containerd_compatible_runtime,
}

-- the call was made, and without an error
abbrev pub Did : Env → SetupCall → Trace → Type 0
Did env c [] = ⊥
Did env c (x ∷ tr) = ((x ≡ setup c) × (env.host.setup_error tr c ≡ none)) ⊎ Did env c tr

-- the call was answered with an error
abbrev pub Fails : Env → Call → Trace → Type 0
Fails env (setup load_config) tr = env.host.has_config tr ≡ false
Fails env (setup containerd_version) tr = (e : Error) × (env.host.server_version tr ≡ err e)
Fails env (setup c) tr = (e : Error) × (env.host.setup_error tr c ≡ some e)
Fails env (exec ctx command argv) tr = (e : Error) × (env.exec_error tr ctx command argv ≡ some e)
Fails env c tr = ⊥

-- a call has failed
abbrev pub Failed : Env → Trace → Type 0
Failed env [] = ⊥
Failed env (c ∷ tr) = Fails env c tr ⊎ Failed env tr

module _ (env : Env) where
  -- the answer of a call whose error is looked at
  abbrev pub Answered : SetupCall → Option Error → Trace → Type 0
  Answered c none tr = Did env c tr
  Answered c (some x) tr = Failed env tr

  -- the calls that have no answer of their own
  pub record IsAttempt (c : SetupCall) : Type 0 where
    pub fails :
        (tr : Trace) (x : Error) → env.host.setup_error tr c ≡ some x → Fails env (setup c) tr

  pub answer-Answered :
      (c : SetupCall)
      → IsAttempt c
      → (tr : Trace) (failure : Option Error) → env.host.setup_error tr c ≡ failure
      → Answered c failure (setup c ∷ tr)
  answer-Answered c a tr none e = inl (refl, e)
  answer-Answered c a tr (some x) e = inl (a.fails tr x e)

  pub attempt_or :
      {B : Type 0} {R : B → Trace → Type 0} (P : Trace → Type 0)
      → Stable P
      → (c : SetupCall) → IsAttempt c
      → (bad : Error → M B) (good : M B) → ((x : Error) → Ensures (Failed env) (bad x) R)
      → Ensures (λ tr. Did env c tr × P tr) good R
      → Ensures P (attempt env c >>= λ failure. check failure bad good) R
  attempt_or {R} P stable c a bad good kb kg =
      Ensures-bind {Q = λ failure tr. Answered c failure tr × P tr} _ _
        (Ensures-ask (setup c) _ (λ tr p. (answer-Answered c a tr _ refl, stable (setup c) tr p)))
        after
    where
      after :
          (failure : Option Error)
          → Ensures (λ tr. Answered c failure tr × P tr) (check failure bad good) R
      after none = kg
      after (some x) = Ensures-weaken (λ tr (failed, p). failed) (kb x)

  -- an error of an action comes of a call that failed
  abbrev pub Errs : {A : Type 0} → Result A → Trace → Type 0
  Errs (ok a) tr = Unit
  Errs (err e) tr = Failed env tr

  pub handle_err :
      {A B : Type 0} {R : B → Trace → Type 0} (r : Result A) (bad : Error → M B) (good : A → M B)
      → ((x : Error) → Ensures (Failed env) (bad x) R)
      → ((a : A) → Ensures (λ tr. Unit {0}) (good a) R)
      → Ensures (Errs r) (handle r bad good) R
  handle_err (ok a) bad good kb kg = kg a
  handle_err (err x) bad good kb kg = kb x

  server_version-Errs :
      (tr : Trace) (r : Result String)
      → env.host.server_version tr ≡ r
      → Errs r (setup containerd_version ∷ tr)
  server_version-Errs tr (ok sv) e = tt
  server_version-Errs tr (err x) e = inl (x, e)

  with_version-Errs :
      (d : DockerCompatible) (b : Bool) (sv : String)
      → Ensures (λ tr. Unit {0}) (with_server_version env d b sv) Errs
  unfolding with_server_version
  with_version-Errs d b sv =
      Ensures-bind {Q = λ a tr. Unit {0}} _ _ (Ensures-any _) λ a. Ensures-pure _ (λ tr p. tt)

  ask_containerd-Errs :
      (d : DockerCompatible) (b : Bool) → Ensures (λ tr. Unit {0}) (ask_containerd env d b) Errs
  unfolding ask_containerd
  ask_containerd-Errs d b =
      attempt_or (λ tr. Unit {0}) (λ c tr p. p)
        (containerd_client "k8s.io" env.host.default_address) (record { fails = λ tr x e. (x, e) })
        _ _ (λ x. Ensures-pure _ (λ tr failed. failed))
        (Ensures-bind {Q = Errs} _ _ (Ensures-ask _ _ (λ tr p. server_version-Errs tr _ refl))
          λ got.
            handle_err got _ _
              (λ x.
                Ensures-bind {Q = λ a. Failed env} _ _ (Ensures-tell _ (λ tr failed. inr failed))
                  λ a. Ensures-pure _ (λ tr failed. failed))
              (with_version-Errs d b))

  nerdctl-Errs :
      (d : DockerCompatible) (o : Option Bool)
      → Ensures (λ tr. Unit {0}) (with_nerdctl_version env d o) Errs
  unfolding with_nerdctl_version
  nerdctl-Errs d none = Ensures-panic
  nerdctl-Errs d (some less) = ask_containerd-Errs d _

  abbrev Execs : String × Option Error → Trace → Type 0
  Execs (out, none) tr = Unit
  Execs (out, some x) tr = Failed env tr

  exec_error-Execs :
      (command : String) (argv : List String) (out : String) (tr : Trace) (failure : Option Error)
      → env.exec_error tr none command argv ≡ failure
      → Execs (out, failure) (exec none command argv ∷ tr)
  exec_error-Execs command argv out tr none e = tt
  exec_error-Execs command argv out tr (some x) e = inl (x, e)

  exec-Execs :
      (d : DockerCompatible) (args : List String)
      → Ensures (λ tr. Unit {0}) (exec_command_p_out env d none args) Execs
  unfolding exec_command_p_out
  exec-Execs d args = Ensures-ask _ _ (λ tr p.
      exec_error-Execs _ _ (env.host.exec_output tr none d.command (d.global_args ++ args)) tr _
        refl)

  pub runtime-Errs :
      (cmd : String) (args : List String)
      → Ensures (λ tr. Unit {0}) (new_containerd_compatible_runtime env cmd args) Errs
  unfolding new_containerd_compatible_runtime
  runtime-Errs cmd args = Ensures-bind _ _ (exec-Execs _ _) λ (out, failure). after out failure
    where
      after :
          (out : String) (failure : Option Error)
          → Ensures
              (Execs (out, failure))
              (check failure
                (λ e. pure (err e))
                (with_nerdctl_version env
                  (record { command = cmd; global_args = args })
                  (env.host.less_than
                    (parse_version (env.host.trim_space out))
                    min_nerdctl_version)))
              Errs
      after out none = Ensures-weaken (λ tr p. tt) (nerdctl-Errs _ _)
      after out (some x) = Ensures-pure _ (λ tr failed. failed)
