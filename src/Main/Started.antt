-- ===== src/Main/Started.antt =====
-- cmd/main.go: what has been set up once `main` finishes, and that it exits only where a call failed.
use kube_snapshot.Base.{
  String, ◌≡◌, refl, true, false, Option, none, some, [], ◌∷◌, is_empty, ◌⊎◌, inl, inr,
}
use kube_snapshot.World.{
  handle, Error, Result, ok, err, load_config, setup, Trace, Env, RotatorOptions, get_env,
  new_manager, add_controller, add_rotator, spawn, add_healthz_check, add_readyz_check,
  start_manager, pure, check, ◌>>=◌,
}
use kube_snapshot.World.Calls.{Makes}
use kube_snapshot.World.Ensures.{
  Ensures, Stable, Ensures-pure, Ensures-panic, Ensures-ask, Ensures-if, Ensures-Makes,
  Ensures-bind, Ensures-tell, Ensures-weaken, Ensures-any, Ensures-given, Ensures-both,
}
use kube_snapshot.Task.Steps.{TaskReconciler}
use kube_snapshot.Task.Setup as TaskSetup
use kube_snapshot.Pod.Setup as PodSetup
use kube_snapshot.Main.{
  Flags, End, exits, finished, getenv, set_up_node, rotate_certs, set_up_controller, start_all,
  set_up, main, unless_exited, manager_options,
}
use kube_snapshot.Main.Roles.{Role, set_up-Makes, main-Makes}
use kube_snapshot.Main.Failures.{Did, Failed, attempt_or, handle_err, runtime-Errs}

-- the goroutine was started
abbrev pub Spawned : String → Trace → Type 0
Spawned what [] = ⊥
Spawned what (x ∷ tr) = (x ≡ setup (spawn what)) ⊎ Spawned what tr

-- what the role sets up: on a node the controller of the tasks, and otherwise that of the
-- SnapshotPods, the rotation of the certificates, and the webhook
abbrev pub HasRole : Env → Flags → String → Trace → Type 0
HasRole env f node tr =
    ((is_empty node ≡ false) × Did env (add_controller "SnapshotPodTask") tr)
    ⊎ ((is_empty node ≡ true)
        × (Did env (add_controller "SnapshotPod") tr
            × (((o : RotatorOptions) × (o.cert_dir ≡ f.cert_dir) × Did env (add_rotator o) tr)
                × Spawned "webhook" tr)))

-- The manager was made and its role set up, the collector started, and both checks added, before the
-- manager was run, by the last call.
abbrev pub Ran : Env → Flags → String → Trace → Type 0
Ran env f node [] = ⊥
Ran env f node (x ∷ tr) =
    (x ≡ setup start_manager)
    × ((env.host.setup_error tr start_manager ≡ none)
        × (Did env (new_manager (manager_options f)) tr
            × (HasRole env f node tr
                × (Spawned "metrics collector" tr
                    × (Did env (add_healthz_check "healthz") tr
                        × Did env (add_readyz_check "readyz") tr)))))

-- how `main` ends: it has run the manager, or exits where a call has failed
abbrev pub Ends : Env → Flags → String → End → Trace → Type 0
Ends env f node finished tr = Ran env f node tr
Ends env f node (exits n) tr = Failed env tr

-- what the choice of the role leaves, where `main` goes on, which it does unless the role ended it
abbrev Chosen : Env → Flags → String → Option End → Trace → Type 0
Chosen env f node none tr = HasRole env f node tr
Chosen env f node (some finished) tr = ⊥
Chosen env f node (some (exits n)) tr = Failed env tr

module _ (env : Env) where
  Stable-HasRole : (f : Flags) (node : String) → Stable (HasRole env f node)
  Stable-HasRole f node c tr (inl (named, did)) = inl (named, inr did)
  Stable-HasRole f node c tr (inr (unnamed, (did, ((o, dir, added), spawned)))) =
      inr (unnamed, (inr did, ((o, dir, inr added), inr spawned)))

  getenv-keeps :
      (P : Trace → Type 0) → Stable P → (name : String) → Ensures P (getenv env name) (λ a. P)
  getenv-keeps P stable name = Ensures-ask (setup (get_env name)) _ (λ tr p. stable _ tr p)

  abbrev Start : Flags → String → Option Error → Trace → Type 0
  Start f node none tr = Ran env f node tr
  Start f node (some x) tr = Failed env tr

  answer-Start :
      (f : Flags) (node : String) (tr : Trace) (failure : Option Error)
      → env.host.setup_error tr start_manager ≡ failure
      → Did env (new_manager (manager_options f)) tr
        × (HasRole env f node tr
            × (Spawned "metrics collector" tr
                × (Did env (add_healthz_check "healthz") tr
                    × Did env (add_readyz_check "readyz") tr)))
      → Start f node failure (setup start_manager ∷ tr)
  answer-Start f node tr none e ready = (refl, (e, ready))
  answer-Start f node tr (some x) e ready = inl (x, e)

  ended :
      (f : Flags) (node : String) (failure : Option Error)
      → Ensures
          (Start f node failure)
          (check failure (λ x. pure (exits 1)) (pure finished))
          (Ends env f node)
  ended f node none = Ensures-pure finished (λ tr ran. ran)
  ended f node (some x) = Ensures-pure (exits 1) (λ tr failed. failed)

  start_all-Ran :
      (f : Flags) (node : String)
      → Ensures
          (λ tr. HasRole env f node tr × Did env (new_manager (manager_options f)) tr)
          (start_all env)
          (Ends env f node)
  unfolding start_all
  start_all-Ran f node =
      let role = HasRole env f node in
      let made = Did env (new_manager (manager_options f)) in
      let collects = λ (tr : Trace). Spawned "metrics collector" tr × (role tr × made tr) in
      let stays : Stable collects =
        λ c tr (s, (h, d)). (inr s, (Stable-HasRole f node c tr h, inr d)) in
      Ensures-bind {Q = λ a. collects} _ _
        (Ensures-tell _ (λ tr (h, d). (inl refl, (Stable-HasRole f node _ tr h, inr d))))
        λ a.
          attempt_or env collects stays (add_healthz_check "healthz")
            (record { fails = λ tr x e. (x, e) }) _ _
            (λ x. Ensures-pure (exits 1) (λ tr failed. failed))
            (attempt_or env (λ tr. Did env (add_healthz_check "healthz") tr × collects tr)
              (λ c tr (d, p). (inr d, stays c tr p)) (add_readyz_check "readyz")
              (record { fails = λ tr x e. (x, e) }) _ _
              (λ x. Ensures-pure (exits 1) (λ tr failed. failed))
              (Ensures-bind {Q = Start f node} _ _
                (Ensures-ask (setup start_manager) _ (λ tr (readyz, (healthz, (s, (h, d)))).
                  answer-Start f node tr _ refl (d, (h, (s, (healthz, readyz))))))
                (ended f node)))

  -- the tasks' controller is added, or a call has failed
  abbrev Tasks : Result TaskReconciler → Trace → Type 0
  Tasks (ok r) tr = Did env (add_controller "SnapshotPodTask") tr
  Tasks (err e) tr = Failed env tr

  module _ (f : Flags) (node : String) where
    setup_with_manager-Tasks :
        Ensures (λ tr. Unit {0}) (TaskSetup.setup_with_manager env node) Tasks
    unfolding TaskSetup.setup_with_manager
    setup_with_manager-Tasks = Ensures-bind _ _ (runtime-Errs env _ _) λ made.
        handle_err env made _ _ (λ x. Ensures-pure _ (λ tr failed. failed))
          λ rt.
            attempt_or env (λ tr. Unit {0}) (λ c tr p. p) (add_controller "SnapshotPodTask")
              (record { fails = λ tr x e. (x, e) }) _ _ (λ x. Ensures-pure _ (λ tr failed. failed))
              (Ensures-pure _ (λ tr (did, p). did))

    node-Chosen :
        is_empty node ≡ false
        → (made : Result TaskReconciler)
        → Ensures
            (Tasks made)
            (handle made (λ e. pure (some (exits 1))) λ r. pure none)
            (Chosen env f node)
    node-Chosen named (ok r) = Ensures-pure none (λ tr did. inl (named, did))
    node-Chosen named (err e) = Ensures-pure (some (exits 1)) (λ tr failed. failed)

    set_up_node-HasRole :
        is_empty node ≡ false
        → Ensures (λ tr. Unit {0}) (set_up_node env f node) (Chosen env f node)
    unfolding set_up_node
    set_up_node-HasRole named =
        Ensures-bind {Q = λ a tr. Unit {0}} _ _ (Ensures-any _)
          λ a. Ensures-bind _ _ setup_with_manager-Tasks (node-Chosen named)

    -- the rotation of the certificates and the webhook
    rotate_certs-Ensures :
        (ns : String) (P : Trace → Type 0)
        → Stable P
        → Ensures P (rotate_certs env f ns) (λ a tr.
          ((o : RotatorOptions) × (o.cert_dir ≡ f.cert_dir) × Did env (add_rotator o) tr)
          × Spawned "webhook" tr
          × P tr)
    unfolding rotate_certs
    rotate_certs-Ensures ns P stable =
        Ensures-bind {Q = λ a. P} _ _ (getenv-keeps P stable "TLS_SECRET_NAME") λ secret.
          Ensures-bind {Q = λ a. P} _ _ (getenv-keeps P stable "MUTATE_WEBHOOK_SVC_NAME") λ service.
            Ensures-bind {Q = λ a. P} _ _ (getenv-keeps P stable "MUTATE_WEBHOOK_NAME") λ webhook.
              attempt_or env P stable (add_rotator _) (record { fails = λ tr x e. (x, e) }) _ _
                (λ x. Ensures-panic)
                (Ensures-tell _ (λ tr (did, p). ((_, refl, inr did), inl refl, stable _ tr p)))

    set_up_controller-HasRole :
        is_empty node ≡ true
        → Ensures (λ tr. Unit {0}) (set_up_controller env f) (Chosen env f node)
    unfolding set_up_controller PodSetup.setup_with_manager
    set_up_controller-HasRole unnamed =
        let pods = Did env (add_controller "SnapshotPod") in
        let stays : Stable pods = λ c tr d. inr d in
        attempt_or env (λ tr. Unit {0}) (λ c tr p. p) (add_controller "SnapshotPod")
          (record { fails = λ tr x e. (x, e) }) _ _ (λ x. Ensures-pure _ (λ tr failed. failed))
          (Ensures-weaken (λ tr (did, p). did)
            (Ensures-bind {Q = λ a. pods} _ _ (getenv-keeps pods stays "POD_NAMESPACE") λ ns.
              Ensures-if (is_empty ns) _ _ (λ e. Ensures-panic)
                λ e. Ensures-bind _ _ (rotate_certs-Ensures ns pods stays) λ a.
                  Ensures-pure _
                    (λ tr (rotator, webhook, did). inr (unnamed, (did, (rotator, webhook))))))

    set_up-HasRole : Ensures (λ tr. Unit {0}) (set_up env f node) (Chosen env f node)
    unfolding set_up
    set_up-HasRole = Ensures-if (is_empty node) _ _ set_up_controller-HasRole set_up_node-HasRole

    unless_exited-Ran :
        (o : Option End)
        → Ensures
            (λ tr. Chosen env f node o tr × Did env (new_manager (manager_options f)) tr)
            (unless_exited env o)
            (Ends env f node)
    unless_exited-Ran none = start_all-Ran f node
    unless_exited-Ran (some finished) = Ensures-pure finished (λ tr (never, d). absurd never)
    unless_exited-Ran (some (exits n)) = Ensures-pure (exits n) (λ tr (failed, d). failed)

    set_up-Ran :
        Ensures
          (Did env (new_manager (manager_options f)))
          (set_up env f node >>= unless_exited env)
          (Ends env f node)
    set_up-Ran =
        Ensures-bind _ _
          (Ensures-both (Ensures-weaken (λ tr d. tt) set_up-HasRole)
            (Ensures-Makes (λ c tr d. inr d) (set_up-Makes env f node)))
          unless_exited-Ran

    main-Ran :
        ((tr : Trace) → env.host.variable tr "SNAP_TASK_NODE_NAME" ≡ node)
        → Ensures (λ tr. Unit {0}) (main env f) (Ends env f node)
    unfolding main
    main-Ran known =
        let made = Did env (new_manager (manager_options f)) in
        Ensures-bind {Q = λ b tr. b ≡ false → Failed env tr} _ _
          (Ensures-ask (setup load_config) _ (λ tr p e. inl e))
          λ configured.
            Ensures-if configured _ _
              (λ c.
                Ensures-weaken (λ tr p. tt)
                  (attempt_or env (λ tr. Unit {0}) (λ c tr p. p) (new_manager (manager_options f))
                    (record { fails = λ tr x e. (x, e) }) _ _
                    (λ x. Ensures-pure (exits 1) (λ tr failed. failed))
                    (Ensures-weaken (λ tr (did, p). did)
                      (Ensures-bind {Q = λ n tr. (n ≡ node) × made tr} _ _
                        (Ensures-ask (setup (get_env "SNAP_TASK_NODE_NAME")) _
                          (λ tr did. (known tr, inr did)))
                        λ n. Ensures-given λ is. rw is set_up-Ran))))
              (λ c. Ensures-pure (exits 1) (λ tr failed. failed c))

    -- Whatever its calls answer, and wherever it ends, `main` keeps to the role that the variable
    -- SNAP_TASK_NODE_NAME gives it: with a node's name it sets up no controller but that of the
    -- tasks, and neither the rotation of certificates nor the webhook; without one no controller but
    -- that of the SnapshotPods, and it runs no command and touches no file. Without the flag for
    -- HTTP/2 the servers offer HTTP/1.1 alone. And where it finishes, its last call ran the manager,
    -- without an error, and before that, each without an error, it had made the manager, added the
    -- controller of its role, without a node's name also the rotation of the certificates in the
    -- flag's directory and the webhook's goroutine, started the collector, and added both checks.
    -- Where it exits, one of its calls has failed.
    pub main_sets_up :
        ((tr : Trace) → env.host.variable tr "SNAP_TASK_NODE_NAME" ≡ node)
        → Makes (Role f node) (main env f) × Ensures (λ tr. Unit {0}) (main env f) (Ends env f node)
    main_sets_up known = (main-Makes env f node known, main-Ran known)
