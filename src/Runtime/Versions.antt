-- ===== src/Runtime/Versions.antt =====
-- containerd_compatible.go: what the versions of nerdctl and containerd decide.
use kube_snapshot.Base.{
  String, ◌≡◌, refl, ◌∙◌, ap, Bool, none, some, List, [], ◌∷◌, ◌++◌, ◌||◌, not, arith, sprint,
  if◌then◌else◌,
}
use text.Mathlib.TextLemmas.{append-nil}
use kube_snapshot.Base.Strings.{strip_prefix-append}
use kube_snapshot.World.{
  Env, Trace, Call, Context, ok, returns, exec, setup, containerd_client, ◌>>=◌,
}
use kube_snapshot.Runtime.{
  Runtime, containerd_runtime, containerd_commit_args, commit, exec_command, pause_flag, text_flag,
}
use kube_snapshot.Runtime.Setup.{
  parse_version, min_nerdctl_version, min_containerd_version, exec_command_p_out,
  with_server_version, ask_containerd, with_nerdctl_version, new_containerd_compatible_runtime,
}

-- The version is read back from the line that nerdctl prints, for any text of a version.
parse_version-sprint : (v : String) → parse_version (sprint ("nerdctl version " ∷ v ∷ [])) ≡ v
unfolding parse_version
parse_version-sprint v =
    ap
      (λ o. elim o as (λ x. String) [
        | some rest ↦ rest
        | none ↦ sprint ("nerdctl version " ∷ v ∷ [])
      ])
      (strip_prefix-append "nerdctl version " (sprint (v ∷ [])))
    ∙ append-nil v

module _ (env : Env) (cmd : String) (args : List String) (tr : Trace) where
  abbrev version_call : Call
  version_call = exec none cmd (args ++ "-v" ∷ [])

  -- what nerdctl printed, as the text of a version
  abbrev pub printed : String
  printed =
      parse_version (env.host.trim_space (env.host.exec_output tr none cmd (args ++ "-v" ∷ [])))

  abbrev pub connect : Call
  connect = setup (containerd_client "k8s.io" env.host.default_address)

  -- nerdctl prints its version, which `semver` compares, and containerd's client is made
  pub record Connects (nerdctl_old : Bool) : Type 0 where
    pub runs : env.exec_error tr none cmd (args ++ "-v" ∷ []) ≡ none
    pub compares : env.host.less_than printed min_nerdctl_version ≡ some nerdctl_old
    pub opens :
        env.host.setup_error
          (version_call ∷ tr)
          (containerd_client "k8s.io" env.host.default_address)
        ≡ none

  module _ (nerdctl_old : Bool) (h : Connects nerdctl_old) where
    -- Where containerd gives its version, the constructor returns a runtime, and
    -- a commit of that runtime runs one command, which asks for zstd exactly if neither version is
    -- below its minimum.
    pub compresses :
        (sv : String)
        → env.host.server_version (connect ∷ version_call ∷ tr) ≡ ok sv
        → (rt : Runtime) × ((new_containerd_compatible_runtime env cmd args tr).0 ≡ returns (ok rt))
          × ((ctx : Context) (container image : String) (pause : Bool) (message author : String)
                (later : Trace)
              → (commit env rt ctx container image pause message author later).1
                ≡ exec ctx cmd (
                    args
                    ++ "commit"
                      ∷ container
                      ∷ image
                      ∷ pause_flag pause
                      ∷ (text_flag "--message" message
                          ++ (text_flag "--author" author
                              ++ (if nerdctl_old || env.host.version_less sv min_containerd_version
                                  then []
                                  else "--compression" ∷ env.zstd ∷ []))))
                  ∷ later)
    unfolding new_containerd_compatible_runtime exec_command_p_out with_nerdctl_version
        ask_containerd with_server_version ◌>>=◌ commit exec_command containerd_commit_args
    compresses sv given = (
      containerd_runtime (record {
        docker = record { command = cmd; global_args = args };
        is_nerdctl_version_sufficient = not nerdctl_old;
        is_containerd_version_sufficient = not (env.host.version_less sv min_containerd_version);
      }),
      rw (h.runs, h.compares, h.opens, given) refl,
      λ ctx container image pause message author later. ground arith,
    )
