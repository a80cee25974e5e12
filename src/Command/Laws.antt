-- ===== src/Command/Laws.antt =====
-- cmd/main.go: what main has done when it ends, and the TLS options of its two servers.
use serenedb_operator.Manager.Calls.{
  setup_controllers-Tells, is_refused, ask-start-Starts, noted, ask-Tells, refused, nothing-Tells,
  and_then-Starts, starts, all_controllers, Tells, Starts,
}
use serenedb_operator.Prelude.Dict.Laws.{or_else}
use serenedb_operator.Errors.{Err}
use serenedb_operator.Command.{
  watcher_in, disable_http2, with_watcher, run, main, add_watcher, manager_options, metrics_watcher,
  webhook_watcher, setup_controllers, new_watcher, Flags,
}
use serenedb_operator.Prelude.{
  ◌==◌, ap, ◌∙◌, not, ◌≡◌, refl, String, Bool, true, false, Option, none, some, List, [], ◌∷◌, ◌⊎◌,
  inl, inr, if◌then◌else◌, arith,
}
use serenedb_operator.Manager.{
  Call, TlsConfig, start, new_cert_watcher, add_cert_watcher, CertWatcher, add_readyz_check,
  add_healthz_check, new_manager, get_config, Manager, Trace, ask, ◌and_then◌,
}

module _ (join_path : String → String → String) (flags : Flags) (m : Manager) where
  new_watcher-Tells : (o : Option CertWatcher) → Tells (new_watcher join_path flags m o) []
  new_watcher-Tells none = nothing-Tells
  new_watcher-Tells (some w) = ask-Tells m (new_cert_watcher w) refl refl

  add_watcher-Tells : (o : Option CertWatcher) → Tells (add_watcher join_path flags m o) []
  add_watcher-Tells none = nothing-Tells
  add_watcher-Tells (some w) = ask-Tells m (add_cert_watcher w) refl refl

  checks-Starts :
      Starts
        (ask m (add_healthz_check "healthz")
          and_then ask m (add_readyz_check "readyz")
          and_then ask m start)
        ("readyz" ∷ "healthz" ∷ [])
  checks-Starts =
      and_then-Starts _ _ ("healthz" ∷ []) ("readyz" ∷ []) (ask-Tells m _ refl refl)
        (and_then-Starts _ _ ("readyz" ∷ []) [] (ask-Tells m _ refl refl) (ask-start-Starts m))

  -- What is taken before `Start`, the latest first.
  abbrev pub all_names : List String
  all_names = "readyz" ∷ "healthz" ∷ all_controllers

  abbrev serving : Option CertWatcher
  serving = webhook_watcher join_path flags

  abbrev measuring : Option CertWatcher
  measuring = metrics_watcher join_path flags

  run-Starts : Starts (run join_path flags m) all_names
  unfolding run
  run-Starts =
      let checks : List String = "readyz" ∷ "healthz" ∷ [] in
      let made : Call = new_manager (manager_options join_path flags) in
      and_then-Starts (new_watcher join_path flags m serving) _ [] all_names
        (new_watcher-Tells serving)
        (and_then-Starts (new_watcher join_path flags m measuring) _ [] all_names
          (new_watcher-Tells measuring)
          (and_then-Starts (ask m get_config) _ [] all_names (ask-Tells m get_config refl refl) (
            and_then-Starts (ask m made) _ [] all_names (ask-Tells m made refl refl) (
              and_then-Starts (setup_controllers m) _ all_controllers checks
                (setup_controllers-Tells m)
                (and_then-Starts (add_watcher join_path flags m measuring) _ [] checks
                  (add_watcher-Tells measuring)
                  (and_then-Starts (add_watcher join_path flags m serving) _ [] checks
                    (add_watcher-Tells serving) checks-Starts))))))

  -- The process starts the manager only behind all six controllers and both checks, with no call
  -- refused, and then ends with the status 1 exactly if the manager ends with an error; else one
  -- call was refused, the manager is not started, and the status is 1.
  pub main-starts_last :
      let (exit_status, t) = main join_path flags m [] in
      ((starts t ≡ 0) × (refused t ≡ 1) × (exit_status ≡ 1))
      ⊎ ((h : Trace) × (e : Option Err) × (t ≡ record { call = start; error = e } ∷ h)
          × (exit_status ≡ (if is_refused e then 1 else 0))
          × (starts h ≡ 0)
          × (refused h ≡ 0)
          × (noted h ≡ all_names))
  unfolding main starts refused noted
  main-starts_last = elim (run-Starts []) [
    | inl (s, r, f) ↦ inl (s, r, ground arith)
    | inr (h, e, p, q, s, r, n) ↦ inr (h, e, p, ground arith, s, r, n)
  ]

-- The options of a server, laid over a configuration in their order.
abbrev pub apply_opts : List (TlsConfig → TlsConfig) → TlsConfig → TlsConfig
apply_opts [] c = c
apply_opts (f ∷ fs) c = apply_opts fs (f c)

-- What a server's options ask for: HTTP/1.1 alone unless HTTP/2 is enabled, and the given certificate.
abbrev pub expected : Bool → Option CertWatcher → TlsConfig → TlsConfig
expected http2 watcher c = record {
  next_protos = if http2 then c.next_protos else "http/1.1" ∷ [];
  get_certificate = or_else watcher c.get_certificate;
}

watcher_opts :
    (w : Option CertWatcher) (http2 : Bool) (c : TlsConfig)
    → apply_opts (with_watcher w (if http2 then [] else disable_http2 ∷ [])) c ≡ expected http2 w c
watcher_opts none true c = refl
watcher_opts none false c = refl
watcher_opts (some w) true c = refl
watcher_opts (some w) false c = refl

-- The certificate and the key of these names in a directory, and none where no directory is given.
abbrev pub files_in : (String → String → String) → (path name key : String) → Option CertWatcher
files_in join_path path name key =
    if not (path == "")
    then some (record { certificate = join_path path name; key = join_path path key })
    else none

files_in_lem :
    (join_path : String → String → String) (path name key : String)
    → watcher_in join_path path name key ≡ files_in join_path path name key
files_in_lem join_path path name key = ground arith

-- On both servers HTTP/2 is disabled unless the flag enables it, whichever certificates are given. The
-- webhook server takes the certificate and the key that the webhook's flags name, and the metrics
-- server those that the metrics' flags name, each where its flag gives a directory.
pub manager_options-apply_opts :
    (join_path : String → String → String) (flags : Flags) (c : TlsConfig)
    → let o = manager_options join_path flags in
      (apply_opts o.webhook_tls_opts c
        ≡ expected flags.enable_http2
            (files_in join_path flags.webhook_cert_path flags.webhook_cert_name
              flags.webhook_cert_key)
            c)
      × (apply_opts o.metrics.tls_opts c
          ≡ expected flags.enable_http2
              (files_in join_path flags.metrics_cert_path flags.metrics_cert_name
                flags.metrics_cert_key)
              c)
unfolding manager_options
manager_options-apply_opts join_path flags c = (
  watcher_opts (webhook_watcher join_path flags) flags.enable_http2 c
      ∙ ap (λ w. expected flags.enable_http2 w c)
          (files_in_lem join_path flags.webhook_cert_path flags.webhook_cert_name
            flags.webhook_cert_key),
  watcher_opts (metrics_watcher join_path flags) flags.enable_http2 c
      ∙ ap (λ w. expected flags.enable_http2 w c)
          (files_in_lem join_path flags.metrics_cert_path flags.metrics_cert_name
            flags.metrics_cert_key),
)
