-- ===== src/Manager/Secured.antt =====
-- What the two servers of the process do with HTTP/2 and with certificates.
use spot_instance_training_o.Base.{
  ◌≡◌, refl, Bool, Option, none, some, List, [], ◌∷◌, if◌then◌else◌, Bool-cases, inl, inr,
}
use spot_instance_training_o.Manager.Options.{
  Flags, TlsConfig, TlsOption, disable_http2, with_certificate, tls_options, with_watcher,
  metrics_options, manager_options,
}

-- A server applies its options one after the other.
abbrev pub apply_all : {V : Type 0} → List (TlsOption V) → TlsConfig V → TlsConfig V
apply_all [] c = c
apply_all (f ∷ fs) c = apply_all fs (f c)

-- What a server's configuration should be: HTTP/1.1 only, unless HTTP/2 is asked for, and the
-- certificate of the watcher, if there is one.
abbrev pub expected : {V : Type 0} → Bool → Option V → TlsConfig V → TlsConfig V
expected http2 watcher c = record {
  next_protos = if http2 then c.next_protos else "http/1.1" ∷ [];
  get_certificate = elim watcher [ none ↦ c.get_certificate | some v ↦ some v ];
}

with_watcher-expected :
    {V : Type 0} (flags : Flags) (watcher : Option V) (c : TlsConfig V)
    → apply_all (with_watcher watcher (tls_options flags)) c ≡ expected flags.enable_http2 watcher c
unfolding with_watcher tls_options disable_http2 with_certificate
with_watcher-expected flags none c = elim (Bool-cases flags.enable_http2) [
  | inl on ↦ rw on refl
  | inr off ↦ rw off refl
]
with_watcher-expected flags (some v) c = elim (Bool-cases flags.enable_http2) [
  | inl on ↦ rw on refl
  | inr off ↦ rw off refl
]

-- Whatever the flags and the watchers, and from whatever configuration the servers start: the options
-- of the metrics server and those of the webhook server leave HTTP/1.1 as the only protocol unless
-- `--enable-http2` is given, and the protocols alone if it is, and take the certificate from the
-- server's own watcher, if there is one, and otherwise leave it alone. Metrics are served with
-- authentication and authorisation exactly where they are served by HTTPS.
pub manager_options-expected :
    {V : Type 0} (flags : Flags) (webhook metrics : Option V) (c : TlsConfig V)
    → (apply_all (manager_options flags webhook metrics).metrics.tls_opts c
        ≡ expected flags.enable_http2 metrics c)
      × (apply_all (manager_options flags webhook metrics).webhook_tls_opts c
          ≡ expected flags.enable_http2 webhook c)
      × ((manager_options flags webhook metrics).metrics.has_filter
          ≡ (manager_options flags webhook metrics).metrics.secure_serving)
unfolding manager_options metrics_options
manager_options-expected flags webhook metrics c =
    (with_watcher-expected flags metrics c, with_watcher-expected flags webhook c, refl)
