-- ===== src/Manager/Registers.antt =====
-- pkg/manager/manager.go: what the controller is registered with.
use mathlib.Core.Path.{subst}
use hawtio_operator.Capabilities.{ApiServerSpec}
use hawtio_operator.Base.{
  String, ◌<>◌, false, ◌≡◌, ◌≢◌, inl, inr, refl, sym, ap, ◌∙◌, Option, none, some, arith, eq_iff,
}
use hawtio_operator.Base.{Bool-cases}
use hawtio_operator.Base.Int.{ℤ, pos}
use hawtio_operator.Base.Dict.{Dict}
use hawtio_operator.Base.Errors.{Result, ok, err, ok-injective}
use hawtio_operator.Base.Act.{Act, Yields, Yields-after, Yields-pure, after-cong, after, lift, pure}
use hawtio_operator.Util.Version.{BuildVariables}
use hawtio_operator.Manager.Poller.{
  Poller, PollerConfig, create_update_poller, is_zero, poller_of, discover_registry_credentials,
  parse_keychain,
}
use hawtio_operator.Manager.Clients.{Libraries, Tools}
use hawtio_operator.Manager.Options.{MgrConfig}
use hawtio_operator.Manager.Build.{
  Registration, poller_or_none, new_with, required, or_none, poller_config, pod_ns_of, scheme_of,
  tools_of, api_spec_of, construct, registration, registered,
}

-- A poller that follows the images of the build, at an interval that is not 0.
abbrev pub Follows : {O Auth : Type 0} → BuildVariables → ℤ → Option (Poller O Auth) → Type 0
Follows bv interval none = Unit
Follows bv interval (some p) =
    (interval ≢ pos 0)
    × (p.interval ≡ interval)
    × (p.online_image_url ≡ bv.image_repository <> ":" <> bv.image_version)
    × (p.gateway_image_url ≡ bv.gateway_image_repository <> ":" <> bv.gateway_image_version)

ne_zero : (i : ℤ) → is_zero i ≡ false → i ≢ pos 0
ne_zero i e z = cc (e, ap is_zero z)

module _ {W O Auth : Type 0} (lookup_env : String → Option String)
    (cfg : PollerConfig W O Auth) where
  abbrev IsGood : Option (Poller O Auth) → Type 0
  IsGood = Follows cfg.build_vars cfg.polling_interval

  create_update_poller-Follows :
      (unmarshal : String → Result (Dict Auth))
      → Yields IsGood (create_update_poller lookup_env unmarshal cfg)
  unfolding create_update_poller
  create_update_poller-Follows unmarshal = elim (Bool-cases (is_zero cfg.polling_interval)) [
    | inl e ↦ rw e (Yields-pure IsGood none tt)
    | inr e ↦ rw e (
        Yields-after IsGood (discover_registry_credentials lookup_env cfg) _ λ creds.
          Yields-after IsGood (lift (parse_keychain unmarshal creds)) _ λ keychain.
            Yields-after IsGood (cfg.add_poller (poller_of cfg keychain)) _
              λ _. Yields-pure IsGood _ (ne_zero cfg.polling_interval e, refl, refl, refl))
  ]

value : {W A : Type 0} {r : Result A} {w v : W} {a : A} → lift r w ≡ (ok a, v) → r ≡ ok a
value e = ap (λ x. x.0) e

or_none-Follows :
    {O Auth : Type 0} (bv : BuildVariables) (interval : ℤ) (p : Result (Option (Poller O Auth)))
    → ((a : Option (Poller O Auth)) → p ≡ ok a → Follows bv interval a)
    → Follows bv interval (or_none p)
or_none-Follows bv interval (ok a) h = h a refl
or_none-Follows bv interval (err e) h = tt

module _ {W : Type 0} (lib : Libraries W) (mc : MgrConfig lib) where
  -- `New` has a poller, or none, whatever goes wrong with the credentials: the error does not reach the caller.
  poller_or_none_lem :
      (mgr : lib.Mgr) (w : W)
      → (p : Option (Poller lib.RemoteOption lib.Auth)) × (v : W) × (poller_or_none lib mc mgr w
          ≡ (ok p, v))
        × Follows mc.build_variables mc.update_polling_interval p
  unfolding poller_or_none
  poller_or_none_lem mgr w =
      let cfg = poller_config lib mc mgr in
      let answer = create_update_poller lib.lookup_env lib.unmarshal_auths cfg w in
      (
        or_none answer.0,
        answer.1,
        refl,
        or_none-Follows mc.build_variables mc.update_polling_interval answer.0 λ a e.
            create_update_poller-Follows lib.lookup_env cfg lib.unmarshal_auths w answer.1 a
              (ap (λ x. (x, answer.1)) e),
      )

  -- What the controller may count on.
  abbrev pub IsSound : Registration lib → Type 0
  IsSound reg =
      (reg.operator_pod.namespace ≡ mc.operator_pod_ns)
      × (reg.operator_pod.namespace ≢ "")
      × (lib.lookup_env "POD_NAME" ≡ some reg.operator_pod.name)
      × (reg.build_variables ≡ mc.build_variables)
      × Follows mc.build_variables mc.update_polling_interval reg.update_poller

  required-eq :
      {A : Type 0} (o : Option A) (text : String) {a : A} → required lib o text ≡ ok a → o ≡ some a
  required-eq none text e = cc
  required-eq (some b) text e = ap some (ok-injective e)

  pod_ns-eq : {ns : String} → pod_ns_of lib mc ≡ ok ns → (ns ≡ mc.operator_pod_ns) × (ns ≢ "")
  pod_ns-eq {ns} e = ground (arith, eq_iff mc.operator_pod_ns "")

  pub poller_or_none-Follows :
      (mgr : lib.Mgr)
      → Yields (Follows mc.build_variables mc.update_polling_interval) (poller_or_none lib mc mgr)
  poller_or_none-Follows mgr w v poller e =
      let (p, u, k, follows) = poller_or_none_lem mgr w in
      subst (Follows mc.build_variables mc.update_polling_interval)
        (ok-injective (ap (λ x. x.0) (sym k ∙ e))) follows

  sound :
      {ns name : String} (tools : Tools lib) (api : ApiServerSpec) (mgr : lib.Mgr) (w w' : W)
      {poller : Option (Poller lib.RemoteOption lib.Auth)}
      → pod_ns_of lib mc ≡ ok ns
      → lib.lookup_env "POD_NAME" ≡ some name
      → poller_or_none lib mc mgr w ≡ (ok poller, w')
      → IsSound (registration lib mc ns name tools api mgr poller)
  sound tools api mgr w w' {poller = poller} e3 e6 e8 =
      let (same, named) = pod_ns-eq e3 in
      (same, named, e6, refl, poller_or_none-Follows mgr w w' poller e8)

  registered-cong :
      (add add' : Registration lib → Act W (Unit {0})) (mgr : lib.Mgr) {reg : Registration lib}
      {v : W}
      → add reg v ≡ add' reg v
      → registered lib add mgr reg v ≡ registered lib add' mgr reg v
  registered-cong add add' mgr e = ap (λ r. after r λ _. pure mgr) e

  -- `New` registers the controller only with the pod's own namespace, which is not empty, with the pod's name from the
  -- environment, and with a poller only if the interval is not 0: another registration would not be told apart.
  pub new_with-registers :
      (add add' : Registration lib → Act W (Unit {0})) (w : W)
      → ((reg : Registration lib) → IsSound reg → (v : W) → add reg v ≡ add' reg v)
      → new_with lib add mc w ≡ new_with lib add' mc w
  unfolding new_with
  new_with-registers add add' w agree =
      after-cong (lift (required lib mc.rest_config _) w) _ _ λ cfg w1 e1.
        after-cong (lift (scheme_of lib mc) w1) _ _ λ scheme w2 e2.
          after-cong (lift (pod_ns_of lib mc) w2) _ _ λ ns w3 e3.
            after-cong (lift (tools_of lib mc cfg) w3) _ _ λ tools w4 e4.
              after-cong (api_spec_of lib tools w4) _ _ λ api w5 e5.
                after-cong (lift (required lib (lib.lookup_env "POD_NAME") _) w5) _ _ λ name w6 e6.
                  after-cong (construct lib mc cfg scheme ns api w6) _ _ λ mgr w7 e7.
                    after-cong (poller_or_none lib mc mgr w7)
                      (λ p. registered lib add mgr (registration lib mc ns name tools api mgr p))
                      (λ p. registered lib add' mgr (registration lib mc ns name tools api mgr p))
                      λ poller w8 e8. registered-cong add add' mgr (
                        agree (registration lib mc ns name tools api mgr poller)
                          (sound tools api mgr w7 w8 (value e3)
                            (required-eq (lib.lookup_env "POD_NAME") _ (value e6)) e8)
                          w8)
