-- ===== src/Manager/Interval.antt =====
-- cmd/manager/main.go, pkg/manager/manager.go and pkg/updater/poller.go: the interval, from the environment to the
-- ticker.
use hawtio_operator.Base.{ℕ, String, ◌≡◌, ◌==◌, false, refl, ◌∙◌, ap, Option, none, some}
use hawtio_operator.Base.Int.{ℤ, negsuc}
use hawtio_operator.Base.Errors.{Result, ok}
use hawtio_operator.Updater.{Registry, Schedule, start, start_every, new_poller}
use hawtio_operator.Manager.Poller.{
  Poller, is_zero, poller_of, discover_registry_credentials, parse_keychain, create_update_poller,
}
use hawtio_operator.Base.Dict.{Dict}
use hawtio_operator.Manager.Clients.{Libraries}
use hawtio_operator.Manager.Options.{MgrConfig}
use hawtio_operator.Manager.Build.{poller_or_none, poller_config}
use hawtio_operator.Manager.Settings.{
  get_update_interval, interval_from, update_polling_interval_env_var,
}

-- What the poller's loop takes of it.
abbrev pub schedule_of : {O Auth : Type 0} → Poller O Auth → Schedule
schedule_of p = record {
  interval = p.interval;
  online_image_url = p.online_image_url;
  gateway_image_url = p.gateway_image_url;
}

get_update_interval-eq :
    (lookup_env : String → Option String) (parse_duration : String → Result ℤ) (text : String)
    (d : ℤ)
    → lookup_env update_polling_interval_env_var ≡ some text
    → (text == "0") ≡ false
    → parse_duration text ≡ ok d
    → get_update_interval lookup_env parse_duration ≡ d
unfolding get_update_interval
get_update_interval-eq lookup_env parse_duration text d there plain parsed =
    ap (interval_from parse_duration) there ∙ rw (plain, parsed) refl

-- A duration below zero in `UPDATE_POLLING_INTERVAL` is not refused anywhere: where the registry's credentials are
-- found and read, and the manager takes the poller, as with any other interval, the manager gets a poller,
-- whose ticker panics when it starts.
pub negative_interval-panics :
    {W R V : Type 0} (lib : Libraries W) (mc : MgrConfig lib) (mgr : lib.Mgr)
    (parse_duration : String → Result ℤ) (registry : Registry V R) (text creds : String)
    (keychain : Dict lib.Auth) (n ticks : ℕ) (w t v : W) (u : V)
    → lib.lookup_env update_polling_interval_env_var ≡ some text
    → (text == "0") ≡ false
    → parse_duration text ≡ ok (negsuc n)
    → mc.update_polling_interval ≡ get_update_interval lib.lookup_env parse_duration
    → discover_registry_credentials lib.lookup_env (poller_config lib mc mgr) w ≡ (ok creds, t)
    → parse_keychain lib.unmarshal_auths creds ≡ ok keychain
    → lib.add_poller mgr (poller_of (poller_config lib mc mgr) keychain) t ≡ (ok tt, v)
    → (p : Poller lib.RemoteOption lib.Auth) × (poller_or_none lib mc mgr w ≡ (ok (some p), v))
      × (start registry ticks (schedule_of p) new_poller u ≡ none)
unfolding start poller_or_none create_update_poller
negative_interval-panics lib mc mgr parse_duration registry text creds keychain n ticks w t v u
      there plain parsed read found keys added =
    let p = poller_of (poller_config lib mc mgr) keychain in
    let below : mc.update_polling_interval ≡ negsuc n =
      read
      ∙ get_update_interval-eq lib.lookup_env parse_duration text (negsuc n) there plain parsed in
    let counted : is_zero mc.update_polling_interval ≡ false = ap is_zero below in
    (
      p,
      rw (counted, found, keys, added) refl,
      ap (λ x. start_every registry x ticks (schedule_of p) new_poller u) below,
    )
