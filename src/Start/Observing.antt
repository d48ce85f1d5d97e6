-- ===== src/Start/Observing.antt =====
-- cmd/run.go and observer/alliaob.go: what startObserver makes of the Config.
use btc_vendor_tools.Base.{
  ◌≡◌, refl, inl, inr, Bool, true, false, if_cases, arith, Result, ok, err, panic, none, some,
  if◌then◌else◌, >>=-eq-ok,
}
use btc_vendor_tools.Std.Binary.{Bytes}
use btc_vendor_tools.Std.Int.{ℤ, positive_product}
use btc_vendor_tools.Wire.{Wire}
use btc_vendor_tools.Btc.{Btc}
use btc_vendor_tools.LevelDb.{LevelDb}
use btc_vendor_tools.Utils.Key.{get_utxo_key}
use btc_vendor_tools.Observer.Setup.{Observer, new_ob_cli, new_observer, conf_of}
use btc_vendor_tools.Config.{Files}
use btc_vendor_tools.Web.Router.{Backend}
use btc_vendor_tools.Start.{
  Start, going, exited, aborted, waits, ◌>>=◌, or_exit, ticker, Service, observing, Settings,
  start_observer,
}

pub >>=-eq-going {ℓ κ} :
    {A : Type ℓ} {B : Type κ} (m : Start A) (f : A → Start B) {b : B}
    → (m >>= f) ≡ going b
    → (a : A) × (m ≡ going a) × (f a ≡ going b)
>>=-eq-going (going a) f e = (a, refl, e)
>>=-eq-going exited f e = cc
>>=-eq-going aborted f e = cc
>>=-eq-going waits f e = cc

pub or_exit-going {ℓ} : {A : Type ℓ} (r : Result A) {a : A} → or_exit r ≡ going a → r ≡ ok a
or_exit-going (ok x) e = ground arith
or_exit-going (err x) e = cc
or_exit-going panic e = cc

ok_eq {ℓ} : {A : Type ℓ} {a a' : A} → ◌≡◌ {A = Result A} (ok a) (ok a') → a' ≡ a
ok_eq e = ground arith

pub going_eq {ℓ} : {A : Type ℓ} {a a' : A} → ◌≡◌ {A = Start A} (going a) (going a') → a' ≡ a
going_eq e = ground arith

module _ (w : Wire) (L : LevelDb) (btc : Btc) (F : Files) (b : Backend) where
  ticker-going :
      (wait : ℤ) {done : Unit {0}}
      → ticker w L btc F b wait ≡ going done
      → positive_product 1000000000 wait ≡ true
  ticker-going wait e = elim (if_cases (positive_product 1000000000 wait) e) [
    | inl (ticks, _) ↦ ticks
    | inr (_, stops) ↦ cc stops
  ]

  module _ (s : Settings w L btc F b) (rb : Bytes) where
    -- The observer has the key of the redeem script and the heights of the Config, a client for the
    -- signer of the Config exactly if there is no channel, and a ticker that runs.
    pub record Observes (channel : Bool) (ob : Observer) : Type 0 where
      pub key : get_utxo_key btc rb ≡ ok ob.hash_key
      pub conf : conf_of ob ≡ record {
        hash_key = ob.hash_key;
        has_chan = channel;
        waiting_circle = s.conf.circle_to_save_height;
        start_height = s.conf.poly_start_height;
      }
      pub client : ob.ob_cli ≡ (if channel then none else some s.conf.signer_addr)
      pub ticks : positive_product 1000000000 s.conf.poly_ob_loop_wait_time ≡ true

    abbrev observer_of : Bool → Bytes → Observer
    observer_of channel key = record {
      has_chan = channel;
      loop_wait_time = s.conf.poly_ob_loop_wait_time;
      watching_key_to_sign = s.conf.watching_key_to_sign;
      hash_key = key;
      db_path = s.conf.config_db_path;
      waiting_circle = s.conf.circle_to_save_height;
      ob_cli = new_ob_cli channel s.conf.signer_addr;
      start_height = s.conf.poly_start_height;
    }

    new_client :
        (channel : Bool) (addr : Bytes)
        → new_ob_cli channel addr ≡ (if channel then none else some addr)
    new_client true addr = refl
    new_client false addr = refl

    pub start_observer-going :
        (channel : Bool) (started : Service)
        → start_observer w L btc F b s channel rb ≡ going started
        → (ob : Observer) × (started ≡ observing ob) × Observes channel ob
    unfolding start_observer new_observer
    start_observer-going channel started e =
        let (ob, ob_, e1) =
          >>=-eq-going
            (or_exit (
              new_observer btc channel s.conf.poly_ob_loop_wait_time rb s.conf.watching_key_to_sign
                s.conf.config_db_path s.conf.signer_addr s.conf.circle_to_save_height
                s.conf.poly_start_height))
            _ e in
        let (key, keyed, made) = >>=-eq-ok (get_utxo_key btc rb) _ (or_exit-going _ ob_) in
        let (_, ticks_, e2) = >>=-eq-going (ticker w L btc F b ob.loop_wait_time) _ e1 in
        let is : ob ≡ observer_of channel key = ok_eq made in
        (
          ob,
          going_eq e2,
          record {
            key = rw is keyed;
            conf = rw is refl;
            client = rw is (new_client channel s.conf.signer_addr);
            ticks = rw is at (ticker-going ob.loop_wait_time ticks_);
          },
        )
