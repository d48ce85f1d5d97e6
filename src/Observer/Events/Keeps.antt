-- ===== src/Observer/Events/Keeps.antt =====
-- observer/alliaob.go: checkEvents keeps the invariant of the database that it shares.
use btc_vendor_tools.Base.{
  ℕ, ◌+◌, ◌≡◌, refl, ap, sym, inl, inr, true, List, [], ◌∷◌, Option, none, some, bytes_eq, if_cases,
  arith,
}
use btc_vendor_tools.Wire.{Wire, MsgTx}
use btc_vendor_tools.LevelDb.{LevelDb, IsLevelDb, IsReliable}
use btc_vendor_tools.Db.View.{Inv}
use btc_vendor_tools.Db.Reliable.{IsFound, Inv-set_tx_done, IsFound-set_tx_done}
use btc_vendor_tools.Db.{VendorDb, set_tx_done}
use btc_vendor_tools.Std.Binary.{Bytes}
use btc_vendor_tools.Signer.{clear_scripts}
use btc_vendor_tools.Run.{Run, finished, >>=-eq-finished, finished_pair}
use btc_vendor_tools.Utils.ToSign.{ToSignItem}
use btc_vendor_tools.Observer.Events.{
  Value, Values, text, number, list, other, at, text_at, as_numbers, to_sign_tx_key, signed_tx_key,
  ObConf, ObState, decode_tx, deliver, capture, check_to_sign, mark, check_signed, check_name,
  check_notify, check_notifies, check_loop, check_events,
}

finished_eq {ℓ} : {A : Type ℓ} {a a' : A} → ◌≡◌ {A = Run A} (finished a) (finished a') → a ≡ a'
finished_eq e = ground arith

module _ (w : Wire) (L : LevelDb) (conf : ObConf) (chan : conf.has_chan ≡ true)
    (P : VendorDb L.State → Type 0)
    (marked : (h : Bytes) (v : VendorDb L.State) → P v → P (set_tx_done w L h v).1) where
  -- A run that finishes keeps what each SetTxDone keeps.
  abbrev Keeps : ObState w L → Run (ℕ × ObState w L) → Type 0
  Keeps st r = (c : ℕ) (st' : ObState w L) → r ≡ finished (c, st') → P st.vdb → P st'.vdb

  finished_vdb :
      {st st1 : ObState w L}
      → ◌≡◌ {A = Run (ObState w L)} (finished st) (finished st1)
      → st1.vdb ≡ st.vdb
  finished_vdb e = ap (λ s. s.vdb) (finished_eq (sym e))

  same-Keeps : (n : ℕ) (st st1 : ObState w L) → st1.vdb ≡ st.vdb → Keeps st (finished (n, st1))
  same-Keeps n st st1 same c st' e inv = rw ((finished_pair e).1, same) inv

  deliver-vdb :
      (item : ToSignItem) (st st1 : ObState w L)
      → deliver w L conf item st ≡ finished st1
      → st1.vdb ≡ st.vdb
  unfolding deliver
  deliver-vdb item st st1 e = finished_vdb (rw chan at e)

  capture-Keeps :
      (states : Values) (st : ObState w L) (m : Option MsgTx)
      → Keeps st (capture w L conf states st m)
  unfolding deliver
  capture-Keeps states st none c st' e inv = same-Keeps 0 st st refl c st' e inv
  capture-Keeps states st (some mtx) c st' e inv =
      let (amts, _, e1) = >>=-eq-finished (as_numbers (at states 3)) _ e in
      let (st1, sent, e2) =
        >>=-eq-finished (deliver w L conf (record { mtx = mtx; amts = amts }) st) _ e1 in
      let same = deliver-vdb _ st st1 sent in same-Keeps 1 st st1 same c st' e2 inv

  mark-Keeps : (st : ObState w L) (m : Option MsgTx) → P st.vdb → P (mark w L st m).vdb
  mark-Keeps st none inv = inv
  mark-Keeps st (some mtx) inv = marked (w.tx_hash (clear_scripts mtx)) st.vdb inv

  check_to_sign-Keeps :
      (states : Values) (st : ObState w L) → Keeps st (check_to_sign w L conf states st)
  unfolding check_to_sign
  check_to_sign-Keeps states st c st' e inv =
      let (key, _, e1) = >>=-eq-finished (text_at states 1) _ e in
      elim (if_cases (bytes_eq key conf.hash_key) e1) [
        | inl (_, e2) ↦
            let (raw, _, e3) = >>=-eq-finished (text_at states 2) _ e2 in
            let (m, _, e4) = >>=-eq-finished (decode_tx w raw) _ e3 in
            capture-Keeps states st m c st' e4 inv
        | inr (_, e2) ↦ same-Keeps 0 st st refl c st' e2 inv
      ]

  check_signed-Keeps :
      (states : Values) (st : ObState w L) → Keeps st (check_signed w L conf states st)
  unfolding check_signed
  check_signed-Keeps states st c st' e inv =
      let (key, _, e1) = >>=-eq-finished (text_at states 5) _ e in
      elim (if_cases (bytes_eq key conf.hash_key) e1) [
        | inl (_, e2) ↦
            let (raw, _, e3) = >>=-eq-finished (text_at states 3) _ e2 in
            let (m, _, e4) = >>=-eq-finished (decode_tx w raw) _ e3 in
            rw (finished_pair e4).1 (mark-Keeps st m inv)
        | inr (_, e2) ↦ same-Keeps 0 st st refl c st' e2 inv
      ]

  check_name-Keeps :
      (states : Values) (st : ObState w L) (o : Option Value)
      → Keeps st (check_name w L conf states st o)
  check_name-Keeps states st none c st' e inv = cc e
  check_name-Keeps states st (some (text name)) c st' e inv =
      elim (if_cases (bytes_eq name to_sign_tx_key) e) [
        | inl (_, e1) ↦ check_to_sign-Keeps states st c st' e1 inv
        | inr (_, e1) ↦ elim (if_cases (bytes_eq name signed_tx_key) e1) [
          | inl (_, e2) ↦ check_signed-Keeps states st c st' e2 inv
          | inr (_, e2) ↦ same-Keeps 0 st st refl c st' e2 inv
        ]
      ]
  check_name-Keeps states st (some (number n)) c st' e inv = same-Keeps 0 st st refl c st' e inv
  check_name-Keeps states st (some (list l)) c st' e inv = same-Keeps 0 st st refl c st' e inv
  check_name-Keeps states st (some other) c st' e inv = same-Keeps 0 st st refl c st' e inv

  pub check_notify-Keeps : (v : Value) (st : ObState w L) → Keeps st (check_notify w L conf v st)
  unfolding check_notify
  check_notify-Keeps (list states) st = check_name-Keeps states st (at states 0)
  check_notify-Keeps (text t) st = same-Keeps 0 st st refl
  check_notify-Keeps (number n) st = same-Keeps 0 st st refl
  check_notify-Keeps other st = same-Keeps 0 st st refl

  check_notifies-Keeps :
      (vs : List Value) (n : ℕ) (st : ObState w L) → Keeps st (check_notifies w L conf vs n st)
  unfolding check_notifies
  check_notifies-Keeps [] n st c st' e inv = same-Keeps n st st refl c st' e inv
  check_notifies-Keeps (v ∷ vs) n st c st' e inv =
      let ((k, st1), e1, e2) = >>=-eq-finished (check_notify w L conf v st) _ e in
      check_notifies-Keeps vs (n + k) st1 c st' e2 (check_notify-Keeps v st k st1 e1 inv)

  check_loop-Keeps :
      (es : List (List Value)) (n : ℕ) (st : ObState w L) → Keeps st (check_loop w L conf es n st)
  unfolding check_loop
  check_loop-Keeps [] n st c st' e inv = same-Keeps n st st refl c st' e inv
  check_loop-Keeps (v ∷ es) n st c st' e inv =
      let ((k, st1), e1, e2) = >>=-eq-finished (check_notifies w L conf v n st) _ e in
      check_loop-Keeps es k st1 c st' e2 (check_notifies-Keeps v n st k st1 e1 inv)

  pub check_events-Keeps :
      (events : List (List Value)) (st : ObState w L) → Keeps st (check_events w L conf events st)
  unfolding check_events
  check_events-Keeps events st = check_loop-Keeps events 0 st

module _ (w : Wire) (L : LevelDb) (conf : ObConf) (chan : conf.has_chan ≡ true)
    (lawful : IsLevelDb L) (reliable : IsReliable L) where
  pub check_events-Inv :
      (events : List (List Value)) (st st' : ObState w L) (n : ℕ)
      → check_events w L conf events st ≡ finished (n, st')
      → Inv w L st.vdb
      → Inv w L st'.vdb
  check_events-Inv events st st' n =
      check_events-Keeps w L conf chan (Inv w L) (λ h v. Inv-set_tx_done w L reliable h v lawful)
        events st n st'

  -- What was found is found after a notification, and the invariant holds.
  pub check_notify-IsFound :
      (v : Value) (st st' : ObState w L) (n : ℕ)
      → check_notify w L conf v st ≡ finished (n, st')
      → Inv w L st.vdb
      → Inv w L st'.vdb × ((j : Bytes) → IsFound w L j st.vdb → IsFound w L j st'.vdb)
  check_notify-IsFound v st st' n e inv =
      let inv' =
        check_notify-Keeps w L conf chan (Inv w L) (λ h v. Inv-set_tx_done w L reliable h v lawful)
          v st n st' e inv in
      (
        inv',
        λ j found.
            (check_notify-Keeps w L conf chan (λ v. Inv w L v × IsFound w L j v)
              (λ h v p. (
                Inv-set_tx_done w L reliable h v lawful p.0,
                IsFound-set_tx_done w L reliable h v lawful p.0 j p.1,
              ))
              v st n st' e (inv, found)).1,
      )
