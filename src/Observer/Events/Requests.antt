-- ===== src/Observer/Events/Requests.antt =====
-- observer/alliaob.go: what checkEvents does with one notification while there is a channel.
use btc_vendor_tools.Base.{
  ℕ, ◌≡◌, refl, ap, sym, ◌∙◌, ◌⊎◌, inl, inr, true, List, [], ◌∷◌, ◌++◌, arith, Option, none, some,
  bytes_eq, bytes_eq_refl, eq_of_bytes_eq, if_cases,
}
use btc_vendor_tools.Std.Binary.{Bytes}
use btc_vendor_tools.Wire.{Wire, MsgTx}
use btc_vendor_tools.LevelDb.{LevelDb}
use btc_vendor_tools.Utils.ToSign.{ToSignItem}
use btc_vendor_tools.Run.{finished, ◌>>=◌, >>=-eq-finished, finished_pair}
use btc_vendor_tools.Observer.Events.{
  Value, text, number, list, other, Values, at, as_text, text_at, as_numbers, to_sign_tx_key,
  signed_tx_key, ObConf, ObState, deliver, decode_tx, capture, check_to_sign, check_signed, mark,
  check_name, check_notify,
}

module _ (w : Wire) (conf : ObConf) where
  -- A notification that asks for a signature: its name, the vendor's key, the transaction in hex,
  -- and the amounts.
  pub record IsRequest (v : Value) (item : ToSignItem) : Type 0 where
    pub states : Values
    pub is_list : v ≡ list states
    pub named : at states 0 ≡ some (text to_sign_tx_key)
    pub keyed : at states 1 ≡ some (text conf.hash_key)
    pub raw : Bytes
    pub has_raw : at states 2 ≡ some (text raw)
    pub decoded : decode_tx w raw ≡ finished (some item.mtx)
    pub amounts : as_numbers (at states 3) ≡ finished item.amts

  -- The items that a list of notifications asks for, in their order.
  pub data Requests : List Value → List ToSignItem → Type 0 where
    no_more : Requests [] []
    asks :
        {v : Value} {vs : List Value} (item : ToSignItem) {items : List ToSignItem}
        → IsRequest v item
        → Requests vs items
        → Requests (v ∷ vs) (item ∷ items)
    passed :
        {v : Value} {vs : List Value} {items : List ToSignItem}
        → ((item : ToSignItem) → ¬ IsRequest v item)
        → Requests vs items
        → Requests (v ∷ vs) items

module _ (w : Wire) (L : LevelDb) (conf : ObConf) (chan : conf.has_chan ≡ true) where
  abbrev pub queued : ObState w L → ToSignItem → ObState w L
  queued st item = record st { queue = st.queue ++ item ∷ [] }

  deliver-queued :
      (item : ToSignItem) (st : ObState w L) → deliver w L conf item st ≡ finished (queued st item)
  unfolding deliver
  deliver-queued item st = rw (chan) refl

  -- A notification that asks for a signature puts its item on the channel.
  pub check_notify-IsRequest :
      (v : Value) (item : ToSignItem) (st : ObState w L)
      → IsRequest w conf v item
      → check_notify w L conf v st ≡ finished (1, queued st item)
  unfolding check_notify check_to_sign bytes_eq
  check_notify-IsRequest v item st r =
      rw
        (
          r.is_list,
          r.named,
          r.keyed,
          bytes_eq_refl conf.hash_key,
          r.has_raw,
          r.decoded,
          r.amounts,
          deliver-queued item st,
        )
        refl

  -- A run on one notification that finishes.
  unfoldable pub Outcome : Value → ObState w L → ℕ → ObState w L → Type 0
  Outcome v st c st' =
      ((c ≡ 0) × (st'.queue ≡ st.queue))
      ⊎ ((c ≡ 1)
          × ((item : ToSignItem) × IsRequest w conf v item × (st'.queue ≡ st.queue ++ item ∷ [])))

  capture-Outcome :
      (states : Values) (raw : Bytes) (st st' : ObState w L) (c : ℕ) (m : Option MsgTx)
      → at states 0 ≡ some (text to_sign_tx_key)
      → at states 1 ≡ some (text conf.hash_key)
      → at states 2 ≡ some (text raw)
      → decode_tx w raw ≡ finished m
      → capture w L conf states st m ≡ finished (c, st')
      → Outcome (list states) st c st'
  unfolding Outcome
  capture-Outcome states raw st st' c none named keyed has_raw dec e =
      let p = finished_pair e in inl (p.0, ap (λ s. s.queue) p.1)
  capture-Outcome states raw st st' c (some mtx) named keyed has_raw dec e =
      let (amts, numbered, e1) = >>=-eq-finished (as_numbers (at states 3)) _ e in
      let item : ToSignItem = record { mtx = mtx; amts = amts } in
      let p =
        finished_pair
          (sym (ap (λ r. r >>= (λ s. finished (1, s))) (deliver-queued item st)) ∙ e1) in
      let is_request : IsRequest w conf (list states) item = record {
        states = states;
        is_list = refl;
        named = named;
        keyed = keyed;
        raw = raw;
        has_raw = has_raw;
        decoded = dec;
        amounts = numbered;
      } in
      inr (p.0, (item, is_request, ap (λ s. s.queue) p.1))

  as_text-finished : (o : Option Value) (s : Bytes) → as_text o ≡ finished s → o ≡ some (text s)
  as_text-finished none s e = cc
  as_text-finished (some (text t)) s e = ground arith
  as_text-finished (some (number n)) s e = cc
  as_text-finished (some (list l)) s e = cc
  as_text-finished (some other) s e = cc

  check_to_sign-Outcome :
      (states : Values) (st st' : ObState w L) (c : ℕ)
      → at states 0 ≡ some (text to_sign_tx_key)
      → check_to_sign w L conf states st ≡ finished (c, st')
      → Outcome (list states) st c st'
  unfolding Outcome check_to_sign
  check_to_sign-Outcome states st st' c named e =
      let (key, is_key, e1) = >>=-eq-finished (text_at states 1) _ e in
      elim (if_cases (bytes_eq key conf.hash_key) e1) [
        | inl (same, e2) ↦
            let (raw, is_raw, e3) = >>=-eq-finished (text_at states 2) _ e2 in
            let (m, decoded, e4) = >>=-eq-finished (decode_tx w raw) _ e3 in
            capture-Outcome states raw st st' c m named
              (as_text-finished (at states 1) key is_key
                ∙ ap (λ k. some (text k)) (eq_of_bytes_eq key conf.hash_key same))
              (as_text-finished (at states 2) raw is_raw) decoded e4
        | inr (_, e2) ↦ let p = finished_pair e2 in inl (p.0, ap (λ s. s.queue) p.1)
      ]

  mark-queue : (st : ObState w L) (m : Option MsgTx) → (mark w L st m).queue ≡ st.queue
  mark-queue st none = refl
  mark-queue st (some m) = refl

  check_signed-outcome :
      (states : Values) (st st' : ObState w L) (c : ℕ)
      → check_signed w L conf states st ≡ finished (c, st')
      → (c ≡ 0) × (st'.queue ≡ st.queue)
  unfolding check_signed
  check_signed-outcome states st st' c e =
      let (key, is_key, e1) = >>=-eq-finished (text_at states 5) _ e in
      elim (if_cases (bytes_eq key conf.hash_key) e1) [
        | inl (same, e2) ↦
            let (raw, is_raw, e3) = >>=-eq-finished (text_at states 3) _ e2 in
            let (m, _, e4) = >>=-eq-finished (decode_tx w raw) _ e3 in
            let p = finished_pair e4 in (p.0, ap (λ s. s.queue) p.1 ∙ mark-queue st m)
        | inr (_, e2) ↦ let p = finished_pair e2 in (p.0, ap (λ s. s.queue) p.1)
      ]

  check_name-Outcome :
      (states : Values) (st st' : ObState w L) (c : ℕ) (o : Option Value)
      → at states 0 ≡ o
      → check_name w L conf states st o ≡ finished (c, st')
      → Outcome (list states) st c st'
  unfolding Outcome
  check_name-Outcome states st st' c none named e = cc
  check_name-Outcome states st st' c (some (text name)) named e =
      elim (if_cases (bytes_eq name to_sign_tx_key) e) [
        | inl (same, e1) ↦
            check_to_sign-Outcome states st st' c
              (named ∙ ap (λ k. some (text k)) (eq_of_bytes_eq name to_sign_tx_key same)) e1
        | inr (_, e1) ↦ elim (if_cases (bytes_eq name signed_tx_key) e1) [
          | inl (_, e2) ↦ inl (check_signed-outcome states st st' c e2)
          | inr (_, e2) ↦ let p = finished_pair e2 in inl (p.0, ap (λ s. s.queue) p.1)
        ]
      ]
  check_name-Outcome states st st' c (some (number n)) named e =
      let p = finished_pair e in inl (p.0, ap (λ s. s.queue) p.1)
  check_name-Outcome states st st' c (some (list l)) named e =
      let p = finished_pair e in inl (p.0, ap (λ s. s.queue) p.1)
  check_name-Outcome states st st' c (some other) named e =
      let p = finished_pair e in inl (p.0, ap (λ s. s.queue) p.1)

  pub check_notify-Outcome :
      (v : Value) (st st' : ObState w L) (c : ℕ)
      → check_notify w L conf v st ≡ finished (c, st')
      → Outcome v st c st'
  unfolding Outcome check_notify
  check_notify-Outcome (list states) st st' c e =
      check_name-Outcome states st st' c (at states 0) refl e
  check_notify-Outcome (text t) st st' c e =
      let p = finished_pair e in inl (p.0, ap (λ s. s.queue) p.1)
  check_notify-Outcome (number n) st st' c e =
      let p = finished_pair e in inl (p.0, ap (λ s. s.queue) p.1)
  check_notify-Outcome other st st' c e =
      let p = finished_pair e in inl (p.0, ap (λ s. s.queue) p.1)
