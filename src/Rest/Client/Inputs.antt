-- ===== src/Rest/Client/Inputs.antt =====
-- rest/http/restful/rest_client.go: GetUtxosFromSpv and BroadcastTxBySpv against the answers of the
-- node.
use btc_vendor_tools.Base.{
  ◌==◌, ◌≡◌, refl, ap, ◌∙◌, Bool, ◌&&◌, Bool-cases, inl, inr, List, [], ◌∷◌, map, bytes_eq,
  eq_of_bytes_eq, if◌then◌else◌, if_cases, arith, refused, ok, err, >>=-eq-ok, Result-cases,
}
use btc_vendor_tools.Std.Binary.{Bytes}
use btc_vendor_tools.Std.Hex.{hex_encode}
use btc_vendor_tools.Std.Int.{ℤ}
use btc_vendor_tools.Std.Text.{codes}
use btc_vendor_tools.Wire.{Wire, MsgTx}
use btc_vendor_tools.Rest.Spv.{
  Request, query_utxos, broadcast_tx, Value, Values, text, number, list, object, nil, cons,
  no_field, field, Response, TransactionInput, Http, lookup, at_name,
}
use btc_vendor_tools.Rest.Client.{
  inputs, checked, api, send_rest_request, post_request, read_utxos, then_, get_utxos_from_spv,
  broadcast_tx_by_spv,
}

abbrev pub utxos_path : Bytes
utxos_path = codes "queryutxos"

abbrev pub broadcast_path : Bytes
broadcast_path = codes "broadcasttx"

both_eq {ℓ κ} :
    {A : Type ℓ} {B : Type κ} {p : A × B} {a : A} {b : B} → p.0 ≡ a → p.1 ≡ b → p ≡ (a, b)
both_eq {p} {a} {b} e f = rw (← e, ← f) refl

module _ (H : Http) where
  -- An input as the node writes it, and a list of them.
  abbrev pub input_value : Bytes × H.Float → Value H.Float
  input_value (txid, vout) =
      object (field (codes "txid") (text txid) (field (codes "vout") (number vout) no_field))

  abbrev pub input_values : List (Bytes × H.Float) → Values H.Float
  input_values [] = nil
  input_values (x ∷ xs) = cons (input_value x) (input_values xs)

  abbrev pub utxos_result : List (Bytes × H.Float) → H.Float → Value H.Float
  utxos_result ins sum =
      object (
        field (codes "inputs") (list (input_values ins))
          (field (codes "sum") (number sum) no_field))

  abbrev pub as_input : Bytes × H.Float → TransactionInput
  as_input (txid, vout) = record { txid = txid; vout = H.to_uint32 vout }

  checked-ok :
      {R : Type 0} (resp : Response R) (v : R)
      → checked H resp ≡ ok v
      → (resp.error ≡ 0) × (resp.desc ≡ codes "SUCCESS") × (v ≡ resp.result)
  unfolding checked
  checked-ok resp v e =
      elim (if_cases (resp.error == 0 && bytes_eq resp.desc (codes "SUCCESS")) e) [
        | inr (_, bad) ↦ cc bad
        | inl (is, found) ↦
            (ground arith, eq_of_bytes_eq resp.desc (codes "SUCCESS") (ground arith), ground arith)
      ]

  inputs-input_values :
      (xs : List (Bytes × H.Float)) → inputs H (input_values xs) ≡ ok (map as_input xs)
  unfolding inputs at_name lookup bytes_eq
  inputs-input_values [] = refl
  inputs-input_values (x ∷ xs) = rw (inputs-input_values xs) refl

  read_utxos-utxos_result :
      (ins : List (Bytes × H.Float)) (sum : H.Float)
      → read_utxos H (utxos_result ins sum) ≡ ok (map as_input ins, H.to_int64 sum)
  unfolding read_utxos at_name lookup bytes_eq
  read_utxos-utxos_result ins sum = rw (inputs-input_values ins) refl

  module _ (addr path : Bytes) (req : Request) (s s' : H.State) where
    -- What a request that was posted and answered comes to.
    post_request-answer :
        (query body : Bytes) (resp : Response (Value H.Float))
        → H.marshal req ≡ ok query
        → send_rest_request H s (api H addr path) query ≡ (ok body, s')
        → H.unmarshal body ≡ ok resp
        → post_request H addr path req s ≡ (checked H resp, s')
    unfolding post_request
    post_request-answer query body resp m p u = rw (m, post_request) (rw p (rw u refl))

    -- A request that succeeds was posted, and answered without an error.
    post_request-ok :
        (v : Value H.Float)
        → post_request H addr path req s ≡ (ok v, s')
        → (query : Bytes) × (H.marshal req ≡ ok query)
          × ((body : Bytes) × (send_rest_request H s (api H addr path) query ≡ (ok body, s'))
              × ((resp : Response (Value H.Float)) × (H.unmarshal body ≡ ok resp)
                  × (resp.error ≡ 0)
                  × (resp.desc ≡ codes "SUCCESS")
                  × (v ≡ resp.result)))
    unfolding post_request
    post_request-ok v e = elim (Result-cases (H.marshal req)) [
      | inr (inl (x, bad)) ↦ cc (ap (λ p. p.0) (rw (bad, post_request) at e))
      | inr (inr bad) ↦ cc (ap (λ p. p.0) (rw (bad, post_request) at e))
      | inl (query, m) ↦
          let e1 = rw (m, post_request) at e in
          let (body, p, e2) =
            >>=-eq-ok (send_rest_request H s (api H addr path) query).0 _ (ap (λ q. q.0) e1) in
          let (resp, u, e3) = >>=-eq-ok (H.unmarshal body) _ e2 in
          let (no_error, success, is) = checked-ok resp v e3 in
          (query, m, (body, both_eq p (ap (λ q. q.1) e1), (resp, u, no_error, success, is)))
    ]

-- Where the node answers the query for utxos that GetUtxosFromSpv posts with a response, the call
-- returns an error if the response has a code other than 0 or a text other than SUCCESS, whatever
-- result it carries; if it has that code and that text, and its result lists inputs and their sum,
-- the call returns these, with their numbers converted.
pub get_utxos_from_spv-answers :
    (H : Http) (addr query_addr : Bytes) (amount fee : ℤ) (is_pre_exec : Bool) (s s' : H.State)
    (query body : Bytes) (resp : Response (Value H.Float)) (ins : List (Bytes × H.Float))
    (sum : H.Float)
    → H.marshal (query_utxos query_addr amount fee is_pre_exec) ≡ ok query
    → send_rest_request H s (api H addr utxos_path) query ≡ (ok body, s')
    → H.unmarshal body ≡ ok resp
    → ((resp.error ≡ 0) → (resp.desc ≡ codes "SUCCESS") → resp.result ≡ utxos_result H ins sum)
    → get_utxos_from_spv H addr query_addr amount fee is_pre_exec s ≡ (
      if resp.error == 0 && bytes_eq resp.desc (codes "SUCCESS")
          then ok (map (as_input H) ins, H.to_int64 sum)
          else err refused,
      s',
    )
unfolding get_utxos_from_spv checked
get_utxos_from_spv-answers H addr query_addr amount fee is_pre_exec s s' query body resp ins sum m p
      u is =
    let posted =
      post_request-answer H addr utxos_path (query_utxos query_addr amount fee is_pre_exec) s s'
        query body resp m p u in
    ap (λ q. then_ H q (read_utxos H)) posted
    ∙ elim (Bool-cases (resp.error == 0 && bytes_eq resp.desc (codes "SUCCESS"))) [
      | inl good ↦
          let listed =
            is (ground arith) (eq_of_bytes_eq resp.desc (codes "SUCCESS") (ground arith)) in
          let read : read_utxos H resp.result ≡ ok (map (as_input H) ins, H.to_int64 sum) =
            ap (read_utxos H) listed ∙ read_utxos-utxos_result H ins sum in
          rw good (ap (λ r. (r, s')) read)
      | inr bad ↦ rw bad refl
    ]

-- If BroadcastTxBySpv returns nil, the transaction was encoded, its bytes were posted in hex to the
-- node, and the node answered with the code 0 and the text SUCCESS.
pub broadcast_tx_by_spv-posts :
    (H : Http) (w : Wire) (addr : Bytes) (mtx : MsgTx) (s s' : H.State)
    → broadcast_tx_by_spv H w addr mtx s ≡ (ok tt, s')
    → (raw : Bytes) × (w.btc_encode mtx ≡ ok raw)
      × ((query : Bytes) × (H.marshal (broadcast_tx (hex_encode raw)) ≡ ok query)
          × ((body : Bytes) × (send_rest_request H s (api H addr broadcast_path) query
                ≡ (ok body, s'))
              × ((resp : Response (Value H.Float)) × (H.unmarshal body ≡ ok resp)
                  × (resp.error ≡ 0)
                  × (resp.desc ≡ codes "SUCCESS"))))
unfolding broadcast_tx_by_spv
broadcast_tx_by_spv-posts H w addr mtx s s' e = elim (Result-cases (w.btc_encode mtx)) [
  | inr (inl (x, bad)) ↦ cc (ap (λ p. p.0) (rw (bad, broadcast_tx_by_spv) at e))
  | inr (inr bad) ↦ cc (ap (λ p. p.0) (rw (bad, broadcast_tx_by_spv) at e))
  | inl (raw, enc) ↦
      let e1 = rw (enc, broadcast_tx_by_spv) at e in
      let (v, r, _) =
        >>=-eq-ok (post_request H addr broadcast_path (broadcast_tx (hex_encode raw)) s).0 _
          (ap (λ q. q.0) e1) in
      let (query, m, (body, p, (resp, u, no_error, success, _))) =
        post_request-ok H addr broadcast_path (broadcast_tx (hex_encode raw)) s s' v
          (both_eq r (ap (λ q. q.1) e1)) in
      (raw, enc, (query, m, (body, p, (resp, u, no_error, success))))
]
