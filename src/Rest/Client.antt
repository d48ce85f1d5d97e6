-- ===== src/Rest/Client.antt =====
-- rest/http/restful/rest_client.go: RestClient, which asks an SPV node. Rest/Spv has
-- what it sends and gets.
pub mod Inputs
use btc_vendor_tools.Base.{
  ℕ, ◌==◌, Bool, true, ◌&&◌, List, [], ◌∷◌, ◌++◌, bytes_eq, if◌then◌else◌, Error, refused, Result,
  ok, err, panic, ◌>>=◌,
}
use btc_vendor_tools.Std.Binary.{Bytes}
use btc_vendor_tools.Std.Hex.{hex_encode, hex_decode}
use btc_vendor_tools.Std.Int.{ℤ}
use btc_vendor_tools.Std.Text.{codes}
use btc_vendor_tools.Wire.{Wire, MsgTx}
use btc_vendor_tools.Rest.Spv.{
  Request, query_header_by_height, query_utxos, change_address, broadcast_tx, unlock_utxo,
  get_fee_per_byte, rollback, Value, Values, nil, cons, Response, UtxoInfo, TransactionInput, Http,
  as_text, as_number, as_list, lookup, at_name,
}

module _ (H : Http) where
  -- `if resp.Error != 0 || resp.Desc != "SUCCESS"`.
  unfoldable pub checked : {R : Type 0} → Response R → Result R
  checked resp =
      if resp.error == 0 && bytes_eq resp.desc (codes "SUCCESS")
      then ok resp.result
      else err refused

  abbrev pub api : Bytes → Bytes → Bytes
  api addr path = codes "http://" ++ addr ++ codes "/api/v1/" ++ path

  unfoldable pub send_rest_request : H.State → (url data_ : Bytes) → Result Bytes × H.State
  send_rest_request s url data_ =
      let (resp, s') = H.post s url data_ in ((do body ← resp; H.read_all body), s')

  -- SendGetRequst.
  unfoldable pub send_get_request : H.State → (url : Bytes) → Result Bytes × H.State
  send_get_request s url = let (resp, s') = H.get s url in ((do body ← resp; H.read_all body), s')

  -- SendRestRequest with a request, and the test of its response.
  unfoldable pub post_request : Bytes → Bytes → Request → H.State → Result (Value H.Float) × H.State
  unfolding checked
  post_request addr path req s = elim (H.marshal req) [
    | err e ↦ (err e, s)
    | panic ↦ (panic, s)
    | ok query ↦
        let (data_, s') = send_rest_request s (api addr path) query in
        ((do body ← data_; resp ← H.unmarshal body; checked resp), s')
  ]

  -- SendGetRequst, and the test of its response.
  unfoldable pub get_request : Bytes → Bytes → H.State → Result (Value H.Float) × H.State
  unfolding checked
  get_request addr path s =
      let (data_, s') = send_get_request s (api addr path) in
      ((do body ← data_; resp ← H.unmarshal body; checked resp), s')

  abbrev pub then_ :
      {A : Type 0}
      → Result (Value H.Float) × H.State
      → (Value H.Float → Result A)
      → Result A × H.State
  then_ (r, s) f = ((do v ← r; f v), s)

  abbrev done : Value H.Float → Result (Unit {0})
  done v = ok tt

  unfoldable pub get_header_from_spv : Bytes → ℕ → H.State → Result Bytes × H.State
  unfolding post_request at_name
  get_header_from_spv addr height s =
      then_ (post_request addr (codes "queryheaderbyheight") (query_header_by_height height) s)
        (λ result. do
          v ← at_name H (codes "header") result
          header ← as_text H v
          hbs ← hex_decode header
          H.decode_header hbs)

  -- The loop over the inputs.
  unfoldable pub inputs : Values H.Float → Result (List TransactionInput)
  unfolding at_name
  inputs nil = ok []
  inputs (cons v vs) = do
    txid ← at_name H (codes "txid") v
    id ← as_text H txid
    vout ← at_name H (codes "vout") v
    n ← as_number H vout
    ins ← inputs vs
    ok (record { txid = id; vout = H.to_uint32 n } ∷ ins)

  -- What GetUtxosFromSpv takes from the result.
  unfoldable pub read_utxos : Value H.Float → Result (List TransactionInput × ℤ)
  unfolding at_name inputs
  read_utxos result = do
    v ← at_name H (codes "inputs") result
    vs ← as_list H v
    ins ← inputs vs
    sum ← at_name H (codes "sum") result
    n ← as_number H sum
    ok (ins, H.to_int64 n)

  unfoldable pub get_utxos_from_spv :
      Bytes
      → (query_addr : Bytes) (amount fee : ℤ) (is_pre_exec : Bool) → H.State
      → Result (List TransactionInput × ℤ) × H.State
  unfolding post_request read_utxos
  get_utxos_from_spv addr query_addr amount fee is_pre_exec s =
      then_
        (post_request addr (codes "queryutxos") (query_utxos query_addr amount fee is_pre_exec) s)
        read_utxos

  unfoldable pub get_current_height_from_spv : Bytes → H.State → Result ℕ × H.State
  unfolding get_request at_name
  get_current_height_from_spv addr s =
      then_ (get_request addr (codes "getcurrentheight") s)
        (λ result. do v ← at_name H (codes "height") result; n ← as_number H v; ok (H.to_uint32 n))

  unfoldable pub change_spv_watched_addr :
      Bytes → (watched action : Bytes) → H.State → Result (Unit {0}) × H.State
  unfolding post_request
  change_spv_watched_addr addr watched action s =
      then_ (post_request addr (codes "changeaddress") (change_address action watched) s) done

  unfoldable pub texts : Values H.Float → Result (List Bytes)
  texts nil = ok []
  texts (cons v vs) = do s ← as_text H v; rest ← texts vs; ok (s ∷ rest)

  unfoldable pub get_watched_addrs_from_spv : Bytes → H.State → Result (List Bytes) × H.State
  unfolding get_request at_name texts
  get_watched_addrs_from_spv addr s =
      then_ (get_request addr (codes "getalladdress") s)
        (λ result. do v ← at_name H (codes "addresses") result; vs ← as_list H v; texts vs)

  unfoldable pub unlock_utxo_in_spv :
      Bytes → (hash : Bytes) (index : ℕ) → H.State → Result (Unit {0}) × H.State
  unfolding post_request
  unlock_utxo_in_spv addr hash index s =
      then_ (post_request addr (codes "unlockutxo") (unlock_utxo hash index) s) done

  unfoldable pub get_fee_rate_from_spv : Bytes → (level : ℤ) → H.State → Result ℤ × H.State
  unfolding post_request at_name
  get_fee_rate_from_spv addr level s =
      then_ (post_request addr (codes "getfeeperbyte") (get_fee_per_byte level) s)
        (λ result. do v ← at_name H (codes "feepb") result; n ← as_number H v; ok (H.to_int64 n))

  unfoldable pub get_all_utxos_from_spv : Bytes → H.State → Result (List UtxoInfo) × H.State
  unfolding checked
  get_all_utxos_from_spv addr s =
      let (data_, s') = send_get_request s (api addr (codes "getallutxos")) in
      ((do body ← data_; resp ← H.unmarshal_all_utxos body; checked resp), s')

  unfoldable pub broadcast_tx_by_spv : Wire → Bytes → MsgTx → H.State → Result (Unit {0}) × H.State
  unfolding post_request
  broadcast_tx_by_spv w addr mtx s = elim (w.btc_encode mtx) [
    | err e ↦ (err e, s)
    | panic ↦ (panic, s)
    | ok raw ↦
        then_ (post_request addr (codes "broadcasttx") (broadcast_tx (hex_encode raw)) s) done
  ]

  unfoldable pub rollback_spv : Bytes → (time : Bytes) → H.State → Result (Unit {0}) × H.State
  unfolding post_request
  rollback_spv addr time s = then_ (post_request addr (codes "rollback") (rollback time) s) done
