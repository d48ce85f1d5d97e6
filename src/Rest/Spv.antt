-- ===== src/Rest/Spv.antt =====
-- rest/http/restful/rest_client.go: the requests to an SPV node and its answers. net/http,
-- encoding/json, float64 and wire.BlockHeader are parameters.
use btc_vendor_tools.Base.{ℕ, Bool, List, bytes_eq, if◌then◌else◌, Result, ok, panic, ◌>>=◌}
use btc_vendor_tools.Std.Binary.{Bytes}
use btc_vendor_tools.Std.Int.{ℤ}

-- The structs that are sent, by their fields.
pub data Request : Type 0 where
  query_header_by_height : (height : ℕ) → Request
  query_utxos : (addr : Bytes) (amount fee : ℤ) (is_pre_exec : Bool) → Request
  change_address : (action addr : Bytes) → Request
  broadcast_tx : (raw_tx : Bytes) → Request
  unlock_utxo : (hash : Bytes) (index : ℕ) → Request
  get_fee_per_byte : (level : ℤ) → Request
  rollback : (time : Bytes) → Request

-- An interface{} as encoding/json makes it; `other` stands for null and the booleans.
mutual
  pub data Value (Float : Type 0) : Type 0 where
    text : Bytes → Value Float
    number : Float → Value Float
    list : Values Float → Value Float
    object : Fields Float → Value Float
    other : Value Float

  pub data Values (Float : Type 0) : Type 0 where
    nil : Values Float
    cons : Value Float → Values Float → Values Float

  pub data Fields (Float : Type 0) : Type 0 where
    no_field : Fields Float
    field : Bytes → Value Float → Fields Float → Fields Float

pub record Response (Result_ : Type 0) : Type 0 where
  pub action : Bytes
  pub desc : Bytes
  pub error : ℕ
  pub result : Result_

pub record UtxoInfo : Type 0 where
  pub outpoint : Bytes
  pub val : ℤ
  pub is_lock : Bool
  pub height : ℤ
  pub script : Bytes

pub record TransactionInput : Type 0 where
  pub txid : Bytes
  pub vout : ℕ

pub record Http : Type 1 where
  -- The node that is asked, and the numbers of float64 with what Go's conversions make of them.
  pub State : Type 0
  pub Float : Type 0
  pub to_uint32 : Float → ℕ
  pub to_int64 : Float → ℤ
  pub marshal : Request → Result Bytes
  pub unmarshal : Bytes → Result (Response (Value Float))
  pub unmarshal_all_utxos : Bytes → Result (Response (List UtxoInfo))
  -- The bodies of responses, a POST and a GET of http.Client, and ioutil.ReadAll.
  pub Body : Type 0
  pub post : State → (url data_ : Bytes) → Result Body × State
  pub get : State → (url : Bytes) → Result Body × State
  pub read_all : Body → Result Bytes
  pub decode_header : Bytes → Result Bytes

module _ (H : Http) where
  -- `.(string)`, `.(float64)`, `.([]interface{})` and `.(map[string]interface{})`, all unchecked.
  abbrev pub as_text : Value H.Float → Result Bytes
  as_text (text s) = ok s
  as_text _ = panic

  abbrev pub as_number : Value H.Float → Result H.Float
  as_number (number x) = ok x
  as_number _ = panic

  abbrev pub as_list : Value H.Float → Result (Values H.Float)
  as_list (list vs) = ok vs
  as_list _ = panic

  abbrev pub as_object : Value H.Float → Result (Fields H.Float)
  as_object (object fs) = ok fs
  as_object _ = panic

  -- `m[name]`; a missing name gives nil.
  unfoldable pub lookup : Bytes → Fields H.Float → Value H.Float
  lookup name no_field = other
  lookup name (field k v rest) = let more = lookup name rest in if bytes_eq k name then v else more

  -- `v.(map[string]interface{})[name]`.
  unfoldable pub at_name : Bytes → Value H.Float → Result (Value H.Float)
  unfolding lookup
  at_name name v = do fs ← as_object v; ok (lookup name fs)
