-- ===== src/Tests/Asking.antt =====
-- The client of the SPV node at concrete inputs.
use btc_vendor_tools.Base.{
  ℕ, ◌+◌, ◌==◌, ◌&&◌, ◌≡◌, refl, false, List, [], ◌∷◌, map, bytes_eq, if◌then◌else◌, refused,
  bad_response, ok, err,
}
use btc_vendor_tools.Std.Binary.{Bytes}
use btc_vendor_tools.Std.Int.{pos}
use btc_vendor_tools.Std.Text.{codes}
use btc_vendor_tools.Rest.Spv.{
  Value, text, number, list, object, nil, cons, no_field, field, Response, Http,
}
use btc_vendor_tools.Rest.Client.{send_rest_request, get_utxos_from_spv}
use btc_vendor_tools.Rest.Client.Inputs.{as_input, get_utxos_from_spv-answers}

abbrev some_inputs : List (Bytes × ℕ)
some_inputs = (codes "ab", 1) ∷ (codes "cd", 0) ∷ []

abbrev listed : Bytes → ℕ → Value ℕ
listed txid vout =
    object (field (codes "txid") (text txid) (field (codes "vout") (number vout) no_field))

abbrev answer : Response (Value ℕ)
answer = record {
  action = [];
  desc = codes "SUCCESS";
  error = 0;
  result = object (
      field (codes "inputs")
        (list (cons (listed (codes "ab") 1) (cons (listed (codes "cd") 0) nil)))
        (field (codes "sum") (number 7000) no_field));
}

-- A node that counts its requests and always lists the same utxos.
abbrev node : Http
node = record {
  State = ℕ;
  Float = ℕ;
  to_uint32 = λ x. x;
  to_int64 = λ x. pos x;
  marshal = λ req. ok [];
  unmarshal = λ body. ok answer;
  unmarshal_all_utxos = λ body. err bad_response;
  Body = Bytes;
  read_all = λ body. ok body;
  post = λ s url data_. (ok [], s + 1);
  get = λ s url. (ok [], s + 1);
  decode_header = λ bs. ok bs;
}

get_utxos_from_spv-answers_example :
    get_utxos_from_spv node (codes "n:1") (codes "2N") (pos 5) (pos 1) false 3 ≡ (
      if answer.error == 0 && bytes_eq answer.desc (codes "SUCCESS")
          then ok (map (as_input node) some_inputs, pos 7000)
          else err refused,
      4,
    )
unfolding send_rest_request
get_utxos_from_spv-answers_example =
    get_utxos_from_spv-answers node (codes "n:1") (codes "2N") (pos 5) (pos 1) false 3 4 [] []
      answer some_inputs 7000 refl refl refl (λ code text. refl)

-- A node that answers with an error and no result.
abbrev refusal : Response (Value ℕ)
refusal = record { action = []; desc = codes "NO UTXO"; error = 41001; result = text [] }

abbrev refusing : Http
refusing = record node { unmarshal = λ body. ok refusal }

refused_utxos :
    get_utxos_from_spv refusing (codes "n:1") (codes "2N") (pos 5) (pos 1) false 3
    ≡ (err refused, 4)
unfolding send_rest_request bytes_eq
refused_utxos =
    get_utxos_from_spv-answers refusing (codes "n:1") (codes "2N") (pos 5) (pos 1) false 3 4 [] []
      refusal [] 0 refl refl refl (λ code. cc code)
