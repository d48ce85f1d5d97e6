-- ===== src/Web/Service.antt =====
-- web/service/service.go: SignContract, SetContract, SignParam and SetParam of BtcService.
use btc_vendor_tools.Base.{ℕ, ◌≡◌, refl, List, ◌∷◌, ◌++◌, map, All, Option, Result, ok, ◌>>=◌}
use btc_vendor_tools.Std.Binary.{Bytes, IsByte}
use btc_vendor_tools.Std.Hex.{hex_encode, hex_decode, hex_decode-hex_encode}
use btc_vendor_tools.Web.Strings.{
  replace_0x, split, decode_all, join, decode_all-split-join, hex_decode-replace_0x,
}

-- The two transactions that the service sends to Poly.
pub data Call : Type 0 where
  register_redeem : (chain_id : ℕ) (redeem contract : Bytes) (ver : ℕ) (sigs : List Bytes) → Call
  set_btc_tx_param : (redeem : Bytes) (fr mc ver : ℕ) (sigs : List Bytes) → Call

-- What the service uses of the Poly SDK, btcec and btcutil: parameters of the model.
pub record Sdk : Type 0 where
  -- OpenWallet, GetDefaultAccount of a wallet with a password, and GetPrivateKey of an account.
  pub open_wallet : Bytes → Result Bytes
  pub get_default_account : Bytes → Bytes → Result Bytes
  pub get_private_key : Bytes → Bytes
  pub sign : Bytes → Bytes → Result Bytes
  pub hash160 : Bytes → Bytes
  pub uint64_bytes : ℕ → Bytes
  -- The answer to a transaction of an account, which is `none` before one is read.
  pub submit : Option Bytes → Call → Result Bytes

-- GetAccountByPassword of utils/utils.go.
abbrev pub get_account_by_password : Sdk → (path pwd : Bytes) → Result Bytes
get_account_by_password sdk path pwd = do
  wallet ← sdk.open_wallet path
  sdk.get_default_account wallet pwd

-- The private key of that account.
unfoldable pub get_key : Sdk → (path pwd : Bytes) → Result Bytes
get_key sdk path pwd = do acct ← get_account_by_password sdk path pwd; ok (sdk.get_private_key acct)

-- What is hashed and signed for a contract, and for the parameters.
abbrev pub contract_message : Sdk → Bytes → Bytes → ℕ → ℕ → Bytes
contract_message sdk r c chain_id ver =
    r ++ (sdk.uint64_bytes 1 ++ (c ++ (sdk.uint64_bytes chain_id ++ sdk.uint64_bytes ver)))

abbrev pub param_message : Sdk → Bytes → ℕ → ℕ → ℕ → Bytes
param_message sdk r fr mc ver =
    r
    ++ (sdk.uint64_bytes 1
        ++ (sdk.uint64_bytes fr ++ (sdk.uint64_bytes mc ++ sdk.uint64_bytes ver)))

module _ (sdk : Sdk) where
  unfoldable pub sign_contract : Bytes → Bytes → Bytes → Bytes → ℕ → ℕ → Result Bytes
  sign_contract pf pwd contract redeem chain_id ver = do
    key ← get_key sdk pf pwd
    c ← hex_decode (replace_0x contract)
    r ← hex_decode redeem
    sdk.sign key (sdk.hash160 (contract_message sdk r c chain_id ver))

  unfoldable pub sign_param : ℕ → ℕ → ℕ → Bytes → Bytes → Bytes → Result Bytes
  sign_param fr mc ver redeem pf pwd = do
    key ← get_key sdk pf pwd
    r ← hex_decode redeem
    sdk.sign key (sdk.hash160 (param_message sdk r fr mc ver))

-- SetContract up to the transaction.
unfoldable pub contract_call : Bytes → Bytes → Bytes → ℕ → ℕ → Result Call
contract_call contract redeem sigs ver chain_id = do
  c ← hex_decode (replace_0x contract)
  r ← hex_decode redeem
  sig_arr ← decode_all (split sigs)
  ok (register_redeem chain_id r c ver sig_arr)

-- SetParam up to the transaction.
unfoldable pub param_call : ℕ → ℕ → ℕ → Bytes → Bytes → Result Call
param_call fr mc ver redeem sigs = do
  r ← hex_decode redeem
  sig_arr ← decode_all (split sigs)
  ok (set_btc_tx_param r fr mc ver sig_arr)

-- The transaction of SetContract carries exactly what its arguments are the hex of: the contract,
-- with or without `0x` before it, the redeem script, and each of the signatures, of which there is
-- at least one.
pub contract_call-hex :
    (c r sig : Bytes) (sigs : List Bytes) (ver chain_id : ℕ)
    → All IsByte c
    → All IsByte r
    → All IsByte sig
    → All (All IsByte) sigs
    → (contract_call
          (hex_encode c)
          (hex_encode r)
          (join (hex_encode sig) (map hex_encode sigs))
          ver
          chain_id
        ≡ ok (register_redeem chain_id r c ver (sig ∷ sigs)))
      × (contract_call
            (48 ∷ 120 ∷ hex_encode c)
            (hex_encode r)
            (join (hex_encode sig) (map hex_encode sigs))
            ver
            chain_id
          ≡ ok (register_redeem chain_id r c ver (sig ∷ sigs)))
unfolding contract_call
contract_call-hex c r sig sigs ver chain_id bc br bs bss =
    let (plain, prefixed) = hex_decode-replace_0x c bc in
    let sent = decode_all-split-join sig sigs bs bss in
    (
      rw plain (rw (hex_decode-hex_encode r br) (rw sent refl)),
      rw prefixed (rw (hex_decode-hex_encode r br) (rw sent refl)),
    )

-- The transaction of SetParam carries exactly the parameters, and what its redeem script and its
-- signatures, of which there is at least one, are the hex of.
pub param_call-hex :
    (fr mc ver : ℕ) (r sig : Bytes) (sigs : List Bytes)
    → All IsByte r
    → All IsByte sig
    → All (All IsByte) sigs
    → param_call fr mc ver (hex_encode r) (join (hex_encode sig) (map hex_encode sigs))
      ≡ ok (set_btc_tx_param r fr mc ver (sig ∷ sigs))
unfolding param_call
param_call-hex fr mc ver r sig sigs br bs bss =
    rw (hex_decode-hex_encode r br) (rw (decode_all-split-join sig sigs bs bss) refl)
