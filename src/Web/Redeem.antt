-- ===== src/Web/Redeem.antt =====
-- web/service/service.go: GeneRedeem and GenePrivkAndAddr of BtcService.
use btc_vendor_tools.Base.{
  ℕ, suc, ◌<◌, ◌≡◌, refl, ap, ltb, if◌then◌else◌, List, [], ◌∷◌, ◌++◌, map, length, length-map, ◌^◌,
  true, All, All-append, Option, arith, refused, Result, ok, err, panic, ◌>>=◌,
}
use btc_vendor_tools.Std.Binary.{Bytes, IsByte}
use btc_vendor_tools.Std.Hex.{
  hex_encode, hex_decode, hex_decode-hex_encode, IsHexChar, hex_encode-IsHexChar,
}
use btc_vendor_tools.Std.Decimal.{parse_uint, format_uint, parse_uint-format_uint_plain}
use btc_vendor_tools.Std.Space.{trim_space, trim_space-text, is_ascii_space, IsText}
use btc_vendor_tools.Config.{Net}
use btc_vendor_tools.Web.Strings.{split, join, split-join}

-- What GeneRedeem uses of btcutil, txscript and crypto/sha256; an address is its text. A net that
-- is not chosen is the nil of config.BtcNetParam.
pub record Scripts : Type 0 where
  pub new_address_pub_key : Option Net → Bytes → Result Bytes
  pub multi_sig_script : List Bytes → ℕ → Result Bytes
  pub hash160 : Bytes → Bytes
  pub sha256 : Bytes → Bytes
  pub new_address_script_hash : Option Net → Bytes → Result Bytes
  pub new_address_witness_script_hash : Option Net → Bytes → Result Bytes

-- The redeem script, its hash, and its two addresses.
pub record Redeem : Type 0 where
  pub r : Bytes
  pub rk : Bytes
  pub p2sh : Bytes
  pub p2wsh : Bytes

module _ (lib : Scripts) (net : Option Net) where
  -- The loop over the public keys; the first one that is refused ends it.
  unfoldable pub pub_keys : List Bytes → Result (List Bytes)
  pub_keys [] = ok []
  pub_keys (s ∷ rest) = do
    raw ← hex_decode s
    p ← lib.new_address_pub_key net raw
    arr ← pub_keys rest
    ok (p ∷ arr)

  -- GeneRedeem from MultiSigScript on.
  unfoldable pub multi_sig : List Bytes → ℕ → Result Redeem
  multi_sig arr rn = do
    r ← lib.multi_sig_script arr rn
    p2sh ← lib.new_address_script_hash net r
    p2wsh ← lib.new_address_witness_script_hash net (lib.sha256 r)
    ok (record { r = r; rk = lib.hash160 r; p2sh = p2sh; p2wsh = p2wsh })

  unfoldable pub gene_redeem : Bytes → Bytes → Result Redeem
  unfolding pub_keys multi_sig
  gene_redeem pubk_str req_str = do
    rn ← parse_uint 64 req_str
    let strs = split (trim_space pubk_str)
    let made = (do arr ← pub_keys strs; multi_sig arr rn)
    if ltb (length strs) rn then err refused else made

-- What GenePrivkAndAddr uses of btcec, btcutil, ontology-crypto and Poly's account package. The
-- wallets are the files that account.Open reads and ImportAccount writes.
pub record KeyLib : Type 1 where
  pub Wallets : Type 0
  pub Wallet : Type 0
  -- `NewWIF` of a private key, and the text of the WIF.
  pub new_wif : Option Net → Bytes → Result Bytes
  pub compressed_pub_key : Bytes → Bytes
  pub new_address_pub_key : Option Net → Bytes → Result Bytes
  pub key_pair_from_wif : Bytes → Result Bytes
  pub open_wallet : Wallets → Bytes → Result Wallet
  -- The address of a key in Base58, and the key encrypted under it with a password.
  pub base58_address : Bytes → Bytes
  pub encrypt_private_key : (pri b58addr pwd : Bytes) → Result Bytes
  pub public_key : Bytes → Bytes
  pub import_account : Wallets → Wallet → (key pub_key : Bytes) → Result (Unit {0}) × Wallets

-- The WIF, its public key and its address.
pub record NewKey : Type 0 where
  pub wif : Bytes
  pub pub_key : Bytes
  pub addr : Bytes

module _ (lib : KeyLib) (net : Option Net) where
  -- What is made of a private key before a wallet is touched, and the account to import.
  unfoldable pub new_account :
      Result Bytes → (pwd path : Bytes) → lib.Wallets → Result (NewKey × lib.Wallet × Bytes × Bytes)
  new_account drawn pwd path ws = do
    priv ← drawn
    wif ← lib.new_wif net priv
    let pub_key = lib.compressed_pub_key priv
    addr ← lib.new_address_pub_key net pub_key
    pri ← lib.key_pair_from_wif wif
    wallet ← lib.open_wallet ws path
    k ← lib.encrypt_private_key pri (lib.base58_address pri) pwd
    ok (record { wif = wif; pub_key = pub_key; addr = addr }, wallet, k, lib.public_key pri)

  abbrev pub after_import : Result (Unit {0}) → NewKey → Result NewKey
  after_import imported key = do done ← imported; ok key

  -- With what NewPrivateKey draws.
  unfoldable pub gene_privk_and_addr :
      Result Bytes → (pwd path : Bytes) → lib.Wallets → Result NewKey × lib.Wallets
  unfolding new_account
  gene_privk_and_addr drawn pwd path ws = elim (new_account drawn pwd path ws) [
    | err e ↦ (err e, ws)
    | panic ↦ (panic, ws)
    | ok made ↦
        let (imported, ws') = lib.import_account ws made.1 made.2 made.3 in
        (after_import imported made.0, ws')
  ]

comma-IsText : IsText 44
comma-IsText = (omega arith, omega arith)

hex-IsText : (s : Bytes) → All IsHexChar s → All IsText s
hex-IsText [] h = tt
hex-IsText (c ∷ s) h = ((omega (arith, h.0), omega (arith, h.0)), hex-IsText s h.1)

join-IsText :
    (k : Bytes) (ks : List Bytes)
    → All IsByte k
    → All (All IsByte) ks
    → All IsText (join (hex_encode k) (map hex_encode ks))
unfolding join
join-IsText k [] h hs = hex-IsText (hex_encode k) (hex_encode-IsHexChar k h)
join-IsText k (k' ∷ ks) h hs =
    All-append IsText (hex_encode k) (44 ∷ join (hex_encode k') (map hex_encode ks))
      (hex-IsText (hex_encode k) (hex_encode-IsHexChar k h))
      (comma-IsText, join-IsText k' ks hs.0 hs.1)

-- The public keys themselves, one after the other.
abbrev pub addresses : Scripts → Option Net → List Bytes → Result (List Bytes)
addresses lib net [] = ok []
addresses lib net (k ∷ ks) = do
  p ← lib.new_address_pub_key net k
  ps ← addresses lib net ks
  ok (p ∷ ps)

pub_keys-hex :
    (lib : Scripts) (net : Option Net) (ks : List Bytes)
    → All (All IsByte) ks
    → pub_keys lib net (map hex_encode ks) ≡ addresses lib net ks
unfolding pub_keys
pub_keys-hex lib net [] hs = refl
pub_keys-hex lib net (k ∷ ks) hs =
    rw (hex_decode-hex_encode k hs.0) (rw (pub_keys-hex lib net ks hs.1) refl)

-- From public keys in hex with commas between them, of which there is at least one, and with blanks
-- around them, and from a number in decimal, GeneRedeem makes the multisig script of exactly these
-- keys in this order and of this number, with the Hash160 of the script, the address of the script
-- and the witness address of its SHA-256; it refuses a number that is larger than the number of
-- keys.
pub gene_redeem-keys :
    (lib : Scripts) (net : Option Net) (before after k : Bytes) (ks : List Bytes) (n : ℕ)
    → All (λ c. is_ascii_space c ≡ true) before
    → All (λ c. is_ascii_space c ≡ true) after
    → All IsByte k
    → All (All IsByte) ks
    → n < 2 ^ 64
    → gene_redeem lib net
        (before ++ (join (hex_encode k) (map hex_encode ks) ++ after))
        (format_uint n)
      ≡ (if ltb (length (k ∷ ks)) n then err refused else (do
        arr ← addresses lib net (k ∷ ks)
        r ← lib.multi_sig_script arr n
        p2sh ← lib.new_address_script_hash net r
        p2wsh ← lib.new_address_witness_script_hash net (lib.sha256 r)
        ok (record { r = r; rk = lib.hash160 r; p2sh = p2sh; p2wsh = p2wsh })))
unfolding gene_redeem multi_sig
gene_redeem-keys lib net before after k ks n hb ha hk hks fits =
    let trimmed = trim_space-text before after _ hb ha (join-IsText k ks hk hks) in
    let count : length (hex_encode k ∷ map hex_encode ks) ≡ length (k ∷ ks) =
      ap suc (length-map ks hex_encode) in
    rw (parse_uint-format_uint_plain 64 n fits (omega arith)) (
      rw trimmed (
        rw (split-join k ks hk hks) (rw count (rw (pub_keys-hex lib net (k ∷ ks) (hk, hks)) refl))))
