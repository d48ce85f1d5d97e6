-- ===== src/Signer/Sigs.antt =====
-- signer/signer.go: what getSigs returns.
use btc_vendor_tools.Base.{
  Option, ℕ, zero, suc, ◌+◌, ◌≡◌, List, [], ◌∷◌, some, arith, length, length-map, get_elem?, ok,
  >>=-eq-ok, ◌∙◌, ap, sym,
}
use btc_vendor_tools.Std.Binary.{Bytes}
use btc_vendor_tools.Wire.{MsgTx}
use btc_vendor_tools.Btc.{Btc}
use btc_vendor_tools.Utils.ToSign.{ToSignItem}
use btc_vendor_tools.Signer.{clear_scripts, cleared, pk_scripts, sign_input, sign_inputs, get_sigs}

module _ (b : Btc) (redeem : Bytes) where
  -- Each signature is that of its own input.
  abbrev pub IsSigned : MsgTx → List ℕ → List Bytes → List Bytes → Type 0
  IsSigned tx amts scripts sigs =
      (i : ℕ) (pks : Bytes)
      → get_elem? scripts i ≡ some pks
      → (sig : Bytes) × (get_elem? sigs i ≡ some sig) × (sign_input b redeem tx amts i pks ≡ ok sig)

  sign_inputs-ok :
      (tx : MsgTx) (amts : List ℕ) (from : ℕ) (scripts sigs : List Bytes)
      → sign_inputs b redeem tx amts from scripts ≡ ok sigs
      → (length sigs ≡ length scripts)
        × ((i j : ℕ) (pks : Bytes)
            → j ≡ from + i
            → get_elem? scripts i ≡ some pks
            → (sig : Bytes) × (get_elem? sigs i ≡ some sig)
              × (sign_input b redeem tx amts j pks ≡ ok sig))
  unfolding sign_inputs
  sign_inputs-ok tx amts from [] sigs e = (ground arith, λ i j pks same h. cc h)
  sign_inputs-ok tx amts from (p ∷ rest) sigs e =
      let (sig, first, e') = >>=-eq-ok (sign_input b redeem tx amts from p) _ e in
      let (others, next, e'') = >>=-eq-ok (sign_inputs b redeem tx amts (from + 1) rest) _ e' in
      let (size, each) = sign_inputs-ok tx amts (from + 1) rest others next in
      let shape : sig ∷ others ≡ sigs = cc e'' in
      (
        ap length (sym shape) ∙ ap suc size,
        λ i j pks same h. signed sig others sigs first shape each i j pks same h,
      )
    where
      signed :
          (sig : Bytes) (others sigs' : List Bytes)
          → sign_input b redeem tx amts from p ≡ ok sig
          → sig ∷ others ≡ sigs'
          → ((i j : ℕ) (pks : Bytes)
              → j ≡ from + 1 + i
              → get_elem? rest i ≡ some pks
              → (s : Bytes) × (get_elem? others i ≡ some s)
                × (sign_input b redeem tx amts j pks ≡ ok s))
          → (i j : ℕ) (pks : Bytes) → j ≡ from + i
          → get_elem? (p ∷ rest) i ≡ some pks
          → (s : Bytes) × (get_elem? sigs' i ≡ some s) × (sign_input b redeem tx amts j pks ≡ ok s)
      signed sig others sigs' first shape each zero j pks same h =
          let here : j ≡ from = omega arith in
          let input : ◌≡◌ {A = Option Bytes} (some p) (some pks) = h in
          let script : p ≡ pks = cc input in
          (sig, ap (λ xs. get_elem? xs 0) (sym shape), rw (here, ← script) first)
      signed sig others sigs' first shape each (suc i) j pks same h =
          let (s, found, made) = each i j pks (omega arith) h in
          (s, ap (λ xs. get_elem? xs (suc i)) (sym shape) ∙ found, made)

-- If getSigs returns no error there is a signature for each input, made for that input by its
-- script's class over the transaction without scripts. The item has lost its scripts either way.
pub get_sigs-IsSigned :
    (b : Btc) (redeem : Bytes) (item item' : ToSignItem) (sigs : List Bytes)
    → get_sigs b redeem item ≡ (ok sigs, item')
    → (item' ≡ cleared item)
      × (length sigs ≡ length item.mtx.tx_in)
      × IsSigned b redeem (clear_scripts item.mtx) item.amts (pk_scripts item.mtx) sigs
unfolding get_sigs
get_sigs-IsSigned b redeem item item' sigs e =
    let (size, each) =
      sign_inputs-ok b redeem (clear_scripts item.mtx) item.amts 0 (pk_scripts item.mtx) sigs
        (ap (λ p. p.0) e) in
    (
      sym (ap (λ p. p.1) e),
      size ∙ length-map item.mtx.tx_in (λ txin. txin.signature_script),
      λ i pks h. each i i pks (omega arith) h,
    )
