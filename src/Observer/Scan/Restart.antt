-- ===== src/Observer/Scan/Restart.antt =====
-- observer/alliaob.go: where Listen starts again after a stop.
use mathlib.Core.Path.{subst}
use btc_vendor_tools.Base.{
  ℕ, suc, ◌+◌, ◌≤◌, ◌<◌, ◌^◌, ◌≡◌, ◌⊎◌, refl, sym, ap, ◌∙◌, All, List, Option, some, arith,
}
use btc_vendor_tools.Std.Binary.{Bytes}
use btc_vendor_tools.Wire.{Wire}
use btc_vendor_tools.LevelDb.{LevelDb}
use btc_vendor_tools.Run.{finished, ◌>>=◌, >>=-eq-finished}
use btc_vendor_tools.Observer.Events.{Value, ObConf, ObState}
use btc_vendor_tools.Observer.Height.{get_last_height}
use btc_vendor_tools.Observer.Scan.{Tick, written, ListenState, listen_start, tick, listen}
use btc_vendor_tools.Observer.Scan.Range.{process, successes}
use btc_vendor_tools.Observer.Scan.Heights.{
  Rising, ended, no_height, same, up, tick-none, tick_same, tick_up, record_height-top,
}
use btc_vendor_tools.Observer.Scan.Checkpoint.{
  finished_eq, IsRecorded, listen_start-IsRecorded, tick-IsRecorded,
}

-- The write of the file succeeds, if the tick comes to it.
abbrev pub Writes : Tick → Type 0
Writes t = t.write ≡ written

plus_zero : {a : ℕ} → a ≡ a + 0
plus_zero = omega arith

plus_assoc : (a b c : ℕ) → a + b + c ≡ a + (b + c)
plus_assoc a b c = omega arith

some_eq : {a b : ℕ} → some a ≡ some b → a ≡ b
some_eq e = ground arith

within :
    {top top' h h' : ℕ}
    → top ≡ top'
    → some h ≡ some h'
    → top' ≤ h
    → h < 2 ^ 32
    → (top ≤ h') × (h' < 2 ^ 32)
within p q le small = let r = some_eq q in (omega arith, omega arith)

module _ (w : Wire) (L : LevelDb) (conf : ObConf) (chain : ℕ → List (List Value)) where
  tick_up-top :
      (t : Tick) (s s' : ListenState w L) (j : ℕ)
      → t.height ≡ some (s.top + suc j)
      → suc (s.top + suc j) < 2 ^ 32
      → suc j ≤ successes t.replies
      → tick w L conf chain t s ≡ finished s'
      → s'.top ≡ s.top + suc j
  tick_up-top t s s' j e fits enough ran =
      let ((n, ob), _, ends) =
        >>=-eq-finished (process w L conf chain (suc s.top) (suc j) 0 s.ob) _
          (sym (tick_up w L conf chain t s j e fits enough) ∙ ran) in
      ap (λ r. r.top) (sym (finished_eq ends))
      ∙ record_height-top w L conf chain (s.top + suc j) n t.write ob s

  recorded :
      {top k : ℕ} {ts : List Tick} (s s' : ListenState w L)
      → s.top ≡ top
      → top < 2 ^ 32
      → Rising top ts k
      → All Writes ts
      → IsRecorded w L conf chain s
      → listen w L conf chain ts s ≡ finished s'
      → IsRecorded w L conf chain s' × (s'.top ≡ top + k)
  unfolding listen
  recorded s s' at_top small ended all was e = (
    subst (IsRecorded w L conf chain) (finished_eq e) was,
    ap (λ r. r.top) (sym (finished_eq e)) ∙ at_top ∙ plus_zero,
  )
  recorded s s' at_top small (no_height {t = t} {ts = ts} unknown rest) all was e =
      recorded s s' at_top small rest all.1 was
        (sym (ap (λ r. r >>= listen w L conf chain ts) (tick-none w L conf chain t s unknown)) ∙ e)
  recorded s s' at_top small (same {t = t} {ts = ts} known rest) all was e =
      recorded s s' at_top small rest all.1 was (
        sym (
          ap (λ r. r >>= listen w L conf chain ts)
            (tick_same w L conf chain t s (known ∙ ap some (sym at_top))))
        ∙ e)
  recorded s s' at_top small (up {top = top} {k = k} {t = t} {ts = ts} j known fits enough rest) all
        was e =
      let (s1, ran, e1) = >>=-eq-finished (tick w L conf chain t s) _ e in
      let top1 =
        tick_up-top t s s1 j (rw at_top known) (rw at_top fits) enough ran
        ∙ ap (λ m. m + suc j) at_top in
      let was1 =
        tick-IsRecorded w L conf chain t s s1 was all.0
          (λ h is. within at_top (sym known ∙ is) (omega arith) (omega arith)) ran in
      let (done, top') = recorded s1 s' top1 (omega arith) rest all.1 was1 e1 in
      (done, top' ∙ plus_assoc top (suc j) k)

-- If Listen starts without a start height set, and runs over ticks whose heights never fall, whose
-- calls for events succeed often enough and whose writes of the file succeed, then it has taken all
-- their heights, and a Listen that starts again from the file goes on at the height reached or
-- before it, by less than the waiting circle.
pub listen_restart :
    (w : Wire) (L : LevelDb) (conf : ObConf) (chain : ℕ → List (List Value)) (file : Option Bytes)
    (ob ob' : ObState w L) (ts : List Tick) (k : ℕ) (s' : ListenState w L)
    → conf.start_height ≡ 0
    → get_last_height file < 2 ^ 32
    → Rising (get_last_height file) ts k
    → All Writes ts
    → listen w L conf chain ts (listen_start w L conf chain file ob) ≡ finished s'
    → (s'.top ≡ get_last_height file + k)
      × ((listen_start w L conf chain s'.file ob').top ≤ s'.top)
      × ((s'.top ≡ (listen_start w L conf chain s'.file ob').top)
          ⊎ (s'.top < (listen_start w L conf chain s'.file ob').top + conf.waiting_circle))
unfolding listen_start
listen_restart w L conf chain file ob ob' ts k s' unset small rises all e =
    let start = listen_start w L conf chain file ob in
    let (was, top) =
      recorded w L conf chain start s' (rw unset refl) small rises all
        (listen_start-IsRecorded w L conf chain file ob unset) e in
    (top, rw (unset, was.in_file) was.behind, rw (unset, was.in_file) was.near)
