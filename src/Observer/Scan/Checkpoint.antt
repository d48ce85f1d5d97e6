-- ===== src/Observer/Scan/Checkpoint.antt =====
-- observer/alliaob.go: what the file last_height keeps of the ticks of Listen, and what a height
-- below the top does.
use mathlib.Core.Path.{subst}
use btc_vendor_tools.Base.{
  ℕ, suc, ◌+◌, ◌-◌, ◌%◌, ◌^◌, ◌≤◌, ◌<◌, ◌≡◌, ◌⊎◌, refl, sym, ap, ◌∙◌, Bool, false, ◌||◌, Bool-cases,
  Option-cases, List, ◌∷◌, Option, some, ltb, leb, ◌==◌, ==-no, if_cases, inl, inr, arith,
}
use btc_vendor_tools.Std.Binary.{Bytes}
use btc_vendor_tools.Wire.{Wire}
use btc_vendor_tools.LevelDb.{LevelDb}
use btc_vendor_tools.Run.{finished, ◌>>=◌, >>=-eq-finished}
use btc_vendor_tools.Observer.Events.{Value, ObConf, ObState}
use btc_vendor_tools.Observer.Height.{get_last_height, get_last_height-last_height_file}
use btc_vendor_tools.Observer.Scan.{
  Tick, written, ListenState, listen_start, scan, record_height, tick_to, tick, listen,
}
use btc_vendor_tools.Observer.Scan.Range.{scan_past}
use btc_vendor_tools.Observer.Scan.Heights.{
  Rising, handle, reached, rising, tick-none, record_height-top, record_height-ob,
}

pub finished_eq {ℓ} : {A : Type ℓ} {a b : A} → finished a ≡ finished b → a ≡ b
finished_eq e = ground arith

not_reached : (b : Bool) (circle gap : ℕ) → (b || leb circle gap) ≡ false → gap < circle
not_reached b circle gap e = ground arith

not_far :
    (h last circle : ℕ)
    → last ≤ h
    → h < 2 ^ 32
    → (h + 2 ^ 32 - last) % 2 ^ 32 < circle
    → h < last + circle
not_far h last circle le small below = omega arith

no_excess : (h : ℕ) → h ≤ h
no_excess h = omega arith

le_trans : {a b c : ℕ} → a ≤ b → b ≤ c → a ≤ c
le_trans p q = omega arith

some_gap :
    (low top : ℕ) → low < top → suc top < 2 ^ 32 → ((low + 2 ^ 32 - top) % 2 ^ 32 == 0) ≡ false
some_gap low top lt small = ==-no (omega arith)

after_top : (low top : ℕ) → low < top → suc top < 2 ^ 32 → low < (top + 1) % 2 ^ 32
after_top low top lt small = omega arith

module _ (w : Wire) (L : LevelDb) (conf : ObConf) (chain : ℕ → List (List Value)) where
  -- A restart from the file goes back to the height last recorded, by less than the waiting circle.
  pub record IsRecorded (s : ListenState w L) : Type 0 where
    pub in_file : get_last_height s.file ≡ s.last_recorded
    pub behind : s.last_recorded ≤ s.top
    pub near : (s.top ≡ s.last_recorded) ⊎ (s.top < s.last_recorded + conf.waiting_circle)

  due : ℕ → ℕ → ListenState w L → Bool
  due h n s = ltb 0 n || leb conf.waiting_circle ((h + 2 ^ 32 - s.last_recorded) % 2 ^ 32)

  not_due-near :
      (h n : ℕ) (s : ListenState w L)
      → s.last_recorded ≤ h
      → h < 2 ^ 32
      → due h n s ≡ false
      → h < s.last_recorded + conf.waiting_circle
  unfolding due
  not_due-near h n s le small e =
      let below =
        not_reached (ltb 0 n) conf.waiting_circle ((h + 2 ^ 32 - s.last_recorded) % 2 ^ 32) e in
      not_far h s.last_recorded conf.waiting_circle le small below

  record_height-IsRecorded :
      (h n : ℕ) (ob : ObState w L) (s : ListenState w L)
      → IsRecorded s
      → s.top ≤ h
      → h < 2 ^ 32
      → IsRecorded (record_height w L conf chain h n written ob s)
  unfolding record_height due
  record_height-IsRecorded h n ob s was le small = elim (Bool-cases (due h n s)) [
    | inl met ↦ rw met (record {
      in_file = get_last_height-last_height_file h small;
      behind = no_excess h;
      near = inl refl;
    })
    | inr unmet ↦ rw unmet (record {
      in_file = was.in_file;
      behind = le_trans was.behind le;
      near = inr (not_due-near h n s (le_trans was.behind le) small unmet);
    })
  ]

  tick_lower :
      (low : ℕ) (t : Tick) (s : ListenState w L)
      → t.height ≡ some low
      → low < s.top
      → suc s.top < 2 ^ 32
      → tick w L conf chain t s ≡ finished (record_height w L conf chain low 0 t.write s.ob s)
  unfolding tick
  tick_lower low t s e lt small =
      rw
        (
          e,
          some_gap low s.top lt small,
          scan_past w L conf chain ((s.top + 1) % 2 ^ 32) low 0 t.replies s.ob
              (after_top low s.top lt small),
        )
        refl

  tick_to-IsRecorded :
      (h : ℕ) (t : Tick) (s s' : ListenState w L)
      → IsRecorded s
      → t.write ≡ written
      → s.top ≤ h
      → h < 2 ^ 32
      → tick_to w L conf chain h t s ≡ finished s'
      → IsRecorded s'
  tick_to-IsRecorded h t s s' was wrote le small e =
      elim (if_cases ((h + 2 ^ 32 - s.top) % 2 ^ 32 == 0) e) [
        | inl (_, stays) ↦ subst IsRecorded (finished_eq stays) was
        | inr (_, runs) ↦
            let ((n, ob), _, ends) =
              >>=-eq-finished (scan w L conf chain ((s.top + 1) % 2 ^ 32) h t.replies 0 s.ob) _
                runs in
            subst IsRecorded
              (ap (λ o. record_height w L conf chain h n o ob s) (sym wrote) ∙ finished_eq ends)
              (record_height-IsRecorded h n ob s was le small)
      ]

-- Listen starts, without a start height set, at the height that the file records.
pub listen_start-IsRecorded :
    (w : Wire) (L : LevelDb) (conf : ObConf) (chain : ℕ → List (List Value)) (file : Option Bytes)
    (ob : ObState w L)
    → conf.start_height ≡ 0
    → IsRecorded w L conf chain (listen_start w L conf chain file ob)
unfolding listen_start
listen_start-IsRecorded w L conf chain file ob unset =
    rw unset (record { in_file = refl; behind = no_excess (get_last_height file); near = inl refl })

-- A tick whose height is not below the top, and whose write of the file succeeds if it comes to
-- one, keeps this: the file reads as the height last recorded, which is the top or lies behind it
-- by less than the waiting circle.
pub tick-IsRecorded :
    (w : Wire) (L : LevelDb) (conf : ObConf) (chain : ℕ → List (List Value)) (t : Tick)
    (s s' : ListenState w L)
    → IsRecorded w L conf chain s
    → t.write ≡ written
    → ((h : ℕ) → t.height ≡ some h → (s.top ≤ h) × (h < 2 ^ 32))
    → tick w L conf chain t s ≡ finished s'
    → IsRecorded w L conf chain s'
unfolding tick
tick-IsRecorded w L conf chain t s s' was wrote up e = elim (Option-cases t.height) [
  | inl unknown ↦
      subst (IsRecorded w L conf chain)
        (finished_eq (sym (tick-none w L conf chain t s unknown) ∙ e)) was
  | inr (h, known) ↦
      let (le, small) = up h known in
      tick_to-IsRecorded w L conf chain h t s s' was wrote le small (rw known at e)
]

-- A height below the top, which the test `newTop-top <= 0` on uint32 lets through, takes no events
-- and moves the top back to it; when the heights then rise, those between it and the old top are
-- taken a second time.
pub listen_lower :
    (w : Wire) (L : LevelDb) (conf : ObConf) (chain : ℕ → List (List Value)) (low k : ℕ) (t : Tick)
    (ts : List Tick) (s : ListenState w L)
    → t.height ≡ some low
    → low < s.top
    → suc s.top < 2 ^ 32
    → Rising low ts k
    → (listen w L conf chain (t ∷ ts) s >>= reached w L conf chain)
      ≡ (handle w L conf chain (suc low) k s.ob >>= (λ ob. finished (low + k, ob)))
unfolding listen
listen_lower w L conf chain low k t ts s e lt small rises =
    let back = record_height w L conf chain low 0 t.write s.ob s in
    ap (λ r. (r >>= listen w L conf chain ts) >>= reached w L conf chain)
      (tick_lower w L conf chain low t s e lt small)
    ∙ rising w L conf chain back (record_height-top w L conf chain low 0 t.write s.ob s) rises
    ∙ ap (λ m. handle w L conf chain (suc m) k back.ob >>= (λ o. finished (m + k, o)))
        (record_height-top w L conf chain low 0 t.write s.ob s)
    ∙ ap (λ b. handle w L conf chain (suc low) k b >>= (λ o. finished (low + k, o)))
        (record_height-ob w L conf chain low 0 t.write s.ob s)
