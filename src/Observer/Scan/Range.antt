-- ===== src/Observer/Scan/Range.antt =====
-- observer/alliaob.go: the loop of Listen over the heights of a tick.
use btc_vendor_tools.Base.{
  ℕ, zero, suc, ◌+◌, ◌%◌, ◌^◌, ◌≤◌, ◌<◌, ◌≡◌, refl, ap, ◌∙◌, Bool, true, false, List, [], ◌∷◌,
  ltb-yes, ltb-no, arith,
}
use btc_vendor_tools.Wire.{Wire}
use btc_vendor_tools.LevelDb.{LevelDb}
use btc_vendor_tools.Run.{Run, finished, ◌>>=◌, bind_cong}
use btc_vendor_tools.Observer.Events.{Value, ObConf, ObState, check_events}
use btc_vendor_tools.Observer.Scan.{scan}

-- How many calls of a list succeed.
abbrev pub successes : List Bool → ℕ
successes [] = 0
successes (true ∷ rest) = suc (successes rest)
successes (false ∷ rest) = successes rest

module _ (w : Wire) (L : LevelDb) (conf : ObConf) (chain : ℕ → List (List Value)) where
  -- The events of `count` heights from h on, each height once and in order.
  unfoldable pub process : ℕ → ℕ → ℕ → ObState w L → Run (ℕ × ObState w L)
  process h zero n st = finished (n, st)
  process h (suc count) n st = do
    (c, st') ← check_events w L conf (chain h) st
    process (suc h) count (n + c) st'

  next : (h : ℕ) → suc h < 2 ^ 32 → (h + 1) % 2 ^ 32 ≡ suc h
  next h fits = omega arith

  pub scan_past :
      (h new_top n : ℕ) (replies : List Bool) (st : ObState w L)
      → new_top < h
      → scan w L conf chain h new_top replies n st ≡ finished (n, st)
  unfolding scan
  scan_past h new_top n [] st lt = rw (ltb-yes lt) refl
  scan_past h new_top n (true ∷ rest) st lt = rw (ltb-yes lt) refl
  scan_past h new_top n (false ∷ rest) st lt = rw (ltb-yes lt) refl

  -- As long as the height fits below 2 ^ 32 - 1 and enough calls succeed, the loop takes each
  -- height up to the new one, whatever calls fail in between.
  pub scan-eq-process :
      (replies : List Bool) (h count new_top n : ℕ) (st : ObState w L)
      → h + count ≡ suc new_top
      → suc new_top < 2 ^ 32
      → count ≤ successes replies
      → scan w L conf chain h new_top replies n st ≡ process h count n st
  unfolding scan process
  scan-eq-process [] h zero new_top n st last fits enough =
      rw (ltb-yes {a = new_top} {b = h} (omega arith)) refl
  scan-eq-process [] h (suc count) new_top n st last fits enough = ground arith
  scan-eq-process (b ∷ rest) h zero new_top n st last fits enough =
      scan_past h new_top n (b ∷ rest) st (omega arith)
  scan-eq-process (true ∷ rest) h (suc count) new_top n st last fits enough =
      rw (ltb-no {a = new_top} {b = h} (omega arith)) (
        bind_cong (check_events w L conf (chain h) st) _ _ (λ (c, st').
          ap (λ k. scan w L conf chain k new_top rest (n + c) st') (next h (omega arith))
          ∙ scan-eq-process rest (suc h) count new_top (n + c) st' (omega arith) fits
              (omega arith)))
  scan-eq-process (false ∷ rest) h (suc count) new_top n st last fits enough =
      rw (ltb-no {a = new_top} {b = h} (omega arith))
        (scan-eq-process rest h (suc count) new_top n st last fits enough)
