-- ===== src/Observer/Scan/Heights.antt =====
-- observer/alliaob.go: the heights that the ticks of Listen take, one tick after another.
use btc_vendor_tools.Base.{
  ℕ, zero, suc, ◌+◌, ◌-◌, ◌%◌, ◌^◌, ◌≤◌, ◌<◌, ◌≡◌, refl, sym, ap, ◌∙◌, true, false, ◌||◌,
  Bool-cases, List, [], ◌∷◌, none, some, ltb, leb, ◌==◌, ==-no, inl, inr, arith,
}
use btc_vendor_tools.Wire.{Wire}
use btc_vendor_tools.LevelDb.{LevelDb}
use btc_vendor_tools.Run.{Run, finished, ◌>>=◌, bind_cong, bind_assoc}
use btc_vendor_tools.Observer.Events.{Value, ObConf, ObState, check_events}
use btc_vendor_tools.Observer.Scan.{Tick, Write, ListenState, record_height, tick, listen}
use btc_vendor_tools.Observer.Scan.Range.{successes, process, scan-eq-process}

-- Ticks whose heights never fall, from a top on, over a number of heights in all; in each tick
-- enough calls for events succeed.
pub data Rising : ℕ → List Tick → ℕ → Type 0 where
  ended : {top : ℕ} → Rising top [] 0
  no_height :
      {top k : ℕ} {t : Tick} {ts : List Tick}
      → t.height ≡ none
      → Rising top ts k
      → Rising top (t ∷ ts) k
  same :
      {top k : ℕ} {t : Tick} {ts : List Tick}
      → t.height ≡ some top
      → Rising top ts k
      → Rising top (t ∷ ts) k
  up :
      {top k : ℕ} {t : Tick} {ts : List Tick} (j : ℕ)
      → t.height ≡ some (top + suc j)
      → suc (top + suc j) < 2 ^ 32
      → suc j ≤ successes t.replies
      → Rising (top + suc j) ts k
      → Rising top (t ∷ ts) (suc j + k)

zero_out : (k : ℕ) → 0 + k ≡ k
zero_out k = omega arith

zero_in : (h : ℕ) → h ≡ h + 0
zero_in h = omega arith

suc_out : (j k : ℕ) → suc j + k ≡ suc (j + k)
suc_out j k = omega arith

suc_in : (h j : ℕ) → suc h + j ≡ h + suc j
suc_in h j = omega arith

no_gap : (top : ℕ) → ((top + 2 ^ 32 - top) % 2 ^ 32 == 0) ≡ true
no_gap top = ground arith

gap :
    (top j : ℕ) → suc (top + suc j) < 2 ^ 32 → ((top + suc j + 2 ^ 32 - top) % 2 ^ 32 == 0) ≡ false
gap top j fits = ==-no (omega arith)

next_height : (top j : ℕ) → suc (top + suc j) < 2 ^ 32 → (top + 1) % 2 ^ 32 ≡ suc top
next_height top j fits = omega arith

sum_in : (a j : ℕ) → suc (a + suc j) ≡ suc a + suc j
sum_in a j = omega arith

sum_assoc : (a j k : ℕ) → a + suc j + k ≡ a + (suc j + k)
sum_assoc a j k = omega arith

module _ (w : Wire) (L : LevelDb) (conf : ObConf) (chain : ℕ → List (List Value)) where
  -- checkEvents on the events of `count` heights from h on, each height once and in order.
  unfoldable pub handle : ℕ → ℕ → ObState w L → Run (ObState w L)
  handle h zero st = finished st
  handle h (suc count) st = do
    (_, st') ← check_events w L conf (chain h) st
    handle (suc h) count st'

  process-handle :
      {B : Type 0} (count h n : ℕ) (st : ObState w L) (f : ObState w L → Run B)
      → (process w L conf chain h count n st >>= (λ (_, st'). f st')) ≡ (handle h count st >>= f)
  unfolding process handle
  process-handle zero h n st f = refl
  process-handle (suc count) h n st f =
      bind_assoc (check_events w L conf (chain h) st) _ _
      ∙ bind_cong (check_events w L conf (chain h) st) _ _
          (λ (c, st'). process-handle count (suc h) (n + c) st' f)
      ∙ sym (bind_assoc (check_events w L conf (chain h) st) _ f)

  handle-add :
      (j k h : ℕ) (st : ObState w L)
      → handle h (j + k) st ≡ (handle h j st >>= (λ st'. handle (h + j) k st'))
  unfolding handle
  handle-add zero k h st =
      ap (λ m. handle h m st) (zero_out k) ∙ ap (λ m. handle m k st) (zero_in h)
  handle-add (suc j) k h st =
      ap (λ m. handle h m st) (suc_out j k)
      ∙ bind_cong (check_events w L conf (chain h) st) _ _ (λ (c, st1).
        handle-add j k (suc h) st1
        ∙ bind_cong (handle (suc h) j st1) _ _ (λ st2. ap (λ m. handle m k st2) (suc_in h j)))
      ∙ sym (bind_assoc (check_events w L conf (chain h) st) _ _)

  pub tick-none :
      (t : Tick) (s : ListenState w L) → t.height ≡ none → tick w L conf chain t s ≡ finished s
  unfolding tick
  tick-none t s e = rw (e) refl

  pub tick_same :
      (t : Tick) (s : ListenState w L)
      → t.height ≡ some s.top
      → tick w L conf chain t s ≡ finished s
  unfolding tick
  tick_same t s e = rw (e, no_gap s.top) refl

  pub tick_up :
      (t : Tick) (s : ListenState w L) (j : ℕ)
      → t.height ≡ some (s.top + suc j)
      → suc (s.top + suc j) < 2 ^ 32
      → suc j ≤ successes t.replies
      → tick w L conf chain t s ≡ (
          process w L conf chain (suc s.top) (suc j) 0 s.ob
          >>= (λ (n, ob). finished (record_height w L conf chain (s.top + suc j) n t.write ob s)))
  unfolding tick
  tick_up t s j e fits enough =
      rw
        (
          e,
          gap s.top j fits,
          next_height s.top j fits,
          scan-eq-process w L conf chain t.replies (suc s.top) (suc j) (s.top + suc j) 0 s.ob
              (omega arith) fits enough,
        )
        refl

  pub record_height-top :
      (new_top n : ℕ) (write : Write) (ob : ObState w L) (s : ListenState w L)
      → (record_height w L conf chain new_top n write ob s).top ≡ new_top
  unfolding record_height
  record_height-top new_top n write ob s =
      elim (Bool-cases
        (ltb 0 n || leb conf.waiting_circle ((new_top + 2 ^ 32 - s.last_recorded) % 2 ^ 32))) [
          | inl met ↦ rw met refl
          | inr not_yet ↦ rw not_yet refl
        ]

  pub record_height-ob :
      (new_top n : ℕ) (write : Write) (ob : ObState w L) (s : ListenState w L)
      → (record_height w L conf chain new_top n write ob s).ob ≡ ob
  unfolding record_height
  record_height-ob new_top n write ob s =
      elim (Bool-cases
        (ltb 0 n || leb conf.waiting_circle ((new_top + 2 ^ 32 - s.last_recorded) % 2 ^ 32))) [
          | inl met ↦ rw met refl
          | inr not_yet ↦ rw not_yet refl
        ]

  -- What a run of Listen leaves that its later ticks go on from.
  abbrev pub reached : ListenState w L → Run (ℕ × ObState w L)
  reached s = finished (s.top, s.ob)

  pub rising :
      {top k : ℕ} {ts : List Tick} (s : ListenState w L)
      → s.top ≡ top
      → Rising top ts k
      → (listen w L conf chain ts s >>= reached)
        ≡ (handle (suc s.top) k s.ob >>= (λ ob. finished (s.top + k, ob)))
  unfolding listen handle
  rising s at_top ended = ap (λ m. finished (m, s.ob)) (zero_in s.top)
  rising s at_top (no_height {t = t} {ts = ts} e rest) =
      ap (λ r. (r >>= listen w L conf chain ts) >>= reached) (tick-none t s e)
      ∙ rising s at_top rest
  rising s at_top (same {t = t} {ts = ts} e rest) =
      ap (λ r. (r >>= listen w L conf chain ts) >>= reached)
        (tick_same t s (e ∙ ap some (sym at_top)))
      ∙ rising s at_top rest
  rising s at_top (up {k = k} {t = t} {ts = ts} j e fits enough rest) =
      let read = process w L conf chain (suc s.top) (suc j) 0 s.ob in
      let after : ℕ → ObState w L → ListenState w L =
        (λ n ob. record_height w L conf chain (s.top + suc j) n t.write ob s) in
      let then_ : ObState w L → Run (ℕ × ObState w L) =
        (λ ob. handle (suc s.top + suc j) k ob >>= (λ o. finished (s.top + (suc j + k), o))) in
      ap (λ r. (r >>= listen w L conf chain ts) >>= reached)
        (tick_up t s j (rw at_top e) (rw at_top fits) enough)
      ∙ bind_assoc (read >>= (λ (n, ob). finished (after n ob))) (listen w L conf chain ts) reached
      ∙ bind_assoc read (λ (n, ob). finished (after n ob)) _
      ∙ bind_cong read _ (λ (n, ob). then_ ob)
          (λ (n, ob).
            rising (after n ob)
              (record_height-top (s.top + suc j) n t.write ob s ∙ ap (λ m. m + suc j) at_top) rest
            ∙ ap (λ m. handle (suc m) k (after n ob).ob >>= (λ o. finished (m + k, o)))
                (record_height-top (s.top + suc j) n t.write ob s)
            ∙ ap (λ m. handle m k (after n ob).ob >>= (λ o. finished (s.top + suc j + k, o)))
                (sum_in s.top j)
            ∙ ap (λ m. handle (suc s.top + suc j) k (after n ob).ob >>= (λ o. finished (m, o)))
                (sum_assoc s.top j k)
            ∙ ap then_ (record_height-ob (s.top + suc j) n t.write ob s))
      ∙ process-handle (suc j) (suc s.top) 0 s.ob then_
      ∙ sym (
          ap (λ r. r >>= (λ o. finished (s.top + (suc j + k), o)))
            (handle-add (suc j) k (suc s.top) s.ob)
          ∙ bind_assoc (handle (suc s.top) (suc j) s.ob) _ _)

-- Over ticks whose heights never fall, stay below 2 ^ 32 - 1, and whose calls for events succeed
-- often enough, Listen takes each height from the one after its top to the last one once and in
-- order, whatever calls fail in between, and its top ends at the last height; it finishes, panics
-- or waits as those calls of checkEvents do.
pub listen-handle :
    (w : Wire) (L : LevelDb) (conf : ObConf) (chain : ℕ → List (List Value)) (k : ℕ)
    (ts : List Tick) (s : ListenState w L)
    → Rising s.top ts k
    → (listen w L conf chain ts s >>= reached w L conf chain)
      ≡ (handle w L conf chain (suc s.top) k s.ob >>= (λ ob. finished (s.top + k, ob)))
listen-handle w L conf chain k ts s rises = rising w L conf chain s refl rises
