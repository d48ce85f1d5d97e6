-- ===== src/Log/Reaches.antt =====
-- log/log.go: which messages reach the places that a Logger writes to.
use mathlib.Core.Path.{subst}
use btc_vendor_tools.Base.{
  ℕ, ◌≡◌, ◌≢◌, refl, ap, sym, ◌∙◌, inl, inr, Bool, true, Bool-cases, List, [], ◌∷◌, ◌++◌,
  append-nil, append_assoc, All, if◌then◌else◌,
}
use btc_vendor_tools.Std.Binary.{Bytes}
use btc_vendor_tools.Std.Int.{ℤ}
use btc_vendor_tools.Log.{at_least}
use btc_vendor_tools.Log.Files.{Disk, Logger, write_all, output_line}

-- A disk on which writes succeed, with what has been written to a handle.
pub record IsWritable (D : Disk) : Type 0 where
  pub read : D.State → D.Handle → List Bytes
  pub writes : (d : D.State) (h : D.Handle) (text : Bytes) → (D.write d h text).0 ≡ true
  pub appends :
      (d : D.State) (h : D.Handle) (text : Bytes)
      → read (D.write d h text).1 h ≡ read d h ++ text ∷ []
  pub others :
      (d : D.State) (h j : D.Handle) (text : Bytes) → h ≢ j → read (D.write d h text).1 j ≡ read d j

-- The messages of a run, each with its level, over the state of the disk.
unfoldable pub output_all : (D : Disk) → List (ℕ × Bytes) → Logger D → D.State → D.State
output_all D [] l d = d
output_all D ((level, text) ∷ rest) l d = output_all D rest l (output_line D level text l d).1

-- The texts of the messages of at least a level.
abbrev pub texts_from : ℤ → List (ℕ × Bytes) → List Bytes
texts_from least [] = []
texts_from least ((level, text) ∷ rest) =
    let more = texts_from least rest in if at_least level least then text ∷ more else more

-- Handles of different files.
abbrev pub Differ : {H : Type 0} → List H → Type 0
Differ [] = Unit {0}
Differ (h ∷ hs) = All (λ j. h ≢ j) hs × Differ hs

module _ (D : Disk) (disk : IsWritable D) where
  -- What was written to a handle grows by these texts.
  abbrev Grows : D.State → D.State → List Bytes → D.Handle → Type 0
  Grows d d' texts h = disk.read d' h ≡ disk.read d h ++ texts

  untouched :
      (hs : List D.Handle) (text : Bytes) (d : D.State) (j : D.Handle)
      → All (λ h. h ≢ j) hs
      → disk.read (write_all D hs text d).1 j ≡ disk.read d j
  unfolding write_all
  untouched [] text d j away = refl
  untouched (h ∷ hs) text d j away =
      rw (disk.writes d h text)
        (untouched hs text (D.write d h text).1 j away.1 ∙ disk.others d h j text away.0)

  All-symmetric : (h : D.Handle) (hs : List D.Handle) → All (λ j. h ≢ j) hs → All (λ j. j ≢ h) hs
  All-symmetric h [] a = tt
  All-symmetric h (j ∷ hs) a = ((λ e. a.0 (sym e)), All-symmetric h hs a.1)

  All-of : (P : D.Handle → Type 0) (hs : List D.Handle) → ((h : D.Handle) → P h) → All P hs
  All-of P [] f = tt
  All-of P (h ∷ hs) f = (f h, All-of P hs f)

  All-onto :
      (P Q : D.Handle → Type 0) (R : D.Handle → Type 0) (hs : List D.Handle)
      → ((h : D.Handle) → R h → P h → Q h)
      → All R hs
      → All P hs
      → All Q hs
  All-onto P Q R [] f r a = tt
  All-onto P Q R (h ∷ hs) f r a = (f h r.0 a.0, All-onto P Q R hs f r.1 a.1)

  write_all-first :
      (h : D.Handle) (hs : List D.Handle) (text : Bytes) (d : D.State)
      → write_all D (h ∷ hs) text d ≡ write_all D hs text (D.write d h text).1
  unfolding write_all
  write_all-first h hs text d = rw (disk.writes d h text) refl

  write_all-Grows :
      (hs : List D.Handle) (text : Bytes) (d : D.State)
      → Differ hs
      → All (Grows d (write_all D hs text d).1 (text ∷ [])) hs
  write_all-Grows [] text d differ = tt
  write_all-Grows (h ∷ hs) text d differ =
      let d1 = (D.write d h text).1 in
      subst (λ (p : Bool × D.State). All (Grows d p.1 (text ∷ [])) (h ∷ hs))
        (sym (write_all-first h hs text d))
        (
          untouched hs text d1 h (All-symmetric h hs differ.0) ∙ disk.appends d h text,
          All-onto (Grows d1 (write_all D hs text d1).1 (text ∷ []))
              (Grows d (write_all D hs text d1).1 (text ∷ [])) (λ j. h ≢ j) hs
              (λ j away grows. grows ∙ ap (λ t. t ++ text ∷ []) (disk.others d h j text away))
              differ.0 (write_all-Grows hs text d1 differ.1),
        )

  -- A state of the disk after a line at one level, and after the lines of a run.
  Reached : Logger D → List (ℕ × Bytes) → D.State → D.State → Type 0
  Reached l msgs d d' =
      All (Grows d d' (texts_from l.level msgs)) l.handles
      × ((j : D.Handle) → All (λ h. h ≢ j) l.handles → disk.read d' j ≡ disk.read d j)

  output_all-Reached :
      (msgs : List (ℕ × Bytes)) (l : Logger D) (d : D.State)
      → Differ l.handles
      → Reached l msgs d (output_all D msgs l d)
  unfolding output_all output_line Reached
  output_all-Reached [] l d differ =
      (All-of (Grows d d []) l.handles (λ h. sym (append-nil (disk.read d h))), λ j away. refl)
  output_all-Reached ((level, text) ∷ rest) l d differ =
      elim (Bool-cases (at_least level l.level)) [
        | inr below ↦ rw below (output_all-Reached rest l d differ)
        | inl high ↦
            let d1 = (write_all D l.handles text d).1 in
            let (later, away) = output_all-Reached rest l d1 differ in
            rw high (
              All-onto (Grows d1 (output_all D rest l d1) (texts_from l.level rest))
                  (Grows d (output_all D rest l d1) (text ∷ texts_from l.level rest))
                  (Grows d d1 (text ∷ [])) l.handles
                  (λ h first grows.
                    grows
                    ∙ ap (λ t. t ++ texts_from l.level rest) first
                    ∙ append_assoc (disk.read d h) (text ∷ []) (texts_from l.level rest))
                  (write_all-Grows l.handles text d differ) later,
              λ j off. away j off ∙ untouched l.handles text d j off,
            )
      ]

-- On a disk on which writes succeed, a Logger whose writers are different files writes, over any messages
-- each of its level, to every one of them the texts of the messages whose level is at least that
-- of the Logger, in their order and behind what was written before, and nothing to other files.
pub output_all-Grows :
    (D : Disk) (disk : IsWritable D) (msgs : List (ℕ × Bytes)) (l : Logger D) (d : D.State)
    → Differ l.handles
    → All
        (λ h. disk.read (output_all D msgs l d) h ≡ disk.read d h ++ texts_from l.level msgs)
        l.handles
      × ((j : D.Handle)
          → All (λ h. h ≢ j) l.handles
          → disk.read (output_all D msgs l d) j ≡ disk.read d j)
unfolding Reached
output_all-Grows D disk msgs l d differ = output_all-Reached D disk msgs l d differ
