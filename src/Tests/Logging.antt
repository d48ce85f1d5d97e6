-- ===== src/Tests/Logging.antt =====
-- The log at concrete inputs.
use btc_vendor_tools.Base.{
  ℕ, ◌≡◌, ◌≢◌, refl, ap, ◌∙◌, ◌==◌, ==-refl, ==-no, Bool-cases, inl, inr, append-nil, All, arith,
  if◌then◌else◌, true, List, [], ◌∷◌, ◌++◌, none, some, ok,
}
use btc_vendor_tools.Std.Binary.{Bytes}
use btc_vendor_tools.Std.Decimal.{format_uint, parse_uint}
use btc_vendor_tools.Std.Int.{pos}
use btc_vendor_tools.Std.Text.{codes}
use btc_vendor_tools.Log.{behind_prefix}
use btc_vendor_tools.Log.Lines.{
  up_to_blank, get_gid, Place, behind_slash, base, behind_dot, func_name, trace_args,
}
use btc_vendor_tools.Log.Files.{
  absent, Disk, path, opened, invalid, file_open, open_all, init_log, Logger, write_all,
  output_line,
}
use btc_vendor_tools.Log.Reaches.{IsWritable, output_all, texts_from, output_all-Grows}

gid : get_gid (codes "goroutine 42 [running]:") ≡ ok 42
unfolding get_gid behind_prefix up_to_blank parse_uint
gid = refl

abbrev place : Place
place = record {
  name = codes "a/b.com/db.(*VendorDB).Put";
  file = codes "/src/db/db.go";
  line_no = pos 71;
}

args : trace_args place (codes "x" ∷ []) ≡ codes "Put()" ∷ codes "db.go:71" ∷ codes "x" ∷ []
unfolding func_name base behind_slash behind_dot format_uint
args = refl

-- A disk that keeps the writes, where each file has the length of its name as its handle.
abbrev disk : Disk
disk = record {
  State = List (ℕ × Bytes);
  Handle = ℕ;
  stdout = 1;
  discard = 0;
  stat = λ d dir. absent;
  mkdir_all = λ d dir. (true, d);
  open_file = λ d name. (ok 3, d);
  write = λ d h text. (true, d ++ (h, text) ∷ []);
  size = λ d h. ok 5;
  close = λ d h. (ok tt, d);
}

abbrev logger : Logger disk
logger = record { level = pos 2; handles = 1 ∷ 3 ∷ []; log_file = some 3 }

initialised :
    init_log disk (codes "now") (pos 2) (opened 1 ∷ path (codes "./Log/") ∷ []) []
    ≡ some (logger, [])
unfolding init_log open_all file_open
initialised = refl

refused : init_log disk (codes "now") (pos 2) (opened 1 ∷ invalid ∷ []) [] ≡ none
unfolding init_log open_all
refused = refl

written : output_line disk 3 (codes "m") logger [] ≡ (true, (1, codes "m") ∷ (3, codes "m") ∷ [])
unfolding output_line write_all
written = refl

passed_over : output_line disk 1 (codes "m") logger [] ≡ (true, [])
unfolding output_line write_all
passed_over = refl

abbrev texts_of : List (ℕ × Bytes) → ℕ → List Bytes
texts_of [] h = []
texts_of ((j, text) ∷ d) h = let more = texts_of d h in if j == h then text ∷ more else more

texts_of-append :
    (d : List (ℕ × Bytes)) (h j : ℕ) (text : Bytes)
    → texts_of (d ++ (h, text) ∷ []) j ≡ texts_of d j ++ (if h == j then text ∷ [] else [])
texts_of-append [] h j text = refl
texts_of-append ((i, t) ∷ d) h j text = elim (Bool-cases (i == j)) [
  | inl same ↦ rw same (ap (◌∷◌ t) (texts_of-append d h j text))
  | inr other ↦ rw other (texts_of-append d h j text)
]

disk-IsWritable : IsWritable disk
disk-IsWritable = record {
  read = texts_of;
  writes = λ d h text. refl;
  appends = λ d h text. rw (==-refl h) at (texts_of-append d h h text);
  others = λ d h j text away.
      rw (==-no away) at (texts_of-append d h j text) ∙ append-nil (texts_of d j);
}

abbrev msgs : List (ℕ × Bytes)
msgs = (3, codes "w") ∷ (1, codes "d") ∷ (2, codes "i") ∷ []

output_all-Grows_example :
    All
      (λ h.
        disk-IsWritable.read (output_all disk msgs logger []) h
        ≡ disk-IsWritable.read [] h ++ texts_from (pos 2) msgs)
      (1 ∷ 3 ∷ [])
    × ((j : ℕ)
        → All (λ h. h ≢ j) (1 ∷ 3 ∷ [])
        → disk-IsWritable.read (output_all disk msgs logger []) j ≡ disk-IsWritable.read [] j)
output_all-Grows_example =
    output_all-Grows disk disk-IsWritable msgs logger [] (((λ e. omega arith), tt), (tt, tt))
