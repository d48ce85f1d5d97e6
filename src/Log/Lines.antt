-- ===== src/Log/Lines.antt =====
-- log/log.go: the lines that Output and Outputf write, and what the functions of the package put
-- before a message. The stack of the goroutine and the place of a call come from the runtime.
use btc_vendor_tools.Base.{
  ℕ, ◌^◌, ◌-◌, ◌≡◌, ◌==◌, ◌++◌, append_assoc, List, [], ◌∷◌, Option, none, some, if◌then◌else◌,
  out_of_range, Result, ok, err, panic, ◌>>=◌,
}
use btc_vendor_tools.Std.Binary.{Bytes}
use btc_vendor_tools.Std.Decimal.{format_uint, parse_uint}
use btc_vendor_tools.Std.Int.{ℤ, format_int}
use btc_vendor_tools.Std.Text.{codes}
use btc_vendor_tools.Log.{behind_prefix, level_name}

abbrev or_whole : Bytes → Option Bytes → Bytes
or_whole s none = s
or_whole s (some rest) = rest

-- `b[:bytes.IndexByte(b, ' ')]`, a panic where there is no blank.
unfoldable pub up_to_blank : Bytes → Result Bytes
up_to_blank [] = panic
up_to_blank (c ∷ cs) =
    let later = (do word ← up_to_blank cs; ok (c ∷ word)) in if c == b' ' then ok [] else later

-- What strconv.ParseUint returns beside its error.
abbrev parsed : Result ℕ → Result ℕ
parsed (ok n) = ok n
parsed (err out_of_range) = ok (2 ^ 64 - 1)
parsed (err _) = ok 0
parsed panic = panic

abbrev parse_word : Result Bytes → Result ℕ
parse_word (ok word) = parsed (parse_uint 64 word)
parse_word (err e) = err e
parse_word panic = panic

-- GetGID, of the text that runtime.Stack gives.
unfoldable pub get_gid : Bytes → Result ℕ
unfolding behind_prefix up_to_blank
get_gid stack = parse_word (up_to_blank (or_whole stack (behind_prefix (codes "goroutine ") stack)))

-- fmt.Sprintln of texts.
unfoldable pub sprintln : List Bytes → Bytes
sprintln [] = b'\n' ∷ []
sprintln (s ∷ []) = s ++ b'\n' ∷ []
sprintln (s ∷ t ∷ rest) = s ++ b' ' ∷ sprintln (t ∷ rest)

-- The text of Output.
unfoldable pub line : ℤ → (gid : ℕ) → List Bytes → Bytes
unfolding sprintln level_name
line level gid args =
    sprintln (level_name level ∷ codes "GID" ∷ (format_uint gid ++ codes ",") ∷ args)

-- The text of Outputf, `"%s %s %d, "+format+"\n"`, with what Sprintf makes of the format.
unfoldable pub linef : ℤ → (gid : ℕ) → Bytes → Bytes
unfolding level_name
linef level gid formatted =
    level_name level ++ codes " GID " ++ format_uint gid ++ codes ", " ++ formatted ++ b'\n' ∷ []

-- A message of one text has the same line by Output as by Outputf.
pub line-linef :
    (level : ℤ) (gid : ℕ) (msg : Bytes) → line level gid (msg ∷ []) ≡ linef level gid msg
unfolding line linef sprintln
line-linef level gid msg = simp append_assoc

-- `filepath.Base` of the path of a source file: what stands behind the last slash; such a path is not
-- empty and does not end in one.
abbrev base_of : ℕ → Bytes → Option Bytes → Option Bytes
base_of c cs (some base) = some base
base_of c cs none = if c == b'/' then some cs else none

unfoldable pub behind_slash : Bytes → Option Bytes
behind_slash [] = none
behind_slash (c ∷ cs) = base_of c cs (behind_slash cs)

unfoldable pub base : Bytes → Bytes
unfolding behind_slash
base path = or_whole path (behind_slash path)

-- `strings.TrimPrefix(filepath.Ext(name), ".")`: what stands behind the last dot of the last element,
-- or nothing.
abbrev ext_of : ℕ → Bytes → Option Bytes → Option Bytes
ext_of c cs (some ext) = some ext
ext_of c cs none = if c == b'.' then some cs else none

unfoldable pub behind_dot : Bytes → Option Bytes
behind_dot [] = none
behind_dot (c ∷ cs) = ext_of c cs (behind_dot cs)

abbrev or_empty : Option Bytes → Bytes
or_empty none = []
or_empty (some s) = s

unfoldable pub func_name : Bytes → Bytes
unfolding base behind_dot
func_name name_full = or_empty (behind_dot (base name_full))

-- The function, the file and the line of a call.
pub record Place : Type 0 where
  pub name : Bytes
  pub file : Bytes
  pub line_no : ℤ

abbrev pub file_line : Place → Bytes
file_line p = base p.file ++ codes ":" ++ format_int p.line_no

-- What Trace and Debug put before the arguments.
abbrev pub trace_args : Place → List Bytes → List Bytes
trace_args p args = (func_name p.name ++ codes "()") ∷ file_line p ∷ args

abbrev pub debug_args : Place → List Bytes → List Bytes
debug_args p args = p.name ∷ file_line p ∷ args

-- What Tracef and Debugf make of their format, `"%s() %s:%d "+format` and `"%s %s:%d "+format`.
abbrev pub tracef_text : Place → Bytes → Bytes
tracef_text p formatted = func_name p.name ++ codes "() " ++ file_line p ++ codes " " ++ formatted

abbrev pub debugf_text : Place → Bytes → Bytes
debugf_text p formatted = p.name ++ codes " " ++ file_line p ++ codes " " ++ formatted

-- A message of one text has the same line by Trace as by Tracef, and by Debug as by Debugf, with the
-- place of the call before it.
pub line-place :
    (level : ℤ) (gid : ℕ) (p : Place) (msg : Bytes)
    → (line level gid (trace_args p (msg ∷ [])) ≡ linef level gid (tracef_text p msg))
      × (line level gid (debug_args p (msg ∷ [])) ≡ linef level gid (debugf_text p msg))
unfolding line linef sprintln
line-place level gid p msg = (simp append_assoc, simp append_assoc)
