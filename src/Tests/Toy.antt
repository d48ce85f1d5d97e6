-- ===== src/Tests/Toy.antt =====
-- Concrete instances of the parameters, and data for the tests.
use btc_vendor_tools.Base.{
  ℕ, zero, suc, refl, ap, sym, true, false, List, [], ◌∷◌, ◌++◌, arith, bytes_eq, bytes_eq_refl,
  ◌==◌, ◌≡◌, ◌⊎◌, Option, some, none, Option-cases, Bool-cases, inl, inr, All, if◌then◌else◌,
  not_found, bad_tx, Result, ok, err, ◌>>=◌,
}
use btc_vendor_tools.Std.Binary.{Bytes}
use btc_vendor_tools.Std.Clock.{Time, utc}
use btc_vendor_tools.Wire.{TxIn, MsgTx, Wire}
use btc_vendor_tools.LevelDb.{LevelDb, IsLevelDb, IsIterable, IsReliable}
use btc_vendor_tools.Btc.{Btc, ScriptClass, multi_sig, witness_v0_script_hash, other_class}
use btc_vendor_tools.Utils.ToSign.{ToSignItem}
use btc_vendor_tools.Utils.ToSign.RoundTrip.{IsItem}
use btc_vendor_tools.Utils.Saved.{SavedItem}
use btc_vendor_tools.Utils.Saved.RoundTrip.{IsSaved}
use btc_vendor_tools.Db.{VendorDb, fresh}
use btc_vendor_tools.Db.Cache.{get, find}
use btc_vendor_tools.Db.View.{Inv}

-- Each input has one byte and a script of at most one byte, where 0 stands for no script.
abbrev script_byte : Bytes → ℕ
script_byte [] = 0
script_byte (s ∷ rest) = s

abbrev put_ins : List TxIn → Bytes
put_ins [] = []
put_ins (txin ∷ rest) = txin.kept ++ script_byte txin.signature_script ∷ put_ins rest

abbrev byte_script : ℕ → Bytes
byte_script zero = []
byte_script (suc s) = suc s ∷ []

abbrev get_ins : Bytes → Result (List TxIn)
get_ins [] = ok []
get_ins (k ∷ []) = err bad_tx
get_ins (k ∷ s ∷ rest) = do
  ins ← get_ins rest
  ok (record { kept = k ∷ []; signature_script = byte_script s } ∷ ins)

abbrev get_tx : Bytes → Result MsgTx
get_tx raw = do ins ← get_ins raw; ok (record { kept = []; tx_in = ins })

abbrev pub wire : Wire
wire = record {
  btc_encode = λ tx. ok (put_ins tx.tx_in);
  btc_decode = get_tx;
  tx_hash = λ tx. put_ins tx.tx_in;
}

-- A list of the writes, the last one first.
abbrev look : List (Bytes × Bytes) → Bytes → Result Bytes
look [] j = err not_found
look ((k, v) ∷ rest) j = if bytes_eq k j then ok v else look rest j

-- The writes that no later one has replaced.
abbrev remove : Bytes → List (Bytes × Bytes) → List (Bytes × Bytes)
remove k [] = []
remove k ((j, v) ∷ rest) = if bytes_eq k j then remove k rest else (j, v) ∷ remove k rest

abbrev current : List (Bytes × Bytes) → List (Bytes × Bytes)
current [] = []
current ((k, v) ∷ rest) = (k, v) ∷ remove k (current rest)

abbrev strip : Bytes → Bytes → Option Bytes
strip [] key = some key
strip (p ∷ ps) [] = none
strip (p ∷ ps) (k ∷ key) = let more = strip ps key in if p == k then more else none

abbrev add_value : Bytes → Option Bytes → List Bytes → List Bytes
add_value v none more = more
add_value v (some rest) more = v ∷ more

abbrev under : Bytes → List (Bytes × Bytes) → List Bytes
under prefix [] = []
under prefix ((k, v) ∷ rest) = add_value v (strip prefix k) (under prefix rest)

abbrev pub store : LevelDb
store = record {
  State = List (Bytes × Bytes);
  get = look;
  put = λ d k v. (true, (k, v) ∷ d);
  scan = λ d prefix. (under prefix (current d), true);
}

pub store-IsLevelDb : IsLevelDb store
store-IsLevelDb = record { get-put = λ d d' k v j e. ap (λ p. look p.1 j) (sym e) }

look-answers :
    (d : List (Bytes × Bytes)) (k : Bytes)
    → ((v : Bytes) × (look d k ≡ ok v)) ⊎ (look d k ≡ err not_found)
look-answers [] k = inr refl
look-answers ((j, v) ∷ d) k = elim (Bool-cases (bytes_eq j k)) [
  | inl same ↦ inl (v, rw same refl)
  | inr other ↦ rw other (look-answers d k)
]

pub store-IsReliable : IsReliable store
store-IsReliable = record { writes = λ d k v. refl; answers = λ d k. look-answers d k }

strip-inverts : (p key rest : Bytes) → strip p key ≡ some rest → key ≡ p ++ rest
strip-inverts [] key rest e = ground arith
strip-inverts (p ∷ ps) [] rest e = cc e
strip-inverts (p ∷ ps) (k ∷ key) rest e = ground (arith, strip-inverts ps key rest)

-- An entry that a list of writes answers with.
abbrev IsRead : List (Bytes × Bytes) → Bytes × Bytes → Type 0
IsRead d entry = look d entry.0 ≡ ok entry.1

remove-IsRead :
    (k v : Bytes) (d entries : List (Bytes × Bytes))
    → All (IsRead d) entries
    → All (IsRead ((k, v) ∷ d)) (remove k entries)
remove-IsRead k v d [] a = tt
remove-IsRead k v d ((j, x) ∷ entries) a = elim (Bool-cases (bytes_eq k j)) [
  | inl same ↦ rw same (remove-IsRead k v d entries a.1)
  | inr other ↦ rw other (rw other a.0, remove-IsRead k v d entries a.1)
]

current-IsRead : (d : List (Bytes × Bytes)) → All (IsRead d) (current d)
current-IsRead [] = tt
current-IsRead ((k, v) ∷ d) =
    (rw (bytes_eq_refl k), remove-IsRead k v d (current d) (current-IsRead d))

under-IsRead :
    (d : List (Bytes × Bytes)) (prefix : Bytes) (entries : List (Bytes × Bytes))
    → All (IsRead d) entries
    → All (λ val. (rest : Bytes) × (look d (prefix ++ rest) ≡ ok val)) (under prefix entries)
under-IsRead d prefix [] a = tt
under-IsRead d prefix ((k, v) ∷ entries) a = elim (Option-cases (strip prefix k)) [
  | inl other ↦ rw other (under-IsRead d prefix entries a.1)
  | inr (rest, split) ↦
      rw split
        ((rest, rw (← strip-inverts prefix k rest split) a.0), under-IsRead d prefix entries a.1)
]

pub store-IsIterable : IsIterable store
store-IsIterable = record {
  scan-get = λ d prefix. under-IsRead d prefix (current d) (current-IsRead d);
}

abbrev pub btc : Btc
btc = record {
  get_script_class = class_of;
  hash160 = λ s. s;
  ripemd160 = λ s. s;
  raw_tx_in_signature = λ tx i redeem. ok (i ∷ redeem);
  raw_tx_in_witness_signature = λ tx i amt redeem. ok (i ∷ amt ∷ []);
}
  where
    class_of : Bytes → ScriptClass
    class_of (suc (suc zero) ∷ rest) = witness_v0_script_hash
    class_of (suc (suc (suc zero)) ∷ rest) = other_class
    class_of s = multi_sig

abbrev pub redeem : Bytes
redeem = 9 ∷ []

abbrev pub tx_two : MsgTx
tx_two = record {
  kept = [];
  tx_in =
      record { kept = 7 ∷ []; signature_script = 1 ∷ [] }
      ∷ record { kept = 8 ∷ []; signature_script = 2 ∷ [] }
      ∷ [];
}

abbrev pub item_two : ToSignItem
item_two = record { mtx = tx_two; amts = 5 ∷ 600 ∷ [] }

abbrev pub tx_bare : MsgTx
tx_bare = record {
  kept = [];
  tx_in =
      record { kept = 7 ∷ []; signature_script = [] }
      ∷ record { kept = 8 ∷ []; signature_script = [] }
      ∷ [];
}

abbrev pub item_bare : ToSignItem
item_bare = record { mtx = tx_bare; amts = 5 ∷ 600 ∷ [] }

abbrev pub noon : Time
noon = record { sec = 1000; nsec = 5; zone = utc }

abbrev pub saved_bare : SavedItem
saved_bare = record { item = item_bare; time_received = noon; done = false }

pub item_two-IsItem : IsItem wire item_two
item_two-IsItem = record {
  tx = record {
    raw = 7 ∷ 1 ∷ 8 ∷ 2 ∷ [];
    encoded = refl;
    decoded = refl;
    bytes = (omega arith, (omega arith, (omega arith, (omega arith, tt))));
    short = omega arith;
  };
  amounts = (omega arith, (omega arith, tt));
  few = omega arith;
}

pub item_bare-IsItem : IsItem wire item_bare
item_bare-IsItem = record {
  tx = record {
    raw = 7 ∷ 0 ∷ 8 ∷ 0 ∷ [];
    encoded = refl;
    decoded = refl;
    bytes = (omega arith, (omega arith, (omega arith, (omega arith, tt))));
    short = omega arith;
  };
  amounts = (omega arith, (omega arith, tt));
  few = omega arith;
}

pub saved_bare-IsSaved : IsSaved wire saved_bare
saved_bare-IsSaved = record {
  item = item_bare-IsItem;
  time = record { sec_bits = omega arith; nsec_bits = omega arith; whole = tt };
}

abbrev pub empty_db : VendorDb store.State
empty_db = fresh wire store [] 0

pub empty_db-Inv : Inv wire store empty_db
unfolding get find
empty_db-Inv = record {
  size = refl;
  bounded = omega arith;
  cached = λ h it e. cc e;
  stored = record { at = λ h bs e. cc e };
}
