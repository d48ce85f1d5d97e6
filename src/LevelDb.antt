-- ===== src/LevelDb.antt =====
-- What the tool uses of github.com/syndtr/goleveldb/leveldb: a parameter of the model, with what the
-- library documents of it.
use btc_vendor_tools.Base.{
  ◌≡◌, Bool, true, List, Result, if◌then◌else◌, bytes_eq, err, not_found, ◌⊎◌, ◌++◌, ◌≡◌, All, ok,
}
use btc_vendor_tools.Std.Binary.{Bytes}

pub record LevelDb : Type 1 where
  pub State : Type 0
  -- `err not_found` is leveldb.ErrNotFound.
  pub get : State → Bytes → Result Bytes
  -- Whether the write succeeded, and the database after it.
  pub put : State → Bytes → Bytes → Bool × State
  -- The values that an iterator over the keys with a prefix yields, and whether its Error() is nil.
  pub scan : State → Bytes → List Bytes × Bool

-- A write that succeeds is what later reads of the key return, and changes no other key.
pub record IsLevelDb (L : LevelDb) : Type 0 where
  pub get-put :
      (d d' : L.State) (k v j : Bytes)
      → L.put d k v ≡ (true, d')
      → L.get d' j ≡ (if bytes_eq k j then Result.ok v else L.get d j)

-- An iterator yields values only that are stored under a key with the prefix.
pub record IsIterable (L : LevelDb) : Type 0 where
  pub scan-get :
      (d : L.State) (prefix : Bytes)
      → All (λ val. (rest : Bytes) × (L.get d (prefix ++ rest) ≡ ok val)) (L.scan d prefix).0

-- A database that works: writes succeed, and reads find a value or say that there is none.
pub record IsReliable (L : LevelDb) : Type 0 where
  pub writes : (d : L.State) (k v : Bytes) → (L.put d k v).0 ≡ true
  pub answers :
      (d : L.State) (k : Bytes) → ((v : Bytes) × (L.get d k ≡ ok v)) ⊎ (L.get d k ≡ err not_found)
