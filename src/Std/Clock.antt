-- ===== src/Std/Clock.antt =====
-- time.Time, as far as it is stored and compared: the instant and the zone's offset. The monotonic
-- reading, which is neither stored nor restored, is left out.
use btc_vendor_tools.Base.{
  ap, ◌∙◌, not, length-append, ℕ, ◌+◌, ◌%◌, suc, ◌^◌, ◌<◌, ◌≡◌, refl, Bool, [], ◌∷◌, ◌++◌, arith,
  ltb, ◌==◌, if◌then◌else◌, ◌&&◌, ◌||◌, length, Result, ok, err, no_data, bad_version, bad_length,
  bad_zone, ◌>>=◌,
}
use btc_vendor_tools.Std.Binary.{Bytes, be, read_be, read_be-append, read_be-be, length-be}

-- `minutes m` is an offset in minutes, as the 16 bits of an int16. `odd` is an offset that is no
-- whole number of minutes, or does not fit.
pub data Zone : Type 0 where
  utc : Zone
  minutes : ℕ → Zone
  odd : Zone

-- Seconds since the year 1 as the 64 bits of an int64, and nanoseconds.
pub record Time : Type 0 where
  pub sec : ℕ
  pub nsec : ℕ
  pub zone : Zone

unfoldable pub zone_bits : Zone → Result ℕ
zone_bits utc = ok 0xffff
zone_bits (minutes m) = if m == 0xffff then err bad_zone else ok m
zone_bits odd = err bad_zone

unfoldable pub zone_of_bits : ℕ → Zone
zone_of_bits m = if m == 0xffff then utc else minutes m

-- `Time.GobEncode`: version 1, seconds, nanoseconds, offset; 15 bytes.
unfoldable pub gob_encode : Time → Result Bytes
unfolding zone_bits
gob_encode t = do z ← zone_bits t.zone; ok (1 ∷ (be 8 t.sec ++ (be 4 t.nsec ++ be 2 z)))

-- `Time.GobDecode`.
unfoldable pub gob_decode : Bytes → Result Time
unfolding zone_of_bits
gob_decode [] = err no_data
gob_decode (version ∷ bs) =
    if not (version == 1)
    then err bad_version
    else if not (length bs == 14)
    then err bad_length
    else do
      (s, bs') ← read_be 8 bs
      (ns, bs'') ← read_be 4 bs'
      (z, _) ← read_be 2 bs''
      ok (record { sec = s; nsec = ns; zone = zone_of_bits z })

-- The 64 bits of an int64 in the order of the numbers: the bits of a negative number come first.
abbrev pub int64_order : ℕ → ℕ
int64_order n = (n + 2 ^ 63) % 2 ^ 64

-- `t.Before(u)`, where neither has a monotonic reading.
unfoldable pub before : Time → Time → Bool
before t u =
    ltb (int64_order t.sec) (int64_order u.sec)
    || (int64_order t.sec == int64_order u.sec && ltb t.nsec u.nsec)

abbrev IsZone : Zone → Type 0
IsZone utc = Unit
IsZone (minutes m) = m < 0xffff
IsZone odd = ⊥

-- A time that GobEncode accepts.
pub record IsTime (t : Time) : Type 0 where
  pub sec_bits : t.sec < 2 ^ 64
  pub nsec_bits : t.nsec < 2 ^ 32
  pub whole : IsZone t.zone

zone_round_trip :
    (z : Zone) → IsZone z → (m : ℕ) × (zone_bits z ≡ ok m) × (m < 2 ^ 16) × (zone_of_bits m ≡ z)
unfolding zone_bits zone_of_bits
zone_round_trip utc h = (0xffff, refl, omega arith, refl)
zone_round_trip (minutes m) h = (m, ground arith, omega arith, ground arith)
zone_round_trip odd h = absurd h

module _ (t : Time) (h : IsTime t) (m : ℕ) where
  length-fields : length (be 8 t.sec ++ (be 4 t.nsec ++ be 2 m)) ≡ 14
  length-fields = omega (
    arith,
    length-append (be 8 t.sec) (be 4 t.nsec ++ be 2 m),
    length-append (be 4 t.nsec) (be 2 m),
    length-be 8 t.sec,
    length-be 4 t.nsec,
    length-be 2 m,
  )

  gob_decode-fields :
      m < 2 ^ 16
      → gob_decode (1 ∷ (be 8 t.sec ++ (be 4 t.nsec ++ be 2 m)))
        ≡ ok (record t { zone = zone_of_bits m })
  unfolding gob_decode
  gob_decode-fields bound = rw length-fields (
      rw (read_be-append 8 t.sec (be 4 t.nsec ++ be 2 m) h.sec_bits)
        (rw (read_be-append 4 t.nsec (be 2 m) h.nsec_bits) (rw (read_be-be 2 m bound))))

-- A stored time is read back, and takes 15 bytes.
pub gob_round_trip :
    (t : Time)
    → IsTime t
    → (bs : Bytes) × (gob_encode t ≡ ok bs) × (length bs ≡ 15) × (gob_decode bs ≡ ok t)
unfolding gob_encode
gob_round_trip t h =
    let (m, enc, bound, dec) = zone_round_trip t.zone h.whole in
    (
      1 ∷ (be 8 t.sec ++ (be 4 t.nsec ++ be 2 m)),
      rw enc,
      ap suc (length-fields t h m),
      gob_decode-fields t h m bound ∙ ap (λ (z : Zone). ok (record t { zone = z })) dec,
    )
