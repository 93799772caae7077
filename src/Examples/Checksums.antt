-- ===== src/Examples/Checksums.antt =====
-- The theorems on packetutil_linux.cpp, applied to a UDP datagram over IPv4.
use clumsy.Prelude.{
  ℕ, zero, suc, ◌+◌, ◌<◌, ◌≡◌, refl, inr, true, false, List, [], ◌∷◌, Bool, ◌&&◌, arith, ltb,
}
use clumsy.Examples.Filters.{datagram}
use clumsy.Filter.{byte_at}
use clumsy.Checksum.{packet_recalc_checksums}
use clumsy.Checksum.Sums.{words}
use clumsy.Checksum.Right.{
  SumsUp, address_words, InChecksums, recalc_header-SumsUp, recalc_transport-SumsUp,
}

abbrev all_bytes : List ℕ → Bool
all_bytes [] = true
all_bytes (b ∷ p) = ltb b 256 && all_bytes p

bytes_of : (p : List ℕ) → all_bytes p ≡ true → (i : ℕ) → byte_at p i < 256
bytes_of [] e i = omega arith
bytes_of (b ∷ p) e zero = ground (arith, e)
bytes_of (b ∷ p) e (suc i) = bytes_of p (ground (arith, e)) i

recalc_header-SumsUp_example : SumsUp (words (packet_recalc_checksums datagram 28) 0 20)
recalc_header-SumsUp_example =
    recalc_header-SumsUp datagram 28 refl (omega arith) (bytes_of datagram refl)
      (record { version = refl; least = omega arith; fits = omega arith; readable = refl })

recalc_transport-SumsUp_example :
    let r = packet_recalc_checksums datagram 28 in
    SumsUp (address_words false r + 17 + 8 + words r 20 8)
    × ((j : ℕ) → InChecksums false datagram r j)
recalc_transport-SumsUp_example =
    recalc_transport-SumsUp datagram 28 refl (omega arith) (bytes_of datagram refl) false (record {
      version = refl;
      least = omega arith;
      unfragmented = inr (refl, refl);
      carried = inr refl;
      header = omega arith;
      inside = omega arith;
      whole = omega arith;
    })
