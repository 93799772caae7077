-- ===== src/Examples/Rewriting.antt =====
-- The theorems on tamper.cpp, reset.cpp and corrupt.cpp, applied to a UDP datagram and a TCP packet over IPv4.
use clumsy.Prelude.{
  ℕ, add32, ◌≡◌, refl, arith, true, false, Option, some, List, [], ◌∷◌, interlocked_increment,
}
use clumsy.Packet.{PacketNode, calc_chance}
use clumsy.Checksum.{packet_get_payload, packet_set_tcp_rst, parse}
use clumsy.Filter.{read16be}
use clumsy.Packet.Rewrite.{Rewrites}
use clumsy.Tamper
use clumsy.Tamper.{Tamper}
use clumsy.Tamper.Tampers.{Tampered, tamper_process-Rewrites}
use clumsy.Reset
use clumsy.Reset.{Reset}
use clumsy.Reset.Resets.{Resets, reset_process-Resets}
use clumsy.Corrupt
use clumsy.Corrupt.{Corrupt, Flipping, flip_loop}
use clumsy.Corrupt.Flips.{flip_loop_enough}
use clumsy.Corrupt.Corrupts.{Corrupted, corrupt_process-Rewrites}
use clumsy.Examples.{quiet, packet_of}

-- A UDP datagram with eight bytes of data.
abbrev datagram : List ℕ
datagram =
    69 ∷ 0 ∷ 0 ∷ 36 ∷ 0 ∷ 0 ∷ 0 ∷ 0 ∷ 64 ∷ 17 ∷ 0 ∷ 0 ∷ 10 ∷ 0 ∷ 0 ∷ 1 ∷ 10 ∷ 0 ∷ 0 ∷ 2 ∷ 4 ∷ 0 ∷ 30
    ∷ 97 ∷ 0 ∷ 16 ∷ 0 ∷ 0 ∷ 1 ∷ 2 ∷ 3 ∷ 4 ∷ 5 ∷ 6 ∷ 7 ∷ 8 ∷ []

-- A bare ACK.
abbrev segment : List ℕ
segment =
    69 ∷ 0 ∷ 0 ∷ 40 ∷ 0 ∷ 0 ∷ 0 ∷ 0 ∷ 64 ∷ 6 ∷ 0 ∷ 0 ∷ 10 ∷ 0 ∷ 0 ∷ 1 ∷ 10 ∷ 0 ∷ 0 ∷ 2 ∷ 4 ∷ 0 ∷ 30
    ∷ 97 ∷ 0 ∷ 0 ∷ 0 ∷ 1 ∷ 0 ∷ 0 ∷ 0 ∷ 1 ∷ 80 ∷ 16 ∷ 32 ∷ 0 ∷ 0 ∷ 0 ∷ 0 ∷ 0 ∷ []

abbrev both : List PacketNode
both =
    record (packet_of true 36) { packet = datagram }
    ∷ record (packet_of true 40) { packet = segment }
    ∷ []

abbrev tamper : Tamper
tamper = record {
  enabled = true;
  inbound = true;
  outbound = true;
  chance = 10000;
  do_checksum = true;
  pos = 2;
  pat_ix = 0;
  affected = 0;
}

abbrev reset : Reset
reset = record {
  enabled = true;
  inbound = true;
  outbound = true;
  chance = 0;
  set_next = 1;
  affected = 0;
}

abbrev corrupt : Corrupt
corrupt = record {
  enabled = true;
  inbound = true;
  outbound = true;
  chance = 10000;
  do_checksum = false;
  ber = 100;
  bits_flipped = 0;
  affected = 0;
}

abbrev rand : ℕ → ℕ
rand n = n

-- Every error comes five bits after the one before.
abbrev gap : ℕ → ℕ → Option ℕ
gap ppm r = some 5

tamper_process-Rewrites_example :
    Rewrites
      (λ x. x.affected)
      interlocked_increment
      (Tampered tamper)
      tamper
      both
      quiet
      (Tamper.process rand tamper both quiet)
tamper_process-Rewrites_example = tamper_process-Rewrites rand tamper both quiet

reset_process-Resets_example : Resets rand reset both quiet (Reset.process rand reset both quiet)
reset_process-Resets_example = reset_process-Resets rand reset both quiet (refl, (refl, tt))

corrupt_process-Rewrites_example :
    Rewrites
      (λ x. x.affected)
      interlocked_increment
      (Corrupted corrupt)
      corrupt
      both
      quiet
      (Corrupt.process gap rand corrupt both quiet)
corrupt_process-Rewrites_example = corrupt_process-Rewrites gap rand corrupt both quiet

abbrev fresh : Flipping
fresh = record { bytes = datagram; count = 0; world = quiet }

flip_loop_enough_example :
    flip_loop gap rand 65 100 28 64 0 fresh ≡ flip_loop gap rand 80 100 28 64 0 fresh
flip_loop_enough_example =
    flip_loop_enough gap rand 65 80 100 28 64 0 fresh (omega arith) (omega arith) (omega arith)

-- How many packets each module counts.
tamper_counts : (Tamper.process rand tamper both quiet).state.affected ≡ 1
unfolding Tamper.process Tamper.visit Tamper.matches calc_chance Tamper.tamper_chosen
    packet_get_payload parse read16be Tamper.tamper_packet
tamper_counts = refl

reset_counts : (Reset.process rand reset both quiet).state.affected ≡ 1
unfolding Reset.process Reset.visit Reset.matches Reset.chosen Reset.reset_chosen packet_set_tcp_rst
    parse read16be
reset_counts = refl

corrupt_flips : (Corrupt.process gap rand corrupt both quiet).state.bits_flipped ≡ 10
unfolding Corrupt.process Corrupt.visit Corrupt.matches calc_chance Corrupt.corrupt_chosen
    packet_get_payload parse read16be Corrupt.corrupt_packet Corrupt.flip_bits add32
corrupt_flips = refl
