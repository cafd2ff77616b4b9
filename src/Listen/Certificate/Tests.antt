-- ===== src/Listen/Certificate/Tests.antt =====
-- A certificate that is renewed on disk.
use arex.Prelude.{ℕ, ◌+◌, ◌*◌, ◌≡◌, refl, [], ◌∷◌, ok, replicate, arith}
use arex.GoTime.{Time, second}
use arex.Listen.Certificate.{Stamp, Disk, Certificate, stamp_of, stat, loaded, load, get}
use arex.Listen.Certificate.Laws.{after_handshakes, renewed_by, handshakes, get_missed}

-- The pair with the serial number, in files changed at a time.
abbrev disk_of : ℕ → Time → Disk ℕ
disk_of serial at = record { pair = ok serial; cert_stat = ok (1200, at); key_stat = ok (300, at) }

abbrev stamp_at : Time → Stamp
stamp_at at = record { cert_size = 1200; key_size = 300; cert_mod = at; key_mod = at }

abbrev first_cert : Certificate ℕ
first_cert = record { current = 1; stamp = stamp_at 5; checked = 100 }

renewed_by_example :
    (get
      (after_handshakes first_cert (disk_of 2 7) (101 ∷ 102 ∷ []))
      (100 + 30 * second)
      (disk_of 2 7)
      (disk_of 2 7)
      (disk_of 2 7)
      (100 + 30 * second)).0
    ≡ 2
unfolding stat stamp_of
renewed_by_example =
    renewed_by first_cert (disk_of 2 7) 2 (stamp_at 7) (101 ∷ 102 ∷ []) (100 + 30 * second)
      (omega arith) refl refl refl

-- The first pair is read just before the second one lands.
get_missed_example :
    handshakes
      (record { current = 1; stamp = stamp_at 7; checked = 100 })
      (disk_of 2 7)
      (31 * second ∷ 62 * second ∷ [])
    ≡ replicate 2 1
unfolding load loaded stat stamp_of
get_missed_example =
    get_missed (disk_of 1 5) (disk_of 2 7) (disk_of 2 7) 1
      (record { current = 1; stamp = stamp_at 7; checked = 100 }) 100
      (31 * second ∷ 62 * second ∷ []) refl refl refl
