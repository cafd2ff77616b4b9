-- ===== src/Listen/Certificate/Laws.antt =====
-- What the certificate of internal/listen/tls.go is after a handshake.
use arex.Prelude.{
  subst, List, [], ◌∷◌, replicate, length, ◌+◌, ◌*◌, ◌≤◌, ◌≡◌, refl, sym, ◌∙◌, ap, true, false,
  String, Result, ok, err, arith, Bool-cases, inl, inr, ◌⊎◌,
}
use arex.Prelude.Int.{leb_ℤ}
use arex.GoTime.{Time, second, since, saturate64}
use arex.Listen.Certificate.{
  reload_interval, Stamp, stamp_eq, Disk, Certificate, stat, loaded, load, keep_on_error,
  get_changed, get,
}

stamp_eq_refl : (s : Stamp) → stamp_eq s s ≡ true
stamp_eq_refl s = ground arith

due_after :
    (checked now : Time)
    → checked + 30 * second ≤ now
    → leb_ℤ reload_interval (since now checked) ≡ true
unfolding since saturate64
due_after checked now h = ground arith

module _ {C : Type 0} where
  -- What is served is what is in memory afterwards, and it is the certificate that was there or a
  -- pair that could be read.
  abbrev pub ServesGood : Certificate C → Result String C → C × Certificate C → Type 0
  ServesGood c pair r = (r.1.current ≡ r.0) × ((r.0 ≡ c.current) ⊎ (pair ≡ ok r.0))

  keep_on_error-ServesGood :
      (c : Certificate C) (pair : Result String C) (s : Result String Stamp) (done : Time)
      → ServesGood c pair (keep_on_error c (loaded pair s done))
  unfolding keep_on_error loaded
  keep_on_error-ServesGood c (err e) s done = (refl, inl refl)
  keep_on_error-ServesGood c (ok cert) (err e) done = (refl, inl refl)
  keep_on_error-ServesGood c (ok cert) (ok s) done = (refl, inr refl)

  get_changed-ServesGood :
      (c : Certificate C) (found : Result String Stamp) (pair : Result String C)
      (s : Result String Stamp) (done : Time)
      → ServesGood c pair (get_changed c found (loaded pair s done))
  unfolding get_changed
  get_changed-ServesGood c (err e) pair s done = (refl, inl refl)
  get_changed-ServesGood c (ok found) pair s done = elim (Bool-cases (stamp_eq found c.stamp)) [
    | inl same ↦ rw (get_changed, same) (refl, inl refl)
    | inr new ↦ rw (get_changed, new) (keep_on_error-ServesGood c pair s done)
  ]

  -- Whatever the files are at the three moments of a handshake, it is served the certificate that was
  -- in memory or a pair that could be read, and that one stays in memory: no failure takes it away.
  pub get-ServesGood :
      (c : Certificate C) (now : Time) (at_check at_read at_stat : Disk C) (done : Time)
      → ServesGood c at_read.pair (get c now at_check at_read at_stat done)
  unfolding get load
  get-ServesGood c now at_check at_read at_stat done =
      elim (Bool-cases (leb_ℤ reload_interval (since now c.checked))) [
        | inl due ↦
            rw (get, due)
              (get_changed-ServesGood (record c { checked = now }) (stat at_check) at_read.pair
                (stat at_stat) done)
        | inr early ↦ rw (get, early) (refl, inl refl)
      ]

  get_reloaded :
      (c : Certificate C) (now : Time) (disk : Disk C) (cert : C) (s : Stamp) (done : Time)
      → leb_ℤ reload_interval (since now c.checked) ≡ true
      → disk.pair ≡ ok cert
      → stat disk ≡ ok s
      → stamp_eq s c.stamp ≡ false
      → get c now disk disk disk done ≡ (cert, record { current = cert; stamp = s; checked = done })
  unfolding get load loaded get_changed keep_on_error
  get_reloaded c now disk cert s done late pair found new =
      rw (get, late, load, pair, found, get_changed, new) refl

  get_early :
      (c : Certificate C) (now : Time) (disk : Disk C) (done : Time)
      → leb_ℤ reload_interval (since now c.checked) ≡ false
      → get c now disk disk disk done ≡ (c.current, c)
  unfolding get
  get_early c now disk done early = rw (get, early) refl

  -- The certificate was looked at with the stamp that its files have.
  abbrev Settled : Certificate C → Disk C → C → Type 0
  Settled c disk cert = (c.current ≡ cert) × (stat disk ≡ ok c.stamp)

  get-Settled :
      (c : Certificate C) (now : Time) (disk : Disk C) (cert : C) (done : Time)
      → Settled c disk cert
      → ((get c now disk disk disk done).0 ≡ cert)
        × Settled (get c now disk disk disk done).1 disk cert
  unfolding get get_changed
  get-Settled c now disk cert done (current, stamp) =
      elim (Bool-cases (leb_ℤ reload_interval (since now c.checked))) [
        | inl due ↦
            rw (get, due, stamp, get_changed, stamp_eq_refl c.stamp) (current, (current, refl))
        | inr early ↦ rw (get, early) (current, (current, stamp))
      ]

  -- The certificate in memory after the handshakes at some times.
  unfoldable pub after_handshakes : Certificate C → Disk C → List Time → Certificate C
  after_handshakes c disk [] = c
  after_handshakes c disk (now ∷ later) =
      after_handshakes (get c now disk disk disk now).1 disk later

  after-Settled :
      (c : Certificate C) (disk : Disk C) (cert : C) (times : List Time)
      → Settled c disk cert
      → Settled (after_handshakes c disk times) disk cert
  unfolding after_handshakes
  after-Settled c disk cert [] h = h
  after-Settled c disk cert (now ∷ later) h =
      after-Settled (get c now disk disk disk now).1 disk cert later
        (get-Settled c now disk cert now h).1

  module _ (c : Certificate C) (disk : Disk C) (cert : C) (s : Stamp) where
    -- Until a handshake takes the renewed pair, nothing changes.
    after_renewal :
        (times : List Time)
        → disk.pair ≡ ok cert
        → stat disk ≡ ok s
        → stamp_eq s c.stamp ≡ false
        → (after_handshakes c disk times ≡ c) ⊎ Settled (after_handshakes c disk times) disk cert
    unfolding after_handshakes get
    after_renewal [] pair found new = inl refl
    after_renewal (now ∷ later) pair found new =
        elim (Bool-cases (leb_ℤ reload_interval (since now c.checked))) [
          | inl due ↦
              let taken =
                ap (λ (r : C × Certificate C). r.1)
                  (get_reloaded c now disk cert s now due pair found new) in
              inr (
                after-Settled _ disk cert later
                  (subst (λ d. Settled d disk cert) (sym taken) (refl, found)))
          | inr early ↦
              let kept = ap (λ (r : C × Certificate C). r.1) (get_early c now disk now early) in
              subst
                (λ d.
                  (after_handshakes d disk later ≡ c)
                  ⊎ Settled (after_handshakes d disk later) disk cert)
                (sym kept) (after_renewal later pair found new)
        ]

    -- A renewed pair is served by every handshake from an interval after the last look at the files
    -- on, whatever handshakes came before it: files that can be read, have another stamp and do not
    -- change meanwhile.
    pub renewed_by :
        (times : List Time) (now : Time)
        → c.checked + 30 * second ≤ now
        → disk.pair ≡ ok cert
        → stat disk ≡ ok s
        → stamp_eq s c.stamp ≡ false
        → (get (after_handshakes c disk times) now disk disk disk now).0 ≡ cert
    renewed_by times now late pair found new = elim (after_renewal times pair found new) [
      | inl same ↦
          let due = due_after c.checked now late in
          ap (λ d. (get d now disk disk disk now).0) same
          ∙ ap (λ (r : C × Certificate C). r.0)
              (get_reloaded c now disk cert s now due pair found new)
      | inr settled ↦ (get-Settled (after_handshakes c disk times) now disk cert now settled).0
    ]

  -- The certificates that the handshakes at some times are served.
  unfoldable pub handshakes : Certificate C → Disk C → List Time → List C
  handshakes c disk [] = []
  handshakes c disk (now ∷ later) =
      let one = get c now disk disk disk now in one.0 ∷ handshakes one.1 disk later

  handshakes_unchanged :
      (c : Certificate C) (disk : Disk C) (cert : C) (times : List Time)
      → Settled c disk cert
      → handshakes c disk times ≡ replicate (length times) cert
  unfolding handshakes
  handshakes_unchanged c disk cert [] h = refl
  handshakes_unchanged c disk cert (now ∷ later) h =
      let (served, still) = get-Settled c now disk cert now h in
      rw (served, handshakes_unchanged (get c now disk disk disk now).1 disk cert later still) refl

  loaded-Settled :
      (cert : C) (found : Result String Stamp) (now : Time) (c : Certificate C)
      → loaded (ok cert) found now ≡ ok c
      → (c.current ≡ cert) × (found ≡ ok c.stamp)
  unfolding loaded
  loaded-Settled cert (err e) now c h = absurd (ground arith)
  loaded-Settled cert (ok s) now c h = (ground arith, ground arith)

  -- A renewal between the reading of the pair and the look at its files is missed: every later
  -- handshake is served the certificate that was read, as long as the files have the stamp that was
  -- found, whatever pair they hold.
  pub get_missed :
      (at_read at_stat later : Disk C) (cert : C) (c : Certificate C) (now : Time)
      (times : List Time)
      → at_read.pair ≡ ok cert
      → load at_read at_stat now ≡ ok c
      → stat later ≡ stat at_stat
      → handshakes c later times ≡ replicate (length times) cert
  unfolding load
  get_missed at_read at_stat later cert c now times pair read same =
      let (current, stamp) =
        loaded-Settled cert (stat at_stat) now c
          (ap (λ p. loaded p (stat at_stat) now) (sym pair) ∙ read) in
      handshakes_unchanged c later cert times (current, same ∙ stamp)
