-- ===== src/Eapi/Tls/Tests.antt =====
-- A pin as openssl prints it.
use arex.Prelude.{ℕ, ◌<◌, ◌≡◌, refl, String, List, [], ◌∷◌, All, ok, arith}
use arex.Eapi.Tls.{parse_pin}
use arex.Eapi.Tls.Laws.{parse_pin-print_fingerprint}

abbrev printed : String
printed =
    "AB:0C:FF:10:AB:0C:FF:10:AB:0C:FF:10:AB:0C:FF:10:AB:0C:FF:10:AB:0C:FF:10:AB:0C:FF:10:AB:0C:FF:10"

abbrev digest : List ℕ
digest =
    171 ∷ 12 ∷ 255 ∷ 16 ∷ 171 ∷ 12 ∷ 255 ∷ 16 ∷ 171 ∷ 12 ∷ 255 ∷ 16 ∷ 171 ∷ 12 ∷ 255 ∷ 16 ∷ 171 ∷ 12
    ∷ 255 ∷ 16 ∷ 171 ∷ 12 ∷ 255 ∷ 16 ∷ 171 ∷ 12 ∷ 255 ∷ 16 ∷ 171 ∷ 12 ∷ 255 ∷ 16 ∷ []

abbrev bytes : All (λ b. b < 256) digest
bytes = (
  omega arith,
  (
    omega arith,
    (
      omega arith,
      (
        omega arith,
        (
          omega arith,
          (
            omega arith,
            (
              omega arith,
              (
                omega arith,
                (
                  omega arith,
                  (
                    omega arith,
                    (
                      omega arith,
                      (
                        omega arith,
                        (
                          omega arith,
                          (
                            omega arith,
                            (
                              omega arith,
                              (
                                omega arith,
                                (
                                  omega arith,
                                  (
                                    omega arith,
                                    (
                                      omega arith,
                                      (
                                        omega arith,
                                        (
                                          omega arith,
                                          (
                                            omega arith,
                                            (
                                              omega arith,
                                              (
                                                omega arith,
                                                (
                                                  omega arith,
                                                  (
                                                    omega arith,
                                                    (
                                                      omega arith,
                                                      (
                                                        omega arith,
                                                        (
                                                          omega arith,
                                                          (
                                                            omega arith,
                                                            (omega arith, (omega arith, tt)),
                                                          ),
                                                        ),
                                                      ),
                                                    ),
                                                  ),
                                                ),
                                              ),
                                            ),
                                          ),
                                        ),
                                      ),
                                    ),
                                  ),
                                ),
                              ),
                            ),
                          ),
                        ),
                      ),
                    ),
                  ),
                ),
              ),
            ),
          ),
        ),
      ),
    ),
  ),
)

parse_pin-print_fingerprint_example : parse_pin printed ≡ ok digest
parse_pin-print_fingerprint_example = parse_pin-print_fingerprint printed digest refl bytes refl
