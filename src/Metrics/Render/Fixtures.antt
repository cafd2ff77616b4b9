-- ===== src/Metrics/Render/Fixtures.antt =====
-- A host in whole numbers, and a switch and a store to render.
use arex.Prelude.{
  ◌&&◌, ℕ, ◌*◌, ◌/◌, ◌==◌, ◌≡◌, String, List, [], ◌∷◌, Bool, true, length, some, arith, eq_iff,
}
use arex.Prelude.Int.{pos, pos_part}
use arex.Prelude.Assoc.{lookup}
use arex.GoTime.{second}
use arex.Collector.Commands.{cmd_version, cmd_phy}
use arex.Collector.Data.{SwitchData, Store, get}
use arex.Collector.Data.Laws.{WellLabelled}
use arex.Collector.Fixtures.{fresh_switch}
use arex.Metrics.Catalogue.Laws.{is_valid_desc}
use arex.Metrics.Emit.{Host}
use arex.Metrics.Emit.Laws.{Counts}
use arex.Metrics.Render.Switch.{Scope}

abbrev pub one_for_each : List String → List String → Bool
one_for_each names values = length names == length values

instance abbrev pub whole : Host ℕ
whole = record {
  of_ℕ = λ n. n;
  of_ℤ = pos_part;
  mul = λ a b. a * b;
  quot = λ a b. a / b;
  at_most_zero = λ n. n == 0;
  seconds = λ d. pos_part d / second;
  accepts = λ d values. is_valid_desc d && one_for_each d.labels values;
}

pub equal_lengths : (a b : ℕ) → a ≡ b → a == b ≡ true
equal_lengths a b e = ground arith

pub both : {a b : Bool} → a ≡ true → b ≡ true → a && b ≡ true
both p q = ground arith

instance abbrev pub whole_counts : Counts whole
whole_counts = record {
  accepted = λ d values valid e. both valid (equal_lengths (length d.labels) (length values) e);
}

-- Polled at 1000, when `show version` answered; `show phy detail` last did at 400.
unfoldable pub polled_switch : SwitchData ℕ
unfolding fresh_switch
polled_switch = record fresh_switch {
  last_success = 1000;
  command_errors = some [];
  command_last_success = (cmd_version, 1000) ∷ (cmd_phy, 400) ∷ [];
}

unfoldable pub one_switch : Store ℕ
unfolding polled_switch
one_switch = record { switches = ("leaf1", polled_switch) ∷ []; order = "leaf1" ∷ [] }

pub one_switch-WellLabelled : WellLabelled one_switch
unfolding one_switch get lookup polled_switch fresh_switch
one_switch-WellLabelled key sw e = ground (arith, eq_iff "leaf1" key)

abbrev pub lenient : Scope
lenient = record { staleness_limit = pos 100; only = ""; module_name = ""; iface = "" }
