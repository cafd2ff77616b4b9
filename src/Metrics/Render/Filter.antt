-- ===== src/Metrics/Render/Filter.antt =====
-- What a filtered scrape sends, against an unfiltered one: the fields only, module and iface of the
-- collector in internal/metrics/collector.go.
use mathlib.Core.List.{append-nil, append_assoc}
use arex.Prelude.{
  Bool, Bool-cases, inl, inr, ◌≡◌, sym, true, false, not, ◌&&◌, is_some, String, List, [], ◌∷◌,
  ◌++◌, if◌then◌else◌,
}
use arex.Prelude.Int.{negsuc, ltb_ℤ}
use arex.Eapi.Stats.{snapshot}
use arex.Prelude.Within.{Within, both_end, Within-refl, Within-nil, Within-append}
use arex.Prelude.Assoc.{Map, for_entries}
use arex.GoTime.{Time, Duration, since, is_zero_time}
use arex.Eapi.Types.Interfaces.{ShowInterfaces}
use arex.Eapi.Types.Optics.{ShowTransceiverDetail, ShowPhyDetail}
use arex.Collector.Data.{SwitchData}
use arex.Metrics.Requests.{Filter}
use arex.Metrics.Emit.{Host, Metric, set, set_bool}
use arex.Metrics.Render.Interfaces.{match_iface, if_matched, collect_interfaces}
use arex.Metrics.Render.Optics.{collect_transceivers, collect_phy}
use arex.Metrics.Render.Switch.{
  emit_if, collect_commands, collect_eapi_stats, Scope, new_collector, new_switch_collector, wants,
  limit_for, scrape_limit, is_fresh, collect_modules, collect_aged, collect_switch,
}

module _ {A : Type 0} where
  -- A gate of the filtered rendering has a test more.
  Within-gate :
      (wanted fresh : Bool) (xs ys : List A)
      → Within xs ys
      → Within (if wanted && fresh then xs else []) (if fresh then ys else [])
  Within-gate true true xs ys p = p
  Within-gate true false xs ys p = both_end
  Within-gate false fresh xs ys p = Within-nil _

  Within-wanted :
      (wanted : Bool) (xs ys : List A) → Within xs ys → Within (if wanted then xs else []) ys
  Within-wanted true xs ys p = p
  Within-wanted false xs ys p = Within-nil ys

  Within-if :
      (b : Bool) (xs ys zs ws : List A)
      → Within xs ys
      → Within zs ws
      → Within (if b then xs else zs) (if b then ys else ws)
  Within-if true xs ys zs ws p q = p
  Within-if false xs ys zs ws p q = q

module _ {F : Type 0} ⦃h : Host F⦄ where
  Within-matched :
      {V : Type 0} (iface : String) (f : String → V → List (Metric F)) (m : Map V)
      → Within (for_entries (if_matched iface f) m) (for_entries (if_matched "" f) m)
  Within-matched iface f [] = both_end
  Within-matched iface f ((name, x) ∷ m) =
      Within-append
        (Within-wanted (match_iface iface name) (f name x) (f name x) (Within-refl (f name x)))
        (Within-matched iface f m)

  collect_interfaces-Within :
      (iface label : String) (s : ShowInterfaces F)
      → Within (collect_interfaces iface label s) (collect_interfaces "" label s)
  unfolding collect_interfaces
  collect_interfaces-Within iface label s = Within-matched iface _ s.interfaces

  collect_transceivers-Within :
      (iface label : String) (t : ShowTransceiverDetail F)
      → Within (collect_transceivers iface label t) (collect_transceivers "" label t)
  unfolding collect_transceivers
  collect_transceivers-Within iface label t = Within-matched iface _ t.interfaces

  collect_phy-Within :
      (iface label : String) (phy : ShowPhyDetail F)
      → Within (collect_phy iface label phy) (collect_phy "" label phy)
  unfolding collect_phy
  collect_phy-Within iface label phy = Within-matched iface _ phy.interfaces

  collect_modules-Within :
      (limit : Duration) (label : String) (f : Filter) (sw : SwitchData F) (now : Time)
      → Within
          (collect_modules (new_switch_collector limit label f) sw now)
          (collect_modules (new_collector limit) sw now)
  unfolding collect_modules new_collector new_switch_collector wants is_fresh limit_for
  collect_modules-Within limit label f sw now =
      search
        (
          Within-append, Within-gate, Within-wanted, collect_interfaces-Within,
          collect_transceivers-Within, collect_phy-Within, Within-refl,
        )
        depth 24 fits 100000

  -- Both start with the first list, and go on with a list and a part of that.
  abbrev pub Narrows : (head fewer more : List (Metric F)) → Type 0
  Narrows head fewer more =
      (some_sent : List (Metric F)) × ((all_sent : List (Metric F)) × ((fewer ≡ head ++ some_sent)
          × (more ≡ head ++ all_sent)
          × Within some_sent all_sent))

  -- What is sent of the polling of a switch, before the samples of its outputs.
  abbrev pub on_the_scrape : SwitchData F → Time → List (Metric F)
  on_the_scrape sw now =
      set_bool "arista_scrape_success"
        (not (is_zero_time sw.last_success) && not (is_some sw.scrape_err)) (sw.label ∷ [])
      ++ collect_commands sw.label sw.command_errors sw.commands
      ++ collect_eapi_stats sw.label (snapshot h.seconds sw.stats)
      ++ set "arista_scrape_age_seconds"
          (if is_zero_time sw.last_success
            then h.of_ℤ (negsuc 0)
            else h.seconds (since now sw.last_success))
          (sw.label ∷ [])

  -- What follows it.
  abbrev of_outputs : Scope → SwitchData F → Time → List (Metric F)
  of_outputs c sw now =
      if is_zero_time sw.last_success
      then []
      else emit_if (not (ltb_ℤ (scrape_limit c sw) (since now sw.last_success)))
          (collect_modules c sw now)

  collect_switch_parts :
      (c : Scope) (sw : SwitchData F) (now : Time)
      → collect_switch c sw now ≡ on_the_scrape sw now ++ of_outputs c sw now
  unfolding collect_switch collect_aged
  collect_switch_parts c sw now = elim (Bool-cases (is_zero_time sw.last_success)) [
    | inl never ↦ rw (collect_switch, never) (sym (append-nil _))
    | inr polled ↦ rw (collect_switch, polled) (simp (append_assoc))
  ]

  -- A filter narrows what a scrape sends of a switch and changes nothing of it. The samples on the
  -- scrape itself are the same under any filter; those of the outputs are the ones of the unfiltered
  -- scrape with some left out, in the same order.
  pub collect_switch-Within :
      (limit : Duration) (label : String) (f : Filter) (sw : SwitchData F) (now : Time)
      → Narrows
          (on_the_scrape sw now)
          (collect_switch (new_switch_collector limit label f) sw now)
          (collect_switch (new_collector limit) sw now)
  unfolding new_collector new_switch_collector scrape_limit
  collect_switch-Within limit label f sw now = (
    of_outputs (new_switch_collector limit label f) sw now,
    (
      of_outputs (new_collector limit) sw now,
      (
        collect_switch_parts (new_switch_collector limit label f) sw now,
        collect_switch_parts (new_collector limit) sw now,
        Within-if _ _ _ _ _ both_end
            (Within-if _ _ _ [] [] (collect_modules-Within limit label f sw now) both_end),
      ),
    ),
  )
