-- ===== src/Metrics/Serve.antt =====
-- What a scrape request is served: the registries of NewHandler in internal/metrics/handler.go with
-- what their collectors send, and the collector of arex's own identity (internal.go). The Go runtime
-- and process collectors belong to the client library: what they send is an argument.
pub mod Laws
use arex.Prelude.{String, List, [], ◌∷◌, ◌++◌, Result, ok, err}
use arex.Prelude.Assoc.{Map}
use arex.GoTime.{Time, Duration}
use arex.BuildInfo.{Build}
use arex.Collector.Data.{Store}
use arex.Metrics.Catalogue.{Desc, internal_descs}
use arex.Metrics.Emit.{Host, Metric, set}
use arex.Metrics.Requests.{Answer, refused, internal, full, filtered, Refusal, Query, handle}
use arex.Metrics.Render.Switch.{new_collector, new_switch_collector, collect_store}

unfoldable pub describe_build : List Desc
describe_build = internal_descs

module _ {F : Type 0} ⦃h : Host F⦄ where
  unfoldable pub collect_build : Build → List (Metric F)
  unfolding set
  collect_build b =
      set "arex_build_info" (h.of_ℕ 1) (b.version ∷ b.revision ∷ b.go_version ∷ b.modified ∷ [])

  -- internalCollectors: the build's, then the runtime's and the process's.
  unfoldable pub collect_internal : Build → List (Metric F) → List (Metric F)
  unfolding collect_build
  collect_internal b runtime = collect_build b ++ runtime

  unfoldable pub serve :
      Store F
      → Duration
      → Build
      → List (Metric F)
      → Time
      → Answer
      → Result Refusal (List (Metric F))
  unfolding collect_internal collect_store new_collector new_switch_collector
  serve store limit b runtime now (refused r) = err r
  serve store limit b runtime now internal = ok (collect_internal b runtime)
  serve store limit b runtime now full =
      ok (collect_internal b runtime ++ collect_store (new_collector limit) store now)
  serve store limit b runtime now (filtered label f) =
      ok (collect_store (new_switch_collector limit label f) store now)

  unfoldable pub scrape :
      Store F
      → Map String
      → Duration
      → Build
      → List (Metric F)
      → Time
      → Query
      → Result Refusal (List (Metric F))
  unfolding serve handle
  scrape store index limit b runtime now q = serve store limit b runtime now (handle store index q)
