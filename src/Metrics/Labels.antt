-- ===== src/Metrics/Labels.antt =====
-- internal/metrics/metrics.go: the calls of the Prometheus library and the series that they are of.
use safe_my_sqlmcp_server.Base.{
  Text, text_eq, any, not, ◌&&◌, List, [], ◌∷◌, length, Bool, true, ◌≡◌,
}
use safe_my_sqlmcp_server.Metrics.{
  Sort, counter, gauge, histogram, opts, Op, inc, dec, observe_duration, observe, set, Call,
}

-- The sort of series that has a method
abbrev pub Has : Sort → Op → Type 0
Has counter inc = Unit
Has gauge inc = Unit
Has gauge dec = Unit
Has gauge (set n) = Unit
Has (histogram buckets) (observe_duration n) = Unit
Has (histogram buckets) (observe n) = Unit
Has _ _ = ⊥

-- A call with as many label values as the series has labels, of a method that the series has.
-- `WithLabelValues` panics on any other number of values.
abbrev pub Fits : Call → Type 0
Fits c = (length c.labels ≡ length (opts c.series).labels) × Has (opts c.series).sort c.op

-- No text of a list stands in it twice.
abbrev pub are_different : List Text → Bool
are_different [] = true
are_different (x ∷ xs) = not (any (λ y. text_eq x y) xs) && are_different xs
