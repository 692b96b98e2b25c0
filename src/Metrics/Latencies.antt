-- ===== src/Metrics/Latencies.antt =====
-- What the histogram says of the latencies that it has recorded.
use bacnet_go.Base.{ℕ, ◌/◌, ◌^◌, ◌<◌, ◌≡◌, refl, List, [], ◌∷◌, length, ltb, if◌then◌else◌, arith}
use bacnet_go.Base.Int.{pos}
use bacnet_go.Metrics.{LatencyHistogram, new_latency_histogram, record_latency, stats}
use bacnet_go.Metrics.Histogram.{total}

-- `Record` at each latency, the head of the list last.
unfoldable pub record_all : List ℕ → LatencyHistogram
record_all [] = new_latency_histogram
record_all (ns ∷ earlier) = record_latency ns (record_all earlier)

pub shortest : ℕ → List ℕ → ℕ
shortest ns [] = ns
shortest ns (m ∷ ms) = let rest = shortest m ms in if ltb ns rest then ns else rest

pub longest : List ℕ → ℕ
longest [] = 0
longest (ns ∷ ms) = let rest = longest ms in if ltb rest ns then ns else rest

record_all-sum :
    (xs : List ℕ)
    → total xs < 2 ^ 63
    → length xs < 2 ^ 63
    → ((record_all xs).count ≡ length xs)
      × ((record_all xs).sum ≡ total xs)
      × ((record_all xs).max ≡ longest xs)
unfolding record_all record_latency longest
record_all-sum [] h k = ground arith
record_all-sum (ns ∷ xs) h k = ground (arith, record_all-sum xs)

record_all-min : (ns : ℕ) (xs : List ℕ) → (record_all (ns ∷ xs)).min ≡ pos (shortest ns xs)
unfolding record_all record_latency shortest
record_all-min ns [] = refl
record_all-min ns (m ∷ ms) = rw (record_all-min m ms) (ground arith)

-- Once latencies have been recorded, fewer than 2 ^ 63 of them and less than 2 ^ 63 nanoseconds in
-- all, `Stats` gives their number, the shortest, the longest and the average of them.
pub stats-record_all :
    (ns : ℕ) (xs : List ℕ)
    → total (ns ∷ xs) < 2 ^ 63
    → length (ns ∷ xs) < 2 ^ 63
    → stats (record_all (ns ∷ xs)) ≡ record {
      count = length (ns ∷ xs);
      min = pos (shortest ns xs);
      max = pos (longest (ns ∷ xs));
      avg = pos (total (ns ∷ xs) / length (ns ∷ xs));
      buckets = (record_all (ns ∷ xs)).buckets;
    }
unfolding stats
stats-record_all ns xs h k =
    let (count, sum, max) = record_all-sum (ns ∷ xs) h k in
    rw (count, sum, max, record_all-min ns xs) (ground arith)
