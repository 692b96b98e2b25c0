-- ===== src/Metrics/Histogram.antt =====
-- The buckets of the latency histogram.
use bacnet_go.Base.{
  ℕ, zero, suc, ◌+◌, ◌/◌, ◌%◌, ◌^◌, ◌≤◌, ◌<◌, ◌≡◌, ◌∙◌, List, [], ◌∷◌, length, arith,
}
use bacnet_go.Base.Int.{ℤ, pos, negsuc}
use bacnet_go.Metrics.{LatencyHistogram, bucket_of, bump, record_latency}

abbrev pub total : List ℕ → ℕ
total [] = 0
total (n ∷ ns) = n + total ns

bump_lem :
    (i : ℕ) (ns : List ℕ)
    → i < length ns
    → (length (bump i ns) ≡ length ns) × (total (bump i ns) % 2 ^ 64 ≡ (total ns + 1) % 2 ^ 64)
unfolding bump
bump_lem i [] h = absurd (omega arith)
bump_lem zero (n ∷ ns) h = ground arith
bump_lem (suc i) (n ∷ ns) h = ground (arith, bump_lem i ns)

bucket_of-lt : (ms : ℕ) → bucket_of ms < 10
unfolding bucket_of
bucket_of-lt ms = ground arith

-- The latency lies between the extremes.
abbrev AtMost : ℤ → ℕ → Type 0
AtMost (pos m) ns = m ≤ ns
AtMost (negsuc m) ns = ⊥

abbrev Covers : LatencyHistogram → ℕ → Type 0
Covers h ns = (ns ≤ h.max) × AtMost h.min ns

-- There are ten buckets, and they add up to the count, both modulo 2 ^ 64.
pub record IsConsistent (h : LatencyHistogram) : Type 0 where
  pub ten : length h.buckets ≡ 10
  pub adds_up : total h.buckets % 2 ^ 64 ≡ h.count % 2 ^ 64

-- `Record` keeps the buckets in step with the count, and the latency lies between the minimum and the
-- maximum that it leaves.
record_latency-IsConsistent :
    (ns : ℕ) (h : LatencyHistogram)
    → IsConsistent h
    → IsConsistent (record_latency ns h) × Covers (record_latency ns h) ns
unfolding record_latency
record_latency-IsConsistent ns h k =
    let at = bucket_of (ns / 1000000) in
    let (size, sum) = bump_lem at h.buckets (omega (arith, bucket_of-lt (ns / 1000000), k.ten)) in
    (record { ten = size ∙ k.ten; adds_up = omega (arith, sum, k.adds_up) }, ground arith)
