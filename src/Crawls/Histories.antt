-- ===== src/Crawls/Histories.antt =====
-- The two histories of `get_crawl` against the times that they are made from.
use onecrawler_backend.Prelude.{
  ℕ, suc, ◌+◌, ◌*◌, ◌/◌, ◌≡◌, ◌∙◌, refl, List, [], ◌∷◌, map, length, arith, leb, ◌==◌,
  if◌then◌else◌, Bool-cases, inl, inr,
}
use onecrawler_backend.Tables.{count}
use onecrawler_backend.Crawls.Detail.{
  Buckets, Point, bump, bucket_from, insert_bucket, sorted_buckets, throughput_history,
  discovery_history, running_totals,
}

-- What the buckets of one second hold.
abbrev held : ℕ → Buckets → ℕ
held k [] = 0
held k ((second, n) ∷ b) = (if second == k then n else 0) + held k b

held-bump :
    (k second : ℕ) (b : Buckets)
    → held k (bump second b) ≡ (if second == k then 1 else 0) + held k b
held-bump k second [] = ground arith
held-bump k second ((j, n) ∷ b) = elim (Bool-cases (j == second)) [
  | inl e ↦ rw e (ground (arith, e))
  | inr e ↦ rw e (ground (arith, e, held-bump k second b))
]

held-bucket_from :
    (k : ℕ) (b : Buckets) (times : List ℕ)
    → held k (bucket_from b times) ≡ held k b + count (λ t. t / 1000 == k) times
unfolding bucket_from
held-bucket_from k b [] = omega arith
held-bucket_from k b (t ∷ ts) =
    ground (arith, held-bump k (t / 1000) b, held-bucket_from k (bump (t / 1000) b) ts)

held-insert_bucket : (k : ℕ) (x : ℕ × ℕ) (b : Buckets) → held k (insert_bucket x b) ≡ held k (x ∷ b)
held-insert_bucket k x [] = refl
held-insert_bucket k x (y ∷ b) = elim (Bool-cases (leb x.0 y.0)) [
  | inl e ↦ rw e
  | inr e ↦ rw e (omega (arith, held-insert_bucket k x b))
]

held-sorted_buckets : (k : ℕ) (b : Buckets) → held k (sorted_buckets b) ≡ held k b
unfolding sorted_buckets
held-sorted_buckets k [] = refl
held-sorted_buckets k (x ∷ b) =
    held-insert_bucket k x (sorted_buckets b) ∙ omega (arith, held-sorted_buckets k b)

-- What a history says of one second.
abbrev pub at_second : ℕ → List Point → ℕ
at_second k [] = 0
at_second k (p ∷ ps) = (if p.t == k * 1000 then p.count else 0) + at_second k ps

at_second-points :
    (k : ℕ) (b : Buckets)
    → at_second k (map (λ (b : ℕ × ℕ). record { t = b.0 * 1000; count = b.1 }) b) ≡ held k b
at_second-points k [] = refl
at_second-points k ((j, n) ∷ b) = ground (arith, at_second-points k b)

-- For every second, the throughput history shows how many of the times lie in that second.
throughput_history-count :
    (times : List ℕ) (k : ℕ)
    → at_second k (throughput_history times) ≡ count (λ t. t / 1000 == k) times
unfolding throughput_history
throughput_history-count times k =
    at_second-points k (sorted_buckets (bucket_from [] times))
    ∙ held-sorted_buckets k (bucket_from [] times)
    ∙ omega (arith, held-bucket_from k [] times)

-- the sum of the buckets
abbrev total : Buckets → ℕ
total [] = 0
total ((second, n) ∷ b) = n + total b

total-bump : (second : ℕ) (b : Buckets) → total (bump second b) ≡ suc (total b)
total-bump second [] = refl
total-bump second ((j, n) ∷ b) = ground (arith, total-bump second b)

total-bucket_from :
    (b : Buckets) (times : List ℕ) → total (bucket_from b times) ≡ total b + length times
unfolding bucket_from
total-bucket_from b [] = omega arith
total-bucket_from b (t ∷ ts) =
    omega (arith, total-bump (t / 1000) b, total-bucket_from (bump (t / 1000) b) ts)

total-insert_bucket : (x : ℕ × ℕ) (b : Buckets) → total (insert_bucket x b) ≡ x.1 + total b
total-insert_bucket x [] = refl
total-insert_bucket x (y ∷ b) = elim (Bool-cases (leb x.0 y.0)) [
  | inl e ↦ rw e
  | inr e ↦ rw e (omega (arith, total-insert_bucket x b))
]

total-sorted_buckets : (b : Buckets) → total (sorted_buckets b) ≡ total b
unfolding sorted_buckets
total-sorted_buckets [] = refl
total-sorted_buckets (x ∷ b) =
    total-insert_bucket x (sorted_buckets b) ∙ omega (arith, total-sorted_buckets b)

-- the count of the last point, or what it was before the first
abbrev pub last_count : ℕ → List Point → ℕ
last_count before [] = before
last_count before (p ∷ ps) = last_count p.count ps

last_count-running_totals :
    (before : ℕ) (b : Buckets) → last_count before (running_totals before b) ≡ before + total b
unfolding running_totals
last_count-running_totals before [] = omega arith
last_count-running_totals before ((second, n) ∷ b) =
    omega (arith, last_count-running_totals (before + n) b)

-- The discovery history ends at the number of all the times.
discovery_history-total : (times : List ℕ) → last_count 0 (discovery_history times) ≡ length times
unfolding discovery_history
discovery_history-total times =
    last_count-running_totals 0 (sorted_buckets (bucket_from [] times))
    ∙ omega (arith, total-sorted_buckets (bucket_from [] times), total-bucket_from [] times)
