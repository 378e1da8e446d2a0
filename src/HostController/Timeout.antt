-- ===== src/HostController/Timeout.antt =====
-- Bounds and exact values of the cleanup timeout.
use cluster_api_provider_bri.Prelude.{
  ℕ, ◌+◌, ◌*◌, ◌-◌, ◌≤◌, ◌<◌, ◌≡◌, refl, ◌∙◌, ℤ, pos, ◌≤ℤ◌, int64-pos, +ℤ-pos, -ℤ-pos, *ℤ-pos, ap,
  Option, none, some, arith, true,
}
use cluster_api_provider_bri.Prelude.Dict.{Dict, lookup}
use cluster_api_provider_bri.Api.Meta.{second, minute}
use cluster_api_provider_bri.Api.Quantity.{Quantity, QuantityOps}
use cluster_api_provider_bri.Api.Host.{ByoHost}
use cluster_api_provider_bri.HostController.{
  default_host_cleanup_timeout, raw_timeout, add_memory, min_host_cleanup_timeout,
  max_host_cleanup_timeout, exceeds, add_cpu, clamp, capacity_timeout, get_cleanup_timeout,
}

module _ (q : QuantityOps) where
  clamp_bounds :
      (t : ℤ) → (min_host_cleanup_timeout ≤ℤ clamp q t) × (clamp q t ≤ℤ max_host_cleanup_timeout)
  unfolding clamp
  clamp_bounds t = ground arith

  capacity_timeout_bounds :
      (capacity : Dict Quantity)
      → (min_host_cleanup_timeout ≤ℤ capacity_timeout q capacity)
        × (capacity_timeout q capacity ≤ℤ max_host_cleanup_timeout)
  unfolding capacity_timeout
  capacity_timeout_bounds capacity = clamp_bounds (raw_timeout q capacity)

  -- Whatever the environment variable and the capacity say, and whether or not the `int64`
  -- arithmetic overflows, the timeout lies between 2 and 15 minutes.
  pub get_cleanup_timeout_bounds :
      (override : Option ℤ) (host : ByoHost)
      → (min_host_cleanup_timeout ≤ℤ get_cleanup_timeout q override host)
        × (get_cleanup_timeout q override host ≤ℤ max_host_cleanup_timeout)
  unfolding get_cleanup_timeout
  get_cleanup_timeout_bounds none host = capacity_timeout_bounds host.spec.capacity
  get_cleanup_timeout_bounds (some t) host =
      ground (arith, capacity_timeout_bounds host.spec.capacity)

  add_cpu-extra :
      (cpu : Quantity) (c t : ℕ)
      → exceeds q cpu "8" ≡ true
      → q.value cpu ≡ pos c
      → 8 < c
      → c ≤ 1000000
      → t ≤ 15 * minute
      → add_cpu q (some cpu) (pos t) ≡ pos (t + (c - 8) * 30 * second)
  unfolding add_cpu
  add_cpu-extra cpu c t big value low high short =
      rw
        (
          big,
          value,
          -ℤ-pos c 8 (omega arith),
          int64-pos (c - 8) (omega arith),
          *ℤ-pos,
          int64-pos ((c - 8) * 30) (omega arith),
          *ℤ-pos,
          int64-pos ((c - 8) * 30 * second) (omega arith),
          +ℤ-pos,
        )
        (int64-pos (t + (c - 8) * 30 * second) (omega arith))

  add_memory-none : (t : ℤ) → add_memory q none t ≡ t
  unfolding add_memory
  add_memory-none t = refl

  raw_timeout_lem :
      (capacity : Dict Quantity)
      → raw_timeout q capacity
        ≡ add_memory q
            (lookup "memory" capacity)
            (add_cpu q (lookup "cpu" capacity) default_host_cleanup_timeout)
  unfolding raw_timeout
  raw_timeout_lem capacity = refl

  raw_timeout-some :
      (capacity : Dict Quantity) (cpu : Quantity)
      → lookup "cpu" capacity ≡ some cpu
      → lookup "memory" capacity ≡ none
      → raw_timeout q capacity ≡ add_cpu q (some cpu) default_host_cleanup_timeout
  raw_timeout-some capacity cpu hc hm = raw_timeout_lem capacity ∙ rw (hc, hm) (add_memory-none _)

  raw_timeout-cpu :
      (host : ByoHost) (cpu : Quantity) (c : ℕ)
      → lookup "cpu" host.spec.capacity ≡ some cpu
      → lookup "memory" host.spec.capacity ≡ none
      → exceeds q cpu "8" ≡ true
      → q.value cpu ≡ pos c
      → 8 < c
      → c ≤ 1000000
      → raw_timeout q host.spec.capacity ≡ pos (5 * minute + (c - 8) * 30 * second)
  raw_timeout-cpu host cpu c hc hm big value low high =
      raw_timeout-some host.spec.capacity cpu hc hm
      ∙ add_cpu-extra cpu c (5 * minute) big value low high (omega arith)

  capacity_timeout_lem :
      (capacity : Dict Quantity) → capacity_timeout q capacity ≡ clamp q (raw_timeout q capacity)
  unfolding capacity_timeout
  capacity_timeout_lem capacity = refl

  -- A host of c CPUs, from 9 up to a million, and no stated memory waits 30 seconds for each CPU
  -- above 8 on top of 5 minutes, and 15 minutes at most.
  cpu_timeout :
      (host : ByoHost) (cpu : Quantity) (c : ℕ)
      → lookup "cpu" host.spec.capacity ≡ some cpu
      → lookup "memory" host.spec.capacity ≡ none
      → exceeds q cpu "8" ≡ true
      → q.value cpu ≡ pos c
      → 8 < c
      → c ≤ 1000000
      → get_cleanup_timeout q none host ≡ clamp q (pos (5 * minute + (c - 8) * 30 * second))
  unfolding get_cleanup_timeout
  cpu_timeout host cpu c hc hm big value low high =
      capacity_timeout_lem host.spec.capacity
      ∙ ap (clamp q) (raw_timeout-cpu host cpu c hc hm big value low high)
