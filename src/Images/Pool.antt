-- ===== src/Images/Pool.antt =====
-- src/worker-pool/piscina-pool.service.ts: the pool of workers. What Piscina makes of a task that it is
-- given is a parameter: the worker's answer, a failure, or an abort after the time that a task has.
use realworld_tutorial.Base.{
  ℕ, ◌-◌, ◌*◌, min, max, String, Bool, true, false, not, List, [], ◌∷◌, leb, str_eq, some_is,
  if◌then◌else◌, Exception, error, ok, err, M, pure, throw, ◌>>◌,
}

abbrev pub min_threads : ℕ
min_threads = 1

abbrev pub max_threads_cap : ℕ
max_threads_cap = 2

abbrev pub queue_multiplier : ℕ
queue_multiplier = 2

-- `availableParallelism() - 1` is not negative, as there is one processor at least.
abbrev pub max_threads : ℕ → ℕ
max_threads parallelism = max min_threads (min max_threads_cap (parallelism - 1))

pub record Pool : Type 0 where
  pub max_queue : ℕ
  pub validated_worker_paths : List String
  pub closing : Bool

abbrev pub new_pool : ℕ → Pool
new_pool parallelism = record {
  max_queue = max_threads parallelism * queue_multiplier;
  validated_worker_paths = [];
  closing = false;
}

-- What Piscina makes of a task.
pub data Delivery : Type 0 where
  answered failed timed_out : Delivery

abbrev pub shutting_down : Exception
shutting_down = error "Piscina pool is shutting down"

abbrev pub at_capacity : Exception
at_capacity = error "Piscina task queue is at capacity"

abbrev pub worker_not_found : Exception
worker_not_found = error "Piscina worker not found"

abbrev pub task_timed_out : Exception
task_timed_out = error "Piscina task timed out"

abbrev pub pool_unavailable : Exception
pool_unavailable = error "Piscina pool is unavailable"

-- `queue_size` is the length of Piscina's queue at the call.
abbrev pub assert_accepting : ℕ → M Pool (Unit {0})
assert_accepting queue_size pool =
    if pool.closing
    then (err shutting_down, pool)
    else if leb pool.max_queue queue_size
    then (err at_capacity, pool)
    else (ok tt, pool)

-- `exists` says of a path that it is absolute and that there is a file.
abbrev pub assert_worker_path : (String → Bool) → String → M Pool (Unit {0})
assert_worker_path exists path pool =
    if some_is (λ q. str_eq q path) pool.validated_worker_paths
    then (ok tt, pool)
    else if not (exists path)
    then (err worker_not_found, pool)
    else (ok tt, record pool { validated_worker_paths = path ∷ pool.validated_worker_paths })

abbrev pub deliver {ℓ} : {A : Type ℓ} → Delivery → A → M Pool A
deliver answered a = pure a
deliver failed a = throw pool_unavailable
deliver timed_out a = throw task_timed_out

-- `result` is what the worker at the path answers.
unfoldable pub run_task : ℕ → (String → Bool) → String → Delivery → {A : Type 0} → A → M Pool A
run_task queue_size exists path delivery result = do
  assert_accepting queue_size
  assert_worker_path exists path
  deliver delivery result

abbrev pub on_application_shutdown : Pool → Pool
on_application_shutdown pool = record pool { closing = true }
