-- ===== src/Commons/ThreadPoolManager.antt =====
-- commons/ThreadPoolManager.hpp, ThreadPoolManager.cpp and Configs.h: two static pools of threads.
use kiteq_client_cpp.Base.{ℕ}

-- `boost::threadpool::pool`: one with a number of threads, and without the tasks that wait in it.
pub record Pools (P : Type 0) : Type 0 where
  pub pool : ℕ → P
  pub clear : P → P

-- `Configs`.
abbrev pub thread_core_pool_size : ℕ
thread_core_pool_size = 5

abbrev pub thread_max_pool_size : ℕ
thread_max_pool_size = 100

abbrev pub thread_keepalive_time : ℕ
thread_keepalive_time = 300

pub record ThreadPoolManager (P : Type 0) : Type 0 where
  pub dispatcher_executor : P
  pub worker_executor : P

module _ {P : Type 0} (pools : Pools P) where
  -- The static executors at first.
  unfoldable pub new_manager : ThreadPoolManager P
  new_manager = record {
    dispatcher_executor = pools.pool thread_core_pool_size;
    worker_executor = pools.pool thread_core_pool_size;
  }

  unfoldable pub shutdown_executor : P → P
  shutdown_executor executor = pools.clear executor

  unfoldable pub shutdown : ThreadPoolManager P → ThreadPoolManager P
  shutdown m = record m {
    worker_executor = pools.clear m.worker_executor;
    dispatcher_executor = pools.clear m.dispatcher_executor;
  }

unfoldable pub get_dispatcher_executor : {P : Type 0} → ThreadPoolManager P → P
get_dispatcher_executor m = m.dispatcher_executor

unfoldable pub get_worker_executor : {P : Type 0} → ThreadPoolManager P → P
get_worker_executor m = m.worker_executor
