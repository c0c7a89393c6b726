-- ===== src/Platform/Clock/Tests.antt =====
-- A clock that comes back to 0, and a random source that fails.
use schc_work.Common.{◌≡◌, refl, ◌+◌, ◌*◌, ◌<◌, true, [], ◌∷◌, arith}
use schc_work.Platform.Clock.{
  Timeval, platform_get_current_time, platform_get_elpased_time, platform_entropy_hardware_poll,
  err_entropy_source_failed,
}
use schc_work.Platform.Clock.Laws.{micros, platform_get_elpased_time_lem}

-- 2 ^ 32 ms are 4294967 s and 296 ms.
abbrev before : Timeval
before = record { tv_sec = 4294967; tv_usec = 200999 }

abbrev after : Timeval
after = record { tv_sec = 4294969; tv_usec = 100 }

wrapped : platform_get_current_time after ≡ 1704
unfolding platform_get_current_time
wrapped = refl

too_little :
    platform_entropy_hardware_poll true (λ n. 7 ∷ []) 2 ≡ (err_entropy_source_failed, 0, 7 ∷ [])
unfolding platform_entropy_hardware_poll
too_little = refl

platform_get_elpased_time_lem_example :
    (micros after
      < micros before
        + platform_get_elpased_time after (platform_get_current_time before) * 1000
        + 1000)
    × (micros before + platform_get_elpased_time after (platform_get_current_time before) * 1000
        < micros after + 1000)
platform_get_elpased_time_lem_example =
    platform_get_elpased_time_lem before after (omega arith) (omega arith) (omega arith)
      (omega arith)
