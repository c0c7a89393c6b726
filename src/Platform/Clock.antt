-- ===== src/Platform/Clock.antt =====
-- platforms/linux/src/platform.c: the clocks, the random source, and the list of timers that are
-- deleted at the exit. What the system calls answer is an argument.
pub mod Laws
mod Tests
use schc_work.Common.{
  ℕ, zero, suc, ◌+◌, ◌-◌, ◌*◌, ◌/◌, ◌%◌, ◌^◌, Bool, true, false, not, List, [], ◌∷◌, ◌++◌, Bytes,
  length, u32, leb, ◌==◌, if◌then◌else◌, take,
}
use schc_work.Common.Int.{ℤ, pos, negsuc}

-- `struct timeval`, from `gettimeofday`.
pub record Timeval : Type 0 where
  pub tv_sec : ℕ
  pub tv_usec : ℕ

-- `TimerTime_t` is a `time_t`.
pub timer_get_current_time : Timeval → ℕ
timer_get_current_time t = t.tv_sec * 1000 + t.tv_usec / 1000

pub platform_get_current_time : Timeval → ℕ
unfolding timer_get_current_time
platform_get_current_time t = u32 (timer_get_current_time t)

-- `past` is a `uint32_t`.
pub platform_get_elpased_time : Timeval → ℕ → ℕ
unfolding platform_get_current_time
platform_get_elpased_time t past = u32 (platform_get_current_time t + 2 ^ 32 - past)

-- `struct timespec`, from `clock_gettime`.
pub record Timespec : Type 0 where
  pub tv_sec : ℕ
  pub tv_nsec : ℕ

pub platform_get_clock_ms : Timespec → ℕ
platform_get_clock_ms spec = u32 (spec.tv_sec * 1000 + spec.tv_nsec / 1000000)

abbrev pub err_entropy_source_failed : ℤ
err_entropy_source_failed = negsuc 0x003B

-- What the file /dev/urandom gives: `fread` of so many bytes, `opened` tells whether `fopen`
-- succeeds. The result has the status, `*olen` and the bytes that are written to `output`.
pub platform_entropy_hardware_poll : Bool → (ℕ → Bytes) → ℕ → ℤ × ℕ × Bytes
platform_entropy_hardware_poll opened fread len =
    if not opened
    then (err_entropy_source_failed, 0, [])
    else let read = take len (fread len) in
      if not (length read == len) then (err_entropy_source_failed, 0, read) else (pos 0, len, read)

abbrev pub max_cleanable_timers : ℕ
max_cleanable_timers = 32

-- `_timers` up to `_nb_timers`, and how often `atexit(&_timer_cleaner)` was called.
pub record Cleaner (T : Type 0) : Type 0 where
  pub timers : List T
  pub registrations : ℕ

abbrev pub no_timers : {T : Type 0} → Cleaner T
no_timers = record { timers = []; registrations = 0 }

module _ {T : Type 0} where
  append_timer : T → Cleaner T → Cleaner T
  append_timer t c = record c { timers = c.timers ++ t ∷ [] }

  pub timer_cleaner_register : T → Cleaner T → Cleaner T
  unfolding append_timer
  timer_cleaner_register t c =
      if length c.timers == 0
      then append_timer t (record c { registrations = suc c.registrations })
      else if leb max_cleanable_timers (length c.timers)
      then c
      else append_timer t c

  -- The timers that `_timer_cleaner` deletes when the program exits, once for each registration.
  pub timer_cleaner : ℕ → Cleaner T → List T
  timer_cleaner zero c = []
  timer_cleaner (suc n) c = c.timers ++ timer_cleaner n c

  pub register_all : List T → Cleaner T → Cleaner T
  register_all [] c = c
  register_all (t ∷ ts) c = register_all ts (timer_cleaner_register t c)
