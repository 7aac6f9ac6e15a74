-- ===== src/Citadel/Host/Examples.antt =====
-- A client on the driver, on a system for tests whose clock cannot be read.
use platform_external_nos_ho.Base.{◌≡◌, refl, arith, [], ℤ, pos, none, some, true}
use mathlib.Core.Option
use platform_external_nos_ho.Application.AppStatus.{app_error_io}
use platform_external_nos_ho.Citadel.Control.{nos_device_open}
use platform_external_nos_ho.Device.{Platform}
use platform_external_nos_ho.Citadel.System.{Driver, Mutex, in_buf_mutex, out_buf_mutex}
use platform_external_nos_ho.Citadel.Examples.{Linux, linux, driver, three, linux_files}
use platform_external_nos_ho.Citadel.Host.{citadel_host, HasCalls, citadel_host-IsHost}
use platform_external_nos_ho.Client.Host.{Host, IsHost}
use platform_external_nos_ho.Client.Nugget.{
  NuggetClient, nugget_client, open_client, close_client, call_app, reset_client,
}
use platform_external_nos_ho.Client.Nugget.Lifetime.{
  here, next, opening, calling, resetting, no_descriptor_lost,
}

clockless : Platform Linux
clockless = record {
  eagain = 11;
  etimedout = 110;
  usleep = λ us w. w;
  clock_gettime = λ w. (none, w);
  uninitialised = λ n. [];
}

lock_leaves : (m : Mutex) (w : Linux) (x : ℤ) → three (linux.mutex_lock m w).1 x ≡ three w x
unfolding linux
lock_leaves in_buf_mutex w x = ground arith
lock_leaves out_buf_mutex w x = ground arith

unlock_leaves : (m : Mutex) (w : Linux) (x : ℤ) → three (linux.mutex_unlock m w).1 x ≡ three w x
unfolding linux
unlock_leaves in_buf_mutex w x = refl
unlock_leaves out_buf_mutex w x = refl

linux_calls : HasCalls linux clockless linux_files
unfolding linux linux_files clockless
linux_calls = record {
  lock_keeps = lock_leaves;
  unlock_keeps = unlock_leaves;
  datagram_keeps = λ fd command len b w x. refl;
  ioctl_reset_keeps = λ fd w x. refl;
  poll_keeps = λ fd msecs w x. refl;
  usleep_keeps = λ us w x. refl;
  clock_keeps = λ w x. refl;
}

abbrev host : Host (Driver Linux)
host = citadel_host linux clockless

abbrev fresh : NuggetClient (Driver Linux)
fresh = nugget_client none 0

abbrev after_open : NuggetClient (Driver Linux) × Driver Linux
after_open = open_client host fresh (driver true)

-- What a call leaves of the driver; the chip's answers are no status message, so it fails.
abbrev after_call : Driver Linux
after_call =
    Option.get_or (Option.map (λ r. r.1) (call_app host 1 after_open.0 0x12 8 [] none after_open.1))
      after_open.1

called :
    call_app host 1 after_open.0 0x12 8 [] none after_open.1
    ≡ some ((app_error_io, none), after_call)
unfolding call_app nugget_client open_client citadel_host linux clockless nos_device_open
called = refl

abbrev laws : IsHost host
laws = citadel_host-IsHost linux clockless linux_files linux_calls

no_descriptor_lost_example :
    laws.is_open
      (close_client host after_open.0 (reset_client host after_open.0 after_call).1).1
      (pos 3)
    ≡ laws.is_open (driver true) (pos 3)
no_descriptor_lost_example =
    no_descriptor_lost host laws none 0 (driver true) (reset_client host after_open.0 after_call).1
      after_open.0 (pos 3)
      (next
        (next (next here (opening fresh (driver true))) (
          calling after_open.0 after_open.1 after_call 1 0x12 8 [] none (app_error_io, none)
            called))
        (resetting after_open.0 after_call))
