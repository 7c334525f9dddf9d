-- ===== src/EventLoop/OnMac.antt =====
-- The loop of `MacOSWatcher` (src/core/MacOSWatcher.cpp).
use libfilewatch.Base.{
  ◌+◌, ◌≡◌, refl, Bool, true, false, ◌&&◌, List, nat_eq, text_eq, Option, some, arith,
}
use libfilewatch.Event.{FileEvent}
use libfilewatch.Kqueue.{is_open}
use libfilewatch.Kqueue.Handle.{Kevent, dispatch_pending_events, wakeup}
use libfilewatch.Mac.{MacOs, Mac, serve, stop, stop_fs_events}
use libfilewatch.Mac.Open.{handle_all-kq_fd}
use libfilewatch.EventLoop.{Handled, over, skipped, served, after, some_after, EventLoop, IsTotal}

-- What `kevent` answers: the events for files and directories, an interruption, or another failure.
pub data Answer : Type 0 where
  kevents : List Kevent → Answer
  interrupted : Answer
  failed : Answer

module _ {M : MacOs} where
  -- The test of the flag and the one of the queue at the head of the loop.
  abbrev pub continues : Mac M → Bool
  continues s = s.running && is_open s.kqueue.kq_fd

  -- A round of the loop.
  unfoldable pub handle : Answer → Mac M → Option (Handled (Mac M))
  unfolding serve
  handle (kevents evs) s = let r = serve evs s in some (served r.0 r.1)
  handle interrupted s = some (skipped s)
  handle failed s = some (over s)

  -- The events that are left when the loop is over.
  unfoldable pub drain : Mac M → List FileEvent × Mac M
  unfolding dispatch_pending_events
  drain s = let r = dispatch_pending_events s.kqueue in (r.0, record s { kqueue = r.1 })

  pub handle-continues :
      (a : Answer) (s : Mac M) (h : Handled (Mac M))
      → handle a s ≡ some h
      → continues s ≡ false
      → continues (after h) ≡ false
  unfolding handle serve
  handle-continues (kevents evs) s h e r =
      some_after (λ t. continues t ≡ false) e (ground (arith, handle_all-kq_fd evs s.kqueue))
  handle-continues interrupted s h e r = some_after (λ t. continues t ≡ false) e r
  handle-continues failed s h e r = some_after (λ t. continues t ≡ false) e r

  pub stop-continues : (s : Mac M) → continues (stop s) ≡ false
  unfolding stop wakeup stop_fs_events
  stop-continues s = ground arith

  pub stop-wakeups :
      (s : Mac M)
      → continues s ≡ true
      → is_open s.kqueue.kq_fd ≡ true
      → (stop s).kqueue.wakeups ≡ s.kqueue.wakeups + 1
  unfolding stop wakeup stop_fs_events
  stop-wakeups s r w = ground arith

  -- `watchLoop` of the macOS watcher.
  abbrev pub mac_loop : EventLoop (Mac M)
  mac_loop = record {
    Answer = Answer;
    continues = continues;
    handle = handle;
    drain = drain;
    stop = stop;
    wakeups = λ s. s.kqueue.wakeups;
    can_wake = λ s. is_open s.kqueue.kq_fd;
    continues-stop = stop-continues;
    continues-handle = handle-continues;
    wakeups-stop = stop-wakeups;
  }

  -- Each round of the macOS watcher has a result.
  mac_loop-IsTotal : IsTotal mac_loop
  unfolding handle
  mac_loop-IsTotal (kevents evs) s = let r = serve evs s in (served r.0 r.1, refl)
  mac_loop-IsTotal interrupted s = (skipped s, refl)
  mac_loop-IsTotal failed s = (over s, refl)
