-- ===== src/EventLoop.antt =====
-- The event loop that all platform watchers have: `watchLoop` of src/core/InotifyWatcher.cpp,
-- FanotifyWatcher.cpp, WindowsWatcher.cpp and MacOSWatcher.cpp. What a platform does in a round is the
-- interface `EventLoop`; what the loop works for, by its callback and the handler of the timers, is the
-- interface `Host`. OnInotify, OnFanotify, OnWindows and OnMac fill the first, Backend.Hosting the
-- second.
pub mod Stopping
pub mod Simulated
pub mod Kept
pub mod OnInotify
pub mod OnFanotify
pub mod OnWindows
pub mod OnMac
pub mod Drained
use libfilewatch.Base.{
  ℕ, zero, suc, ◌+◌, ◌≡◌, subst, Bool, true, false, List, [], ◌∷◌, if◌then◌else◌, Option, none,
  some,
}
use libfilewatch.Event.{FileEvent}

-- What a round comes to: the loop is left by a `break`, taken up again by a `continue`, or the
-- callback is called for the events and the timers are looked at.
pub data Handled (S : Type 0) : Type 0 where
  over : S → Handled S
  skipped : S → Handled S
  served : List FileEvent → S → Handled S

abbrev pub after : {S : Type 0} → Handled S → S
after (over s) = s
after (skipped s) = s
after (served es s) = s

pub some_after :
    {S : Type 0} (Q : S → Type 0) {h k : Handled S} → some h ≡ some k → Q (after h) → Q (after k)
some_after Q {h} {k} e q =
    subst (λ o. elim o as (λ _. Type 0) [ some x ↦ Q (after x) | none ↦ Unit {0} ]) e q

-- A platform watcher as its loop sees it. `continues` is the test at the head of the loop; `handle` is
-- a round with what the system answers to the wait, and has no result where the code has undefined
-- behaviour or does not come to an end; `drain` comes when the loop is over. The laws: `stop` ends the
-- loop, a round does not start it again, and `stop` wakes the system's wait up if it can.
pub record EventLoop (S : Type 0) : Type 1 where
  pub Answer : Type 0
  pub continues : S → Bool
  pub handle : Answer → S → Option (Handled S)
  pub drain : S → List FileEvent × S
  pub stop : S → S
  pub wakeups : S → ℕ
  pub can_wake : S → Bool
  pub continues-stop : (s : S) → continues (stop s) ≡ false
  pub continues-handle :
      (a : Answer) (s : S) (h : Handled S)
      → handle a s ≡ some h
      → continues s ≡ false
      → continues (after h) ≡ false
  pub wakeups-stop :
      (s : S) → continues s ≡ true → can_wake s ≡ true → wakeups (stop s) ≡ wakeups s + 1

-- Each round has a result, whatever the system answers.
abbrev pub IsTotal : {S : Type 0} → EventLoop S → Type 0
IsTotal {S} L = (a : L.Answer) (s : S) → (h : Handled S) × (L.handle a s ≡ some h)

-- What owns a platform watcher: `callback` is `m_callback`, with the clock's reading, and `on_timers`
-- is `m_timerExpiryHandler`. The laws: neither touches the platform watcher.
pub record Host (S : Type 0) : Type 1 where
  pub State : Type 0
  pub backend : State → S
  pub with_backend : S → State → State
  pub callback : ℕ → FileEvent → State → State
  pub on_timers : ℕ → State → State
  pub backend-with_backend : (s : S) (v : State) → backend (with_backend s v) ≡ s
  pub backend-callback :
      (now : ℕ) (ev : FileEvent) (v : State) → backend (callback now ev v) ≡ backend v
  pub backend-on_timers : (now : ℕ) (v : State) → backend (on_timers now v) ≡ backend v

-- What comes while the loop waits: the other threads act on the state, the system answers, `clock n`
-- is the clock's reading for the n-th event of the round, and `now` is that for the timers.
pub record Round (A V : Type 0) : Type 0 where
  pub others : V → V
  pub answer : A
  pub clock : ℕ → ℕ
  pub now : ℕ

-- The readings of the clock when the loop is over.
pub record Last : Type 0 where
  pub clock : ℕ → ℕ
  pub now : ℕ

-- The events of a step with the clock's readings: `clock n` is the reading for the n-th of them.
abbrev pub stamped : (ℕ → ℕ) → List FileEvent → List (ℕ × FileEvent)
stamped clock [] = []
stamped clock (ev ∷ es) = (clock 0, ev) ∷ stamped (λ n. clock (suc n)) es

module _ {S : Type 0} (H : Host S) where
  unfoldable pub deliver : (ℕ → ℕ) → List FileEvent → H.State → H.State
  deliver clock [] v = v
  deliver clock (ev ∷ es) v = deliver (λ n. clock (suc n)) es (H.callback (clock 0) ev v)

module _ {S : Type 0} (L : EventLoop S) (H : Host S) where
  -- What follows the loop.
  unfoldable pub finish : Last → H.State → H.State
  unfolding deliver
  finish last v =
      let r = L.drain (H.backend v) in
      H.on_timers last.now (deliver H last.clock r.0 (H.with_backend r.1 v))

  -- The calls that a round makes, and the state.
  unfoldable pub notify : (ℕ → ℕ) → ℕ → List FileEvent → S → H.State → H.State
  unfolding deliver
  notify clock now es s v = H.on_timers now (deliver H clock es (H.with_backend s v))

  -- `watchLoop`. The flag says whether it is over, or waits for a further answer of the system. The
  -- callback does not touch the platform watcher, so its calls follow the round.
  unfoldable pub watch_loop :
      List (Round L.Answer H.State) → Last → H.State → Option (Bool × H.State)
  unfolding finish notify
  watch_loop [] last v =
      if L.continues (H.backend v) then some (false, v) else some (true, finish last v)
  watch_loop (r ∷ rs) last v =
      let t = r.others v in
      let further : Option (Bool × H.State) = elim (L.handle r.answer (H.backend t)) [
        | none ↦ none
        | some (over s) ↦ some (true, finish last (H.with_backend s t))
        | some (skipped s) ↦ watch_loop rs last (H.with_backend s t)
        | some (served es s) ↦ watch_loop rs last (notify r.clock r.now es s t)
      ] in
      if L.continues (H.backend v) then further else some (true, finish last v)
